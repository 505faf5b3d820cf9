-- ===== src/Dout/Balance.antt =====
-- off_count and continued_stack against a plain stack of Booleans: for each `continued_cf` that has
-- no `dc::finish` yet, innermost first, whether its channel was on.
use libcwd.Base.{
  ℕ, suc, ◌≡◌, refl, Bool, true, false, Option, none, some, List, [], ◌∷◌, length, ◌==◌, ap, arith,
  if◌then◌else◌, Bool-cases, inl, inr,
}
use libcwd.Base.Int.{ℤ, pos, ◌+ℤ◌}
use libcwd.DebugStack
use libcwd.DebugStack.{max_size}
use libcwd.Dout.{Tsd}
use libcwd.Dout.Scope.{open_continued, continued_is_on, close_continued}

-- How many of the innermost blocks are off.
abbrev pub innermost_off : List Bool → ℕ
innermost_off [] = 0
innermost_off (true ∷ bs) = 0
innermost_off (false ∷ bs) = suc (innermost_off bs)

-- What each block that is on has saved.
abbrev pub saved : List Bool → List ℤ
saved [] = []
saved (true ∷ bs) = pos (innermost_off bs) ∷ saved bs
saved (false ∷ bs) = saved bs

abbrev pub Represents : Tsd → List Bool → Type 0
Represents tsd bs = (tsd.off_count ≡ pos (innermost_off bs)) × (tsd.continued_stack ≡ saved bs)

pub data Op : Type 0 where
  opens : Bool → Op
  continues finishes : Op

-- The calls in turn; an answer for each dc::continued and dc::finish, whether it is on.
pub run : List Op → Tsd → Option (Tsd × List Bool)
run [] tsd = some (tsd, [])
run (opens b ∷ ops) tsd = elim (open_continued b tsd) [ none ↦ none | some tsd' ↦ run ops tsd' ]
run (continues ∷ ops) tsd = elim (run ops tsd) [
  | none ↦ none
  | some (tsd', answers) ↦ some (tsd', continued_is_on tsd ∷ answers)
]
run (finishes ∷ ops) tsd = elim (close_continued tsd) [
  | none ↦ none
  | some closed ↦ elim (run ops closed) [
    | none ↦ none
    | some (tsd', answers) ↦ some (tsd', continued_is_on tsd ∷ answers)
  ]
]

-- Outside every block a dc::continued is on (and `start` then dies).
abbrev pub innermost : List Bool → Bool
innermost [] = true
innermost (b ∷ bs) = b

abbrev pub count_on : List Bool → ℕ
count_on [] = 0
count_on (true ∷ bs) = suc (count_on bs)
count_on (false ∷ bs) = count_on bs

-- The same calls on the plain stack.
pub spec : List Op → List Bool → Option (List Bool × List Bool)
spec [] bs = some (bs, [])
spec (opens true ∷ ops) bs =
    let rest = spec ops (true ∷ bs) in if count_on bs == max_size then none else rest
spec (opens false ∷ ops) bs = spec ops (false ∷ bs)
spec (continues ∷ ops) bs = elim (spec ops bs) [
  | none ↦ none
  | some (bs', answers) ↦ some (bs', innermost bs ∷ answers)
]
spec (finishes ∷ ops) [] = none
spec (finishes ∷ ops) (b ∷ bs) = elim (spec ops bs) [
  | none ↦ none
  | some (bs', answers) ↦ some (bs', b ∷ answers)
]

length-saved : (bs : List Bool) → length (saved bs) ≡ count_on bs
length-saved [] = refl
length-saved (true ∷ bs) = omega (arith, length-saved bs)
length-saved (false ∷ bs) = length-saved bs

continued_is_on-innermost :
    (tsd : Tsd) (bs : List Bool) → Represents tsd bs → continued_is_on tsd ≡ innermost bs
unfolding continued_is_on
continued_is_on-innermost tsd [] r = ground arith
continued_is_on-innermost tsd (true ∷ bs) r = ground arith
continued_is_on-innermost tsd (false ∷ bs) r = ground arith

-- Both runs fail, or both give the same answers and end in states that correspond.
abbrev pub Agrees : Option (Tsd × List Bool) → Option (List Bool × List Bool) → Type 0
Agrees none none = Unit {0}
Agrees none (some y) = ⊥
Agrees (some x) none = ⊥
Agrees (some (tsd, answers)) (some (bs, answers')) = Represents tsd bs × (answers ≡ answers')

Agrees-answer :
    (b b' : Bool) (x : Option (Tsd × List Bool)) (y : Option (List Bool × List Bool))
    → b ≡ b'
    → Agrees x y
    → Agrees
        (elim x [ none ↦ none | some (tsd', answers) ↦ some (tsd', b ∷ answers) ])
        (elim y [ none ↦ none | some (bs', answers) ↦ some (bs', b' ∷ answers) ])
Agrees-answer b b' none none e a = tt
Agrees-answer b b' none (some y) e a = a
Agrees-answer b b' (some x) none e a = a
Agrees-answer b b' (some (tsd, answers)) (some (bs, answers')) e a = (a.0, cc (e, a.1))

open_true-full :
    (tsd : Tsd) (bs : List Bool)
    → Represents tsd bs
    → (count_on bs == max_size) ≡ true
    → open_continued true tsd ≡ none
unfolding open_continued DebugStack.push
open_true-full tsd bs r e = ground (arith, length-saved bs, ap length r.1)

open_true :
    (tsd : Tsd) (bs : List Bool)
    → Represents tsd bs
    → (count_on bs == max_size) ≡ false
    → open_continued true tsd
      ≡ some
          (record tsd { off_count = pos 0; continued_stack = tsd.off_count ∷ tsd.continued_stack })
unfolding open_continued DebugStack.push
open_true tsd bs r e = ground (arith, length-saved bs, ap length r.1)

open_false :
    (tsd : Tsd) (bs : List Bool)
    → Represents tsd bs
    → (tsd' : Tsd) × (open_continued false tsd ≡ some tsd') × Represents tsd' (false ∷ bs)
unfolding open_continued ◌+ℤ◌
open_false tsd bs r = (record tsd { off_count = tsd.off_count +ℤ pos 1 }, refl, ground arith)

close_none : (tsd : Tsd) → Represents tsd [] → close_continued tsd ≡ none
unfolding close_continued continued_is_on DebugStack.top
close_none tsd r = ground arith

close_some :
    (tsd : Tsd) (b : Bool) (bs : List Bool)
    → Represents tsd (b ∷ bs)
    → (tsd' : Tsd) × (close_continued tsd ≡ some tsd') × Represents tsd' bs
unfolding close_continued continued_is_on DebugStack.top DebugStack.pop ◌+ℤ◌
close_some tsd true bs r = (
  record tsd { off_count = pos (innermost_off bs); continued_stack = saved bs },
  ground arith,
  (refl, refl),
)
close_some tsd false bs r = (
  record tsd { off_count = pos (innermost_off bs); continued_stack = saved bs },
  ground arith,
  (refl, refl),
)

-- From corresponding states the calls give the same answers as on the plain stack, and end in
-- corresponding states: dc::continued and dc::finish are on exactly if the channel of the innermost
-- open continued_cf was on. A call dies exactly if a channel that is on opens while 64 such are
-- open, or dc::finish has no continued_cf.
pub run-Agrees :
    (ops : List Op) (tsd : Tsd) (bs : List Bool)
    → Represents tsd bs
    → Agrees (run ops tsd) (spec ops bs)
unfolding run spec
run-Agrees [] tsd bs r = (r, refl)
run-Agrees (opens true ∷ ops) tsd bs r = elim (Bool-cases (count_on bs == max_size)) [
  | inl e ↦ rw (e, open_true-full tsd bs r e, Agrees, run) tt
  | inr e ↦
      rw (e, open_true tsd bs r e, Agrees, run) (run-Agrees ops _ (true ∷ bs) (refl, cc (r.0, r.1)))
]
run-Agrees (opens false ∷ ops) tsd bs r =
    let (tsd', e, r') = open_false tsd bs r in
    rw (e, Agrees, run) (run-Agrees ops tsd' (false ∷ bs) r')
run-Agrees (continues ∷ ops) tsd bs r =
    Agrees-answer (continued_is_on tsd) (innermost bs) (run ops tsd) (spec ops bs)
      (continued_is_on-innermost tsd bs r) (run-Agrees ops tsd bs r)
run-Agrees (finishes ∷ ops) tsd [] r = rw (close_none tsd r, Agrees, run) tt
run-Agrees (finishes ∷ ops) tsd (b ∷ bs) r =
    let (closed, e, r') = close_some tsd b bs r in
    rw (e, Agrees, run)
      (Agrees-answer (continued_is_on tsd) b (run ops closed) (spec ops bs)
        (continued_is_on-innermost tsd (b ∷ bs) r) (run-Agrees ops closed bs r'))
