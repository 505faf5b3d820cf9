-- ===== src/Demangle/SeqId.antt =====
-- The number of a substitution, <seq-id> in include/cwd_demangle.h, as decode_substitution reads it.
use libcwd.Base.{
  ℕ, suc, zero, ◌+◌, ◌-◌, ◌*◌, ◌%◌, ◌<◌, ◌≤◌, ◌≡◌, refl, ◌∙◌, ap, arith, Bool, true, false, ◌||◌,
  Option, none, some, List, [], ◌∷◌, ◌++◌, All, ltb, leb, ◌==◌, length, if◌then◌else◌, get_elem?,
}
use mathlib.Core.Path.{subst}
use libcwd.Demangle.{Bytes, is_digit, is_upper, char_at}
use libcwd.Demangle.Machine.{
  Machine, ok, M, ◌>>=◌, return, branch, frame, fail, read_next, eat, skip, ◌is◌, Substitution,
}
use libcwd.Demangle.Grammar.Leaves.{seq_id_loop, base36_step, unsigned_limit, text_fuel}
use libcwd.Demangle.Grammar.{Decoders}
use libcwd.Demangle.Grammar.References.{decode_substitution, numbered, resolve}
use libcwd.Demangle.Steps.{bind-ok, next-IsAt, eat-IsAt, IsAt, moved}

-- The characters from `p` on.
abbrev pub Reads : Bytes → ℕ → ℕ → Bytes → Type 0
Reads str len p [] = Unit
Reads str len p (c ∷ cs) = IsAt str len p c × Reads str len (p + 1) cs

abbrev pub IsBase36 : ℕ → Type 0
IsBase36 c = (is_digit c || is_upper c) ≡ true

abbrev pub digit36 : ℕ → ℕ
digit36 c = if is_digit c then c - 48 else c - 65 + 10

-- The number that the digits make behind those of `n`.
unfoldable pub of_base36 : ℕ → Bytes → ℕ
of_base36 n [] = n
of_base36 n (c ∷ cs) = of_base36 (n * 36 + digit36 c) cs

step-mod : (n c : ℕ) → base36_step (n % unsigned_limit) c ≡ (n * 36 + digit36 c) % unsigned_limit
step-mod n c = omega arith

loop_end :
    (fuel n : ℕ) (w : Machine)
    → seq_id_loop (suc fuel) (n % unsigned_limit) 95 w ≡ ok (some ((n + 1) % unsigned_limit)) w
unfolding seq_id_loop branch is_digit is_upper char_at return
loop_end fuel n w = ap (λ k. ok (some k) w) (omega arith)

loop_step :
    (fuel v c c' : ℕ) (w : Machine)
    → IsBase36 c
    → IsAt w.frame.cursor.str w.frame.cursor.len (w.frame.cursor.pos + 1) c'
    → seq_id_loop (suc fuel) v c w
      ≡ seq_id_loop fuel (base36_step v c) c' (moved (w.frame.cursor.pos + 1) w)
unfolding seq_id_loop branch
loop_step fuel v c c' w h at =
    let next = read_next >>= seq_id_loop fuel (base36_step v c) in
    let other : M (Option ℕ) =
      branch (c is "_") (return (some ((v + 1) % unsigned_limit))) (fail >>= λ _. return none) in
    ap (λ b. (branch b next other) w) h
    ∙ bind-ok read_next (seq_id_loop fuel (base36_step v c)) w c' _ (next-IsAt c' w at)

seq_id_loop_lem :
    (fuel n c : ℕ) (ds : Bytes) (w : Machine)
    → length ds + 1 < fuel
    → IsBase36 c
    → All IsBase36 ds
    → Reads w.frame.cursor.str w.frame.cursor.len (w.frame.cursor.pos + 1) (ds ++ 95 ∷ [])
    → seq_id_loop fuel (n % unsigned_limit) c w
      ≡ ok
          (some ((of_base36 n (c ∷ ds) + 1) % unsigned_limit))
          (moved (w.frame.cursor.pos + length ds + 1) w)
unfolding of_base36
seq_id_loop_lem zero n c ds w f h hs r = absurd (omega (arith, f))
seq_id_loop_lem (suc zero) n c ds w f h hs r = absurd (omega (arith, f))
seq_id_loop_lem (suc (suc fuel)) n c [] w f h hs r =
    let p = w.frame.cursor.pos in
    let e : p + 1 ≡ p + 0 + 1 = omega arith in
    loop_step (suc fuel) (n % unsigned_limit) c 95 w h r.0
    ∙ ap (λ v. seq_id_loop (suc fuel) v 95 (moved (p + 1) w)) (step-mod n c)
    ∙ loop_end fuel (n * 36 + digit36 c) (moved (p + 1) w)
    ∙ ap (λ q. ok (some ((n * 36 + digit36 c + 1) % unsigned_limit)) (moved q w)) e
seq_id_loop_lem (suc (suc fuel)) n c (d ∷ ds) w f h hs r =
    let p = w.frame.cursor.pos in
    let e : p + 1 + length ds + 1 ≡ p + suc (length ds) + 1 = omega arith in
    loop_step (suc fuel) (n % unsigned_limit) c d w h r.0
    ∙ ap (λ v. seq_id_loop (suc fuel) v d (moved (p + 1) w)) (step-mod n c)
    ∙ seq_id_loop_lem (suc fuel) (n * 36 + digit36 c) d ds (moved (p + 1) w) (omega (arith, f)) hs.0
        hs.1 r.1
    ∙ ap
        (λ q.
          ok (some ((of_base36 (n * 36 + digit36 c) (d ∷ ds) + 1) % unsigned_limit)) (moved q w))
        e

branch-false : {A : Type 0} (b : Bool) (m n : M A) (w : Machine) → b ≡ false → branch b m n w ≡ n w
unfolding branch
branch-false b m n w e = ap (λ k. if k then m w else n w) e

not_above : (c k : ℕ) → IsBase36 c → 90 < k → (c == k) ≡ false
unfolding is_digit is_upper
not_above c k h g = ground arith

within_list :
    {A : Type 0} (xs : List A) (i : ℕ) (a : A) → get_elem? xs i ≡ some a → leb (length xs) i ≡ false
within_list [] i a e = absurd cc
within_list (x ∷ xs) zero a e = ground arith
within_list (x ∷ xs) (suc i) a e = ground (arith, within_list xs i a e)

length-Reads :
    (str : Bytes) (len p c : ℕ) (cs : Bytes) → Reads str len p (c ∷ cs) → p + length cs ≤ length str
length-Reads str len p c [] r = ground (arith, IsAt.in_text r.0)
length-Reads str len p c (d ∷ cs) r = omega (arith, length-Reads str len (p + 1) d cs r.1)

length-end : (ds : Bytes) → length (ds ++ 95 ∷ []) ≡ length ds + 1
length-end [] = refl
length-end (d ∷ ds) = omega (arith, length-end ds)

last-Reads :
    (str : Bytes) (len p : ℕ) (ds : Bytes)
    → Reads str len p (ds ++ 95 ∷ [])
    → IsAt str len (p + length ds) 95
last-Reads str len p [] r = subst (λ i. IsAt str len i 95) (omega arith) r.0
last-Reads str len p (d ∷ ds) r =
    subst (λ i. IsAt str len i 95) (omega arith) (last-Reads str len (p + 1) ds r.1)

numbered_lem :
    (d : Decoders) (output value : ℕ) (qualifiers : Option ℕ) (w : Machine) (sub : Substitution)
    → IsAt w.frame.cursor.str w.frame.cursor.len w.frame.cursor.pos 95
    → get_elem? w.frame.substitutions_pos value ≡ some sub
    → ltb 20 w.frame.depth.inside_type ≡ false
    → numbered d output qualifiers (some value) w
      ≡ resolve d output qualifiers (some sub) (moved (w.frame.cursor.pos + 1) w)
unfolding numbered return frame
numbered_lem d output value qualifiers w sub at e shallow =
    let v = moved (w.frame.cursor.pos + 1) w in
    bind-ok skip _ w tt v (bind-ok eat _ w 95 v (eat-IsAt 95 w at))
    ∙ bind-ok frame _ v v.frame v refl
    ∙ branch-false _ fail _ v within
    ∙ ap (λ o. resolve d output qualifiers o v) e
  where
    within :
        (leb (length w.frame.substitutions_pos) value || ltb 20 w.frame.depth.inside_type) ≡ false
    within = rw (within_list w.frame.substitutions_pos value sub e, shallow) refl

-- S, a number in base 36 and an underscore decode as the substitution of the next number, modulo 2^32,
-- if there is one and it is not too deep in types; the cursor to come back to is behind the underscore.
pub substitution_lem :
    (d : Decoders) (output c : ℕ) (ds : Bytes) (qualifiers : Option ℕ) (w : Machine)
    (sub : Substitution)
    → IsBase36 c
    → All IsBase36 ds
    → Reads w.frame.cursor.str w.frame.cursor.len (w.frame.cursor.pos + 1) (c ∷ ds ++ 95 ∷ [])
    → get_elem? w.frame.substitutions_pos ((of_base36 0 (c ∷ ds) + 1) % unsigned_limit) ≡ some sub
    → ltb 20 w.frame.depth.inside_type ≡ false
    → decode_substitution d output qualifiers w
      ≡ resolve d output qualifiers (some sub) (moved (w.frame.cursor.pos + length ds + 3) w)
unfolding decode_substitution return frame char_at
substitution_lem d output c ds qualifiers w sub h hs r e shallow =
    let p = w.frame.cursor.pos in
    let str = w.frame.cursor.str in
    let v = moved (p + 1) w in
    let u = moved (p + 1 + length ds + 1) w in
    let enough : length ds + 1 < suc (length str) =
      omega
        (arith, length-Reads str w.frame.cursor.len (p + 1) c (ds ++ 95 ∷ []) r, length-end ds) in
    let last : IsAt str w.frame.cursor.len (p + 1 + length ds + 1) 95 =
      subst (λ i. IsAt str w.frame.cursor.len i 95) (omega arith)
        (last-Reads str w.frame.cursor.len (p + 1 + 1) ds r.1) in
    bind-ok read_next _ w c v (next-IsAt c w r.0)
    ∙ branch-false _ _ _ v (not_above c 95 h (omega arith))
    ∙ branch-false _ _ _ v (not_above c 97 h (omega arith))
    ∙ branch-false _ _ _ v (not_above c 98 h (omega arith))
    ∙ branch-false _ _ _ v (not_above c 100 h (omega arith))
    ∙ branch-false _ _ _ v (not_above c 105 h (omega arith))
    ∙ branch-false _ _ _ v (not_above c 111 h (omega arith))
    ∙ branch-false _ _ _ v (not_above c 115 h (omega arith))
    ∙ branch-false _ _ _ v (not_above c 116 h (omega arith))
    ∙ bind-ok text_fuel _ v (suc (length str)) v (bind-ok frame _ v v.frame v refl)
    ∙ bind-ok (seq_id_loop (suc (length str)) 0 c) _ v _ u
        (seq_id_loop_lem (suc (length str)) 0 c ds v enough h hs r.1)
    ∙ numbered_lem d output _ qualifiers u sub last e shallow
    ∙ ap (λ q. resolve d output qualifiers (some sub) (moved q w)) (at_end p (length ds))
  where
    at_end : (p n : ℕ) → p + 1 + n + 1 + 1 ≡ p + n + 3
    at_end p n = omega arith
