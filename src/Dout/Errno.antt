-- ===== src/Dout/Errno.antt =====
-- errno through DebugObject_ThreadSpecificData::start of src/debug.cxx, which may write to a stream.
use libcwd.Base.{
  ℕ, ◌+◌, ◌%◌, ◌≡◌, refl, sym, List, Bool, true, false, not, ◌&&◌, ◌||◌, Option, none, some,
  if◌then◌else◌,
}
use libcwd.Base.Int.{pos, ◌+ℤ◌}
use libcwd.ControlFlag.{ControlFlag}
use libcwd.DebugStack
use libcwd.Dout.{
  Bytes, Tsd, Target, OutputState, World, Outcome, ok, dead, M, ◌>>=◌, ◌>>◌, load, when, branch,
  update, store, dangling, die, stack_overflow, set_tsd,
}
use libcwd.Dout.Store.{update_self}
use mathlib.Core.Path.{subst}
use libcwd.Dout.Writeto.{writeto, emit_if_any}
use libcwd.Dout.Line.{start_line_lem, new_state}
use libcwd.Dout.Start.{
  ChannelSet, target_of, start, start_new, start_continued, start_interrupting, start_line,
  push_current, add_off, misuse, u16,
}

-- What holds of the world if the thread goes on.
abbrev Post : {A : Type 0} → (World → Type 0) → Outcome A → Type 0
Post P (ok a w) = P w
Post P (dead d w) = Unit

after-Post :
    {A B : Type 0} (P Q : World → Type 0) (f : A → M B) (o : Outcome A)
    → Post P o
    → ((a : A) (v : World) → P v → Post Q (f a v))
    → Post Q (elim o [ ok a v ↦ f a v | dead d v ↦ dead d v ])
after-Post P Q f (ok a v) h k = k a v h
after-Post P Q f (dead d v) h k = tt

bind-Post :
    {A B : Type 0} (P Q : World → Type 0) (m : M A) (f : A → M B) (w : World)
    → Post P (m w)
    → ((a : A) (v : World) → P v → Post Q (f a v))
    → Post Q ((m >>= f) w)
bind-Post P Q m f w h k = after-Post P Q f (m w) h k

any-Post : {A : Type 0} (o : Outcome A) → Post (λ w. Unit {0}) o
any-Post (ok a w) = tt
any-Post (dead d w) = tt

when-Post :
    (P : World → Type 0) (b : Bool) (m : M (Unit {0})) (w : World)
    → P w
    → Post P (m w)
    → Post P (when b m w)
when-Post P true m w h k = k
when-Post P false m w h k = h

-- errno is `n`.
abbrev IsErrno : ℕ → World → Type 0
IsErrno n w = w.tsd.errno ≡ n

abbrev NotesErr : ℕ → Option OutputState → Type 0
NotesErr n none = ⊥
NotesErr n (some o) = o.err ≡ n

-- errno is `n`, and the current output state is there and has noted it.
abbrev IsNoted : ℕ → World → Type 0
IsNoted n w = (w.tsd.errno ≡ n) × NotesErr n (w.heap w.tsd.current)

-- What holds of the world if `start` returns.
abbrev pub LeavesErrno : ℕ → Outcome (Unit {0}) → Type 0
LeavesErrno n o = Post (IsNoted n) o

load-Post : (P : World → Type 0) (p : ℕ) (w : World) → P w → Post P (load p w)
load-Post P p w h = found (w.heap p)
  where
    found :
        (h' : Option OutputState) → Post P (elim h' [ none ↦ dead dangling w | some o ↦ ok o w ])
    found none = tt
    found (some o) = h

start_interrupting-IsErrno :
    (mask : ControlFlag) (w : World) → Post (IsErrno w.tsd.errno) (start_interrupting mask w)
unfolding start_interrupting
start_interrupting-IsErrno mask w =
    bind-Post (λ v. Unit {0}) _ (writeto w.tsd.current (target_of mask) true false true false) _ w
      (any-Post (writeto w.tsd.current (target_of mask) true false true false w))
      (λ a v h.
        bind-Post (λ v. Unit {0}) _ (load w.tsd.current) _ v (any-Post (load w.tsd.current v))
          (λ o u h'. refl))

abbrev push_result : Tsd → Option (List ℕ) → M (Unit {0})
push_result tsd s = elim s [
  | none ↦ die stack_overflow
  | some s ↦ set_tsd (record tsd { output_state_stack = s; indent = (tsd.indent + 4) % u16 })
]

abbrev loaded : World → Option OutputState → Outcome OutputState
loaded w none = dead dangling w
loaded w (some o) = ok o w

abbrev bound : {A B : Type 0} → (A → M B) → Outcome A → Outcome B
bound f (ok a w) = f a w
bound f (dead d w) = dead d w

push_current-IsErrno : (n : ℕ) (w : World) → IsErrno n w → Post (IsErrno n) (push_current w)
unfolding push_current
push_current-IsErrno n w h = pushed (DebugStack.push w.tsd.current w.tsd.output_state_stack)
  where
    pushed : (s : Option (List ℕ)) → Post (IsErrno n) (push_result w.tsd s w)
    pushed none = tt
    pushed (some s) = h

start_line-IsNoted :
    (mask : ControlFlag) (label : Bytes) (n : ℕ) (w : World)
    → IsErrno n w
    → Post (IsNoted n) (start_line mask label w)
start_line-IsNoted mask label n w h =
    subst (Post (IsNoted n)) (sym (start_line_lem mask label w))
      (h, subst (NotesErr n) (sym (update_self w.heap w.next (some (new_state w mask label)))) h)

abbrev line_mask : World → ChannelSet → OutputState → ControlFlag
line_mask w cs o =
    if w.tsd.start_expected
    then cs.mask
    else record (cs.mask) { cerr = cs.mask.cerr || o.mask.cerr }

abbrev ended_state : ControlFlag → Tsd → OutputState → OutputState
ended_state mask tsd o = record o {
  err = tsd.errno;
  mask = if mask.finish then record mask { continued_expected = false } else mask;
}

abbrev noting : ControlFlag → Tsd → OutputState → M (Unit {0})
noting mask tsd o = do
  store tsd.current (record o { err = tsd.errno })
  when (not o.mask.continued_expected) (misuse (target_of mask))
  store tsd.current (ended_state mask tsd o)

start_new-IsNoted : (cs : ChannelSet) (w : World) → Post (IsNoted w.tsd.errno) (start_new cs w)
unfolding start_new add_off
start_new-IsNoted cs w =
    let n = w.tsd.errno in
    let w1 : World = record w { tsd = record (w.tsd) { off = w.tsd.off +ℤ pos 1 } } in
    bind-Post (IsErrno n) (IsNoted n) (load w.tsd.current) _ w1
      (load-Post (IsErrno n) w.tsd.current w1 refl)
      (λ o v h.
        bind-Post (IsErrno n) (IsNoted n)
          (when (o.mask.continued_cf && w.tsd.unfinished_expected) (start_interrupting cs.mask)) _ v
          (when-Post (IsErrno n) _ (start_interrupting cs.mask) v h (
            subst (λ k. Post (IsErrno k) (start_interrupting cs.mask v)) h
              (start_interrupting-IsErrno cs.mask v)))
          (λ _ v' h'.
            bind-Post (IsErrno n) (IsNoted n) (when (not w.tsd.start_expected) push_current) _ v'
              (when-Post (IsErrno n) _ push_current v' h' (push_current-IsErrno n v' h'))
              (λ _ u k.
                bind-Post (IsNoted n) (IsNoted n) (start_line (line_mask w cs o) cs.label) _ u
                  (start_line-IsNoted (line_mask w cs o) cs.label n u k) (λ _ u' k'. k'))))

misuse-dead : (P : World → Type 0) (target : Target) (w : World) → Post P (misuse target w)
unfolding misuse
misuse-dead P target w =
    bind-Post (λ v. Unit {0}) P (emit_if_any target w.tsd.color_off) _ w
      (any-Post (emit_if_any target w.tsd.color_off w)) (λ a v h. tt)

start_continued-IsNoted :
    (mask : ControlFlag) (w : World) → Post (IsNoted w.tsd.errno) (start_continued mask w)
unfolding start_continued
start_continued-IsNoted mask w = found (w.heap w.tsd.current)
  where
    found :
        (h : Option OutputState)
        → Post (IsNoted w.tsd.errno) (bound (noting mask w.tsd) (loaded w h))
    found none = tt
    found (some o) =
        let w1 : World = record w {
          heap = update w.heap w.tsd.current (some (record o { err = w.tsd.errno }));
        } in
        bind-Post (λ v. v ≡ w1) (IsNoted w.tsd.errno)
          (when (not o.mask.continued_expected) (misuse (target_of mask))) _ w1
          (when-Post (λ v. v ≡ w1) (not o.mask.continued_expected) (misuse (target_of mask)) w1 refl
            (misuse-dead _ (target_of mask) w1))
          (λ _ v e.
            subst
              (λ v. Post (IsNoted w.tsd.errno) (store w.tsd.current (ended_state mask w.tsd o) v))
              (sym e)
              (
                refl,
                subst (NotesErr w.tsd.errno)
                    (sym (update_self w1.heap w.tsd.current (some (ended_state mask w.tsd o))))
                    refl,
              ))

-- While a line starts, other lines may be written, which changes errno. But if `start` returns,
-- whatever line it starts or continues and whatever it interrupts, then errno is what it was, and the
-- current output state is there and has noted it, for the error text of error_cf.
pub start-LeavesErrno : (cs : ChannelSet) (w : World) → LeavesErrno w.tsd.errno (start cs w)
unfolding start
start-LeavesErrno cs w = by_kind (cs.mask.continued || cs.mask.finish)
  where
    by_kind :
        (b : Bool)
        → Post (IsNoted w.tsd.errno) (branch b (start_continued cs.mask) (start_new cs) w)
    by_kind true = start_continued-IsNoted cs.mask w
    by_kind false = start_new-IsNoted cs w
