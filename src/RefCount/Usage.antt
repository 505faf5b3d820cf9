-- ===== src/RefCount/Usage.antt =====
-- Owners that give back only what they have taken.
use libcwd.Base.{
  ℕ, suc, zero, ◌+◌, ◌^◌, ◌<◌, ◌≡◌, refl, ◌∙◌, ap, Bool, true, false, List, [], ◌∷◌, arith,
}
use libcwd.Base.Int.{pos, ◌+ℤ◌, ◌-ℤ◌}
use libcwd.RefCount.{
  Call, add_ref, release_ref, inhibit_deletion, allow_deletion, Object, counted, deleted, end_of,
  wrap, run_add_ref, run_release, run_inhibit, run_allow, call, calls,
}

-- `Uses k cs o`: with `k` references out, the calls `cs` may follow, and leave `o` of the object. A
-- reference is taken from an object that somebody holds, and while fewer than 2^31 - 1 are out;
-- whoever gives back the last one is the last to touch the object.
pub data Uses : ℕ → List Call → Object → Type 0 where
  none_left : (k : ℕ) → Uses k [] (counted (pos k))
  takes :
      (k : ℕ) (cs : List Call) (o : Object)
      → suc k < 2 ^ 31
      → Uses (suc k) cs o
      → Uses k (add_ref ∷ cs) o
  inhibits :
      (k : ℕ) (cs : List Call) (o : Object)
      → suc (suc k) < 2 ^ 31
      → Uses (suc (suc k)) cs o
      → Uses (suc k) (inhibit_deletion true ∷ cs) o
  inhibits_early :
      (k : ℕ) (cs : List Call) (o : Object)
      → suc k < 2 ^ 31
      → Uses (suc k) cs o
      → Uses k (inhibit_deletion false ∷ cs) o
  gives :
      (k : ℕ) (cs : List Call) (o : Object)
      → Uses (suc k) cs o
      → Uses (suc (suc k)) (release_ref ∷ cs) o
  gives_last : Uses (suc zero) (release_ref ∷ []) deleted
  allows :
      (k : ℕ) (cs : List Call) (o : Object) (defer_delete : Bool) (count : ℕ)
      → Uses (suc k) cs o
      → Uses (suc k + suc count) (allow_deletion defer_delete (pos (suc count)) ∷ cs) o
  allows_last :
      (defer_delete : Bool) (count : ℕ)
      → Uses (suc count) (allow_deletion defer_delete (pos (suc count)) ∷ []) (end_of defer_delete)

wrap_pos : (k : ℕ) → k < 2 ^ 31 → wrap (pos k) ≡ pos k
unfolding wrap
wrap_pos k h = ground arith

last_release : run_release (pos 1) ≡ deleted
unfolding run_release
last_release = refl

add_ref_pos : (k : ℕ) → suc k < 2 ^ 31 → run_add_ref (pos k) ≡ counted (pos (suc k))
unfolding run_add_ref ◌+ℤ◌
add_ref_pos k h = ap counted (ground (arith, wrap_pos (suc k) h))

release_pos : (k : ℕ) → suc k < 2 ^ 31 → run_release (pos (suc (suc k))) ≡ counted (pos (suc k))
unfolding run_release ◌-ℤ◌
release_pos k h = ground (arith, wrap_pos (suc k) h)

inhibit_pos :
    (k : ℕ) → suc (suc k) < 2 ^ 31 → run_inhibit true (pos (suc k)) ≡ counted (pos (suc (suc k)))
unfolding run_inhibit ◌+ℤ◌
inhibit_pos k h = ground (arith, wrap_pos (suc (suc k)) h)

inhibit_early_pos : (k : ℕ) → suc k < 2 ^ 31 → run_inhibit false (pos k) ≡ counted (pos (suc k))
unfolding run_inhibit ◌+ℤ◌
inhibit_early_pos k h = ground (arith, wrap_pos (suc k) h)

allow_pos :
    (b : Bool) (k c : ℕ)
    → suc k < 2 ^ 31
    → run_allow b (pos (suc c)) (pos (suc k + suc c)) ≡ counted (pos (suc k))
unfolding run_allow ◌-ℤ◌
allow_pos b k c h = ground (arith, wrap_pos (suc k) h)

allow_last_pos : (b : Bool) (c : ℕ) → run_allow b (pos (suc c)) (pos (suc c)) ≡ end_of b
unfolding run_allow
allow_last_pos b c = ground arith

-- If the owners of an object take references only while it has one and fewer than 2^31 - 1 are out,
-- and give back only what they have taken, then no assertion fails and nobody uses the object after
-- its end: it keeps the count of the references that are out, and it ends, deleted or left to the
-- caller to delete, exactly with the call that gives back the last of them.
pub calls-Uses :
    (k : ℕ) (cs : List Call) (o : Object)
    → k < 2 ^ 31
    → Uses k cs o
    → calls cs (counted (pos k)) ≡ o
unfolding calls call
calls-Uses _ _ _ h (none_left k) = refl
calls-Uses _ _ _ h (takes k cs o b u) =
    ap (calls cs) (add_ref_pos k b) ∙ calls-Uses (suc k) cs o b u
calls-Uses _ _ _ h (inhibits k cs o b u) =
    ap (calls cs) (inhibit_pos k b) ∙ calls-Uses (suc (suc k)) cs o b u
calls-Uses _ _ _ h (inhibits_early k cs o b u) =
    ap (calls cs) (inhibit_early_pos k b) ∙ calls-Uses (suc k) cs o b u
calls-Uses _ _ _ h (gives k cs o u) =
    let b : suc k < 2 ^ 31 = omega arith in
    ap (calls cs) (release_pos k b) ∙ calls-Uses (suc k) cs o b u
calls-Uses _ _ _ h gives_last = last_release
calls-Uses _ _ _ h (allows k cs o d c u) =
    let b : suc k < 2 ^ 31 = omega arith in
    ap (calls cs) (allow_pos d k c b) ∙ calls-Uses (suc k) cs o b u
calls-Uses _ _ _ h (allows_last d c) = allow_last_pos d c
