-- ===== src/LockableAutoPtr/Copying.antt =====
-- The copy constructor of lockable_auto_ptr.
use mathlib.Core.Path.{subst, fun_ext}
use libcwd.Base.{
  ℕ, ◌≡◌, ◌≢◌, refl, ap, sym, Bool, true, false, Option, some, ◌&&◌, not, Bool-cases, inl, inr,
  arith,
}
use libcwd.LockableAutoPtr.{copy, put, LockableAutoPtr, Heap, set}
use libcwd.LockableAutoPtr.Ownership.{
  IsSound, Spares, dropped, passed, not_both, when_locked, when_unlocked,
}

not_right : (a b : Bool) → b ≡ false → (a && b) ≡ true → ⊥
not_right true b e h = not_both b e h
not_right false b e h = cc h

left_of : (a b : Bool) → (a && b) ≡ true → a ≡ true
left_of true b h = refl
left_of false b h = h

module _ (h : Heap) (sound : IsSound h) (k j : ℕ) (r : LockableAutoPtr)
    (at_j : h.pointers j ≡ some r) (ne : j ≢ k) where
  Spares-all : Spares h k h.alive
  Spares-all i x n o = sound.alive_if i x o

  set-set :
      (v v' : Option LockableAutoPtr)
      → set (set h.pointers j v) k v' ≡ set (set h.pointers k v') j v
  set-set v v' = fun_ext (λ i. ground (arith, ne))

  -- Copying a pointer to a new one leaves sound ownership, locked or not.
  pub copy-IsSound : (h' : Heap) × (copy k j h ≡ some h') × IsSound h'
  unfolding copy
  copy-IsSound = elim (Bool-cases r.locked) [
    | inl l ↦
        let new : LockableAutoPtr = record {
          ptr = r.ptr;
          locked = false;
          owner = r.owner && not r.locked;
        } in
        (
          put k new h,
          rw (copy, at_j)
              (ap (λ m. some (put k new m))
                (when_unlocked (not r.locked) (put j (record r { owner = false }) h) h (ap not l))),
          dropped h sound k h.alive (some new) Spares-all
              (λ x o. not_right r.owner (not r.locked) (ap not l) o.0),
        )
    | inr l ↦
        let new : LockableAutoPtr = record {
          ptr = r.ptr;
          locked = false;
          owner = r.owner && not r.locked;
        } in
        let r' : LockableAutoPtr = record r { owner = false } in
        (
          put k new (put j r' h),
          rw (copy, at_j)
              (ap (λ m. some (put k new m)) (when_locked (not r.locked) (put j r' h) h (ap not l))),
          subst (λ f. IsSound (record { pointers = f; alive = h.alive }))
              (sym (set-set (some r') (some new)))
              (passed h sound k j r at_j ne h.alive new r' Spares-all refl
                (λ o. left_of r.owner (not r.locked) o) refl),
        )
  ]
