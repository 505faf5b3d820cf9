-- ===== src/LockableAutoPtr/Samples.antt =====
-- Two pointers and their objects.
use libcwd.Base.{ℕ, ◌≡◌, refl, true, false, Option, none, some, arith, suc, zero}
use libcwd.LockableAutoPtr.{LockableAutoPtr, Heap, copy, assign}
use libcwd.LockableAutoPtr.Copying.{copy-IsSound}
use libcwd.LockableAutoPtr.Ownership.{Owns, IsSound, assign-IsSound}

abbrev owner_of : ℕ → LockableAutoPtr
owner_of x = record { ptr = some x; locked = false; owner = true }

abbrev slots : ℕ → Option LockableAutoPtr
slots zero = some (owner_of 0)
slots (suc zero) = some (owner_of 1)
slots (suc (suc k)) = none

abbrev two : Heap
two = record { pointers = slots; alive = λ x. true }

two-one : (k j x : ℕ) → Owns (slots k) x → Owns (slots j) x → k ≡ j
two-one zero zero x a b = refl
two-one (suc zero) (suc zero) x a b = refl
two-one zero (suc zero) x a b = cc (a.1, b.1)
two-one (suc zero) zero x a b = cc (a.1, b.1)
two-one (suc (suc k)) j x a b = absurd a
two-one zero (suc (suc j)) x a b = absurd b
two-one (suc zero) (suc (suc j)) x a b = absurd b

two-IsSound : IsSound two
two-IsSound = record { alive_if = λ k x o. refl; one = two-one }

assign-IsSound_example : (h' : Heap) × (assign 0 1 two ≡ some h') × IsSound h'
assign-IsSound_example =
    assign-IsSound two two-IsSound 0 (owner_of 0) refl 1 (owner_of 1) refl
      (λ e. absurd (omega (arith, e)))

copy-IsSound_example : (h' : Heap) × (copy 2 1 two ≡ some h') × IsSound h'
copy-IsSound_example = copy-IsSound two two-IsSound 2 1 (owner_of 1) refl (omega arith)
