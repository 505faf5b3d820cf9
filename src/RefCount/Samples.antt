-- ===== src/RefCount/Samples.antt =====
-- A witness: two owners, of which one defers the deletion.
use libcwd.Base.{◌≡◌, true, [], ◌∷◌, ◌^◌, ◌-◌, refl, arith}
use libcwd.Base.Int.{pos, ◌+ℤ◌}
use libcwd.RefCount.{
  add_ref, release_ref, inhibit_deletion, allow_deletion, counted, end_of, calls, call, asserted,
  run_add_ref, run_inhibit, wrap,
}
use libcwd.RefCount.Usage.{takes, inhibits, gives, allows_last, calls-Uses}

calls-Uses_example :
    calls
      (add_ref ∷ inhibit_deletion true ∷ release_ref ∷ allow_deletion true (pos 1) ∷ [])
      (counted (pos 0))
    ≡ end_of true
calls-Uses_example =
    calls-Uses 0 _ _ (omega arith)
      (takes _ _ _ (omega arith) (inhibits _ _ _ (omega arith) (gives _ _ _ (allows_last true 0))))

-- One owner more than an int can count, and the next to inhibit the deletion stops the program.
too_many : calls (add_ref ∷ inhibit_deletion true ∷ []) (counted (pos (2 ^ 31 - 1))) ≡ asserted
unfolding calls call run_add_ref run_inhibit wrap ◌+ℤ◌
too_many = refl
