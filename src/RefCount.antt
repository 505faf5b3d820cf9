-- ===== src/RefCount.antt =====
-- include/utils/AIRefCount.h, with its assertions on. The atomic operations of several threads on one
-- object are the calls of a list, in the order in which they change m_count, a std::atomic<int>,
-- whose fetch_add and fetch_sub wrap at 32 bits.
pub mod Usage
mod Samples
use libcwd.Base.{ℕ, ◌-◌, ◌%◌, ◌^◌, Bool, true, false, not, ◌&&◌, List, [], ◌∷◌, ltb, if◌then◌else◌}
use libcwd.Base.Int.{ℤ, pos, negsuc, ◌+ℤ◌, ◌-ℤ◌, eqb_ℤ, ltb_ℤ}

pub data Call : Type 0 where
  -- intrusive_ptr_add_ref and intrusive_ptr_release
  add_ref release_ref : Call
  -- The argument is can_cause_immediate_allow_deletion.
  inhibit_deletion : Bool → Call
  -- The arguments are defer_delete and count.
  allow_deletion : Bool → ℤ → Call

-- What is left of the object: m_count, the memory for the caller to delete, nothing; or the program
-- has stopped at an assertion, or used the object after its end.
pub data Object : Type 0 where
  counted : ℤ → Object
  deferred deleted : Object
  asserted used_after_end : Object

-- The int of 32 bits that an integer is modulo 2^32.
abbrev of_pattern : ℕ → ℤ
of_pattern w = if ltb w (2 ^ 31) then pos w else negsuc (2 ^ 32 - 1 - w)

unfoldable pub wrap : ℤ → ℤ
wrap (pos n) = of_pattern (n % 2 ^ 32)
wrap (negsuc n) = of_pattern (2 ^ 32 - 1 - n % 2 ^ 32)

-- delete this
unfoldable pub end_of : Bool → Object
end_of defer_delete = if defer_delete then deferred else deleted

unfoldable pub run_add_ref : ℤ → Object
run_add_ref m_count = counted (wrap (m_count +ℤ pos 1))

unfoldable pub run_release : ℤ → Object
run_release m_count = if eqb_ℤ m_count (pos 1) then deleted else counted (wrap (m_count -ℤ pos 1))

unfoldable pub run_inhibit : Bool → ℤ → Object
run_inhibit can_cause prev_count =
    if can_cause && not (ltb_ℤ (pos 0) prev_count)
    then asserted
    else counted (wrap (prev_count +ℤ pos 1))

unfoldable pub run_allow : Bool → ℤ → ℤ → Object
run_allow defer_delete count prev_count =
    if not (ltb_ℤ (pos 0) count)
    then asserted
    else if ltb_ℤ prev_count count
    then asserted
    else if eqb_ℤ prev_count count
    then end_of defer_delete
    else counted (wrap (prev_count -ℤ count))

unfoldable pub call : Call → Object → Object
call add_ref (counted n) = run_add_ref n
call release_ref (counted n) = run_release n
call (inhibit_deletion can_cause) (counted n) = run_inhibit can_cause n
call (allow_deletion defer_delete count) (counted n) = run_allow defer_delete count n
call c asserted = asserted
call c _ = used_after_end

unfoldable pub calls : List Call → Object → Object
calls [] o = o
calls (c ∷ cs) o = calls cs (call c o)
