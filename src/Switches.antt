-- ===== src/Switches.antt =====
-- The switches of a debug object and of a channel, and the indentation: include/libcwd/
-- DebugObject.inl.h and src/debug.cxx. A switch is the int `_off` or an entry of off_cnt_array, on
-- while it is -1 (a debug object) or negative (a channel). `none` ends in core_dump or DoutFatal.
pub mod Forced
mod Samples
use libcwd.Base.{
  ℕ, suc, zero, ◌+◌, ◌-◌, ◌%◌, ◌^◌, ◌≤◌, ◌<◌, ◌≡◌, refl, Bool, true, false, Option, none, some,
  List, [], ◌∷◌, ltb, ◌==◌, if◌then◌else◌, arith, ◌>>=◌,
}
use libcwd.Base.Int.{ℤ, pos, negsuc, ◌+ℤ◌, ◌-ℤ◌, eqb_ℤ, ltb_ℤ, minus_one}
use libcwd.Channels.{off, on}

-- Channel::is_on
unfoldable pub is_on : ℤ → Bool
is_on off_cnt = ltb_ℤ off_cnt (pos 0)

-- DebugObject::off, DebugObject::on and DebugObject::is_on.
unfoldable pub object_off : ℤ → ℤ
object_off n = n +ℤ pos 1

unfoldable pub object_on : ℤ → ℤ
object_on n = n -ℤ pos 1

unfoldable pub object_is_on : ℤ → Bool
object_is_on n = eqb_ℤ n minus_one

-- The switch in Channel::force_on: what is saved in `state`, and what it is then.
unfoldable pub force_on : ℤ → ℤ × ℤ
force_on n = (n, minus_one)

-- The switch in Channel::restore. `none` is the core_dump.
unfoldable pub restore : ℤ → ℤ → Option ℤ
restore saved n = if eqb_ℤ n minus_one then some saved else none

pub data Switch : Type 0 where
  turn_off turn_on : Switch

-- Calls of Channel::off and Channel::on, one after the other.
abbrev pub run : List Switch → ℤ → Option ℤ
run [] n = some n
run (turn_off ∷ ops) n = run ops (off n)
run (turn_on ∷ ops) n = on n >>= run ops

-- How many calls of `off` are still to be cancelled.
abbrev pub pending : List Switch → ℕ → Option ℕ
pending [] k = some k
pending (turn_off ∷ ops) k = pending ops (suc k)
pending (turn_on ∷ ops) zero = none
pending (turn_on ∷ ops) (suc k) = pending ops k

-- The switch with `k` calls of `off` to be cancelled.
abbrev pub level : ℕ → ℤ
level zero = minus_one
level (suc k) = pos k

abbrev pub map_level : Option ℕ → Option ℤ
map_level none = none
map_level (some k) = some (level k)

off-level : (k : ℕ) → off (level k) ≡ level (suc k)
unfolding off ◌+ℤ◌
off-level zero = refl
off-level (suc k) = ground arith

on-level : (k : ℕ) → on (level (suc k)) ≡ some (level k)
unfolding on ◌-ℤ◌
on-level zero = refl
on-level (suc k) = ground arith

-- A channel switch counts the calls of `off` that no `on` has cancelled yet, and dies exactly at an
-- `on` for which there is none.
pub run-level : (ops : List Switch) (k : ℕ) → run ops (level k) ≡ map_level (pending ops k)
unfolding on
run-level [] k = refl
run-level (turn_off ∷ ops) k = rw (off-level k) (run-level ops (suc k))
run-level (turn_on ∷ ops) zero = refl
run-level (turn_on ∷ ops) (suc k) = rw (on-level k) (run-level ops k)

-- The channel is on exactly if no call of `off` is left.
pub is_on-level : (k : ℕ) → is_on (level k) ≡ (k == 0)
unfolding is_on
is_on-level zero = refl
is_on-level (suc k) = ground arith

-- unsigned short
abbrev pub u16 : ℕ
u16 = 2 ^ 16

unfoldable pub inc_indent : ℕ → ℕ → ℕ
inc_indent i indent = (indent + i) % u16

unfoldable pub dec_indent : ℕ → ℕ → ℕ
dec_indent i indent = if ltb indent i then 0 else indent - i

-- inc_indent and dec_indent by the same amount cancel if the sum is below 2^16, and the indentation
-- stays an unsigned short.
dec_indent-inc_indent :
    (i indent : ℕ)
    → indent + i < u16
    → (dec_indent i (inc_indent i indent) ≡ indent) × (inc_indent i indent < u16)
unfolding dec_indent inc_indent
dec_indent-inc_indent i indent h = (ground (arith, h), omega arith)
