-- ===== src/OstreamState.antt =====
-- OstreamState of include/libcwd/DebugObject.inl.h: which ostream, and under which lock. An ostream
-- is a number. A lock is free or held by a thread; its try_lock is the application's own, and says
-- whether it took the lock (as std::mutex does). state_mutex_ is held throughout each function.
use libcwd.Base.{ℕ, Bool, true, false, Option, none, some, List, [], ◌∷◌, ◌++◌, if◌then◌else◌}

-- Who holds the lock.
abbrev pub Holder : Type 0
Holder = Option ℕ

pub record OstreamState : Type 0 where
  pub real_os : ℕ
  -- `none` is no lock at all.
  pub mutex : Option Holder

unfoldable pub read_real_os : OstreamState → ℕ
read_real_os s = s.real_os

unfoldable pub has_mutex : OstreamState → Bool
has_mutex s = elim s.mutex [ none ↦ false | some h ↦ true ]

-- `os ? os : real_os_`
unfoldable pub target : Option ℕ → OstreamState → ℕ
target none s = s.real_os
target (some os) s = os

-- The ostream, whether there is a lock, and the state. `none` waits for the lock.
unfoldable pub get_locked_os : ℕ → Option ℕ → OstreamState → Option (ℕ × Bool × OstreamState)
get_locked_os t os s = elim s.mutex [
  | none ↦ some (target os s, false, s)
  | some h ↦ elim h [
    | none ↦ some (target os s, true, record s { mutex = some (some t) })
    | some u ↦ none
  ]
]

unfoldable pub unlock : OstreamState → OstreamState
unlock s = record s { mutex = some none }

-- Lock and unlock the lock that was there: `none` waits for it.
unfoldable pub pass_lock : Option Holder → Option (Option Holder)
pass_lock none = some none
pass_lock (some none) = some (some none)
pass_lock (some (some u)) = none

-- The old lock, and the state: the new ostream and the new lock stand before the old one is waited for.
unfoldable pub replace_with :
    ℕ → Option Holder → OstreamState → OstreamState × Option (Option Holder)
replace_with os new_mutex s = (record { real_os = os; mutex = new_mutex }, pass_lock s.mutex)

-- Whether it has to wait for the lock, which it leaves as it was.
unfoldable pub set_ostream : ℕ → OstreamState → OstreamState × Option (Option Holder)
set_ostream os s = (record s { real_os = os }, pass_lock s.mutex)

-- Where it writes, and what.
unfoldable pub write_color_off_newline : Option ℕ → List ℕ → OstreamState → ℕ × List ℕ
unfolding target
write_color_off_newline os color_off s = (target os s, color_off ++ 10 ∷ [])

module _ (try_lock : ℕ → Holder → Bool × Holder) where
  -- Did it succeed, as it says, and with which ostream; and the state.
  unfoldable pub try_lock_os : ℕ → Option ℕ → OstreamState → Option ℕ × OstreamState
  try_lock_os t os s = elim s.mutex [
    | none ↦ (some (target os s), s)
    | some h ↦
        let (took, h') = try_lock t h in
        let s' : OstreamState = record s { mutex = some h' } in
        if took then (none, s') else (some (target os s), s')
  ]
