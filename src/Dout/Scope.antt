-- ===== src/Dout/Scope.antt =====
-- The channel sets of include/libcwd/ChannelSet.h and what the macro LibcwDout makes of them. A
-- channel is its label and whether it is on for this thread.
use libcwd.Base.{ℕ, Bool, true, false, not, Option, none, some, [], if◌then◌else◌}
use libcwd.Base.Int.{pos, negsuc, ◌+ℤ◌, ltb_ℤ, eqb_ℤ}
use libcwd.ControlFlag.{ControlFlag, no_flags, or_flags}
use libcwd.DebugStack
use libcwd.Dout.{
  Bytes, Tsd, M, ◌>>=◌, ◌>>◌, return, die, when, branch, load, store, get_tsd, set_tsd, pop_error,
  stack_overflow,
}
use libcwd.Dout.Start.{start}
use libcwd.Dout.Finish.{finish}

-- ChannelSetData, with `on`.
pub record ChannelSetData : Type 0 where
  pub label : Bytes
  pub mask : ControlFlag
  pub on : Bool

pub record Channel : Type 0 where
  pub label : Bytes
  pub is_on : Bool

-- ChannelSetBootstrap::operator|(Channel const&), and for dc::always a channel that is on.
unfoldable pub bootstrap : Channel → ChannelSetData
bootstrap dc = record { label = dc.label; mask = no_flags; on = dc.is_on }

-- FatalChannelSetBootstrap::operator|
unfoldable pub fatal_bootstrap : Bytes → ControlFlag → ChannelSetData
fatal_bootstrap label maskbit = record { label = label; mask = maskbit; on = true }

-- ChannelSet::operator|, for a control flag, a channel and a fatal channel.
unfoldable pub join_flags : ControlFlag → ChannelSetData → ChannelSetData
join_flags cf cs = record cs { mask = or_flags (cs.mask) cf }

unfoldable pub join_channel : Channel → ChannelSetData → ChannelSetData
join_channel dc cs = if not cs.on then record cs { label = dc.label; on = dc.is_on } else cs

unfoldable pub join_fatal : Bytes → ControlFlag → ChannelSetData → ChannelSetData
join_fatal label maskbit cs =
    if not cs.on
    then record cs { mask = or_flags (cs.mask) maskbit; label = label; on = true }
    else record cs { mask = or_flags (cs.mask) maskbit }

-- What `continued_cf` does to off_count and continued_stack. `none` is a full stack.
unfoldable pub open_continued : Bool → Tsd → Option Tsd
open_continued on tsd =
    if not on
    then some (record tsd { off_count = tsd.off_count +ℤ pos 1 })
    else elim (DebugStack.push tsd.off_count tsd.continued_stack) [
      | none ↦ none
      | some s ↦ some (record tsd { continued_stack = s; off_count = pos 0 })
    ]

-- Is dc::continued or dc::finish on?
unfoldable pub continued_is_on : Tsd → Bool
continued_is_on tsd = eqb_ℤ tsd.off_count (pos 0)

-- What dc::finish does to off_count and continued_stack. With the stack empty top() reads below the
-- array, and pop() then dies: `none`.
unfoldable pub close_continued : Tsd → Option Tsd
close_continued tsd =
    if continued_is_on tsd
    then elim (DebugStack.top tsd.continued_stack) [
      | none ↦ none
      | some n ↦ elim (DebugStack.pop tsd.continued_stack) [
        | none ↦ none
        | some s ↦ some (record tsd { off_count = n; continued_stack = s })
      ]
    ]
    else some (record tsd { off_count = tsd.off_count +ℤ negsuc 0 })

-- ChannelSet::operator|(continued_cf_nt)
unfoldable pub join_continued_cf : ChannelSetData → M ChannelSetData
join_continued_cf cs = do
  tsd ← get_tsd
  elim (open_continued cs.on tsd) [
    | none ↦ die stack_overflow
    | some tsd' ↦ do
      set_tsd tsd'
      let m = cs.mask
      return (record cs { mask = record m { continued_cf = true } })
  ]

-- The current line goes on.
unfoldable pub continue_current : Tsd → Bool → M ChannelSetData
continue_current tsd finishing = do
  o ← load tsd.current
  let m = o.mask
  let mask = if finishing then record m { finish = true } else record m { continued = true }
  store tsd.current (record o { mask = mask })
  return (record { label = o.label; mask = mask; on = true })

-- The mask and the label stay uninitialised when the channel is off; they are not used.
abbrev off_set : ChannelSetData
off_set = record { label = []; mask = no_flags; on = false }

-- ChannelSetBootstrap::operator|(ContinuedChannel const&): `finishing` for dc::finish.
unfoldable pub bootstrap_continued : Bool → M ChannelSetData
bootstrap_continued finishing = do
  tsd ← get_tsd
  cs ← branch (continued_is_on tsd) (continue_current tsd finishing) (return off_set)
  when finishing (elim (close_continued tsd) [ none ↦ die pop_error | some tsd' ↦ set_tsd tsd' ])
  return cs

module _ (strerror : ℕ → Bytes) where
  -- The body of LibcwDout once the channel set is known.
  unfoldable pub output : ChannelSetData → M (Unit {0}) → M (Unit {0})
  output cs body =
      when cs.on (do start (record { label = cs.label; mask = cs.mask }); body; finish strerror)

  -- Dout(channel|flags, text). The text is a body of its own: it may hold further debug output.
  unfoldable pub dout : ChannelSetData → M (Unit {0}) → M (Unit {0})
  dout cs body = do tsd ← get_tsd; when (ltb_ℤ tsd.off (pos 0)) (output cs body)

  -- Dout(channel|continued_cf|flags, text)
  unfoldable pub dout_continued_cf : ChannelSetData → M (Unit {0}) → M (Unit {0})
  dout_continued_cf cs body = do
    tsd ← get_tsd
    when (ltb_ℤ tsd.off (pos 0)) (do cs' ← join_continued_cf cs; output cs' body)

  -- Dout(dc::continued|flags, text) and Dout(dc::finish|flags, text)
  unfoldable pub dout_continued : Bool → ControlFlag → M (Unit {0}) → M (Unit {0})
  dout_continued finishing cf body = do
    tsd ← get_tsd
    when (ltb_ℤ tsd.off (pos 0))
        (do cs ← bootstrap_continued finishing; output (join_flags cf cs) body)
