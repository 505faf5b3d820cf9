-- ===== src/Dout/Start.antt =====
-- DebugObject_ThreadSpecificData::start of src/debug.cxx. A misuse of `dc::continued` ends in
-- DoutFatal, whose own message is not modelled; the newline that is written before it is.
use libcwd.Base.{
  ℕ, ◌+◌, ◌%◌, ◌^◌, true, false, not, ◌&&◌, ◌||◌, none, some, [], ◌∷◌, ◌++◌, length, take,
  replicate, if◌then◌else◌,
}
use libcwd.Base.Int.{ℤ, pos, negsuc, ◌+ℤ◌}
use libcwd.ControlFlag.{ControlFlag}
use libcwd.DebugStack
use libcwd.Dout.{
  Bytes, Tsd, Target, real_os, cerr_os, M, ◌>>=◌, ◌>>◌, die, when, branch, load, store, get_tsd,
  set_tsd, set_errno, emit, ok, stack_overflow, continued_misuse, update,
}
use libcwd.Dout.Streambuf.{empty_buffer, sputn, store_position, restore_position, continued}
use libcwd.Dout.Writeto.{emit_if_any, continued_mark, writeto}

-- ChannelSetData: the label's characters up to max_label_len, and the mask.
pub record ChannelSet : Type 0 where
  pub label : Bytes
  pub mask : ControlFlag

abbrev pub target_of : ControlFlag → Target
target_of m = if m.cerr then cerr_os else real_os

-- `indent += i` on an unsigned short.
abbrev pub u16 : ℕ
u16 = 2 ^ 16

-- Write to the stream of the current output state.
unfoldable pub put_current : Bytes → M (Unit {0})
put_current s = do
  tsd ← get_tsd
  o ← load tsd.current
  store tsd.current (record o { buffer = sputn s (o.buffer) })

unfoldable pub misuse : Target → M (Unit {0})
misuse target = do
  tsd ← get_tsd
  emit_if_any target tsd.color_off
  emit target (10 ∷ [])
  die continued_misuse

-- `start` for dc::continued and dc::finish.
unfoldable pub start_continued : ControlFlag → M (Unit {0})
start_continued mask = do
  tsd ← get_tsd
  o ← load tsd.current
  store tsd.current (record o { err = tsd.errno })
  when (not o.mask.continued_expected) (misuse (target_of mask))
  store tsd.current (record o {
    err = tsd.errno;
    mask = if mask.finish then record mask { continued_expected = false } else mask;
  })

-- An interruption in the middle of continued output of this thread.
unfoldable pub start_interrupting : ControlFlag → M (Unit {0})
start_interrupting mask = do
  tsd ← get_tsd
  writeto tsd.current (target_of mask) true false true false
  o ← load tsd.current
  let restored = restore_position (o.buffer)
  let marked = sputn (tsd.color_off ++ continued_mark tsd.color_on) restored
  store tsd.current (record o { buffer = continued marked })
  set_errno tsd.errno

unfoldable pub push_current : M (Unit {0})
push_current = do
  tsd ← get_tsd
  elim (DebugStack.push tsd.current tsd.output_state_stack) [
    | none ↦ die stack_overflow
    | some s ↦ set_tsd (record tsd { output_state_stack = s; indent = (tsd.indent + 4) % u16 })
  ]

-- new OutputState(mask, label, err), at an address of its own.
unfoldable pub new_output_state : ControlFlag → Bytes → ℕ → M ℕ
new_output_state mask label err w = ok w.next (record w {
  heap =
      update w.heap w.next
        (some (record { buffer = empty_buffer; mask = mask; label = label; err = err }));
  next = w.next + 1;
})

unfoldable pub whitespace : ℕ → Bytes
whitespace n = replicate n 32

-- The margin, label and marker in front of a line, as the flags ask for them.
unfoldable pub prefix_text : Tsd → ControlFlag → ℕ → Bytes → Bytes
prefix_text tsd mask max_len label =
    if not
      (mask.noprefix || mask.nolabel || mask.blank_margin || mask.blank_label || mask.blank_marker)
    then tsd.margin ++ (take max_len label ++ (tsd.marker ++ whitespace tsd.indent))
    else if not mask.noprefix
    then (if mask.blank_margin then whitespace (length tsd.margin) else tsd.margin)
      ++ (if not mask.nolabel
          then (if mask.blank_label then whitespace max_len else take max_len label)
            ++ ((if mask.blank_marker then whitespace (length tsd.marker) else tsd.marker)
                ++ whitespace tsd.indent)
          else [])
    else []

unfoldable pub max_len_of : M ℕ
max_len_of w = ok w.max_len w

unfoldable pub add_off : ℤ → M (Unit {0})
add_off n = do tsd ← get_tsd; set_tsd (record tsd { off = tsd.off +ℤ n })

-- The new line gets its output state and its prefix.
unfoldable pub start_line : ControlFlag → Bytes → M (Unit {0})
start_line mask label = do
  tsd ← get_tsd
  p ← new_output_state mask label tsd.errno
  let tsd' = record tsd { current = p; start_expected = false; unfinished_expected = true }
  set_tsd tsd'
  max_len ← max_len_of
  put_current (tsd.color_on ++ prefix_text tsd' mask max_len label)
  when mask.continued_cf (do o ← load p; store p (record o { buffer = store_position (o.buffer) }))

unfoldable pub start_new : ChannelSet → M (Unit {0})
start_new cs = do
  add_off (pos 1)
  tsd ← get_tsd
  o ← load tsd.current
  when (o.mask.continued_cf && tsd.unfinished_expected) (start_interrupting cs.mask)
  when (not tsd.start_expected) (push_current)
  let m = cs.mask
  let mask = if tsd.start_expected then m else record m { cerr = m.cerr || o.mask.cerr }
  start_line mask cs.label
  add_off (negsuc 0)

unfoldable pub start : ChannelSet → M (Unit {0})
start cs = let m = cs.mask in branch (m.continued || m.finish) (start_continued m) (start_new cs)
