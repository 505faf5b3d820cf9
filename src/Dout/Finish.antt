-- ===== src/Dout/Finish.antt =====
-- DebugObject_ThreadSpecificData::finish of src/debug.cxx. `strerror` is the C library's text of an
-- error number. std::cin is the list of the bytes still to come.
use libcwd.Base.{
  ℕ, ◌+◌, ◌-◌, ◌%◌, Bool, true, false, not, ◌&&◌, ◌||◌, Option, none, some, [], ◌∷◌, ◌++◌, ltb,
  codes, ◌==◌, if◌then◌else◌,
}
use libcwd.Base.Int.{pos, negsuc}
use libcwd.ControlFlag.{ControlFlag}
use libcwd.DebugStack
use libcwd.Strerrno.{strerrno}
use libcwd.Dout.{
  Bytes, OutputState, DebugObject, M, ◌>>=◌, ◌>>◌, die, when, branch, load, store, delete, get_tsd,
  set_tsd, touch_errno, get_object, emit, flush_os, ok, dead, pop_error, aborted, exited, waiting,
  stuck_input, dummy,
}
use libcwd.Dout.Writeto.{writeto}
use libcwd.Dout.Start.{target_of, u16, put_current, add_off}

abbrev pub always_flush_is_on : DebugObject → Bool
always_flush_is_on d = ltb 0 d.always_flush

-- Is any bit set?
abbrev pub any_flag : ControlFlag → Bool
any_flag m =
    m.nonewline || m.noprefix || m.nolabel || m.blank_margin || m.blank_label || m.blank_marker
    || m.cerr || m.flush || m.wait || m.error || m.continued_cf || m.continued_expected || m.fatal
    || m.coredump || m.continued || m.finish

unfoldable pub finish_continued : ℕ → OutputState → M (Unit {0})
finish_continued p o = do
  let m = o.mask
  store p (record o { mask = record m { continued_expected = true } })
  tsd ← get_tsd
  when m.continued (set_tsd (record tsd { unfinished_expected = true }))
  d ← get_object
  when (always_flush_is_on d || m.flush) (writeto p (target_of m) false true false false)

unfoldable pub error_text : (ℕ → Bytes) → ℕ → Bytes
error_text strerror err =
    codes ": " ++ (strerrno err ++ (codes " (" ++ (strerror err ++ codes ")")))

-- claim_fatal_termination_ownership, and what follows it.
unfoldable pub terminate : Bool → M (Unit {0})
terminate core w =
    if w.fatal_termination_started
    then dead waiting w
    else dead (if core then aborted else exited) (record w { fatal_termination_started = true })

unfoldable pub finish_fatal : ℕ → ControlFlag → M (Unit {0})
finish_fatal p m = do
  tsd ← get_tsd
  writeto p (target_of m) false (not tsd.recursive_fatal) (not m.nonewline) true
  tsd' ← get_tsd
  set_tsd (record tsd' { recursive_fatal = true })
  terminate m.coredump

-- `while (std::cin.get() != '\n');`
unfoldable pub after_newline : Bytes → Option Bytes
after_newline [] = none
after_newline (c ∷ cs) = if c == 10 then some cs else after_newline cs

unfoldable pub read_line : M (Unit {0})
read_line w = elim (after_newline w.stdin) [
  | none ↦ dead stuck_input w
  | some rest ↦ ok tt (record w { stdin = rest })
]

unfoldable pub finish_wait : ℕ → ControlFlag → M (Unit {0})
finish_wait p m = do
  d ← get_object
  writeto p (target_of m) false d.interactive (not m.nonewline) true
  emit (target_of m) (codes "(type return)")
  touch_errno
  when d.interactive (do flush_os (target_of m); read_line)

-- The output of a finished line, by its flags.
unfoldable pub finish_output : ℕ → ControlFlag → M (Unit {0})
finish_output p m = do
  d ← get_object
  branch (any_flag m)
      (branch (m.coredump || m.fatal) (finish_fatal p m) (
        branch m.wait (finish_wait p m)
          (writeto p (target_of m) false (always_flush_is_on d || m.flush) (not m.nonewline) true)))
      (writeto p (target_of m) false (always_flush_is_on d) (not m.nonewline) true)

-- `indent -= 4; output_state_stack.pop();` on an unsigned short.
unfoldable pub pop_state : M (Unit {0})
pop_state = do
  tsd ← get_tsd
  set_tsd (record tsd { indent = (tsd.indent + u16 - 4) % u16 })
  elim (DebugStack.pop tsd.output_state_stack) [
    | none ↦ die pop_error
    | some s ↦
        set_tsd (record tsd { indent = (tsd.indent + u16 - 4) % u16; output_state_stack = s })
  ]

-- The previous output state becomes the current one.
unfoldable pub restore_current : Bool → M (Unit {0})
restore_current flushing = do
  tsd ← get_tsd
  let done = record tsd { start_expected = true; unfinished_expected = false }
  elim (DebugStack.top tsd.output_state_stack) [
    | none ↦ set_tsd (record done { current = dummy })
    | some q ↦ do
      o ← load q
      let m = o.mask
      when flushing (store q (record o { mask = record m { flush = true } }))
      set_tsd (record done { current = q })
  ]

module _ (strerror : ℕ → Bytes) where
  -- The end of the text of a line.
  unfoldable pub finish_text : OutputState → M (Unit {0})
  finish_text o = do
    let m = o.mask
    when m.error (put_current (error_text strerror o.err))
    tsd ← get_tsd
    when (not m.nonewline) (put_current (tsd.color_off ++ 10 ∷ []))

  unfoldable pub finish_line : ℕ → OutputState → M (Unit {0})
  finish_line p o = do
    add_off (pos 1)
    finish_text o
    finish_output p o.mask
    delete p
    tsd ← get_tsd
    when tsd.start_expected (pop_state)
    d ← get_object
    let m = o.mask
    restore_current (always_flush_is_on d || m.flush)
    add_off (negsuc 0)

  unfoldable pub finish : M (Unit {0})
  finish = do
    tsd ← get_tsd
    o ← load tsd.current
    let m = o.mask
    branch (m.continued_cf && not m.finish) (finish_continued tsd.current o)
        (finish_line tsd.current o)
