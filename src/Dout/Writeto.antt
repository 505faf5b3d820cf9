-- ===== src/Dout/Writeto.antt =====
-- Buffer::writeto of src/debug.cxx. The stream is locked from the first write to the last, so the
-- whole is one step of the thread; without a lock the check of WST_multi_threaded comes first.
use libcwd.Base.{
  ℕ, Bool, true, false, not, ◌&&◌, Option, none, some, [], ◌∷◌, ◌++◌, length, ltb, ◌==◌,
  if◌then◌else◌, codes,
}
use libcwd.Dout.{
  Bytes, Target, M, ◌>>=◌, ◌>>◌, skip, when, branch, load, store, get_tsd, this_thread, other_tsd,
  get_object, set_object, touch_errno, emit, flush_os, no_lock, ok, dead,
}
use libcwd.Dout.Streambuf.{pending, consume, continued, prefix_of}

abbrev pub unfinished_text : Bytes
unfinished_text = codes "<unfinished>" ++ 10 ∷ []

abbrev pub no_newline_text : Bytes
no_newline_text = codes "<no newline>" ++ 10 ∷ []

abbrev pub continued_text : Bytes
continued_text = codes "<continued>"

-- `if (color_off_size > 0) locked_os->write(...)`
abbrev pub emit_if_any : Target → Bytes → M (Unit {0})
emit_if_any target s = when (ltb 0 (length s)) (emit target s)

unfoldable pub check_lock : M (Unit {0})
check_lock w =
    if not w.object.has_mutex && w.multi_threaded && not w.second_time
    then dead no_lock (record w { second_time = true })
    else ok tt w

-- The other thread's line is cut off.
unfoldable pub cut_unfinished : ℕ → Target → Option ℕ → M (Unit {0})
cut_unfinished p target none = emit target no_newline_text
cut_unfinished p target (some q) = when (not (q == p)) (do
  emit target unfinished_text
  o ← load q
  let b = o.buffer
  store q (record o {
    buffer = record b { unfinished_already_printed = true; continued_needed = true };
  }))

unfoldable pub interrupt_other : ℕ → Target → Option ℕ → M (Unit {0})
interrupt_other p target none = skip
interrupt_other p target (some u) = do
  t ← this_thread
  when (not (u == t)) (do
    other ← other_tsd u
    emit_if_any target other.color_off
    d ← get_object
    cut_unfinished p target d.unfinished_oss)

-- `locked_os->write("<continued>", 11)` and what goes with it.
abbrev pub continued_mark : Bytes → Bytes
continued_mark color_on =
    if ltb 0 (length color_on)
    then continued_text ++ (color_on ++ 32 ∷ [])
    else continued_text ++ 32 ∷ []

unfoldable pub resume : ℕ → Target → ℕ → M (Unit {0})
resume p target curlen = do
  o ← load p
  let b = o.buffer
  when (b.continued_needed && ltb 0 curlen) (do
    tsd ← get_tsd
    emit target (prefix_of b)
    emit_if_any target tsd.color_off
    emit target (continued_mark tsd.color_on)
    store p (record o { buffer = continued (record b { continued_needed = false }) }))

unfoldable pub note_end : ℕ → ℕ → Bool → Bool → M (Unit {0})
note_end p curlen ends_on_newline possible_nonewline_cf = do
  t ← this_thread
  d ← get_object
  branch ends_on_newline (set_object (record d { unfinished_oss = none; newlineless_tsd = none })) (
      when (ltb 0 curlen) (
        set_object (record d {
          newlineless_tsd = some t;
          unfinished_oss = if possible_nonewline_cf then none else some p;
        })))

-- From the write of the text on.
unfoldable pub write_out : ℕ → Target → Bytes → Bool → Bool → Bool → Bool → M (Unit {0})
write_out p target msg request_unfinished do_flush ends_on_newline possible_nonewline_cf = do
  emit target msg
  tsd ← get_tsd
  o ← load p
  let b = o.buffer
  when (request_unfinished && not b.unfinished_already_printed)
      (do emit_if_any target tsd.color_off; emit target unfinished_text)
  when do_flush (flush_os target)
  store p (record o { buffer = record b { unfinished_already_printed = ends_on_newline } })
  note_end p (length msg) ends_on_newline possible_nonewline_cf

-- The running thread writes the buffer of the output state at `p`.
unfoldable pub writeto : ℕ → Target → Bool → Bool → Bool → Bool → M (Unit {0})
writeto p target request_unfinished do_flush ends_on_newline possible_nonewline_cf = do
  o ← load p
  let msg = pending o.buffer
  store p (record o { buffer = consume (o.buffer) })
  check_lock
  d ← get_object
  interrupt_other p target d.newlineless_tsd
  resume p target (length msg)
  write_out p target msg request_unfinished do_flush ends_on_newline possible_nonewline_cf
  touch_errno
