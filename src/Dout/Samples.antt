-- ===== src/Dout/Samples.antt =====
-- Runs of the debug output of one and two threads.
use Prim.Native.String.{String}
use libcwd.Base.{ℕ, ◌+◌, ◌≡◌, refl, true, false, none, some, List, [], ◌∷◌, ◌++◌, codes, inl}
use libcwd.Base.Int.{pos, negsuc, ◌+ℤ◌}
use libcwd.ControlFlag.{no_flags}
use libcwd.Dout.{
  Bytes, OutputState, Tsd, DebugObject, World, Event, write, real_os, cerr_os, M, Outcome, ok, dead,
  ◌>>◌, update,
}
use libcwd.Dout.Streambuf.{
  empty_buffer, pending, consume, sputn, store_position, restore_position, continued, prefix_of,
  first_char,
}
use libcwd.Dout.Start.{
  put_current, ChannelSet, start, start_new, start_continued, start_interrupting, start_line,
  push_current, new_output_state, whitespace, prefix_text, max_len_of, add_off,
}
use libcwd.Dout.Finish.{
  finish, finish_line, finish_continued, finish_text, finish_output, restore_current, pop_state,
}
use libcwd.Dout.Writeto.{
  writeto, write_out, check_lock, interrupt_other, cut_unfinished, resume, note_end,
}
use libcwd.Dout.Plain.{IsPlain}
use libcwd.Dout.Errno.{LeavesErrno, start-LeavesErrno}
use libcwd.Dout.Whole.{line_done, dout-line_done}
use libcwd.DebugStack
use libcwd.DebugStack.{max_size}
use libcwd.Dout.Balance.{Op, opens, continues, finishes, run, spec, Agrees, run-Agrees}
use libcwd.Dout.Scope.{
  Channel, bootstrap, dout, dout_continued, dout_continued_cf, join_flags, output,
  join_continued_cf, open_continued, close_continued, continued_is_on, continue_current,
  bootstrap_continued,
}

abbrev pub dummy_state : OutputState
dummy_state = record { buffer = empty_buffer; mask = no_flags; label = codes "DEBUG   "; err = 0 }

-- DebugObject_ThreadSpecificData::init, with the debug object and the thread's margin set.
abbrev pub fresh_tsd : Bytes → Tsd
fresh_tsd margin = record {
  current = 0;
  output_state_stack = [];
  start_expected = true;
  unfinished_expected = false;
  off_count = pos 0;
  continued_stack = [];
  color_on = [];
  color_off = [];
  margin = margin;
  marker = codes ": ";
  indent = 0;
  off = negsuc 0;
  recursive_fatal = false;
  errno = 0;
}

abbrev pub fresh_object : DebugObject
fresh_object = record {
  newlineless_tsd = none;
  unfinished_oss = none;
  always_flush = 0;
  interactive = true;
  has_mutex = true;
  events = [];
}

abbrev pub fresh : World
fresh = record {
  heap = update (λ p. none) 0 (some dummy_state);
  next = 1;
  thread = 0;
  tsd = fresh_tsd [];
  others = λ t. fresh_tsd [];
  object = fresh_object;
  max_len = 8;
  multi_threaded = true;
  second_time = false;
  fatal_termination_started = false;
  stdin = [];
  errno_after = λ es n. n + 1;
}

abbrev pub notice : Channel
notice = record { label = codes "NOTICE          "; is_on = true }

abbrev strerror : ℕ → Bytes
strerror n = codes "text"

abbrev result : Outcome (Unit {0}) → List Event
result (ok a w) = w.object.events
result (dead d w) = w.object.events

abbrev said : String → M (Unit {0})
said s = put_current (codes s)

-- The text of a line, with a newline.
abbrev line : String → Bytes
line s = codes s ++ 10 ∷ []

-- Of the lines inside a line with cerr_cf, only the first goes to std::cerr as well.
nested_cerr_run :
    result (
      dout strerror
        (join_flags (record no_flags { cerr = true }) (bootstrap notice))
        (do
          said "outer"
          dout strerror (bootstrap notice) (said "one")
          dout strerror (bootstrap notice) (said "two"))
        fresh)
    ≡ write cerr_os (line "NOTICE  : outer")
      ∷ write real_os (line "NOTICE  :     two")
      ∷ write cerr_os (line "NOTICE  :     one")
      ∷ []
unfolding dout dout_continued_cf dout_continued bootstrap output put_current start start_new
    start_continued start_interrupting start_line push_current new_output_state whitespace
    prefix_text max_len_of add_off finish finish_line finish_continued finish_text finish_output
    restore_current pop_state writeto write_out check_lock interrupt_other cut_unfinished resume
    note_end pending consume sputn store_position restore_position continued prefix_of first_char
    update DebugStack.push DebugStack.pop DebugStack.top ◌+ℤ◌ join_continued_cf open_continued
    close_continued continued_is_on continue_current bootstrap_continued join_flags
nested_cerr_run = refl

plain_run :
    result (dout strerror (bootstrap notice) (said "hello") fresh)
    ≡ write real_os (line "NOTICE  : hello") ∷ []
unfolding dout dout_continued_cf dout_continued bootstrap output put_current start start_new
    start_continued start_interrupting start_line push_current new_output_state whitespace
    prefix_text max_len_of add_off finish finish_line finish_continued finish_text finish_output
    restore_current pop_state writeto write_out check_lock interrupt_other cut_unfinished resume
    note_end pending consume sputn store_position restore_position continued prefix_of first_char
    update DebugStack.push DebugStack.pop DebugStack.top ◌+ℤ◌ join_continued_cf open_continued
    close_continued continued_is_on continue_current bootstrap_continued join_flags
plain_run = refl

-- Debug output inside the text of another: the inner lines come first, further in.
nested_run :
    result (
      dout strerror
        (bootstrap notice)
        (do
          said "outer"
          dout strerror (bootstrap notice) (said "inner")
          dout strerror (bootstrap notice) (said "again")
          said "more")
        fresh)
    ≡ write real_os (line "NOTICE  : outermore")
      ∷ write real_os (line "NOTICE  :     again")
      ∷ write real_os (line "NOTICE  :     inner")
      ∷ []
unfolding dout dout_continued_cf dout_continued bootstrap output put_current start start_new
    start_continued start_interrupting start_line push_current new_output_state whitespace
    prefix_text max_len_of add_off finish finish_line finish_continued finish_text finish_output
    restore_current pop_state writeto write_out check_lock interrupt_other cut_unfinished resume
    note_end pending consume sputn store_position restore_position continued prefix_of first_char
    update DebugStack.push DebugStack.pop DebugStack.top ◌+ℤ◌ join_continued_cf open_continued
    close_continued continued_is_on continue_current bootstrap_continued join_flags
nested_run = refl

-- A line with continued_cf, interrupted by another and then finished.
interrupted_run :
    result (
      (do
        dout_continued_cf strerror (bootstrap notice) (said "a...")
        dout strerror (bootstrap notice) (said "b")
        dout_continued strerror true no_flags (said "c"))
        fresh)
    ≡ write real_os (line "NOTICE  : <continued> c")
      ∷ write real_os (line "NOTICE  :     b")
      ∷ write real_os (line "<unfinished>")
      ∷ write real_os (codes "NOTICE  : a...")
      ∷ []
unfolding dout dout_continued_cf dout_continued bootstrap output put_current start start_new
    start_continued start_interrupting start_line push_current new_output_state whitespace
    prefix_text max_len_of add_off finish finish_line finish_continued finish_text finish_output
    restore_current pop_state writeto write_out check_lock interrupt_other cut_unfinished resume
    note_end pending consume sputn store_position restore_position continued prefix_of first_char
    update DebugStack.push DebugStack.pop DebugStack.top ◌+ℤ◌ join_continued_cf open_continued
    close_continued continued_is_on continue_current bootstrap_continued join_flags
interrupted_run = refl

abbrev notice_set : ChannelSet
notice_set = record { label = codes "NOTICE          "; mask = no_flags }

no_flags-IsPlain : IsPlain no_flags
no_flags-IsPlain = record {
  starts = refl;
  whole = refl;
  lives = refl;
  runs_on = refl;
  no_error = refl;
}

dout-line_done_example :
    dout strerror
      (record { label = codes "NOTICE          "; mask = no_flags; on = true })
      (said "hello")
      fresh
    ≡ ok tt (line_done fresh notice_set (line "NOTICE  : hello"))
unfolding prefix_text whitespace update
dout-line_done_example =
    dout-line_done strerror fresh notice_set no_flags-IsPlain dummy_state (codes "hello") refl refl
      refl refl refl (inl refl)

abbrev opened : List Op
opened = opens true ∷ opens false ∷ continues ∷ finishes ∷ finishes ∷ []

run-Agrees_example : Agrees (run opened (fresh_tsd [])) (spec opened [])
run-Agrees_example = run-Agrees opened (fresh_tsd []) [] (refl, refl)

-- Some line is open, and the next one interrupts it.
abbrev interrupted : World
interrupted = record fresh {
  heap =
      update (λ p. none) 0
        (some (record dummy_state { mask = record no_flags { continued_cf = true } }));
  tsd = record (fresh_tsd []) { unfinished_expected = true; errno = 4 };
}

start-LeavesErrno_example : LeavesErrno 4 (start notice_set interrupted)
start-LeavesErrno_example = start-LeavesErrno notice_set interrupted
