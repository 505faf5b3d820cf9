-- ===== src/Dout/Line.antt =====
-- One line of debug output from its first to its last step.
use libcwd.Base.{ℕ, ◌+◌, ◌≡◌, refl, true, false, ◌&&◌, ◌||◌, some, ◌++◌, arith, if◌then◌else◌}
use libcwd.Base.Int.{+ℤ_back}
use libcwd.ControlFlag.{ControlFlag}
use libcwd.Dout.{◌>>=◌, load, Bytes, Tsd, OutputState, World, ok, update}
use libcwd.Dout.Streambuf.{empty_buffer, sputn, store_position}
use libcwd.Dout.Start.{
  start_line, new_output_state, put_current, max_len_of, prefix_text, start, start_new, add_off,
  ChannelSet,
}

-- The thread's data while its line at `p` is being written.
abbrev pub in_line : Tsd → ℕ → Tsd
in_line tsd p = record tsd { current = p; start_expected = false; unfinished_expected = true }

abbrev pub new_state : World → ControlFlag → Bytes → OutputState
new_state w mask label = record {
  buffer =
      let b =
        sputn (w.tsd.color_on ++ prefix_text (in_line w.tsd w.next) mask w.max_len label)
          empty_buffer in
      if mask.continued_cf then store_position b else b;
  mask = mask;
  label = label;
  err = w.tsd.errno;
}

-- The world after `start` of a line that interrupts nothing and is nested in nothing.
abbrev pub started : World → ChannelSet → World
started w cs = record w {
  heap = update w.heap w.next (some (new_state w (cs.mask) (cs.label)));
  next = w.next + 1;
  tsd = in_line w.tsd w.next;
}

pub start_line_lem :
    (mask : ControlFlag) (label : Bytes) (w : World)
    → start_line mask label w
      ≡ ok tt (record w {
        heap = update w.heap w.next (some (new_state w mask label));
        next = w.next + 1;
        tsd = in_line w.tsd w.next;
      })
unfolding start_line new_output_state put_current max_len_of update
start_line_lem mask label w = ground arith

pub start-started :
    (w : World) (cs : ChannelSet) (o : OutputState)
    → w.heap w.tsd.current ≡ some o
    → w.tsd.start_expected ≡ true
    → (o.mask.continued_cf && w.tsd.unfinished_expected) ≡ false
    → (cs.mask.continued || cs.mask.finish) ≡ false
    → start cs w ≡ ok tt (started w cs)
unfolding start start_new add_off prefix_text
start-started w cs o live expected quiet plain =
    rw (plain, ◌>>=◌, load, live, quiet, expected, start_line_lem, expected, +ℤ_back) refl
