-- ===== src/Dout/Whole.antt =====
-- A whole `Dout` of one thread: the theorem on a line with plain flags.
use libcwd.Base.{
  ℕ, ◌+◌, ◌≡◌, refl, Bool, true, false, not, ◌&&◌, ◌||◌, none, some, [], ◌∷◌, ◌++◌, if◌then◌else◌,
  Bool-cases, inl, inr,
}
use libcwd.Base.Int.{pos, ◌+ℤ◌, +ℤ_back, ltb_ℤ}
use libcwd.Dout.{
  ◌>>◌, ◌>>=◌, load, Bytes, OutputState, World, Outcome, ok, update, dummy, write, flushed,
}
use libcwd.Dout.Store.{update-update, update_self, when-false}
use libcwd.Dout.Start.{start, put_current, add_off, ChannelSet, target_of}
use libcwd.Dout.Writeto.{writeto}
use libcwd.Dout.Finish.{
  error_text, finish, finish_line, finish_text, always_flush_is_on, restore_current,
}
use libcwd.Dout.Scope.{dout, output}
use libcwd.Dout.Quiet.{HasLock, IsOwnLine, written, writeto-written, line_end}
use libcwd.Dout.Line.{start-started}
use libcwd.Dout.Plain.{
  IsPlain, top-nil, finish_output_lem, branch-false, pending-line_buffer, ended, line_state,
  with_line, prefix_of_line, started-with_line, put-with_line, when-put,
}

-- The world after a line of one thread: `text` is all of it.
abbrev pub line_done : World → ChannelSet → Bytes → World
line_done w cs text =
    let d = w.object in
    let tsd = w.tsd in
    let target = target_of (cs.mask) in
    let es = write target text ∷ d.events in
    let flushing = always_flush_is_on d || cs.mask.flush in
    let d' =
      line_end w.thread w.next text (not cs.mask.nonewline) true
        (record d { events = if flushing then flushed target ∷ es else es }) in
    record w {
      heap = update w.heap w.next none;
      next = w.next + 1;
      tsd = record tsd {
        current = dummy;
        start_expected = true;
        unfinished_expected = false;
        errno = w.errno_after d'.events w.tsd.errno;
      };
      object = d';
    }

module _ (strerror : ℕ → Bytes) (w : World) (cs : ChannelSet) (plain : IsPlain (cs.mask)) where
  finish_text_lem :
      (text : Bytes)
      → finish_text strerror (line_state w cs text) (with_line w cs text)
        ≡ ok tt (with_line w cs (ended (w.tsd) (cs.mask) text))
  unfolding finish_text
  finish_text_lem text =
      rw
        (
          ◌>>=◌,
          when-false cs.mask.error (put_current (error_text strerror w.tsd.errno))
              (with_line w cs text) plain.no_error,
          when-put cs.mask.nonewline w cs text (w.tsd.color_off ++ 10 ∷ []),
        )
        refl

  writeto-line :
      (text : Bytes) (fl nl : Bool)
      → HasLock w
      → IsOwnLine w
      → writeto w.next (target_of (cs.mask)) false fl nl true (with_line w cs text)
        ≡ ok tt (
            written
              (with_line w cs text)
              w.next
              (line_state w cs text)
              (target_of (cs.mask))
              false
              fl
              nl
              true)
  writeto-line text fl nl lock own =
      writeto-written (with_line w cs text) w.next (line_state w cs text) (target_of (cs.mask))
        false fl nl true (update_self w.heap w.next _) lock own refl

module _ (strerror : ℕ → Bytes) (w : World) (cs : ChannelSet) (plain : IsPlain (cs.mask)) where
  finish_line_lem :
      (text : Bytes)
      → HasLock w
      → IsOwnLine w
      → w.tsd.output_state_stack ≡ []
      → finish_line strerror w.next (line_state w cs text) (with_line w cs text)
        ≡ ok tt (line_done w cs (ended (w.tsd) (cs.mask) text))
  unfolding finish_line add_off restore_current
  finish_line_lem text lock own top_level =
      let w1 : World = record w { tsd = record (w.tsd) { off = w.tsd.off +ℤ pos 1 } } in
      let all = ended (w.tsd) (cs.mask) text in
      let fl = always_flush_is_on w.object || cs.mask.flush in
      rw
        (
          ◌>>=◌,
          finish_text_lem strerror w1 cs plain text,
          finish_output_lem w.next (cs.mask) (with_line w1 cs all) plain,
          writeto-line strerror w1 cs plain all fl (not cs.mask.nonewline) lock own,
          update-update,
          update-update,
          top-nil w.tsd.output_state_stack top_level,
          +ℤ_back,
          pending-line_buffer,
        )
        refl

  dout_steps :
      (o : OutputState) (text : Bytes) {r : Outcome (Unit {0})}
      → w.heap w.tsd.current ≡ some o
      → w.tsd.start_expected ≡ true
      → (o.mask.continued_cf && w.tsd.unfinished_expected) ≡ false
      → finish_line strerror w.next
          (line_state w cs (prefix_of_line w cs ++ text))
          (with_line w cs (prefix_of_line w cs ++ text))
        ≡ r
      → (start cs >> (put_current text >> finish strerror)) w ≡ r
  unfolding finish
  dout_steps o text live expected quiet k =
      rw
        (
          ◌>>=◌,
          start-started w cs o live expected quiet plain.starts,
          started-with_line w cs plain,
          put-with_line w cs (prefix_of_line w cs) text,
          load,
          update_self,
          branch-false cs.mask.continued_cf (not cs.mask.finish) _ _ _ plain.whole,
        )
        k

  -- A Dout on a channel that is on, with a text put into its stream and no control flag but those
  -- for the prefix, std::cerr, the newline and flushing; the current output state is there, no line
  -- of this thread is open and none is being continued, a lock is there or not needed, and no other
  -- thread has left the output in the middle of a line. Nothing happens while the debug object is
  -- off. While it is on, one write takes color_on, the prefix, the text and, unless nonewline_cf asks
  -- otherwise, color_off and a newline to the stream; it is flushed if flush_cf or always-flush says
  -- so; the new output state is freed; errno is as the write leaves it; and the rest of the thread's
  -- data and the object are as in `line_done`.
  pub dout-line_done :
      (o : OutputState) (text : Bytes)
      → w.heap w.tsd.current ≡ some o
      → w.tsd.start_expected ≡ true
      → (o.mask.continued_cf && w.tsd.unfinished_expected) ≡ false
      → w.tsd.output_state_stack ≡ []
      → HasLock w
      → IsOwnLine w
      → dout strerror (record { label = cs.label; mask = cs.mask; on = true }) (put_current text) w
        ≡ (if ltb_ℤ w.tsd.off (pos 0)
            then ok tt (line_done w cs (ended (w.tsd) (cs.mask) (prefix_of_line w cs ++ text)))
            else ok tt w)
  unfolding dout output
  dout-line_done o text live expected quiet top_level lock own =
      elim (Bool-cases (ltb_ℤ w.tsd.off (pos 0))) [
        | inl e ↦
            rw (◌>>=◌, e)
              (dout_steps o text live expected quiet
                (finish_line_lem (prefix_of_line w cs ++ text) lock own top_level))
        | inr e ↦ rw (◌>>=◌, e) refl
      ]
