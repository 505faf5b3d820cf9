-- ===== src/Dout/Plain.antt =====
-- A whole `Dout` of one thread, from the test of `_off` in LibcwDout to the end of `finish`.
use libcwd.Base.{
  ℕ, ◌+◌, ◌-◌, ◌≡◌, refl, List, sym, Bool, true, false, ap, ◌∙◌, not, ◌&&◌, ◌||◌, none, some, [],
  ◌∷◌, ◌++◌, arith, if◌then◌else◌, Bool-cases, inl, inr, length, take, drop_past, append_nil,
  take-length, length-append,
}
use libcwd.ControlFlag.{ControlFlag}
use libcwd.DebugStack.{top}
use libcwd.Dout.{◌>>=◌, load, when, Bytes, Tsd, OutputState, World, ok, update, Buffer, M, branch}
use libcwd.Dout.Store.{update-update, update_self}
use libcwd.Dout.Streambuf.{empty_buffer, sputn, pending}
use libcwd.Dout.Start.{prefix_text, put_current, ChannelSet, target_of}
use libcwd.Dout.Writeto.{writeto}
use libcwd.Dout.Finish.{finish_output, any_flag, always_flush_is_on}
use libcwd.Dout.Line.{in_line, started}

-- No control flag but those for the margin, label, marker, std::cerr, newline and flushing.
pub record IsPlain (m : ControlFlag) : Type 0 where
  pub starts : (m.continued || m.finish) ≡ false
  pub whole : m.continued_cf ≡ false
  pub lives : (m.coredump || m.fatal) ≡ false
  pub runs_on : m.wait ≡ false
  pub no_error : m.error ≡ false

pub top-nil : (s : List ℕ) → s ≡ [] → top s ≡ none
unfolding top
top-nil s e = rw (e) refl

or_false : (b : Bool) → b ≡ (b || false)
or_false true = refl
or_false false = refl

any_flag-flush : (m : ControlFlag) → any_flag m ≡ false → m.flush ≡ false
any_flag-flush m e = ground arith

pub finish_output_lem :
    (p : ℕ) (m : ControlFlag) (w : World)
    → IsPlain m
    → finish_output p m w
      ≡ writeto p
          (target_of m)
          false
          (always_flush_is_on w.object || m.flush)
          (not m.nonewline)
          true
          w
unfolding finish_output
finish_output_lem p m w plain = elim (Bool-cases (any_flag m)) [
  | inl e ↦ rw (◌>>=◌, e, plain.lives, plain.runs_on) refl
  | inr e ↦
      rw (◌>>=◌, e, any_flag-flush m e)
        (ap (λ b. writeto p (target_of m) false b (not m.nonewline) true w)
          (or_false (always_flush_is_on w.object)))
]

pub branch-false :
    {A : Type 0} (b c : Bool) (m n : M A) (w : World) → b ≡ false → branch (b && c) m n w ≡ n w
branch-false b c m n w e = rw (e) refl

-- A buffer that only appends.
abbrev line_buffer : Bytes → Buffer
line_buffer s = record empty_buffer { chars = s; out_pos = length s }

sputn-line_buffer : (s t : Bytes) → sputn t (line_buffer s) ≡ line_buffer (s ++ t)
unfolding sputn
sputn-line_buffer s t =
    rw
      (
        take-length s,
        drop_past (length s + length t) s (omega arith),
        append_nil t,
        sym (length-append s t),
      )
      refl

pub pending-line_buffer : (s : Bytes) → pending (line_buffer s) ≡ s
unfolding pending
pending-line_buffer s =
    let e : length s - 0 ≡ length s = omega arith in ap (λ n. take n s) e ∙ take-length s

-- The text of the line with what `finish` puts behind it.
abbrev pub ended : Tsd → ControlFlag → Bytes → Bytes
ended tsd m text = if m.nonewline then text else text ++ (tsd.color_off ++ 10 ∷ [])

abbrev pub line_state : World → ChannelSet → Bytes → OutputState
line_state w cs text = record {
  buffer = line_buffer text;
  mask = cs.mask;
  label = cs.label;
  err = w.tsd.errno;
}

abbrev pub with_line : World → ChannelSet → Bytes → World
with_line w cs text = record w {
  heap = update w.heap w.next (some (line_state w cs text));
  next = w.next + 1;
  tsd = in_line w.tsd w.next;
}

abbrev pub prefix_of_line : World → ChannelSet → Bytes
prefix_of_line w cs = w.tsd.color_on ++ prefix_text (w.tsd) (cs.mask) w.max_len (cs.label)

pub started-with_line :
    (w : World) (cs : ChannelSet)
    → IsPlain (cs.mask)
    → started w cs ≡ with_line w cs (prefix_of_line w cs)
unfolding sputn prefix_text
started-with_line w cs plain = rw (plain.whole, sputn-line_buffer [] (prefix_of_line w cs)) refl

pub put-with_line :
    (w : World) (cs : ChannelSet) (text more : Bytes)
    → put_current more (with_line w cs text) ≡ ok tt (with_line w cs (text ++ more))
unfolding put_current
put-with_line w cs text more =
    rw (◌>>=◌, load, update_self, update-update, sputn-line_buffer text more) refl

pub when-put :
    (b : Bool) (w : World) (cs : ChannelSet) (text more : Bytes)
    → when (not b) (put_current more) (with_line w cs text)
      ≡ ok tt (with_line w cs (if b then text else text ++ more))
when-put true w cs text more = refl
when-put false w cs text more = put-with_line w cs text more
