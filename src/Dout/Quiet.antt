-- ===== src/Dout/Quiet.antt =====
-- Buffer::writeto where it interrupts no other thread's line and continues no cut-off line.
use libcwd.Base.{
  ℕ, ◌≡◌, refl, Bool, true, false, not, ◌&&◌, Option, none, some, ◌∷◌, arith, if◌then◌else◌, ltb,
  length, ◌⊎◌, inl, inr, ◌==◌, Bool-cases, List,
}
use libcwd.Dout.{
  ◌>>=◌, ◌>>◌, load, when, emit, Bytes, OutputState, DebugObject, World, Target, Event, write,
  flushed, ok, update, flush_os,
}
use libcwd.Dout.Store.{update_self, update-update, step}
use libcwd.Dout.Streambuf.{pending, consume}
use libcwd.Dout.Writeto.{
  writeto, write_out, check_lock, interrupt_other, resume, note_end, emit_if_any, unfinished_text,
}

-- The lock is there, or not needed.
abbrev pub HasLock : World → Type 0
HasLock w = (not w.object.has_mutex && w.multi_threaded && not w.second_time) ≡ false

-- No other thread has left the output in the middle of a line.
abbrev pub IsOwnLine : World → Type 0
IsOwnLine w = (w.object.newlineless_tsd ≡ none) ⊎ (w.object.newlineless_tsd ≡ some w.thread)

abbrev pub if_any_event : Target → Bytes → List Event → List Event
if_any_event target s es = if ltb 0 (length s) then write target s ∷ es else es

abbrev pub cut_events : Bool → Target → Bytes → List Event → List Event
cut_events b target s es = if b then write target unfinished_text ∷ if_any_event target s es else es

-- The events of the write itself.
abbrev pub write_events : World → OutputState → Target → Bytes → Bool → Bool → DebugObject
write_events w o target msg request_unfinished do_flush =
    let d = w.object in
    let cut =
      cut_events (request_unfinished && not o.buffer.unfinished_already_printed) target
        (w.tsd.color_off) (write target msg ∷ d.events) in
    record d { events = if do_flush then flushed target ∷ cut else cut }

-- How the object knows afterwards in what line the output is.
abbrev pub line_end : ℕ → ℕ → Bytes → Bool → Bool → DebugObject → DebugObject
line_end t p msg ends_on_newline possible_nonewline_cf d =
    if ends_on_newline
    then record d { unfinished_oss = none; newlineless_tsd = none }
    else if ltb 0 (length msg)
    then record d {
      newlineless_tsd = some t;
      unfinished_oss = if possible_nonewline_cf then none else some p;
    }
    else d

abbrev pub written_state : OutputState → Bool → OutputState
written_state o ends_on_newline =
    let b = o.buffer in
    record o { buffer = record b { unfinished_already_printed = ends_on_newline } }

abbrev pub written : World → ℕ → OutputState → Target → Bool → Bool → Bool → Bool → World
written w p o target request_unfinished do_flush ends_on_newline possible_nonewline_cf =
    let d =
      line_end w.thread p (pending o.buffer) ends_on_newline possible_nonewline_cf
        (write_events w o target (pending o.buffer) request_unfinished do_flush) in
    record w {
      heap =
          update w.heap p
            (some (written_state (record o { buffer = consume (o.buffer) }) ends_on_newline));
      object = d;
      tsd = record (w.tsd) { errno = w.errno_after d.events w.tsd.errno };
    }

other_is_this : (u t : ℕ) → (some u ≡ none) ⊎ (some u ≡ some t) → (u == t) ≡ true
other_is_this u t h = ground arith

abbrev pub with_events : World → List Event → World
with_events w es = record w { object = record (w.object) { events = es } }

pub emit_if_any_lem :
    (target : Target) (s : Bytes) (w : World)
    → emit_if_any target s w ≡ ok tt (with_events w (if_any_event target s w.object.events))
emit_if_any_lem target s w = elim (Bool-cases (ltb 0 (length s))) [
  | inl e ↦ rw (e)
  | inr e ↦ rw (e)
]

cut_lem :
    (b : Bool) (target : Target) (s : Bytes) (w : World)
    → when b (emit_if_any target s >> emit target unfinished_text) w
      ≡ ok tt (with_events w (cut_events b target s w.object.events))
cut_lem false target s w = refl
cut_lem true target s w = step (emit_if_any target s) _ w _ tt _ (emit_if_any_lem target s w) refl

flush_lem :
    (b : Bool) (target : Target) (w : World)
    → when b (flush_os target) w
      ≡ ok tt (with_events w (if b then flushed target ∷ w.object.events else w.object.events))
flush_lem false target w = refl
flush_lem true target w = refl

note_end_lem :
    (p n : ℕ) (nl pn : Bool) (w : World) (msg : Bytes)
    → n ≡ length msg
    → note_end p n nl pn w ≡ ok tt (record w { object = line_end w.thread p msg nl pn w.object })
unfolding note_end
note_end_lem p n true pn w msg e = refl
note_end_lem p n false pn w msg e = elim (Bool-cases (ltb 0 (length msg))) [
  | inl c ↦ rw (e, c)
  | inr c ↦ rw (e, c)
]

write_out_lem :
    (w : World) (p : ℕ) (o : OutputState) (target : Target) (msg : Bytes) (req fl nl pn : Bool)
    → w.heap p ≡ some o
    → write_out p target msg req fl nl pn w
      ≡ ok tt (record w {
        heap = update w.heap p (some (written_state o nl));
        object = line_end w.thread p msg nl pn (write_events w o target msg req fl);
      })
unfolding write_out
write_out_lem w p o target msg req fl nl pn live =
    rw
      (
        ◌>>=◌,
        load,
        live,
        cut_lem (req && not o.buffer.unfinished_already_printed) target,
        flush_lem fl target,
        note_end_lem p (length msg) nl pn _ msg refl,
      )
      refl

interrupt_other_quiet :
    (p : ℕ) (target : Target) (w : World) (u : Option ℕ)
    → (u ≡ none) ⊎ (u ≡ some w.thread)
    → interrupt_other p target u w ≡ ok tt w
unfolding interrupt_other
interrupt_other_quiet p target w none h = refl
interrupt_other_quiet p target w (some u) h = rw (other_is_this u w.thread h) refl

resume_quiet :
    (p n : ℕ) (target : Target) (w : World) (o : OutputState)
    → w.heap p ≡ some o
    → o.buffer.continued_needed ≡ false
    → resume p target n w ≡ ok tt w
unfolding resume
resume_quiet p n target w o live fresh = rw (◌>>=◌, load, live, fresh)

-- Buffer::writeto with a lock or no need of one, while no other thread has left the output in the
-- middle of a line and no cut-off line has to be continued: the text goes out, then `<unfinished>`
-- if it is asked for and was not yet printed, then the flush, and the object and the buffer note in
-- what line the output is, and errno is as the writes leave it, as `written` spells out.
pub writeto-written :
    (w : World) (p : ℕ) (o : OutputState) (target : Target) (req fl nl pn : Bool)
    → w.heap p ≡ some o
    → HasLock w
    → IsOwnLine w
    → o.buffer.continued_needed ≡ false
    → writeto p target req fl nl pn w ≡ ok tt (written w p o target req fl nl pn)
unfolding writeto check_lock consume
writeto-written w p o target req fl nl pn live lock own fresh =
    let o' : OutputState = record o { buffer = consume (o.buffer) } in
    let w' : World = record w { heap = update w.heap p (some o') } in
    rw
      (
        ◌>>=◌,
        load,
        live,
        lock,
        interrupt_other_quiet p target w' w.object.newlineless_tsd own,
        resume_quiet p (length (pending o.buffer)) target w' o' (update_self w.heap p _) fresh,
        write_out_lem w' p o' target (pending o.buffer) req fl nl pn (update_self w.heap p _),
        update-update,
      )
      refl
