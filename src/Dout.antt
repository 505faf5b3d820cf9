-- ===== src/Dout.antt =====
-- src/debug.cxx: the state of debug output, and the monad that `Dout` and its parts run in.
-- `World` holds one DebugObject, the running thread with its thread-specific data (__libcwd_tsd),
-- the data of the other threads, and the heap of the OutputState objects. A pointer is a number; `dummy` is the address of WST_dummy_output_state.
-- Configuration: CWDEBUG_DEBUG, CWDEBUG_DEBUGT and CWDEBUG_DEBUGOUTPUT are 0.
pub mod Store
pub mod Streambuf
pub mod Writeto
pub mod Start
pub mod Finish
pub mod Scope
pub mod Balance
pub mod Quiet
pub mod Errno
pub mod Line
pub mod Plain
pub mod Whole
mod Samples
use libcwd.ControlFlag.{ControlFlag}
use libcwd.Base.{ℕ, Bool, Option, none, some, List, ◌∷◌, ◌==◌, if◌then◌else◌}
use libcwd.Base.Int.{ℤ}

abbrev pub Bytes : Type 0
Bytes = List ℕ

-- class Buffer over std::stringbuf: the characters, the put and get positions, and its own members.
pub record Buffer : Type 0 where
  pub chars : Bytes
  pub out_pos : ℕ
  pub in_pos : ℕ
  pub position : ℕ
  pub unfinished_already_printed : Bool
  pub continued_needed : Bool

pub record OutputState : Type 0 where
  pub buffer : Buffer
  pub mask : ControlFlag
  pub label : Bytes
  pub err : ℕ

-- DebugObject_ThreadSpecificData, with the entry `off` of debug_object_off_array, and the members
-- recursive_fatal and errno of the thread. `current_bufferstream` is the stream of `current`.
pub record Tsd : Type 0 where
  pub current : ℕ
  pub output_state_stack : List ℕ
  pub start_expected : Bool
  pub unfinished_expected : Bool
  pub off_count : ℤ
  pub continued_stack : List ℤ
  pub color_on : Bytes
  pub color_off : Bytes
  pub margin : Bytes
  pub marker : Bytes
  pub indent : ℕ
  pub off : ℤ
  pub recursive_fatal : Bool
  pub errno : ℕ

-- Where a write goes: the DebugObject's own ostream, or std::cerr.
pub data Target : Type 0 where
  real_os cerr_os : Target

pub data Event : Type 0 where
  write : Target → Bytes → Event
  flushed : Target → Event

pub record DebugObject : Type 0 where
  pub newlineless_tsd : Option ℕ
  pub unfinished_oss : Option ℕ
  pub always_flush : ℕ
  pub interactive : Bool
  pub has_mutex : Bool
  -- The events so far, the latest first.
  pub events : List Event

pub record World : Type 0 where
  pub heap : ℕ → Option OutputState
  pub next : ℕ
  pub thread : ℕ
  pub tsd : Tsd
  pub others : ℕ → Tsd
  pub object : DebugObject
  pub max_len : ℕ
  pub multi_threaded : Bool
  pub second_time : Bool
  pub fatal_termination_started : Bool
  pub stdin : Bytes
  -- What a write to a stream leaves in errno, by the events so far and what was in it.
  pub errno_after : List Event → ℕ → ℕ

abbrev pub dummy : ℕ
dummy = 0

-- Why a thread does not go on: a use of a deleted OutputState; DebugStack overflow and underflow;
-- `dc::continued` or `dc::finish` with no `continued_cf`; several threads and no lock; abort();
-- _Exit(180); another thread is already terminating; reading std::cin past its end for ever.
pub data Death : Type 0 where
  dangling stack_overflow pop_error continued_misuse no_lock aborted exited waiting stuck_input :
      Death

pub data Outcome (A : Type 0) : Type 0 where
  ok : A → World → Outcome A
  dead : Death → World → Outcome A

abbrev pub M : Type 0 → Type 0
M A = World → Outcome A

infixl 5 ◌>>=◌ ◌>>◌
abbrev pub ◌>>=◌ : {A B : Type 0} → M A → (A → M B) → M B
◌>>=◌ m f w = elim (m w) [ ok a w' ↦ f a w' | dead d w' ↦ dead d w' ]

abbrev pub ◌>>◌ : {B : Type 0} → M (Unit {0}) → M B → M B
m >> k = m >>= λ _. k

abbrev pub return : {A : Type 0} → A → M A
return a w = ok a w

abbrev pub skip : M (Unit {0})
skip w = ok tt w

abbrev pub die : {A : Type 0} → Death → M A
die d w = dead d w

-- `if` between two actions.
abbrev pub branch : {A : Type 0} → Bool → M A → M A → M A
branch b m n w = if b then m w else n w

abbrev pub when : Bool → M (Unit {0}) → M (Unit {0})
when b m w = if b then m w else ok tt w

unfoldable pub update {ℓ} : {A : Type ℓ} → (ℕ → A) → ℕ → A → ℕ → A
update f k v j = if j == k then v else f j

abbrev pub load : ℕ → M OutputState
load p w = elim (w.heap p) [ none ↦ dead dangling w | some o ↦ ok o w ]

abbrev pub store : ℕ → OutputState → M (Unit {0})
store p o w = ok tt (record w { heap = update w.heap p (some o) })

abbrev pub delete : ℕ → M (Unit {0})
delete p w = ok tt (record w { heap = update w.heap p none })

abbrev pub this_thread : M ℕ
this_thread w = ok w.thread w

abbrev pub get_tsd : M Tsd
get_tsd w = ok w.tsd w

abbrev pub set_tsd : Tsd → M (Unit {0})
set_tsd x w = ok tt (record w { tsd = x })

abbrev pub other_tsd : ℕ → M Tsd
other_tsd u w = ok (w.others u) w

-- Another thread runs.
pub switch_to : ℕ → World → World
switch_to u w = record w {
  thread = u;
  tsd = if u == w.thread then w.tsd else w.others u;
  others = update w.others w.thread w.tsd;
}

abbrev pub get_object : M DebugObject
get_object w = ok w.object w

abbrev pub set_object : DebugObject → M (Unit {0})
set_object d w = ok tt (record w { object = d })

abbrev pub set_errno : ℕ → M (Unit {0})
set_errno n w = ok tt (record w { tsd = record (w.tsd) { errno = n } })

-- What the writes before it do to errno.
abbrev pub touch_errno : M (Unit {0})
touch_errno w = set_errno (w.errno_after w.object.events w.tsd.errno) w

-- os->write(text)
abbrev pub emit : Target → Bytes → M (Unit {0})
emit target text w =
    ok tt (record w { object = record (w.object) { events = write target text ∷ w.object.events } })

abbrev pub flush_os : Target → M (Unit {0})
flush_os target w =
    ok tt (record w { object = record (w.object) { events = flushed target ∷ w.object.events } })
