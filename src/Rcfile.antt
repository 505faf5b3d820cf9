-- ===== src/Rcfile.antt =====
-- The runtime configuration file: class RcFile, src/utils/rcfile.cxx and include/libcwd/RcFile.h, with
-- CWDEBUG_LOCATION and HAVE_PWD_H. The environment, the password entry and the files are the record
-- `Env`. A channel's entry of off_cnt_array is found by its index. What goes to Dout is a `Message`,
-- kept while its channel is on; libcw_do itself is taken to be on.
pub mod Text
pub mod Switching
pub mod Locate
pub mod Read
pub mod Kept
pub mod Lines
pub mod Tokens
pub mod Other
pub mod Switched
pub mod Effects
pub mod Passes
pub mod Sound
pub mod Found
pub mod Turns
pub mod Keywords
pub mod Restored
mod Samples
use libcwd.Base.{ℕ, Bool, Option, none, some, List, ◌∷◌, if◌then◌else◌}
use libcwd.Base.Int.{ℤ}
use libcwd.Channels
use libcwd.Channels.{Channel}
use libcwd.Dout.{update}
use libcwd.Switches.{is_on}

abbrev pub Bytes : Type 0
Bytes = List ℕ

-- What stat and access say of a name.
pub data Access : Type 0 where
  absent unreadable readable : Access

pub record Env : Type 0 where
  -- LIBCWD_RCFILE_NAME, LIBCWD_RCFILE_OVERRIDE_NAME and HOME
  pub rcfile_name : Option Bytes
  pub override_name : Option Bytes
  pub home : Option Bytes
  -- The pw_dir of getpwuid(getuid()).
  pub pw_dir : Option Bytes
  pub access : Bytes → Access
  -- What an ifstream opened by that name yields: nothing, if it cannot be opened.
  pub content : Bytes → Bytes

-- The visible channels, and those that RcFile names.
pub record Known : Type 0 where
  pub visible : List Channel
  pub rcfile : Channel
  pub warning : Channel
  pub elfutils : Channel

pub data Message : Type 0 where
  using_variable : ℕ → Bytes → Message
  neither_exists : Bytes → Bytes → Message
  using_default : Bytes → Message
  turned_on turned_off : Bytes → Message
  all_on : Message
  all_off : Bool → Message
  entry : Bytes → ℕ → Bytes → Bytes → Message
  already_set : Bytes → ℕ → ℕ → Message
  unknown : Bytes → ℕ → Bytes → Message

-- The members of the RcFile object with the switches, the indentation and the messages, last first.
pub record World : Type 0 where
  pub off_cnt : ℕ → ℤ
  pub said : List Message
  pub indent : ℕ
  pub konsole_command : Bytes
  pub gdb_bin : Bytes
  pub env_set : Bool
  pub elfutils_on : Bool
  pub read_called : Bool

-- A DoutFatal with its place, or a core_dump: of Channel::on, or of restore.
pub data Death : Type 0 where
  not_readable : Bytes → Death
  no_named_rcfile no_default_rcfile : Death
  syntax_error toggle_before_default : Bytes → ℕ → Death
  on_too_often not_balanced : Death

pub data Outcome (A : Type 0) : Type 0 where
  ok : A → World → Outcome A
  died : Death → Outcome A

abbrev pub M : Type 0 → Type 0
M A = World → Outcome A

infixl 5 ◌>>=◌ ◌>>◌
unfoldable pub ◌>>=◌ : {A B : Type 0} → M A → (A → M B) → M B
◌>>=◌ m f w = elim (m w) [ ok a w' ↦ f a w' | died d ↦ died d ]

abbrev pub ◌>>◌ : {B : Type 0} → M (Unit {0}) → M B → M B
m >> k = m >>= λ _. k

unfoldable pub return : {A : Type 0} → A → M A
return a w = ok a w

unfoldable pub skip : M (Unit {0})
skip w = ok tt w

unfoldable pub die : {A : Type 0} → Death → M A
die d w = died d

unfoldable pub branch : {A : Type 0} → Bool → M A → M A → M A
branch b m n w = if b then m w else n w

unfoldable pub when : Bool → M (Unit {0}) → M (Unit {0})
when b m w = if b then m w else ok tt w

unfoldable pub get : M World
get w = ok w w

unfoldable pub put : World → M (Unit {0})
put w' w = ok tt w'

-- Channel::is_on
abbrev pub channel_is_on : Channel → World → Bool
channel_is_on ch w = is_on (w.off_cnt ch.index)

abbrev pub set_off_cnt : Channel → ℤ → World → World
set_off_cnt ch n w = record w { off_cnt = update w.off_cnt ch.index n }

unfoldable pub channel_off : Channel → M (Unit {0})
channel_off ch w = ok tt (set_off_cnt ch (Channels.off (w.off_cnt ch.index)) w)

unfoldable pub channel_on : Channel → M (Unit {0})
channel_on ch w = elim (Channels.on (w.off_cnt ch.index)) [
  | none ↦ died on_too_often
  | some n ↦ ok tt (set_off_cnt ch n w)
]

-- __Dout(dc::channel, message)
unfoldable pub say : Channel → Message → M (Unit {0})
say ch msg w = ok tt (if channel_is_on ch w then record w { said = msg ∷ w.said } else w)
