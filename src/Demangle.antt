-- ===== src/Demangle.antt =====
-- The demangler of include/cwd_demangle.h and src/demangle.cxx. Here is the cursor of its session: `str`
-- is the text up to its NUL, and `len` is maxpos_ + 1. Leaf has the decoders that call no other part
-- of the grammar, where what the language leaves undefined, an int overflow or a read behind the NUL,
-- is `undefined`; Machine and Grammar have the rest.
pub mod Leaf
pub mod Cursor
pub mod Names
pub mod Numbers
pub mod Bounds
pub mod Within
pub mod Operators
pub mod Perfect
pub mod Machine
pub mod Qualifiers
pub mod Grammar
pub mod Kept
pub mod Steps
pub mod Endless
pub mod Thunk
pub mod SeqId
pub mod Library
pub mod Decimal
pub mod Runs
mod Examples
mod Samples
use libcwd.Base.{
  ℕ, suc, zero, ◌+◌, ◌-◌, Bool, true, false, ◌&&◌, Option, none, some, List, [], ◌∷◌, ltb, leb,
  ◌==◌, if◌then◌else◌, length,
}

abbrev pub Bytes : Type 0
Bytes = List ℕ

pub record Session : Type 0 where
  pub str : Bytes
  pub len : ℕ
  pub pos : ℕ
  pub result : Bool

-- What a decoder returns, with the session and the output that it leaves.
pub data Outcome : Type 0 where
  returned : Bool → Session → Bytes → Outcome
  undefined : Outcome

-- A character of the text; behind its end there is the NUL.
unfoldable pub char_at : Bytes → ℕ → ℕ
char_at [] i = 0
char_at (c ∷ s) zero = c
char_at (c ∷ s) (suc i) = char_at s i

unfoldable pub current : Session → ℕ
current s = if ltb s.pos s.len then char_at s.str s.pos else 0

abbrev pub advance : ℕ → Session → Session
advance n s = record s { pos = s.pos + n }

unfoldable pub next_peek : Session → ℕ
next_peek s = if ltb (s.pos + 1) s.len then char_at s.str (s.pos + 1) else 0

-- `next` and `eat_current` return a character and move on, but not at the end.
unfoldable pub next : Session → Session
next s = if ltb (s.pos + 1) s.len then advance 1 s else s

unfoldable pub eat_current : Session → Session
eat_current s = if ltb s.pos s.len then advance 1 s else s

unfoldable pub is_digit : ℕ → Bool
is_digit c = leb 48 c && leb c 57

unfoldable pub is_lower : ℕ → Bool
is_lower c = leb 97 c && leb c 122

unfoldable pub is_upper : ℕ → Bool
is_upper c = leb 65 c && leb c 90

unfoldable pub to_lower : ℕ → ℕ
to_lower c = if is_upper c then c + 32 else c

-- _GLIBCXX_DEMANGLER_FAILURE and _GLIBCXX_DEMANGLER_RETURN
abbrev pub failure : Session → Bytes → Outcome
failure s output = returned false (record s { result = false }) output

abbrev pub give_back : Session → Bytes → Outcome
give_back s output = returned s.result s output
