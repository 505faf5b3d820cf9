-- ===== src/Escape.antt =====
-- src/utils/char2str.cxx, include/libcwd/char2str.h and include/libcwd/buf2str.h: bytes printed with
-- escapes. A char is a byte; it is signed, so one from 128 on is negative.
pub mod Decode
mod Samples
use libcwd.Base.{
  ℕ, ◌+◌, ◌-◌, ◌/◌, ◌%◌, Bool, true, false, not, ◌&&◌, ◌||◌, Option, none, some, List, [], ◌∷◌,
  ◌++◌, ltb, ◌==◌, if◌then◌else◌, get_elem?,
}

-- c2s_tab: a, b, t, n, v, f, r
abbrev pub c2s_tab : List ℕ
c2s_tab = 97 ∷ 98 ∷ 116 ∷ 110 ∷ 118 ∷ 102 ∷ 114 ∷ []

-- `c > 31 && c != 92 && c != 127`
unfoldable pub is_printed : ℕ → Bool
is_printed c = ltb 31 c && ltb c 128 && not (c == 92) && not (c == 127)

unfoldable pub hex_digit : ℕ → ℕ
hex_digit hd = if ltb hd 10 then 48 + hd else 65 + hd - 10

-- c2s_tab[i]; an index past the table is not used.
unfoldable pub table_char : ℕ → ℕ
table_char i = elim (get_elem? c2s_tab i) [ none ↦ 0 | some c ↦ c ]

unfoldable pub print_escaped_char : ℕ → List ℕ
print_escaped_char c =
    92
    ∷ (if ltb 6 c && ltb c 14
        then table_char (c - 7) ∷ []
        else if c == 27
        then 101 ∷ []
        else if c == 92
        then 92 ∷ []
        else 120 ∷ hex_digit (c / 16) ∷ hex_digit (c % 16) ∷ [])

unfoldable pub char2str : ℕ → List ℕ
char2str c = if is_printed c then c ∷ [] else print_escaped_char c

unfoldable pub buf2str : List ℕ → List ℕ
buf2str [] = []
buf2str (c ∷ s) = char2str c ++ buf2str s
