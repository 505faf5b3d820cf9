-- ===== src/Escape/Samples.antt =====
-- Escaped bytes.
use libcwd.Base.{ℕ, ◌≡◌, refl, some, List, [], ◌∷◌, codes, arith}
use libcwd.Escape.{buf2str, char2str, is_printed, print_escaped_char, hex_digit, table_char}
use libcwd.Escape.Decode.{decode, decode-buf2str}

-- Escape, A, newline, backslash, a byte above 127.
abbrev bytes : List ℕ
bytes = 27 ∷ 65 ∷ 10 ∷ 92 ∷ 233 ∷ []

-- The number is written in hexadecimal digits.
escaped_run : buf2str bytes ≡ codes "\\eA\\n\\\\\\xE9"
unfolding buf2str char2str is_printed print_escaped_char hex_digit table_char
escaped_run = refl

decode-buf2str_example : decode 5 (buf2str bytes) ≡ some bytes
decode-buf2str_example =
    decode-buf2str bytes
      (omega arith, (omega arith, (omega arith, (omega arith, (omega arith, tt)))))
