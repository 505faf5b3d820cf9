-- ===== src/Escape/Decode.antt =====
-- The escapes read back.
use libcwd.Base.{
  ℕ, suc, zero, ◌+◌, ◌-◌, ◌*◌, ◌/◌, ◌%◌, ◌<◌, ◌≡◌, refl, false, ◌&&◌, Option, none, some, List, [],
  ◌∷◌, ◌++◌, ltb, ◌==◌, if◌then◌else◌, length, All, arith, Bool-cases, ==_iff, inl, inr, ◌>>=◌,
}
use libcwd.Escape.{is_printed, hex_digit, table_char, print_escaped_char, char2str, buf2str}

abbrev unhex : ℕ → ℕ
unhex d = if ltb d 58 then d - 48 else d - 55

-- The byte that a letter behind a backslash stands for.
abbrev letter : ℕ → ℕ
letter d =
    if d == 97
    then 7
    else if d == 98
    then 8
    else if d == 116
    then 9
    else if d == 110
    then 10
    else if d == 118
    then 11
    else if d == 102
    then 12
    else if d == 114
    then 13
    else if d == 101
    then 27
    else 92

abbrev read_hex : List ℕ → Option (ℕ × List ℕ)
read_hex [] = none
read_hex (h ∷ []) = none
read_hex (h ∷ l ∷ r) = some (unhex h * 16 + unhex l, r)

abbrev read_escape : List ℕ → Option (ℕ × List ℕ)
read_escape [] = none
read_escape (d ∷ r) = if d == 120 then read_hex r else some (letter d, r)

-- One byte off the front of an escaped text.
abbrev pub read_char : List ℕ → Option (ℕ × List ℕ)
read_char [] = none
read_char (c ∷ r) = if c == 92 then read_escape r else some (c, r)

-- An escaped text of `n` bytes.
abbrev pub decode : ℕ → List ℕ → Option (List ℕ)
decode zero r = some []
decode (suc n) r = read_char r >>= λ (c, r'). decode n r' >>= λ s. some (c ∷ s)

unhex-hex_digit : (h : ℕ) → h < 16 → unhex (hex_digit h) ≡ h
unfolding hex_digit
unhex-hex_digit h lt = ground arith

-- Entry `i` of the table stands for byte 7 + i, and is no `x`.
abbrev IsEntry : ℕ → Type 0
IsEntry i = (letter (table_char i) ≡ i + 7) × ((table_char i == 120) ≡ false)

table-IsEntry : (i : ℕ) → i < 7 → IsEntry i
unfolding table_char
table-IsEntry zero lt = (refl, refl)
table-IsEntry (suc zero) lt = (refl, refl)
table-IsEntry (suc (suc zero)) lt = (refl, refl)
table-IsEntry (suc (suc (suc zero))) lt = (refl, refl)
table-IsEntry (suc (suc (suc (suc zero)))) lt = (refl, refl)
table-IsEntry (suc (suc (suc (suc (suc zero))))) lt = (refl, refl)
table-IsEntry (suc (suc (suc (suc (suc (suc zero)))))) lt = (refl, refl)
table-IsEntry (suc (suc (suc (suc (suc (suc (suc i))))))) lt = absurd (omega (arith, lt))

read-table :
    (c : ℕ) (r : List ℕ) → 6 < c → c < 14 → read_char (92 ∷ table_char (c - 7) ∷ r) ≡ some (c, r)
read-table c r a b =
    let (e, e') = table-IsEntry (c - 7) (omega (arith, a, b)) in
    let back : c - 7 + 7 ≡ c = omega (arith, a) in rw (e', e, back) refl

read-hex :
    (c : ℕ) (r : List ℕ)
    → c < 256
    → read_char (92 ∷ 120 ∷ hex_digit (c / 16) ∷ hex_digit (c % 16) ∷ r) ≡ some (c, r)
read-hex c r lt =
    let whole : c / 16 * 16 + c % 16 ≡ c = omega arith in
    rw (unhex-hex_digit (c / 16) (omega (arith, lt)), unhex-hex_digit (c % 16) (omega arith), whole)
      refl

read_char-char2str : (c : ℕ) (r : List ℕ) → c < 256 → read_char (char2str c ++ r) ≡ some (c, r)
unfolding char2str is_printed print_escaped_char
read_char-char2str c r lt = elim (Bool-cases (is_printed c)) [
  | inl e ↦
      let not_slash : (c == 92) ≡ false = ground (arith, e) in rw (char2str, e, not_slash) refl
  | inr e ↦ elim (Bool-cases (ltb 6 c && ltb c 14)) [
    | inl e1 ↦
        rw (char2str, e, print_escaped_char, e1)
          (read-table c r (ground (arith, e1)) (ground (arith, e1)))
    | inr e1 ↦ elim (Bool-cases (c == 27)) [
      | inl e2 ↦ rw (char2str, e, print_escaped_char, e1, e2) (rw ((==_iff c 27).0 e2) refl)
      | inr e2 ↦ elim (Bool-cases (c == 92)) [
        | inl e3 ↦ rw (char2str, e, print_escaped_char, e1, e2, e3) (rw ((==_iff c 92).0 e3) refl)
        | inr e3 ↦ rw (char2str, e, print_escaped_char, e1, e2, e3) (read-hex c r lt)
      ]
    ]
  ]
]

-- What is written out for a buffer of bytes reads back as the buffer.
pub decode-buf2str : (s : List ℕ) → All (λ c. c < 256) s → decode (length s) (buf2str s) ≡ some s
unfolding buf2str
decode-buf2str [] bytes = refl
decode-buf2str (c ∷ s) bytes =
    rw (read_char-char2str c (buf2str s) bytes.0, decode-buf2str s bytes.1) refl
