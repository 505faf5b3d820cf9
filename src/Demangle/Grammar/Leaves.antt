-- ===== src/Demangle/Grammar/Leaves.antt =====
-- The decoders of literals and numbers with their loops: decode_real, and the values of a
-- <template-param> and of a <seq-id>, which are unsigned 32-bit integers.
use libcwd.Base.{
  ℕ, suc, zero, ◌+◌, ◌-◌, ◌*◌, ◌/◌, ◌%◌, ◌^◌, Bool, true, false, ◌&&◌, ◌||◌, Option, none, some,
  List, [], ◌∷◌, ltb, leb, ◌==◌, if◌then◌else◌, length,
}
use libcwd.Demangle.{Bytes, is_digit, is_upper}
use libcwd.Demangle.Machine.{
  M, ◌>>=◌, ◌>>◌, return, branch, stop, overrun, frame, fail, give, position, read_current,
  read_next, restore_pos, emit, put, ◌is◌, ◌>>!◌,
}
use libcwd.Demangle.Grammar.{ImplementationDetails}

abbrev pub unsigned_limit : ℕ
unsigned_limit = 2 ^ 32

-- value = value * 36 + ...
abbrev pub base36_step : ℕ → ℕ → ℕ
base36_step value c = (value * 36 + (if is_digit c then c - 48 else c - 65 + 10)) % unsigned_limit

-- for (;; c = next()); `none` is a FAILURE. Each turn but the last moves on.
unfoldable pub seq_id_loop : ℕ → ℕ → ℕ → M (Option ℕ)
seq_id_loop zero value c w = stop w
seq_id_loop (suc fuel) value c w =
    branch (is_digit c || is_upper c) (read_next >>= seq_id_loop fuel (base36_step value c))
      (branch (c is "_") (return (some ((value + 1) % unsigned_limit))) (fail >>= λ _. return none))
      w

-- while (isdigit(c))
unfoldable pub parameter_loop : ℕ → ℕ → ℕ → M ℕ
parameter_loop zero value c w = stop w
parameter_loop (suc fuel) value c w =
    branch (is_digit c) (read_next >>= parameter_loop fuel ((value * 10 + c - 48) % unsigned_limit))
      (return ((value + 1) % unsigned_limit)) w

-- Enough for each character of the text.
abbrev pub text_fuel : M ℕ
text_fuel = frame >>= λ fr. return (suc (length fr.cursor.str))

abbrev pub is_hex : ℕ → Bool
is_hex c = leb 48 c && leb c 57 || leb 97 c && leb c 102

abbrev pub nibble_of : ℕ → ℕ
nibble_of c = if leb c 57 then c - 48 else c - 97 + 10

-- The first nibble is shifted in an int and goes to 64 bits with its sign.
abbrev pub first_nibble : ℕ → ℕ
first_nibble n = if ltb n 8 then n * 2 ^ 28 else n * 2 ^ 28 + 2 ^ 64 - 2 ^ 32

-- The nibbles of a word, `n` of which are left, and the character behind them. `none` is a FAILURE.
unfoldable pub read_word : ℕ → ℕ → ℕ → M (Option (ℕ × ℕ))
read_word zero word c w = return (some (word, c)) w
read_word (suc n) word c w =
    let word' = if n == 7 then first_nibble (nibble_of c) else word + nibble_of c * 16 ^ n in
    branch (is_hex c) (read_next >>= read_word n word') (fail >>= λ _. return none) w

abbrev pub cons_word : ℕ → Option (List ℕ) → Option (List ℕ)
cons_word word none = none
cons_word word (some words) = some (word ∷ words)

unfoldable pub more_words : (ℕ → M (Option (List ℕ))) → Option (ℕ × ℕ) → M (Option (List ℕ))
more_words rest none w = return none w
more_words rest (some (word, c)) w = (rest c >>= λ words. return (cons_word word words)) w

unfoldable pub read_words : ℕ → ℕ → M (Option (List ℕ))
read_words zero c w = return (some []) w
read_words (suc n) c w = (read_word 8 0 c >>= more_words (read_words n)) w

-- The digits as they are.
unfoldable pub copy_hex : ℕ → ℕ → ℕ → M Bool
copy_hex output zero c w = return true w
copy_hex output (suc n) c w =
    branch (is_hex c) (emit output (c ∷ []) >>= λ _. read_next >>= copy_hex output n) fail w

-- char buf[24], with a NUL
unfoldable pub put_real : ℕ → ℕ → ℕ → Option Bytes → M Bool
put_real output size saved_pos (some buf) w =
    branch (ltb (length buf) 24) (emit output buf >>= λ _. give) overrun w
put_real output size saved_pos none w =
    (do
      restore_pos saved_pos
      put output "["
      c ← read_current
      copy_hex output (2 * size) c >>! (put output "]" >>= λ _. give))
      w

unfoldable pub after_words : ImplementationDetails → ℕ → ℕ → ℕ → Option (List ℕ) → M Bool
after_words id output size saved_pos none w = return false w
after_words id output size saved_pos (some words) w =
    put_real output size saved_pos (id.override_real words size) w

unfoldable pub decode_real : ImplementationDetails → ℕ → ℕ → M Bool
decode_real id output size w =
    (do
      saved_pos ← position
      c ← read_current
      words ← read_words (size / 4) c
      after_words id output size saved_pos words)
      w
