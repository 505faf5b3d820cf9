-- ===== src/Demangle/Leaf.antt =====
-- decode_non_negative_decimal_integer, decode_number, decode_builtin_type, decode_source_name and
-- decode_call_offset.
use libcwd.Base.{
  ℕ, suc, zero, ◌+◌, ◌-◌, ◌*◌, ◌^◌, Bool, true, false, not, ◌&&◌, ◌||◌, Option, none, some, List,
  [], ◌∷◌, ◌++◌, ltb, leb, ◌==◌, if◌then◌else◌, length, get_elem?, drop, codes, ◌>>=◌,
}
use libcwd.Demangle.{
  Bytes, Session, Outcome, returned, undefined, char_at, current, next_peek, next, eat_current,
  advance, is_digit, is_lower, failure, give_back,
}

-- do output += c; while (isdigit((c = next())));
unfoldable pub digits_loop : ℕ → ℕ → Session → Bytes → Session × Bytes
digits_loop zero c s output = (s, output)
digits_loop (suc fuel) c s output =
    let s' = next s in
    let c' = next_peek s in
    let rest = digits_loop fuel c' s' (output ++ c ∷ []) in
    if is_digit c' then rest else (s', output ++ c ∷ [])

-- At most one turn for each character.
unfoldable pub decode_non_negative_decimal_integer : Session → Bytes → Outcome
decode_non_negative_decimal_integer s output =
    if current s == 48
    then give_back (eat_current s) (output ++ 48 ∷ [])
    else if not (is_digit (current s))
    then failure s output
    else (let r = digits_loop (suc s.len) (current s) s output in give_back r.0 r.1)

unfoldable pub decode_number : Session → Bytes → Outcome
decode_number s output =
    if not (current s == 110)
    then decode_non_negative_decimal_integer s output
    else decode_non_negative_decimal_integer (eat_current s) (output ++ 45 ∷ [])

abbrev pub builtin_type_c : List (Option Bytes)
builtin_type_c =
    some (codes "signed char")
    ∷ some (codes "bool")
    ∷ some (codes "char")
    ∷ some (codes "double")
    ∷ some (codes "long double")
    ∷ some (codes "float")
    ∷ some (codes "__float128")
    ∷ some (codes "unsigned char")
    ∷ some (codes "int")
    ∷ some (codes "unsigned int")
    ∷ none
    ∷ some (codes "long")
    ∷ some (codes "unsigned long")
    ∷ some (codes "__int128")
    ∷ some (codes "unsigned __int128")
    ∷ none
    ∷ none
    ∷ none
    ∷ some (codes "short")
    ∷ some (codes "unsigned short")
    ∷ none
    ∷ some (codes "void")
    ∷ some (codes "wchar_t")
    ∷ some (codes "long long")
    ∷ some (codes "unsigned long long")
    ∷ some (codes "...")
    ∷ []

abbrev pub join : Option (Option Bytes) → Option Bytes
join none = none
join (some o) = o

abbrev pub put_type : Session → Bytes → Option Bytes → Outcome
put_type s output none = failure s output
put_type s output (some bt) = give_back (eat_current s) (output ++ bt)

unfoldable pub decode_builtin_type : Session → Bytes → Outcome
decode_builtin_type s output =
    if not (is_lower (current s))
    then failure s output
    else put_type s output (join (get_elem? builtin_type_c (current s - 97)))

-- INT_MAX + 1
abbrev pub int_limit : ℕ
int_limit = 2 ^ 31

-- while (isdigit(next())) length = 10 * length + current() - '0';
unfoldable pub length_loop : ℕ → ℕ → Session → Option (ℕ × Session)
length_loop zero n s = some (n, s)
length_loop (suc fuel) n s =
    let c = next_peek s in
    let rest = length_loop fuel (10 * n + c - 48) (next s) in
    if is_digit c then (if ltb (10 * n + c) int_limit then rest else none) else some (n, next s)

-- while (length--)
unfoldable pub copy_loop : ℕ → Session → Bytes → Outcome
copy_loop zero s output = give_back s output
copy_loop (suc n) s output =
    let rest = copy_loop n (eat_current s) (output ++ current s ∷ []) in
    if current s == 0 then failure s output else rest

-- ptr[i]: behind the NUL there is nothing to read.
unfoldable pub read_at : Session → ℕ → Option ℕ
read_at s i = if leb (s.pos + i) (length s.str) then some (char_at s.str (s.pos + i)) else none

-- !strncmp(ptr, prefix, strlen(prefix))
unfoldable pub has_prefix : Bytes → Bytes → Bool
has_prefix [] s = true
has_prefix (c ∷ p) [] = false
has_prefix (c ∷ p) (d ∷ s) = let rest = has_prefix p s in if c == d then rest else false

-- ptr[9] == 'N' && ptr[8] == ptr[10]
unfoldable pub same_around : Session → Option Bool
same_around s = do
  n ← read_at s 9
  if n == 78 then (do a ← read_at s 8; b ← read_at s 10; some (a == b)) else some false

unfoldable pub is_anonymous : ℕ → Session → Option Bool
is_anonymous n s =
    if ltb 11 n && has_prefix (codes "_GLOBAL_") (drop s.pos s.str)
    then same_around s
    else some false

-- `if ((pos_ += length) > maxpos_ + 1)`
unfoldable pub skip_name : ℕ → Session → Bytes → Outcome
skip_name n s output =
    let s' = advance n s in
    let output' = output ++ codes "(anonymous namespace)" in
    if ltb s.len (s.pos + n) then failure s' output' else give_back s' output'

unfoldable pub name_of_length : ℕ → Session → Bytes → Option Bool → Outcome
name_of_length n s output none = undefined
name_of_length n s output (some true) = skip_name n s output
name_of_length n s output (some false) = copy_loop n s output

unfoldable pub after_length : Bytes → Option (ℕ × Session) → Outcome
after_length output none = undefined
after_length output (some r) = name_of_length r.0 r.1 output (is_anonymous r.0 r.1)

-- A turn of the loop for each further character is enough.
unfoldable pub decode_source_name : Session → Bytes → Outcome
decode_source_name s output =
    if ltb (current s) 49 || ltb 57 (current s)
    then failure s output
    else after_length output (length_loop s.len (current s - 48) s)

-- Go on where `decode_number` left off, if it succeeded in front of an underscore, which is eaten.
-- What it puts out is dropped.
abbrev pub after_number : (Session → Outcome) → (Session → Outcome) → Outcome → Outcome
after_number good bad (returned b s output) =
    if b && (current s == 95) then good (eat_current s) else bad s
after_number good bad undefined = undefined

unfoldable pub decode_call_offset : Session → Bytes → Outcome
decode_call_offset s output =
    let bad = λ (t : Session). failure t output in
    let good = λ (t : Session). give_back t output in
    if current s == 104
    then after_number good bad (decode_number (eat_current s) [])
    else if current s == 118
    then after_number (λ t. after_number good bad (decode_number t [])) bad
        (decode_number (eat_current s) [])
    else failure s output
