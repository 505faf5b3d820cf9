-- ===== src/Demangle/Operators.antt =====
-- The table of operators of include/cwd_demangle.h and its hash, where plain char is unsigned.
use libcwd.Base.{
  ℕ, ◌+◌, ◌-◌, ◌%◌, ◌^◌, Bool, not, ◌&&◌, ◌||◌, none, some, Option, List, [], ◌∷◌, ltb, leb, ◌==◌,
  get_elem?, if◌then◌else◌, codes,
}
use Prim.Native.String.{String}
use libcwd.Demangle.{Bytes, char_at, to_lower}

-- xary_nt
pub data Arity : Type 0 where
  unary binary trinary : Arity

pub record Entry : Type 0 where
  pub opcode : Bytes
  pub symbol_name : Bytes
  pub arity : Arity

abbrev pub entry : String → String → Arity → Entry
entry opcode symbol_name arity = record {
  opcode = codes opcode;
  symbol_name = codes symbol_name;
  arity = arity;
}

-- The row of offset_table_c from `a` on; it is 0 elsewhere.
abbrev pub offset_row : Bytes
offset_row =
    159 ∷ 0 ∷ 159 ∷ 163 ∷ 167 ∷ 0 ∷ 174 ∷ 0 ∷ 174 ∷ 0 ∷ 0 ∷ 157 ∷ 157 ∷ 160 ∷ 175 ∷ 176 ∷ 165 ∷ 168
    ∷ 171 ∷ 0 ∷ 0 ∷ 0 ∷ []

unfoldable pub offset_of : ℕ → ℕ
unfolding char_at
offset_of c = if leb 97 c then char_at offset_row (c - 97) else 0

abbrev pub symbol_name_table_c : List Entry
symbol_name_table_c =
    (entry "aa" "operator&&" binary)
    ∷ (entry "na" "operator new[]" unary)
    ∷ (entry "le" "operator<=" binary)
    ∷ (entry "ad" "operator&" unary)
    ∷ (entry "da" "operator delete[]" unary)
    ∷ (entry "ne" "operator!=" binary)
    ∷ (entry "mi=" "operator-" binary)
    ∷ (entry "ng" "operator-" unary)
    ∷ (entry "de" "operator*" unary)
    ∷ (entry "ml=" "operator*" binary)
    ∷ (entry "mm" "operator--" unary)
    ∷ (entry "cl" "operator()" unary)
    ∷ (entry "cm" "operator," binary)
    ∷ (entry "an=" "operator&" binary)
    ∷ (entry "co" "operator~" binary)
    ∷ (entry "dl" "operator delete" unary)
    ∷ (entry "ls=" "operator<<" binary)
    ∷ (entry "lt" "operator<" binary)
    ∷ (entry "as=" "operator" binary)
    ∷ (entry "ge" "operator>=" binary)
    ∷ (entry "nt" "operator!" unary)
    ∷ (entry "rm=" "operator%" binary)
    ∷ (entry "eo=" "operator^" binary)
    ∷ (entry "nw" "operator new" unary)
    ∷ (entry "eq" "operator==" binary)
    ∷ (entry "dv=" "operator/" binary)
    ∷ (entry "qu" "operator?" trinary)
    ∷ (entry "rs=" "operator>>" binary)
    ∷ (entry "pl=" "operator+" binary)
    ∷ (entry "pm" "operator->*" binary)
    ∷ (entry "oo" "operator||" binary)
    ∷ (entry "st" "sizeof" unary)
    ∷ (entry "pp" "operator++" unary)
    ∷ (entry "or=" "operator|" binary)
    ∷ (entry "gt" "operator>" binary)
    ∷ (entry "ps" "operator+" unary)
    ∷ (entry "pt" "operator->" binary)
    ∷ (entry "sz" "sizeof" unary)
    ∷ (entry "ix" "operator[]" unary)
    ∷ []

-- `hash += opcode1`, a char.
unfoldable pub hash_of : ℕ → ℕ → ℕ
hash_of opcode0 opcode1 = (offset_of opcode0 + opcode1) % 2 ^ 8

unfoldable pub has_opcode : ℕ → ℕ → Entry → Bool
unfolding char_at
has_opcode opcode0 opcode1 e = char_at e.opcode 0 == opcode0 && char_at e.opcode 1 == opcode1

-- `second` is the character as read, which may be in upper case in front of an implied `=`.
unfoldable pub accepts : ℕ → ℕ → Entry → Bool
unfolding char_at
accepts opcode0 second e =
    has_opcode opcode0 (to_lower second) e
    && (to_lower second == second || char_at e.opcode 2 == 61)

abbrev pub keep_if : (Entry → Bool) → Option Entry → Option Entry
keep_if p none = none
keep_if p (some e) = if p e then some e else none

-- The entry that decode_operator_name and decode_expression find for two characters.
unfoldable pub find_operator : ℕ → ℕ → Option Entry
find_operator opcode0 second =
    let hash = hash_of opcode0 (to_lower second) in
    if not (offset_of opcode0 == 0) && ltb hash 39
    then keep_if (accepts opcode0 second) (get_elem? symbol_name_table_c hash)
    else none

-- The first entry that fits.
unfoldable pub first_entry : (Entry → Bool) → List Entry → Option Entry
first_entry p [] = none
first_entry p (e ∷ es) = let rest = first_entry p es in if p e then some e else rest
