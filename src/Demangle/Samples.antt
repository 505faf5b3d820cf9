-- ===== src/Demangle/Samples.antt =====
-- The demangler's leaves on concrete texts, and witnesses.
use libcwd.Base.{◌≡◌, refl, true, false, [], ◌∷◌, codes, arith, length}
use libcwd.Demangle.{
  Bytes, Session, returned, undefined, char_at, current, next_peek, next, eat_current, advance,
  is_digit, give_back,
}
use libcwd.Demangle.Leaf.{
  decode_builtin_type, decode_call_offset, decode_number, decode_source_name,
  decode_non_negative_decimal_integer, digits_loop, length_loop, copy_loop, read_at, has_prefix,
  same_around, is_anonymous, name_of_length, after_length, skip_name,
}
use libcwd.Demangle.Bounds.{IsWithin}
use libcwd.Demangle.Within.{leaves-IsWithin}
use libcwd.Demangle.Numbers.{digits, decode_number_lem}
use libcwd.Demangle.Names.{decode_source_name_lem}
use libcwd.Demangle.Operators.{find_operator, first_entry, accepts, symbol_name_table_c}
use libcwd.Demangle.Perfect.{find_operator_lem}

abbrev session : Bytes → Session
session s = record { str = s; len = length s; pos = 0; result = true }

-- A lone last digit is read as the name whose length it is.
lone_digit :
    decode_source_name (session (codes "1")) []
    ≡ returned true (advance 1 (session (codes "1"))) (codes "1")
unfolding decode_source_name length_loop copy_loop is_anonymous has_prefix name_of_length
    after_length current next_peek next eat_current is_digit char_at
lone_digit = refl

-- The test for an anonymous namespace reads behind the text.
cut_global : decode_source_name (session (codes "12_GLOBAL_")) [] ≡ undefined
unfolding decode_source_name length_loop copy_loop is_anonymous has_prefix name_of_length
    after_length current next_peek next eat_current is_digit char_at same_around read_at
cut_global = refl

anonymous :
    decode_source_name (session (codes "12_GLOBAL__N_1E")) []
    ≡ returned true (advance 14 (session (codes "12_GLOBAL__N_1E"))) (codes "(anonymous namespace)")
unfolding decode_source_name length_loop copy_loop is_anonymous has_prefix name_of_length
    after_length current next_peek next eat_current is_digit char_at same_around read_at skip_name
anonymous = refl

-- The last digit of a number at the very end of the text is not eaten.
number_at_end :
    decode_number (session (codes "12")) []
    ≡ returned true (advance 1 (session (codes "12"))) (codes "12")
unfolding decode_number decode_non_negative_decimal_integer digits_loop current next_peek next
    is_digit char_at
number_at_end = refl

three_is_digit : is_digit 51 ≡ true
unfolding is_digit
three_is_digit = refl

one_is_digit : is_digit 49 ≡ true
unfolding is_digit
one_is_digit = refl

two_is_digit : is_digit 50 ≡ true
unfolding is_digit
two_is_digit = refl

f_is_no_digit : is_digit 102 ≡ false
unfolding is_digit
f_is_no_digit = refl

underscore_is_no_digit : is_digit 95 ≡ false
unfolding is_digit
underscore_is_no_digit = refl

foo_has_no_prefix : has_prefix (codes "_GLOBAL_") (codes "fooE") ≡ false
unfolding has_prefix
foo_has_no_prefix = refl

decode_source_name_lem_example :
    decode_source_name (session (codes "3fooE")) []
    ≡ give_back (advance 4 (session (codes "3fooE"))) (codes "foo")
decode_source_name_lem_example =
    decode_source_name_lem 51 [] 102 (codes "oo") (codes "E") (session (codes "3fooE")) []
      (refl, refl) refl three_is_digit tt refl (omega arith) f_is_no_digit
      (refl, (refl, (refl, tt))) foo_has_no_prefix

decode_number_lem_example :
    decode_number (session (codes "n12_")) (codes "x")
    ≡ give_back (advance 3 (session (codes "n12_"))) (codes "x-12")
decode_number_lem_example =
    decode_number_lem true (codes "12") 95 [] (session (codes "n12_")) (codes "x")
      (digits 49 (50 ∷ []) refl one_is_digit (two_is_digit, tt)) (refl, refl) underscore_is_no_digit

find_operator_lem_example : find_operator 112 76 ≡ first_entry (accepts 112 76) symbol_name_table_c
find_operator_lem_example = find_operator_lem 112 76

leaves-IsWithin_example :
    (let s = session (codes "12_GLOBAL__N_1E") in
      IsWithin s (decode_number s [])
      × (IsWithin s (decode_builtin_type s [])
          × (IsWithin s (decode_source_name s []) × IsWithin s (decode_call_offset s []))))
leaves-IsWithin_example = leaves-IsWithin (session (codes "12_GLOBAL__N_1E")) [] (omega arith)
