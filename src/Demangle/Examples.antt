-- ===== src/Demangle/Examples.antt =====
-- Runs of the floating-point numbers of src/demangle.cxx, and witnesses for the grammar's theorems.
use libcwd.Base.{none, get_elem?, ◌%◌, ℕ, ◌+◌, ◌≡◌, refl, true, false, some, [], ◌∷◌, codes}
use libcwd.Base.Int.{pos, ◌+ℤ◌, ◌-ℤ◌}
use libcwd.Demangle.{Bytes, char_at, is_digit, is_upper}
use libcwd.Demangle.Machine.{Machine, Substitution, type, ok, out_of_fuel}
use libcwd.Demangle.SeqId.{IsBase36, Reads, of_base36, substitution_lem}
use libcwd.Demangle.Grammar.References.{decode_substitution, resolve}
use libcwd.Demangle.Grammar.Leaves.{unsigned_limit}
use libcwd.Demangle.Grammar.Encodings.{decode_special_name}
use libcwd.Demangle.Grammar.Knot.{decoders, start_machine, int_max}
use libcwd.Demangle.Kept.Rules.{Keeping}
use libcwd.Demangle.Kept.Whole.{Keeping-decoders}
use libcwd.Demangle.Steps.{IsAt, moved}
use libcwd.Demangle.Endless.{IsKnot, expression-IsKnot}
use libcwd.Demangle.Thunk.{special_name-covariant}
use libcwd.Demangle.Runs.{plain}
use libcwd.Demangle.Decimal.{
  DecimalFloat, carry, divider_loop, shift_right, shift_round, do_overflow, do_carry, halve,
  round_up, divide_by_two, decrement_exponent, add,
}
use libcwd.Demangle.Decimal.Product.{count_zeros, zero_digits, products, product_digits, multiply}
use libcwd.Demangle.Decimal.Print.{
  leading_zeros, round_off, put_decimals, put_exponent, print_to_with_precision,
}
use libcwd.Demangle.Decimal.Ieee.{fraction_loop, exponent_loop, print_number, print_ieee_fp}
use libcwd.Demangle.Decimal.Value.{value, IsCarried, IsWorth, carry_lem, add_lem}

-- 12.34; a negative number that fills the 24 characters of `buf`, without a NUL; and the least number,
-- of which the exponent is wrong by 17.
numbers :
    (print_ieee_fp (1076407828 ∷ 2061584302 ∷ []) 11 52 17 ≡ codes "1.234e+1")
    × (print_ieee_fp (18446744071590016254 ∷ 471763208 ∷ []) 11 52 17
        ≡ codes "-1.2345678901234568e-300")
    × (print_ieee_fp (0 ∷ 1 ∷ []) 11 52 17 ≡ codes "4.9406564584124654e-341")
unfolding carry divider_loop shift_right shift_round do_overflow do_carry halve round_up
    divide_by_two decrement_exponent add count_zeros zero_digits products product_digits multiply
    leading_zeros round_off put_decimals put_exponent print_to_with_precision fraction_loop
    exponent_loop print_number print_ieee_fp ◌+ℤ◌ ◌-ℤ◌
numbers = (refl, refl, refl)

Keeping-decoders_example : Keeping (decoders plain 50)
Keeping-decoders_example = Keeping-decoders plain 50

-- A session at a place of a text.
abbrev at : Bytes → ℕ → Machine
at text p =
    let w = start_machine text in
    record w {
      frame = record w.frame {
        cursor = record w.frame.cursor { pos = p };
        template_arg_pos = 0 ∷ [];
      };
    }

abbrev knot : Machine
knot = at (codes "XT_E") 1

knot-IsKnot : IsKnot knot 0
unfolding char_at
knot-IsKnot = record {
  at_x = record { in_range = refl; in_text = refl; is_char = refl };
  at_t = record { in_range = refl; in_text = refl; is_char = refl };
  at_underscore = record { in_range = refl; in_text = refl; is_char = refl };
  is_argument = refl;
  is_shallow = refl;
}

expression-IsKnot_example : (decoders plain 1000).expression 0 knot ≡ out_of_fuel
expression-IsKnot_example = expression-IsKnot plain 1000 0 0 knot knot-IsKnot refl

abbrev thunk : Machine
thunk = at (codes "Tch0_h16_1fv") 0

thunk-IsAt_t : IsAt thunk.frame.cursor.str thunk.frame.cursor.len 0 84
unfolding char_at
thunk-IsAt_t = record { in_range = refl; in_text = refl; is_char = refl }

thunk-IsAt_c : IsAt thunk.frame.cursor.str thunk.frame.cursor.len 1 99
unfolding char_at
thunk-IsAt_c = record { in_range = refl; in_text = refl; is_char = refl }

special_name-covariant_example :
    (v : Machine) × (decode_special_name plain (decoders plain 50) 0 thunk ≡ ok false v)
special_name-covariant_example =
    special_name-covariant plain (decoders plain 50) 0 thunk thunk-IsAt_t thunk-IsAt_c

abbrev here : ℕ → Substitution
here n = record { start_pos = n; sub_type = type; number_of_prefixes = 0 }

abbrev back_reference : Machine
back_reference =
    let w = at (codes "S00_") 0 in
    record w { frame = record w.frame { substitutions_pos = here 0 ∷ here 2 ∷ [] } }

zero-IsBase36 : IsBase36 48
unfolding is_digit is_upper
zero-IsBase36 = refl

digits-Reads : Reads (codes "S00_") int_max 1 (codes "00_")
unfolding char_at
digits-Reads = (
  record { in_range = refl; in_text = refl; is_char = refl },
  (
    record { in_range = refl; in_text = refl; is_char = refl },
    (record { in_range = refl; in_text = refl; is_char = refl }, tt),
  ),
)

second_substitution :
    get_elem? (here 0 ∷ here 2 ∷ []) ((of_base36 0 (codes "00") + 1) % unsigned_limit)
    ≡ some (here 2)
unfolding of_base36 is_digit is_upper
second_substitution = refl

substitution_lem_example :
    decode_substitution (decoders plain 50) 0 none back_reference
    ≡ resolve (decoders plain 50) 0 none (some (here 2)) (moved (0 + 1 + 3) back_reference)
substitution_lem_example =
    substitution_lem (decoders plain 50) 0 48 (codes "0") none back_reference (here 2) zero-IsBase36
      (zero-IsBase36, tt) digits-Reads second_substitution refl

carry_lem_example :
    (value (carry 3 (9999 ∷ 9999 ∷ 1 ∷ [])) ≡ value (9999 ∷ 9999 ∷ 1 ∷ []) + 3)
    × IsCarried (carry 3 (9999 ∷ 9999 ∷ 1 ∷ []))
carry_lem_example = carry_lem 3 9999 (9999 ∷ 1 ∷ [])

abbrev large : DecimalFloat
large = record {
  mantissa = 9997 ∷ 5 ∷ 0 ∷ 0 ∷ 7000 ∷ [];
  exponent = pos 3;
  max_precision_reached = true;
}

add_lem_example : IsWorth (value large.mantissa + value large.mantissa) (pos 3) (add large large)
add_lem_example = add_lem large large refl refl
