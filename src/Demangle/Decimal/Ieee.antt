-- ===== src/Demangle/Decimal/Ieee.antt =====
-- The constants of src/demangle.cxx, print_IEEE_fp, and the decode_real that overrides the
-- demangler's: IEEE numbers of single and of double precision.
use libcwd.Base.{
  ℕ, suc, zero, ◌+◌, ◌-◌, ◌*◌, ◌/◌, ◌%◌, ◌^◌, Bool, true, false, not, ◌||◌, Option, none, some,
  List, [], ◌∷◌, ◌++◌, ◌==◌, if◌then◌else◌, get_elem?, codes,
}
use libcwd.Base.Int.{ℤ, pos, negsuc}
use libcwd.Demangle.{Bytes}
use libcwd.Demangle.Decimal.{DecimalFloat, digit_at, add, decrement_exponent, divide_by_two}
use libcwd.Demangle.Decimal.Product.{multiply}
use libcwd.Demangle.Decimal.Print.{print_to_with_precision}
use libcwd.Demangle.Grammar.{ImplementationDetails}

abbrev constant : ℕ → ℕ → ℕ → ℕ → ℕ → ℤ → Bool → DecimalFloat
constant a b c d e exponent full = record {
  mantissa = a ∷ b ∷ c ∷ d ∷ e ∷ [];
  exponent = exponent;
  max_precision_reached = full;
}

-- `negsuc n` is -(n + 1).
abbrev pub constants : List DecimalFloat
constants =
    constant 6915 3600 2925 5369 1112 (negsuc 326) true
    ∷ constant 3487 41 4624 6681 1491 (negsuc 172) true
    ∷ constant 9251 8888 1101 2337 1727 (negsuc 95) true
    ∷ constant 5398 1437 5411 4717 5877 (negsuc 57) true
    ∷ constant 4340 5504 7248 2021 1084 (negsuc 37) true
    ∷ constant 5781 7392 7307 6128 4656 (negsuc 28) true
    ∷ constant 0 0 1250 7578 3051 (negsuc 23) true
    ∷ constant 5 0 0 0 0 (negsuc 0) false
    ∷ constant 10 0 0 0 0 (negsuc 0) false
    ∷ constant 2 0 0 0 0 (pos 0) false
    ∷ constant 4 0 0 0 0 (pos 0) false
    ∷ constant 16 0 0 0 0 (pos 0) false
    ∷ constant 256 0 0 0 0 (pos 0) false
    ∷ constant 5536 6 0 0 0 (pos 0) false
    ∷ constant 7296 9496 42 0 0 (pos 0) false
    ∷ constant 1616 955 737 6744 1844 (pos 0) true
    ∷ constant 6346 9384 6920 8236 3402 (pos 19) true
    ∷ constant 9542 3161 9237 9208 1157 (pos 58) true
    ∷ constant 7100 4259 9299 7807 1340 (pos 135) true
    ∷ constant 9077 2315 3486 6931 1797 (pos 289) true
    ∷ []

abbrev zero_float : DecimalFloat
zero_float = constant 0 0 0 0 0 (negsuc 0) false

abbrev or_zero : Option DecimalFloat → DecimalFloat
or_zero none = zero_float
or_zero (some x) = x

abbrev constant_at : ℕ → DecimalFloat
constant_at i = or_zero (get_elem? constants i)

-- Whether the bit of a power of two is set.
abbrev bit_of : ℕ → ℕ → Bool
bit_of n mask = n / mask % 2 == 1

abbrev add_if : Bool → DecimalFloat → DecimalFloat → DecimalFloat
add_if b x y = if b then add x y else x

-- The bits of the fraction, `n` of them: the words from the current one on, the mask, and the bit.
unfoldable pub fraction_loop : ℕ → List ℕ → ℕ → DecimalFloat → DecimalFloat → DecimalFloat
fraction_loop zero words mask bit result = result
fraction_loop (suc n) words mask bit result =
    let r = decrement_exponent (add_if (bit_of (digit_at words 0) mask) result bit) in
    let is_last = mask == 1 in
    fraction_loop n (if is_last then tail words else words) (if is_last then 2 ^ 31 else mask / 2)
      (divide_by_two r.1 bit) r.0
  where
    tail : List ℕ → List ℕ
    tail [] = []
    tail (x ∷ xs) = xs

abbrev multiply_if : Bool → DecimalFloat → DecimalFloat → DecimalFloat
multiply_if b x y = if b then multiply x y else x

-- The bits of the exponent below `n`, highest first.
unfoldable pub exponent_loop : ℕ → ℕ → DecimalFloat → DecimalFloat
exponent_loop zero exponent x = x
exponent_loop (suc n) exponent x =
    exponent_loop n exponent (multiply_if (bit_of exponent (2 ^ n)) x (constant_at (9 + n)))

-- fraction_nonzero, of a number of one or of two words
abbrev fraction_nonzero : List ℕ → ℕ → ℕ → Bool
fraction_nonzero words nbits_exponent nbits_fraction =
    let nelem = (nbits_fraction + nbits_exponent) / 32 + 1 in
    let unit = 2 ^ (nelem * 32 - nbits_fraction - nbits_exponent - 1) in
    let first = digit_at words 0 % 2 ^ (31 - nbits_exponent) in
    if nelem == 1
    then not (first / unit == 0)
    else not (first == 0) || not (digit_at words 1 / unit == 0)

-- The value behind the sign, with its exponent and whether it is normalized.
unfoldable pub print_number : List ℕ → ℕ → ℕ → ℕ → ℕ → Bool → Bytes
print_number words nbits_exponent nbits_fraction precision exponent normalized =
    let one = constant_at 8 in
    let start = if normalized then one else record one { mantissa = 0 ∷ 0 ∷ 0 ∷ 0 ∷ 0 ∷ [] } in
    let result =
      fraction_loop nbits_fraction words (2 ^ (30 - nbits_exponent)) (constant_at 7) start in
    let two_pow_exponent =
      exponent_loop nbits_exponent exponent (constant_at (11 - nbits_exponent)) in
    print_to_with_precision precision (multiply result two_pow_exponent)

unfoldable pub print_ieee_fp : List ℕ → ℕ → ℕ → ℕ → Bytes
print_ieee_fp words nbits_exponent nbits_fraction precision =
    let sign_and_exponent = digit_at words 0 / 2 ^ (31 - nbits_exponent) in
    let sign_mask = 2 ^ nbits_exponent in
    let exponent = sign_and_exponent % sign_mask in
    let nonzero = fraction_nonzero words nbits_exponent nbits_fraction in
    let sign = if bit_of sign_and_exponent sign_mask then codes "-" else [] in
    let number = print_number words nbits_exponent nbits_fraction precision in
    if exponent == sign_mask - 1
    then (if nonzero then codes "nan" else sign ++ codes "inf")
    else if exponent == 0
    then sign ++ (if nonzero then number 1 false else codes "0")
    else sign ++ number exponent true

-- libcwd::_private_::implementation_details::decode_real: the text, or none where it returns false
unfoldable pub override_real : List ℕ → ℕ → Option Bytes
override_real words size =
    if size == 8
    then some (print_ieee_fp words 11 52 17)
    else if size == 4
    then some (print_ieee_fp words 8 23 8)
    else none

-- implementation_details id(0)
abbrev pub details : ImplementationDetails
details = record {
  style_void = false;
  style_literal = false;
  style_literal_int = false;
  style_compact_expr_ops = false;
  style_sizeof_typename = false;
  override_real = override_real;
}
