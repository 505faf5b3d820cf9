-- ===== src/Demangle/Decimal.antt =====
-- class decimal_float of src/demangle.cxx: five digits of base 10000, least significant first, and a
-- power of ten. No number here comes near 2^64, so that unsigned long is ℕ.
pub mod Product
pub mod Print
pub mod Ieee
pub mod Value
use libcwd.Base.{
  ℕ, suc, zero, ◌+◌, ◌-◌, ◌*◌, ◌/◌, ◌%◌, Bool, true, false, not, ◌||◌, none, some, List, [], ◌∷◌,
  ltb, leb, ◌==◌, if◌then◌else◌, get_elem?, Option,
}
use libcwd.Base.Int.{ℤ, pos, negsuc, ◌+ℤ◌, ◌-ℤ◌}

-- decimal_float_data
pub record DecimalFloat : Type 0 where
  pub mantissa : List ℕ
  pub exponent : ℤ
  pub max_precision_reached : Bool

abbrev pub digit_at : List ℕ → ℕ → ℕ
digit_at [] i = 0
digit_at (m ∷ ms) zero = m
digit_at (m ∷ ms) (suc i) = digit_at ms i

-- The most significant one.
abbrev pub top : List ℕ → ℕ
top ms = digit_at ms 4

-- The loop of do_carry, with what the last digit carried.
unfoldable pub carry : ℕ → List ℕ → List ℕ
carry c [] = []
carry c (m ∷ []) = (m + c) ∷ []
carry c (m ∷ n ∷ ms) =
    let is_over = leb 10000 (m + c) in
    let rest = carry (if is_over then (m + c) / 10000 else 0) (n ∷ ms) in
    (if is_over then (m + c) % 10000 else m + c) ∷ rest

-- while (prev_borrow >= divider): the divider, and how often it grew
unfoldable pub divider_loop : ℕ → ℕ → ℕ → ℕ × ℕ
divider_loop zero prev_borrow divider = (divider, 0)
divider_loop (suc fuel) prev_borrow divider =
    let r = divider_loop fuel prev_borrow (divider * 10) in
    if leb divider prev_borrow then (r.0, r.1 + 1) else (divider, 0)

-- What falls off the digit above.
abbrev pub borrow : ℕ → ℕ → List ℕ → ℕ
borrow divider prev_borrow [] = prev_borrow
borrow divider prev_borrow (m ∷ ms) = m % divider

unfoldable pub shift_right : ℕ → ℕ → ℕ → List ℕ → List ℕ
shift_right divider multiplier prev_borrow [] = []
shift_right divider multiplier prev_borrow (m ∷ ms) =
    (m / divider + borrow divider prev_borrow ms * multiplier)
    ∷ shift_right divider multiplier prev_borrow ms

-- The same, rounded at the lowest digit.
unfoldable pub shift_round : ℕ → ℕ → ℕ → List ℕ → List ℕ
shift_round divider multiplier prev_borrow [] = []
shift_round divider multiplier prev_borrow (m ∷ ms) =
    ((m + divider / 2) / divider + borrow divider prev_borrow ms * multiplier)
    ∷ shift_right divider multiplier prev_borrow ms

-- prev_borrow has at most twenty decimals.
unfoldable pub do_overflow : ℕ → DecimalFloat → DecimalFloat
do_overflow prev_borrow x =
    let r = divider_loop 20 prev_borrow 10 in
    record {
      mantissa = shift_round r.0 (10000 / r.0) prev_borrow x.mantissa;
      exponent = x.exponent +ℤ pos (r.1 + 1);
      max_precision_reached = true;
    }

unfoldable pub do_carry : DecimalFloat → DecimalFloat
do_carry x =
    let y = record x { mantissa = carry 0 x.mantissa } in
    if leb 10000 (top y.mantissa) then do_overflow 0 y else y

abbrev pub scale : ℕ → List ℕ → List ℕ
scale k [] = []
scale k (m ∷ ms) = (m * k) ∷ scale k ms

unfoldable pub halve : List ℕ → List ℕ
halve [] = []
halve (m ∷ ms) = (m / 2 + borrow 2 0 ms * 5000) ∷ halve ms

abbrev pub add_one : List ℕ → List ℕ
add_one [] = []
add_one (m ∷ ms) = (m + 1) ∷ ms

-- if (prev_borrow) if (++data_.mantissa[0] == 10000) do_carry();
unfoldable pub round_up : Bool → DecimalFloat → DecimalFloat
round_up b x =
    let y = record x { mantissa = add_one x.mantissa } in
    if b then (if digit_at y.mantissa 0 == 10000 then do_carry y else y) else x

unfoldable pub divide_by_two : Bool → DecimalFloat → DecimalFloat
divide_by_two true x =
    let y = do_carry (record x { mantissa = scale 5 x.mantissa }) in
    record y { exponent = y.exponent -ℤ pos 1 }
divide_by_two false x = round_up (digit_at x.mantissa 0 % 2 == 1) (record x {
  mantissa = halve x.mantissa;
  max_precision_reached = if ltb (top x.mantissa / 2) 1000 then false else x.max_precision_reached;
})

-- The number, and what the call returns.
unfoldable pub decrement_exponent : DecimalFloat → DecimalFloat × Bool
decrement_exponent x =
    let y = do_carry (record x { mantissa = scale 10 x.mantissa }) in
    if x.max_precision_reached then (x, false) else (
      record y {
        exponent = y.exponent -ℤ pos 1;
        max_precision_reached = y.max_precision_reached || leb 1000 (top y.mantissa);
      },
      true,
    )

abbrev pub add_digits : List ℕ → List ℕ → List ℕ
add_digits [] ns = []
add_digits (m ∷ ms) [] = m ∷ ms
add_digits (m ∷ ms) (n ∷ ns) = (m + n) ∷ add_digits ms ns

-- operator+=, for equal exponents
unfoldable pub add : DecimalFloat → DecimalFloat → DecimalFloat
add x term = do_carry (record x { mantissa = add_digits x.mantissa term.mantissa })
