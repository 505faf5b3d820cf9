-- ===== src/Demangle/Decimal/Product.antt =====
-- operator*= of decimal_float of src/demangle.cxx. Where it multiplies in place, a digit is written
-- only when it is read no more, so that the model always reads the old ones.
use libcwd.Base.{
  ℕ, suc, zero, ◌+◌, ◌-◌, ◌*◌, ◌/◌, ◌%◌, min, List, [], ◌∷◌, ltb, ◌==◌, if◌then◌else◌,
}
use libcwd.Base.Int.{pos, ◌+ℤ◌}
use libcwd.Demangle.Decimal.{DecimalFloat, digit_at, do_overflow}

-- while (mantissa[index] == 0) if (++zero_digits == 4) break;
unfoldable pub count_zeros : ℕ → List ℕ → ℕ → ℕ → ℕ
count_zeros zero ms index zero_digits = zero_digits
count_zeros (suc fuel) ms index zero_digits =
    let rest = count_zeros fuel ms (index - 1) (zero_digits + 1) in
    if digit_at ms index == 0 then (if zero_digits + 1 == 4 then 4 else rest) else zero_digits

unfoldable pub zero_digits : List ℕ → List ℕ → ℕ
zero_digits ms ns = let z = count_zeros 5 ms 4 0 in if ltb z 4 then count_zeros 5 ns 4 z else z

-- The sum of the `n` products from `i` on whose indices add up to `k`.
unfoldable pub products : List ℕ → List ℕ → ℕ → ℕ → ℕ → ℕ
products ms ns k i zero = 0
products ms ns k i (suc n) = digit_at ms i * digit_at ns (k - i) + products ms ns k (i + 1) n

-- The digits from `j` on, `n` of them, and the sum that is left.
unfoldable pub product_digits : List ℕ → List ℕ → ℕ → ℕ → ℕ → ℕ → List ℕ × ℕ
product_digits ms ns lss j zero sum = ([], sum)
product_digits ms ns lss j (suc n) sum =
    let loop_bgn = lss + j - 4 in
    let loop_end = min 4 (lss + j) in
    let sum' = sum + products ms ns (lss + j) loop_bgn (loop_end + 1 - loop_bgn) in
    let rest = product_digits ms ns lss (j + 1) n (sum' / 10000) in (sum' % 10000 ∷ rest.0, rest.1)

unfoldable pub multiply : DecimalFloat → DecimalFloat → DecimalFloat
multiply x factor =
    let ms = x.mantissa in
    let ns = factor.mantissa in
    let lss = 4 - zero_digits ms ns in
    let rounded = (products ms ns (lss - 1) 0 lss + 5000) / 10000 in
    let r = product_digits ms ns lss 0 5 rounded in
    let y = record x {
      mantissa = r.0;
      exponent = x.exponent +ℤ (factor.exponent +ℤ pos (4 * lss));
    } in
    if r.1 == 0 then y else do_overflow r.1 y
