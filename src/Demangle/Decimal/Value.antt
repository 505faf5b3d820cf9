-- ===== src/Demangle/Decimal/Value.antt =====
-- The value of a decimal_float of src/demangle.cxx through do_carry, do_overflow and operator+=.
use libcwd.Base.{
  ℕ, suc, ◌+◌, ◌*◌, ◌/◌, ◌%◌, ◌<◌, ◌^◌, ◌≡◌, refl, sym, ◌∙◌, ap, arith, inl, inr, Bool, true, false,
  List, [], ◌∷◌, leb, if◌then◌else◌, Bool-cases, length,
}
use mathlib.Core.Path.{subst}
use libcwd.Base.Int.{ℤ, pos, ◌+ℤ◌}
use libcwd.Demangle.Decimal.{
  DecimalFloat, carry, shift_right, shift_round, borrow, do_overflow, divider_loop, do_carry, top,
  add, add_digits,
}

-- The digits as one number.
unfoldable pub value : List ℕ → ℕ
value [] = 0
value (m ∷ ms) = m + 10000 * value ms

-- All digits but the highest are below the base.
unfoldable pub IsCarried : List ℕ → Type 0
IsCarried [] = Unit
IsCarried (m ∷ []) = Unit
IsCarried (m ∷ n ∷ ms) = (m < 10000) × IsCarried (n ∷ ms)

value-carry : (c m : ℕ) (ms : List ℕ) → value (carry c (m ∷ ms)) ≡ value (m ∷ ms) + c
unfolding value carry
value-carry c m [] = omega arith
value-carry c m (n ∷ ms) = elim (Bool-cases (leb 10000 (m + c))) [
  | inl e ↦ rw (e) (ground (arith, value-carry ((m + c) / 10000) n ms))
  | inr e ↦ rw (e) (ground (arith, value-carry 0 n ms))
]

IsCarried-cons :
    (x c n : ℕ) (ms : List ℕ)
    → x < 10000
    → IsCarried (carry c (n ∷ ms))
    → IsCarried (x ∷ carry c (n ∷ ms))
unfolding carry IsCarried
IsCarried-cons x c n [] h k = (h, k)
IsCarried-cons x c n (p ∷ ms) h k = (h, k)

carry-IsCarried : (c m : ℕ) (ms : List ℕ) → IsCarried (carry c (m ∷ ms))
unfolding carry IsCarried
carry-IsCarried c m [] = tt
carry-IsCarried c m (n ∷ ms) =
    let is_over = leb 10000 (m + c) in
    let c' = if is_over then (m + c) / 10000 else 0 in
    IsCarried-cons (if is_over then (m + c) % 10000 else m + c) c' n ms (ground arith)
      (carry-IsCarried c' n ms)

value-shift_right :
    (ms : List ℕ) → 10 * value (shift_right 10 1000 0 ms) + borrow 10 0 ms ≡ value ms
unfolding value shift_right
value-shift_right [] = refl
value-shift_right (m ∷ ms) = omega (arith, value-shift_right ms)

value-shift_round :
    (m : ℕ) (ms : List ℕ) → value (shift_round 10 1000 0 (m ∷ ms)) ≡ (value (m ∷ ms) + 5) / 10
unfolding value shift_round
value-shift_round m ms = omega (arith, value-shift_right ms)

-- The first number that the five digits of a mantissa cannot hold.
abbrev pub limit : ℕ
limit = 10000 ^ 5

-- The test of do_carry is whether the number needs a digit more.
top-limit : (ms : List ℕ) → length ms ≡ 5 → IsCarried ms → leb 10000 (top ms) ≡ leb limit (value ms)
unfolding value IsCarried
top-limit [] h k = absurd (omega (arith, h))
top-limit (a ∷ []) h k = absurd (omega (arith, h))
top-limit (a ∷ b ∷ []) h k = absurd (omega (arith, h))
top-limit (a ∷ b ∷ c ∷ []) h k = absurd (omega (arith, h))
top-limit (a ∷ b ∷ c ∷ d ∷ []) h k = absurd (omega (arith, h))
top-limit (a ∷ b ∷ c ∷ d ∷ e ∷ []) h k = five a b c d e k.0 k.1.0 k.1.1.0 k.1.1.1.0
  where
    five :
        (a b c d e : ℕ)
        → a < 10000
        → b < 10000
        → c < 10000
        → d < 10000
        → leb 10000 e
          ≡ leb limit (a + 10000 * (b + 10000 * (c + 10000 * (d + 10000 * (e + 10000 * 0)))))
    five a b c d e ha hb hc hd = ground arith
top-limit (a ∷ b ∷ c ∷ d ∷ e ∷ f ∷ ms) h k = absurd (omega (arith, h))

length-carry : (c m : ℕ) (ms : List ℕ) → length (carry c (m ∷ ms)) ≡ suc (length ms)
unfolding carry
length-carry c m [] = refl
length-carry c m (n ∷ ms) =
    omega (arith, length-carry (if leb 10000 (m + c) then (m + c) / 10000 else 0) n ms)

-- The exponent stands and the digits are worth `n` exactly if they can hold it; otherwise the exponent
-- has gone up by one and they are worth a tenth of it, rounded.
abbrev pub IsWorth : ℕ → ℤ → DecimalFloat → Type 0
IsWorth n e y =
    (y.exponent ≡ (if leb limit n then e +ℤ pos 1 else e))
    × (value y.mantissa ≡ (if leb limit n then (n + 5) / 10 else n))

value-do_overflow :
    (m : ℕ) (ms : List ℕ) (x : DecimalFloat)
    → x.mantissa ≡ m ∷ ms
    → value (do_overflow 0 x).mantissa ≡ (value x.mantissa + 5) / 10
unfolding do_overflow divider_loop
value-do_overflow m ms x e =
    ap (λ l. value (shift_round 10 1000 0 l)) e
    ∙ value-shift_round m ms
    ∙ ap (λ l. (value l + 5) / 10) (sym e)

exponent-do_overflow : (x : DecimalFloat) → (do_overflow 0 x).exponent ≡ x.exponent +ℤ pos 1
unfolding do_overflow divider_loop
exponent-do_overflow x = refl

carry-cons : (c m : ℕ) (ms : List ℕ) → (a : ℕ) × (l : List ℕ) × (carry c (m ∷ ms) ≡ a ∷ l)
unfolding carry
carry-cons c m [] = (_, _, refl)
carry-cons c m (n ∷ ms) = (_, _, refl)

-- The carry of a number's digits does not change what they are worth, and brings all but the highest
-- below the base.
pub carry_lem :
    (c m : ℕ) (ms : List ℕ)
    → (value (carry c (m ∷ ms)) ≡ value (m ∷ ms) + c) × IsCarried (carry c (m ∷ ms))
carry_lem c m ms = (value-carry c m ms, carry-IsCarried c m ms)

by_top :
    (b : Bool) (n : ℕ) (y : DecimalFloat)
    → value y.mantissa ≡ n
    → value (do_overflow 0 y).mantissa ≡ (n + 5) / 10
    → ((if b then do_overflow 0 y else y).exponent
        ≡ (if b then y.exponent +ℤ pos 1 else y.exponent))
      × (value (if b then do_overflow 0 y else y).mantissa ≡ (if b then (n + 5) / 10 else n))
by_top true n y v o = (exponent-do_overflow y, o)
by_top false n y v o = (refl, v)

do_carry-IsWorth :
    (m : ℕ) (ms : List ℕ) (x : DecimalFloat)
    → x.mantissa ≡ m ∷ ms
    → length x.mantissa ≡ 5
    → IsWorth (value x.mantissa) x.exponent (do_carry x)
unfolding do_carry
do_carry-IsWorth m ms x e five =
    let y : DecimalFloat = record x { mantissa = carry 0 x.mantissa } in
    let (a, l, e') = carry-cons 0 m ms in
    let worth : value y.mantissa ≡ value x.mantissa =
      ap (λ l. value (carry 0 l)) e ∙ value-carry 0 m ms ∙ omega arith ∙ ap value (sym e) in
    let long : length y.mantissa ≡ length x.mantissa =
      ap (λ l. length (carry 0 l)) e ∙ length-carry 0 m ms ∙ ap length (sym e) in
    let carried : IsCarried y.mantissa =
      subst (λ l. IsCarried (carry 0 l)) (sym e) (carry-IsCarried 0 m ms) in
    let needs : leb 10000 (top y.mantissa) ≡ leb limit (value x.mantissa) =
      top-limit y.mantissa (long ∙ five) carried ∙ ap (leb limit) worth in
    let overflown = value-do_overflow a l y (ap (carry 0) e ∙ e') in
    subst
      (λ b.
        (do_carry x).exponent ≡ (if b then x.exponent +ℤ pos 1 else x.exponent)
        × value (do_carry x).mantissa
          ≡ (if b then (value x.mantissa + 5) / 10 else value x.mantissa))
      needs
      (by_top (leb 10000 (top y.mantissa)) (value x.mantissa) y worth
        (overflown ∙ ap (λ n. (n + 5) / 10) worth))

value-add_digits :
    (ms ns : List ℕ) → length ms ≡ length ns → value (add_digits ms ns) ≡ value ms + value ns
unfolding value
value-add_digits [] [] h = refl
value-add_digits [] (n ∷ ns) h = absurd (omega (arith, h))
value-add_digits (m ∷ ms) [] h = absurd (omega (arith, h))
value-add_digits (m ∷ ms) (n ∷ ns) h = omega (arith, value-add_digits ms ns (omega (arith, h)))

add_digits-cons :
    (ms ns : List ℕ) → 0 < length ms → (a : ℕ) × (l : List ℕ) × (add_digits ms ns ≡ a ∷ l)
add_digits-cons [] ns h = absurd (omega (arith, h))
add_digits-cons (m ∷ ms) [] h = (m, ms, refl)
add_digits-cons (m ∷ ms) (n ∷ ns) h = (m + n, add_digits ms ns, refl)

length-add_digits : (ms ns : List ℕ) → length ms ≡ length ns → length (add_digits ms ns) ≡ length ms
length-add_digits [] [] h = refl
length-add_digits [] (n ∷ ns) h = absurd (omega (arith, h))
length-add_digits (m ∷ ms) [] h = refl
length-add_digits (m ∷ ms) (n ∷ ns) h = omega (arith, length-add_digits ms ns (omega (arith, h)))

-- operator+=, for two numbers of the same exponent, of five digits each. If five digits can hold the
-- sum, then the exponent stands and they are worth the sum; otherwise the exponent goes up by one and
-- they are worth a tenth of the sum, rounded to the nearest.
pub add_lem :
    (x term : DecimalFloat)
    → length x.mantissa ≡ 5
    → length term.mantissa ≡ 5
    → IsWorth (value x.mantissa + value term.mantissa) x.exponent (add x term)
unfolding add
add_lem x term h h' =
    let (a, l, e') = add_digits-cons x.mantissa term.mantissa (omega (arith, h)) in
    let y : DecimalFloat = record x { mantissa = add_digits x.mantissa term.mantissa } in
    subst (λ n. IsWorth n x.exponent (do_carry y))
      (value-add_digits x.mantissa term.mantissa (h ∙ sym h'))
      (do_carry-IsWorth a l y e' (length-add_digits x.mantissa term.mantissa (h ∙ sym h') ∙ h))
