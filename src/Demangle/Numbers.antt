-- ===== src/Demangle/Numbers.antt =====
-- decode_number reads back what a number looks like.
use libcwd.Base.{
  ℕ, suc, zero, ◌<◌, ◌≡◌, refl, ◌∙◌, ap, Bool, true, false, [], ◌∷◌, ◌++◌, ltb, ◌==◌, length,
  length-append, All, arith,
}
use mathlib.Core.List.{append_assoc}
use libcwd.Demangle.{Bytes, Session, current, advance, is_digit, give_back}
use libcwd.Demangle.Leaf.{digits_loop, decode_non_negative_decimal_integer, decode_number}
use libcwd.Demangle.Cursor.{
  Sees, current-Sees, Sees-advance, eat-Sees, next-Sees, next_peek-Sees, advance-suc, length-Sees,
}

abbrev pub IsDigits : Bytes → Type 0
IsDigits ds = All (λ d. is_digit d ≡ true) ds

-- The loop reads the digits and stops at the first other character.
digits_loop_lem :
    (fuel d : ℕ) (ds : Bytes) (c : ℕ) (rest : Bytes) (s : Session) (output : Bytes)
    → length ds < fuel
    → Sees (d ∷ ds ++ c ∷ rest) s
    → IsDigits ds
    → is_digit c ≡ false
    → digits_loop fuel d s output ≡ (advance (suc (length ds)) s, output ++ d ∷ ds)
unfolding digits_loop
digits_loop_lem zero d ds c rest s output l h hd hc = absurd (omega (arith, l))
digits_loop_lem (suc fuel) d [] c rest s output l h hd hc =
    rw (next_peek-Sees s d c rest h, next-Sees s d c rest h, hc) refl
digits_loop_lem (suc fuel) d (d' ∷ ds) c rest s output l h hd hc =
    rw (next_peek-Sees s d d' (ds ++ c ∷ rest) h, next-Sees s d d' (ds ++ c ∷ rest) h, hd.0)
      (digits_loop_lem fuel d' ds c rest (advance 1 s) (output ++ d ∷ []) (omega (arith, l))
          (Sees-advance s _ d h) hd.1 hc
        ∙ ap (λ t. (t, (output ++ d ∷ []) ++ d' ∷ ds)) (advance-suc (suc (length ds)) s)
        ∙ ap (λ o. (advance (suc (suc (length ds))) s, o)) (append_assoc output (d ∷ []) (d' ∷ ds)))

not_zero : (d : ℕ) → ltb 48 d ≡ true → (d == 48) ≡ false
not_zero d h = ground arith

fuel_enough :
    (ds : Bytes) (c : ℕ) (rest : Bytes) (s : Session) (d : ℕ)
    → Sees (d ∷ ds ++ c ∷ rest) s
    → length ds < suc s.len
fuel_enough ds c rest s d h =
    omega (arith, length-Sees (d ∷ ds ++ c ∷ rest) s h, length-append ds (c ∷ rest))

integer_lem :
    (d : ℕ) (ds : Bytes) (c : ℕ) (rest : Bytes) (s : Session) (output : Bytes)
    → Sees (d ∷ ds ++ c ∷ rest) s
    → ltb 48 d ≡ true
    → is_digit d ≡ true
    → IsDigits ds
    → is_digit c ≡ false
    → decode_non_negative_decimal_integer s output
      ≡ give_back (advance (suc (length ds)) s) (output ++ d ∷ ds)
unfolding decode_non_negative_decimal_integer
integer_lem d ds c rest s output h h0 hd hds hc =
    rw
      (
        current-Sees s (ds ++ c ∷ rest) d h,
        not_zero d h0,
        hd,
        digits_loop_lem (suc s.len) d ds c rest s output (fuel_enough ds c rest s d h) h hds hc,
      )
      refl

-- <non-negative decimal integer>: 0, or digits of which the first is not 0.
pub data IsNumeral : Bytes → Type 0 where
  only_zero : IsNumeral (48 ∷ [])
  digits :
      (d : ℕ) (ds : Bytes) → ltb 48 d ≡ true → is_digit d ≡ true → IsDigits ds → IsNumeral (d ∷ ds)

numeral_lem :
    (n : Bytes) (c : ℕ) (rest : Bytes) (s : Session) (output : Bytes)
    → IsNumeral n
    → Sees (n ++ c ∷ rest) s
    → is_digit c ≡ false
    → decode_non_negative_decimal_integer s output ≡ give_back (advance (length n) s) (output ++ n)
unfolding decode_non_negative_decimal_integer
numeral_lem n c rest s output only_zero h hc =
    rw (current-Sees s (c ∷ rest) 48 h, eat-Sees s (c ∷ rest) 48 h) refl
numeral_lem n c rest s output (digits d ds h0 hd hds) h hc =
    integer_lem d ds c rest s output h h0 hd hds hc

numeral_no_sign :
    (n : Bytes) (c : ℕ) (rest : Bytes) (s : Session)
    → IsNumeral n
    → Sees (n ++ c ∷ rest) s
    → (current s == 110) ≡ false
unfolding is_digit
numeral_no_sign n c rest s only_zero h = rw (current-Sees s (c ∷ rest) 48 h) refl
numeral_no_sign n c rest s (digits d ds h0 hd hds) h =
    rw (current-Sees s (ds ++ c ∷ rest) d h) (ground (arith, hd))

-- The sign in the mangled name, and the one that is put out.
abbrev pub mangled_sign : Bool → Bytes
mangled_sign true = 110 ∷ []
mangled_sign false = []

abbrev pub sign : Bool → Bytes
sign true = 45 ∷ []
sign false = []

-- decode_number reads a number that another character than a digit follows: it succeeds, unless
-- decoding has failed before, puts out the number with `-` for the sign `n`, and leaves the cursor
-- behind the number.
pub decode_number_lem :
    (negative : Bool) (n : Bytes) (c : ℕ) (rest : Bytes) (s : Session) (output : Bytes)
    → IsNumeral n
    → Sees (mangled_sign negative ++ (n ++ c ∷ rest)) s
    → is_digit c ≡ false
    → decode_number s output
      ≡ give_back (advance (length (mangled_sign negative ++ n)) s) (output ++ (sign negative ++ n))
unfolding decode_number
decode_number_lem false n c rest s output hn h hc =
    rw (numeral_no_sign n c rest s hn h) (numeral_lem n c rest s output hn h hc)
decode_number_lem true n c rest s output hn h hc =
    rw (current-Sees s (n ++ c ∷ rest) 110 h, eat-Sees s (n ++ c ∷ rest) 110 h)
      (numeral_lem n c rest (advance 1 s) (output ++ 45 ∷ []) hn
          (Sees-advance s (n ++ c ∷ rest) 110 h) hc
        ∙ ap (λ t. give_back t ((output ++ 45 ∷ []) ++ n)) (advance-suc (length n) s)
        ∙ ap (λ o. give_back (advance (suc (length n)) s) o) (append_assoc output (45 ∷ []) n))
