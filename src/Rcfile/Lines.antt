-- ===== src/Rcfile/Lines.antt =====
-- A line of the configuration file reads back as the setting that it states.
use libcwd.Base.{
  ℕ, ◌≡◌, refl, ◌∙◌, ap, true, false, ◌||◌, if◌then◌else◌, [], ◌∷◌, ◌++◌, All, ◌==◌, arith,
}
use libcwd.Rcfile.{Bytes}
use libcwd.Rcfile.Text.{
  is_blank, drop_while, drop_end, take_until, trim, contains, keyword_of, behind_equals, classify,
  interpret, setting,
}

-- A character of a keyword.
abbrev pub IsLetter : ℕ → Type 0
IsLetter c = (is_blank c || c == 61) ≡ false

letter_not_blank : (c : ℕ) → IsLetter c → is_blank c ≡ false
letter_not_blank c h = ground (arith, h)

letter_no_equals : (c : ℕ) → IsLetter c → (c == 61) ≡ false
letter_no_equals c h = ground (arith, h)

drop_while_kept : (c : ℕ) (s : Bytes) → is_blank c ≡ false → drop_while is_blank (c ∷ s) ≡ c ∷ s
unfolding drop_while
drop_while_kept c s h = ap (λ b. if b then drop_while is_blank s else c ∷ s) h

drop_end_kept :
    (c : ℕ) (s : Bytes)
    → is_blank c ≡ false
    → drop_end is_blank s ≡ s
    → drop_end is_blank (c ∷ s) ≡ c ∷ s
unfolding drop_end
drop_end_kept c s h e =
    ap (λ (t : Bytes). elim t [ [] ↦ if is_blank c then [] else c ∷ [] | d ∷ u ↦ c ∷ d ∷ u ]) e
    ∙ put_back s
  where
    put_back :
        (t : Bytes)
        → (elim t [ [] ↦ if is_blank c then [] else c ∷ [] | d ∷ u ↦ c ∷ d ∷ u ]) ≡ c ∷ t
    put_back [] = ap (λ b. if b then [] else c ∷ []) h
    put_back (d ∷ u) = refl

drop_end-keyword :
    (keyword value : Bytes)
    → All IsLetter keyword
    → drop_end is_blank value ≡ value
    → drop_end is_blank (keyword ++ 61 ∷ value) ≡ keyword ++ 61 ∷ value
drop_end-keyword [] value h e = drop_end_kept 61 value refl e
drop_end-keyword (c ∷ keyword) value h e =
    drop_end_kept c (keyword ++ 61 ∷ value) (letter_not_blank c h.0)
      (drop_end-keyword keyword value h.1 e)

contains_equals : (keyword value : Bytes) → contains 61 (keyword ++ 61 ∷ value) ≡ true
unfolding contains
contains_equals [] value = refl
contains_equals (c ∷ keyword) value = ground (arith, contains_equals keyword value)

keyword_back :
    (keyword value : Bytes)
    → All IsLetter keyword
    → take_until (λ c. is_blank c || c == 61) (keyword ++ 61 ∷ value) ≡ keyword
unfolding take_until
keyword_back [] value h = refl
keyword_back (c ∷ keyword) value h =
    ap (λ b. if b then [] else c ∷ take_until (λ d. is_blank d || d == 61) (keyword ++ 61 ∷ value))
      h.0
    ∙ ap (◌∷◌ c) (keyword_back keyword value h.1)

value_back :
    (keyword value : Bytes) → All IsLetter keyword → behind_equals (keyword ++ 61 ∷ value) ≡ value
unfolding behind_equals
value_back [] value h = refl
value_back (c ∷ keyword) value h =
    ap (λ b. if b then keyword ++ 61 ∷ value else behind_equals (keyword ++ 61 ∷ value))
      (letter_no_equals c h.0)
    ∙ value_back keyword value h.1

-- A line of a keyword, `=` and a value reads back as that setting. The keyword is not empty, has no
-- blank and no `=`, and does not start with `#`; the value has no blank at its ends.
pub interpret_lem :
    (c : ℕ) (keyword value : Bytes)
    → All IsLetter (c ∷ keyword)
    → (c == 35) ≡ false
    → drop_while is_blank value ≡ value
    → drop_end is_blank value ≡ value
    → interpret ((c ∷ keyword) ++ 61 ∷ value) ≡ setting (c ∷ keyword) value
unfolding interpret trim classify keyword_of
interpret_lem c keyword value h hc hw he =
    rw
      (
        drop_while_kept c (keyword ++ 61 ∷ value) (letter_not_blank c h.0),
        drop_end-keyword (c ∷ keyword) value h he,
        hc,
        contains_equals (c ∷ keyword) value,
        letter_no_equals c h.0,
      )
      (ap (λ k. setting k (trim (behind_equals ((c ∷ keyword) ++ 61 ∷ value))))
          (keyword_back (c ∷ keyword) value h)
        ∙ ap (λ v. setting (c ∷ keyword) (trim v)) (value_back (c ∷ keyword) value h)
        ∙ ap (λ v. setting (c ∷ keyword) (drop_end is_blank v)) hw
        ∙ ap (setting (c ∷ keyword)) he)
