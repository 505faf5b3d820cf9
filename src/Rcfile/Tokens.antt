-- ===== src/Rcfile/Tokens.antt =====
-- The loop of RcFile::process_channels against the words of its list.
use libcwd.Base.{
  ℕ, suc, zero, ◌≤◌, ◌<◌, ◌≡◌, refl, sym, ◌∙◌, ap, Bool, true, false, not, if◌then◌else◌,
  Bool-cases, inl, inr, arith, List, [], ◌∷◌, map, length,
}
use libcwd.Rcfile.{Bytes, M, ◌>>◌, skip}
use libcwd.Rcfile.Text.{is_separator, drop_while, drop_until, take_until, to_upper}
use libcwd.Rcfile.Switching.{process_turn, process_loop}

-- Does a word go on here?
abbrev goes_on : Bytes → Bool
goes_on [] = false
goes_on (c ∷ s) = not (is_separator c)

abbrev longer : ℕ → List Bytes → List Bytes
longer c [] = (c ∷ []) ∷ []
longer c (word ∷ words) = (c ∷ word) ∷ words

-- The words between the separators.
unfoldable pub words : Bytes → List Bytes
words [] = []
words (c ∷ s) =
    let rest = words s in
    if is_separator c then rest else if goes_on s then longer c rest else (c ∷ []) ∷ rest

unfoldable pub for_each : (Bytes → M (Unit {0})) → List Bytes → M (Unit {0})
for_each f [] = skip
for_each f (word ∷ ws) = do f (map to_upper word); for_each f ws

no_words :
    (c : ℕ)
    → (if goes_on [] then longer c (words []) else (c ∷ []) ∷ words [])
      ≡ (c ∷ take_until is_separator []) ∷ words (drop_until is_separator [])
unfolding words take_until drop_until
no_words c = refl

module _ (c : ℕ) (s : Bytes) where
  module _ (h : is_separator c ≡ true) where
    words_separator : words (c ∷ s) ≡ words s
    unfolding words
    words_separator =
        ap
          (λ b. if b then words s else if goes_on s then longer c (words s) else (c ∷ []) ∷ words s)
          h

    take_separator : take_until is_separator (c ∷ s) ≡ []
    unfolding take_until
    take_separator = ap (λ b. if b then [] else c ∷ take_until is_separator s) h

    drop_separator : drop_until is_separator (c ∷ s) ≡ c ∷ s
    unfolding drop_until
    drop_separator = ap (λ b. if b then c ∷ s else drop_until is_separator s) h

    skip_separator : drop_while is_separator (c ∷ s) ≡ drop_while is_separator s
    unfolding drop_while
    skip_separator = ap (λ b. if b then drop_while is_separator s else c ∷ s) h

  module _ (h : is_separator c ≡ false) where
    words_letter : words (c ∷ s) ≡ (if goes_on s then longer c (words s) else (c ∷ []) ∷ words s)
    unfolding words
    words_letter =
        ap
          (λ b. if b then words s else if goes_on s then longer c (words s) else (c ∷ []) ∷ words s)
          h

    take_letter : take_until is_separator (c ∷ s) ≡ c ∷ take_until is_separator s
    unfolding take_until
    take_letter = ap (λ b. if b then [] else c ∷ take_until is_separator s) h

    drop_letter : drop_until is_separator (c ∷ s) ≡ drop_until is_separator s
    unfolding drop_until
    drop_letter = ap (λ b. if b then c ∷ s else drop_until is_separator s) h

    skip_letter : drop_while is_separator (c ∷ s) ≡ c ∷ s
    unfolding drop_while
    skip_letter = ap (λ b. if b then drop_while is_separator s else c ∷ s) h

words-drop_while : (s : Bytes) → words (drop_while is_separator s) ≡ words s
unfolding drop_while
words-drop_while [] = refl
words-drop_while (c ∷ s) = elim (Bool-cases (is_separator c)) [
  | inl e ↦ ap words (skip_separator c s e) ∙ words-drop_while s ∙ sym (words_separator c s e)
  | inr e ↦ ap words (skip_letter c s e)
]

words_step :
    (c : ℕ) (s : Bytes)
    → is_separator c ≡ false
    → words (c ∷ s) ≡ take_until is_separator (c ∷ s) ∷ words (drop_until is_separator (c ∷ s))
words_step c [] h = rw (words_letter c [] h, take_letter c [] h, drop_letter c [] h) (no_words c)
words_step c (d ∷ s) h =
    rw (words_letter c (d ∷ s) h, take_letter c (d ∷ s) h, drop_letter c (d ∷ s) h)
      (elim (Bool-cases (is_separator d)) [
        | inl e ↦
            rw (take_separator d s e, drop_separator d s e)
              (ap (λ b. if not b then longer c (words (d ∷ s)) else (c ∷ []) ∷ words (d ∷ s)) e)
        | inr e ↦
            ap (λ b. if not b then longer c (words (d ∷ s)) else (c ∷ []) ∷ words (d ∷ s)) e
            ∙ ap (longer c) (words_step d s e)
      ])

length-drop_while : (s : Bytes) → length (drop_while is_separator s) ≤ length s
unfolding drop_while
length-drop_while [] = omega arith
length-drop_while (c ∷ s) = ground (arith, length-drop_while s)

length-drop_until : (s : Bytes) → length (drop_until is_separator s) ≤ length s
unfolding drop_until
length-drop_until [] = omega arith
length-drop_until (c ∷ s) = ground (arith, length-drop_until s)

-- From a word on, one turn takes the word off the list.
module _ (f : Bytes → M (Unit {0})) where
  no_turn : skip ≡ for_each f (words [])
  unfolding for_each words
  no_turn = refl

  process_turn_world :
      (again : Bytes → M (Unit {0})) (s : Bytes)
      → ((t : Bytes) → length t < length s → again t ≡ for_each f (words t))
      → process_turn f again (drop_while is_separator s) ≡ for_each f (words s)
  unfolding drop_while process_turn for_each words
  process_turn_world again [] h = refl
  process_turn_world again (c ∷ s) h = elim (Bool-cases (is_separator c)) [
    | inl e ↦
        ap (process_turn f again) (skip_separator c s e)
        ∙ process_turn_world again s (λ t l. h t (omega (arith, l)))
        ∙ ap (for_each f) (sym (words_separator c s e))
    | inr e ↦
        ap (process_turn f again) (skip_letter c s e)
        ∙ ap (λ m. f (map to_upper (take_until is_separator (c ∷ s))) >> m)
            (h (drop_until is_separator (c ∷ s))
              (rw (drop_letter c s e) (omega (arith, length-drop_until s))))
        ∙ ap (for_each f) (sym (words_step c s e))
  ]

  -- The loop of process_channels runs its body once for each word of the list between the
  -- separators, in their order and in upper case, if it has a turn for each character of the list.
  pub process_loop_lem :
      (fuel : ℕ) (s : Bytes) → length s ≤ fuel → process_loop f fuel s ≡ for_each f (words s)
  unfolding process_loop
  process_loop_lem zero [] h = no_turn
  process_loop_lem zero (c ∷ s) h = absurd (omega (arith, h))
  process_loop_lem (suc fuel) s h =
      process_turn_world (process_loop f fuel) s
        (λ t l. process_loop_lem fuel t (omega (arith, h, l)))
