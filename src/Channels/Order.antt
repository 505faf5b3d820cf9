-- ===== src/Channels/Order.antt =====
-- The visible channels stand in the order of their labels, and what `find` makes of it.
use libcwd.Base.{
  ℕ, suc, zero, ◌≡◌, refl, true, false, Option, none, some, List, [], ◌∷◌, All, arith, Bool-cases,
  inl, inr, ◌⊎◌,
}
use libcwd.Channels.{Channel, Bytes, greater, insert, find_from, find, is_prefix, Registry}

greater_asym : (n : ℕ) (a b : Bytes) → greater n a b ≡ true → greater n b a ≡ false
unfolding greater
greater_asym zero a b h = refl
greater_asym (suc n) [] b h = ground arith
greater_asym (suc n) (x ∷ a) [] h = refl
greater_asym (suc n) (x ∷ a) (y ∷ b) h = ground (arith, greater_asym n a b)

greater_trans :
    (n : ℕ) (a b c : Bytes) → greater n a b ≡ false → greater n b c ≡ false → greater n a c ≡ false
unfolding greater
greater_trans zero a b c h h' = refl
greater_trans (suc n) [] b c h h' = refl
greater_trans (suc n) (x ∷ a) [] [] h h' = h
greater_trans (suc n) (x ∷ a) [] (z ∷ c) h h' = ground arith
greater_trans (suc n) (x ∷ a) (y ∷ b) [] h h' = ground arith
greater_trans (suc n) (x ∷ a) (y ∷ b) (z ∷ c) h h' = ground (arith, greater_trans n a b c)

-- No label comes before a smaller one, by their first `width` characters.
abbrev pub IsSorted : ℕ → List Channel → Type 0
IsSorted width [] = Unit
IsSorted width (x ∷ xs) = All (λ y. greater width x.label y.label ≡ false) xs × IsSorted width xs

All-map :
    {P Q : Channel → Type 0} (xs : List Channel) → ((x : Channel) → P x → Q x) → All P xs → All Q xs
All-map [] f h = tt
All-map (x ∷ xs) f h = (f x h.0, All-map xs f h.1)

pub All-insert :
    (P : Channel → Type 0) (width : ℕ) (ch : Channel) (xs : List Channel)
    → P ch
    → All P xs
    → All P (insert width ch xs)
unfolding insert
All-insert P width ch [] p h = (p, tt)
All-insert P width ch (x ∷ xs) p h = elim (Bool-cases (greater width x.label ch.label)) [
  | inl e ↦ rw (e) (p, h)
  | inr e ↦ rw (e) (h.0, All-insert P width ch xs p h.1)
]

-- A new channel is put where the order of the labels is kept.
pub insert-IsSorted :
    (width : ℕ) (ch : Channel) (xs : List Channel)
    → IsSorted width xs
    → IsSorted width (insert width ch xs)
unfolding insert
insert-IsSorted width ch [] h = (tt, tt)
insert-IsSorted width ch (x ∷ xs) h = elim (Bool-cases (greater width x.label ch.label)) [
  | inl e ↦
      let le = greater_asym width x.label ch.label e in
      rw (e) ((le, All-map xs (λ y hy. greater_trans width ch.label x.label y.label le hy) h.0), h)
  | inr e ↦ rw (e) (
    All-insert (λ y. greater width x.label y.label ≡ false) width ch xs e h.0,
    insert-IsSorted width ch xs h.1,
  )
]

pub greater_irrefl : (n : ℕ) (a : Bytes) → greater n a a ≡ false
unfolding greater
greater_irrefl zero a = refl
greater_irrefl (suc n) [] = refl
greater_irrefl (suc n) (x ∷ a) = ground (arith, greater_irrefl n a)

abbrev pub IsIn : Channel → List Channel → Type 0
IsIn ch [] = ⊥
IsIn ch (x ∷ xs) = (ch ≡ x) ⊎ IsIn ch xs

module _ (width : ℕ) (label : Bytes) where
  abbrev IsAbove : Channel → List Channel → Type 0
  IsAbove ch xs =
      All (λ x. is_prefix label x.label ≡ true → greater width x.label ch.label ≡ false) xs

  abbrev LiesBelow : Option Channel → Channel → Type 0
  LiesBelow none ch = Unit
  LiesBelow (some c) ch = greater width c.label ch.label ≡ false

  -- What a search that has found `result` so far ends in.
  abbrev pub Finds : Option Channel → List Channel → Option Channel → Type 0
  Finds result xs none = (result ≡ none) × All (λ x. is_prefix label x.label ≡ false) xs
  Finds result xs (some ch) =
      (is_prefix label ch.label ≡ true)
      × IsAbove ch xs
      × LiesBelow result ch
      × ((result ≡ some ch) ⊎ IsIn ch xs)

  abbrev IsMatch : Option Channel → Type 0
  IsMatch none = Unit
  IsMatch (some c) = is_prefix label c.label ≡ true

  abbrev StandsBefore : Option Channel → List Channel → Type 0
  StandsBefore none xs = Unit
  StandsBefore (some c) xs = All (λ y. greater width c.label y.label ≡ false) xs

  after_match :
      (result : Option Channel) (x : Channel) (xs : List Channel) (final : Option Channel)
      → StandsBefore result (x ∷ xs)
      → Finds (some x) xs final
      → Finds result (x ∷ xs) final
  after_match result x xs none before f = cc f.0
  after_match none x xs (some ch) before (p, above, below, from) =
      (p, ((λ m. below), above), tt, elim from [ inl e ↦ inr (inl (cc e)) | inr i ↦ inr (inr i) ])
  after_match (some c) x xs (some ch) before (p, above, below, from) = (
    p,
    ((λ m. below), above),
    greater_trans width c.label x.label ch.label before.0 below,
    elim from [ inl e ↦ inr (inl (cc e)) | inr i ↦ inr (inr i) ],
  )

  after_other :
      (result : Option Channel) (x : Channel) (xs : List Channel) (final : Option Channel)
      → is_prefix label x.label ≡ false
      → Finds result xs final
      → Finds result (x ∷ xs) final
  after_other result x xs none e f = (f.0, (e, f.1))
  after_other result x xs (some ch) e (p, above, below, from) =
      (p, ((λ m. cc (e, m)), above), below, elim from [ inl e' ↦ inl e' | inr i ↦ inr (inr i) ])

  before_rest :
      (result : Option Channel) (x : Channel) (xs : List Channel)
      → StandsBefore result (x ∷ xs)
      → StandsBefore result xs
  before_rest none x xs h = tt
  before_rest (some c) x xs h = h.1

  find_from-Finds :
      (result : Option Channel) (xs : List Channel)
      → IsSorted width xs
      → IsMatch result
      → StandsBefore result xs
      → Finds result xs (find_from result label xs)
  unfolding find_from
  find_from-Finds none [] sorted m before = (refl, tt)
  find_from-Finds (some c) [] sorted m before = (m, tt, greater_irrefl width c.label, inl refl)
  find_from-Finds result (x ∷ xs) sorted m before = elim (Bool-cases (is_prefix label x.label)) [
    | inl e ↦
        rw (e) (after_match result x xs _ before (find_from-Finds (some x) xs sorted.1 e sorted.0))
    | inr e ↦ rw (e) (
        after_other result x xs _ e
          (find_from-Finds result xs sorted.1 m (before_rest result x xs before)))
  ]

-- With the visible channels in order, `find` gives a visible channel whose label the given text is a
-- prefix of, letter case aside, and no other such channel has a greater label. It gives none exactly
-- if there is no such channel.
pub find-largest :
    (label : Bytes) (r : Registry)
    → IsSorted r.max_len r.visible
    → Finds r.max_len label none r.visible (find label r)
unfolding find
find-largest label r sorted = find_from-Finds r.max_len label none r.visible sorted tt tt
