-- ===== src/Match/Glob.antt =====
-- What `match` is to decide, and that it does.
use libcwd.Base.{
  ℕ, suc, zero, ◌≡◌, ◌≢◌, refl, Bool, true, false, ◌&&◌, List, [], ◌∷◌, ◌==◌, ==_iff, if◌then◌else◌,
  inl, inr, ◌⊎◌, arith,
}
use libcwd.Match.{star, all_stars, search, after_star, first_loop, match_go}

-- A star stands for any characters, any other character for itself.
pub data Matches : List ℕ → List ℕ → Type 0 where
  end : Matches [] []
  same : {c : ℕ} {m n : List ℕ} → c ≢ star → Matches m n → Matches (c ∷ m) (c ∷ n)
  none_of_star : {m n : List ℕ} → Matches m n → Matches (star ∷ m) n
  one_of_star : {c : ℕ} {m n : List ℕ} → Matches (star ∷ m) n → Matches (star ∷ m) (c ∷ n)

if_cases :
    (b x y : Bool)
    → (if b then x else y) ≡ true
    → ((b ≡ true) × (x ≡ true)) ⊎ ((b ≡ false) × (y ≡ true))
if_cases true x y h = inl (refl, h)
if_cases false x y h = inr (refl, h)

and_left : (a b : Bool) → (a && b) ≡ true → (a ≡ true) × (b ≡ true)
and_left true b h = (refl, h)
and_left false b h = ground arith

star_any : (n : List ℕ) → Matches (star ∷ []) n
star_any [] = none_of_star end
star_any (c ∷ n) = one_of_star (star_any n)

starred : (d : ℕ) {m n : List ℕ} → (d == star) ≡ true → Matches (star ∷ m) n → Matches (d ∷ m) n
starred d {m} {n} e h = rw ((==_iff d star).0 e) h

unequal : (a b : ℕ) → (a == b) ≡ false → a ≢ b
unequal a b e h = ground arith

all_stars_sound : (m : List ℕ) → all_stars m ≡ true → Matches m []
unfolding all_stars
all_stars_sound [] h = end
all_stars_sound (d ∷ m) h = elim (if_cases (d == star) _ _ h) [
  | inl (e, h') ↦ starred d e (none_of_star (all_stars_sound m h'))
  | inr (e, h') ↦ ground arith
]

module _ (rec : List ℕ → List ℕ → Bool)
    (rec-sound : (m n : List ℕ) → rec m n ≡ true → Matches m n) where
  search_sound : (d : ℕ) (m n : List ℕ) → search rec d m n ≡ true → Matches (star ∷ d ∷ m) n
  unfolding search
  search_sound d m [] h = ground arith
  search_sound d m (c ∷ n) h = elim (if_cases (c == d && rec (d ∷ m) (c ∷ n)) _ _ h) [
    | inl (e, h') ↦ none_of_star (rec-sound _ _ (and_left (c == d) _ e).1)
    | inr (e, h') ↦ one_of_star (search_sound d m n h')
  ]

  after_star_sound : (m n : List ℕ) → after_star rec m n ≡ true → Matches (star ∷ m) n
  unfolding after_star
  after_star_sound [] n h = star_any n
  after_star_sound (d ∷ m) n h = elim (if_cases (d == star) _ _ h) [
    | inl (e, h') ↦ none_of_star (starred d e (after_star_sound m n h'))
    | inr (e, h') ↦ search_sound d m n h'
  ]

  first_loop_sound : (m n : List ℕ) → first_loop rec m n ≡ true → Matches m n
  unfolding first_loop
  first_loop_sound m [] h = all_stars_sound m h
  first_loop_sound [] (c ∷ n) h = ground arith
  first_loop_sound (d ∷ m) (c ∷ n) h = elim (if_cases (d == star) _ _ h) [
    | inl (e, h') ↦ starred d e (after_star_sound m (c ∷ n) h')
    | inr (e, h') ↦ elim (if_cases (c == d) _ _ h') [
      | inl (e', h'') ↦ rw ((==_iff c d).0 e') (same (unequal d star e) (first_loop_sound m n h''))
      | inr (e', h'') ↦ ground arith
    ]
  ]

pub match_go_sound : (fuel : ℕ) (m n : List ℕ) → match_go fuel m n ≡ true → Matches m n
unfolding match_go
match_go_sound zero m n h = ground arith
match_go_sound (suc fuel) m n h = first_loop_sound (match_go fuel) (match_go_sound fuel) m n h
