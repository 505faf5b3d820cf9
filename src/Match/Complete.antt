-- ===== src/Match/Complete.antt =====
-- `match` finds every match of the mask, and the fuel is enough.
use mathlib.Core.List.{append_assoc}
use libcwd.Base.{
  ℕ, suc, zero, ◌≤◌, ◌<◌, ◌≡◌, ◌≢◌, ◌↔◌, refl, sym, ap, Bool, true, false, ◌&&◌, List, [], ◌∷◌,
  ◌++◌, length, ◌==◌, ==_iff, if◌then◌else◌, Bool-cases, inl, inr, arith,
}
use libcwd.Match.{star, all_stars, search, after_star, first_loop, match_go, match}
use libcwd.Match.Glob.{Matches, match_go_sound}

-- A match of a mask that starts with a star splits the name.
split_star :
    {m n : List ℕ}
    → Matches (star ∷ m) n
    → (xs : List ℕ) × (ys : List ℕ) × (n ≡ xs ++ ys) × Matches m ys
split_star (Matches.same ne h) = absurd (ne refl)
split_star (Matches.none_of_star {n = n} h) = ([], n, refl, h)
split_star (Matches.one_of_star {c = c} h) =
    let (xs, ys, e, h') = split_star h in (c ∷ xs, ys, ap (◌∷◌ c) e, h')

-- What a match of a mask says that starts with another character.
same_head : {d c : ℕ} {m n : List ℕ} → d ≢ star → Matches (d ∷ m) (c ∷ n) → (c ≡ d) × Matches m n
same_head ne (Matches.same ne' h) = (refl, h)
same_head ne (Matches.none_of_star h) = absurd (ne refl)
same_head ne (Matches.one_of_star h) = absurd (ne refl)

not_empty : {d : ℕ} {m : List ℕ} → d ≢ star → Matches (d ∷ m) [] → ⊥
not_empty ne (Matches.none_of_star h) = ne refl

if_else : (b y : Bool) → y ≡ true → (if b then true else y) ≡ true
if_else true y h = refl
if_else false y h = h

if_then : (b y : Bool) → b ≡ true → (if b then true else y) ≡ true
if_then b y h = rw (h) refl

all_stars_complete : (m : List ℕ) → Matches m [] → all_stars m ≡ true
unfolding all_stars
all_stars_complete [] h = refl
all_stars_complete (d ∷ m) (Matches.none_of_star h) = all_stars_complete m h

as_star : (d : ℕ) {m n : List ℕ} → (d == star) ≡ true → Matches (d ∷ m) n → Matches (star ∷ m) n
as_star d {m} {n} e h = rw (sym ((==_iff d star).0 e)) h

unequal_star : (d : ℕ) → (d == star) ≡ false → d ≢ star
unequal_star d e h = ground arith

module _ (rec : List ℕ → List ℕ → Bool) where
  search_complete :
      (d : ℕ) (m xs ys : List ℕ)
      → d ≢ star
      → ((n : List ℕ) → Matches (d ∷ m) n → rec (d ∷ m) n ≡ true)
      → Matches (d ∷ m) ys
      → search rec d m (xs ++ ys) ≡ true
  unfolding search
  search_complete d m [] [] ne all h = absurd (not_empty ne h)
  search_complete d m [] (c ∷ ys) ne all h =
      let (e, h') = same_head ne h in
      if_then (c == d && rec (d ∷ m) (c ∷ ys)) _ (rw ((==_iff c d).1 e, all (c ∷ ys) h) refl)
  search_complete d m (x ∷ xs) ys ne all h =
      if_else (x == d && rec (d ∷ m) (x ∷ (xs ++ ys))) _ (search_complete d m xs ys ne all h)

  module _ (k : ℕ)
      (rec-complete : (m n : List ℕ) → length m < k → Matches m n → rec m n ≡ true) where
    after_star_complete :
        (m xs ys : List ℕ) → length m < k → Matches m ys → after_star rec m (xs ++ ys) ≡ true
    unfolding after_star
    after_star_complete [] xs ys lt h = refl
    after_star_complete (d ∷ m) xs ys lt h = elim (Bool-cases (d == star)) [
      | inl e ↦
          (let (xs', ys', e', h') = split_star (as_star d e h) in
            rw (e, e', sym (append_assoc xs xs' ys'))
              (after_star_complete m (xs ++ xs') ys' (omega (arith, lt)) h'))
      | inr e ↦
          rw (e) (search_complete d m xs ys (unequal_star d e) (λ n. rec-complete (d ∷ m) n lt) h)
    ]

    first_loop_complete : (m n : List ℕ) → length m ≤ k → Matches m n → first_loop rec m n ≡ true
    unfolding first_loop
    first_loop_complete m [] le h = all_stars_complete m h
    first_loop_complete (d ∷ m) (c ∷ n) le h = elim (Bool-cases (d == star)) [
      | inl e ↦
          (let (xs, ys, e', h') = split_star (as_star d e h) in
            rw (e, e') (after_star_complete m xs ys (omega (arith, le)) h'))
      | inr e ↦
          (let (e', h') = same_head (unequal_star d e) h in
            rw (e, (==_iff c d).1 e') (first_loop_complete m n (omega (arith, le)) h'))
    ]
    first_loop_complete [] (c ∷ n) le h = elim h [ ]

match_go_complete :
    (fuel : ℕ) (m n : List ℕ) → length m < fuel → Matches m n → match_go fuel m n ≡ true
unfolding match_go
match_go_complete zero m n lt h = absurd (omega (arith, lt))
match_go_complete (suc fuel) m n lt h =
    first_loop_complete (match_go fuel) fuel (match_go_complete fuel) m n (omega (arith, lt)) h

-- `match` is true exactly if the mask matches the name: every star stands for some characters, any
-- other character of the mask for itself.
pub match-Matches : (mask name : List ℕ) → (match mask name ≡ true) ↔ Matches mask name
unfolding match
match-Matches mask name = (
  match_go_sound (suc (length mask)) mask name,
  match_go_complete (suc (length mask)) mask name (omega arith),
)
