-- ===== src/Match.antt =====
-- src/utils/match.cxx: does a mask with `*` match a name? Both are NUL-terminated, and `masklen`
-- is the length of the mask, so a string is the list of its characters, none of them NUL.
pub mod Glob
pub mod Complete
mod Samples
use libcwd.Base.{ℕ, suc, zero, Bool, true, false, ◌&&◌, List, [], ◌∷◌, length, ◌==◌, if◌then◌else◌}

abbrev pub star : ℕ
star = 42

-- `while (masklen-- > 0) if (*m++ != '*') return false; return true;`
unfoldable pub all_stars : List ℕ → Bool
all_stars [] = true
all_stars (d ∷ m) = if d == star then all_stars m else false

-- `rec` is the recursive call of `match`.
module _ (rec : List ℕ → List ℕ → Bool) where
  -- The last loop: `m` starts with `d`, and is tried at every place of the name.
  unfoldable pub search : ℕ → List ℕ → List ℕ → Bool
  search d m [] = false
  search d m (c ∷ n) = if c == d && rec (d ∷ m) (c ∷ n) then true else search d m n

  -- From the first star on: more stars are passed over.
  unfoldable pub after_star : List ℕ → List ℕ → Bool
  after_star [] n = true
  after_star (d ∷ m) n = if d == star then after_star m n else search d m n

  -- The first loop.
  unfoldable pub first_loop : List ℕ → List ℕ → Bool
  first_loop m [] = all_stars m
  first_loop [] (c ∷ n) = false
  first_loop (d ∷ m) (c ∷ n) =
      let rest = first_loop m n in
      if d == star then after_star m (c ∷ n) else if c == d then rest else false

-- At most `fuel` calls of `match` inside one another.
unfoldable pub match_go : ℕ → List ℕ → List ℕ → Bool
match_go zero m n = false
match_go (suc fuel) m n = first_loop (match_go fuel) m n

-- Each call inside is made past a star of the mask.
unfoldable pub match : List ℕ → List ℕ → Bool
match mask name = match_go (suc (length mask)) mask name
