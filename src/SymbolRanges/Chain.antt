-- ===== src/SymbolRanges/Chain.antt =====
-- Well-formed maps of symbol ranges: sorted, pairwise disjoint, keyed by the end address, every
-- entry nonempty and inside its symbol. And what such a map says at one address.
use libcwd.Base.{
  ℕ, ◌≤◌, ◌<◌, ◌≡◌, refl, Bool, true, ◌&&◌, Option, none, some, [], ◌∷◌, ◌++◌, arith, ltb, leb,
  if◌then◌else◌,
}
use libcwd.SymbolRanges.{SymbolRange, FunctionSymbolRanges, emplace}

-- The constructor's assertions hold of `r`.
abbrev pub IsRange : {Die : Type 0} → SymbolRange Die → Type 0
IsRange r =
    (r.start_addr < r.end_addr)
    × (r.symbol_start_addr ≤ r.start_addr)
    × (r.end_addr ≤ r.symbol_end_addr)

-- The entries lie between `lo` and `hi`, in order and apart.
abbrev pub Chain : {Die : Type 0} → ℕ → FunctionSymbolRanges Die → ℕ → Type 0
Chain lo [] hi = lo ≤ hi
Chain lo ((k, r) ∷ m) hi =
    (k ≡ r.end_addr) × (lo ≤ r.start_addr) × IsRange r × Chain r.end_addr m hi

abbrev pub covers : {Die : Type 0} → SymbolRange Die → ℕ → Bool
covers r a = leb r.start_addr a && ltb a r.end_addr

abbrev pub or_else {ℓ} : {A : Type ℓ} → Option A → Option A → Option A
or_else none y = y
or_else (some x) y = some x

module _ {Die : Type 0} where
  -- The entry that contains an address.
  unfoldable pub at : ℕ → FunctionSymbolRanges Die → Option (SymbolRange Die)
  at a [] = none
  at a ((k, r) ∷ m) = if covers r a then some r else at a m

  pub at-append :
      (a : ℕ) (xs ys : FunctionSymbolRanges Die) → at a (xs ++ ys) ≡ or_else (at a xs) (at a ys)
  unfolding at
  at-append a [] ys = refl
  at-append a ((k, r) ∷ xs) ys = ground (arith, at-append a xs ys)

  pub Chain-le : (m : FunctionSymbolRanges Die) (lo hi : ℕ) → Chain lo m hi → lo ≤ hi
  Chain-le [] lo hi c = c
  Chain-le ((k, r) ∷ m) lo hi c = omega (arith, Chain-le m r.end_addr hi c.3)

  pub Chain-lower :
      (m : FunctionSymbolRanges Die) (lo lo' hi : ℕ) → lo' ≤ lo → Chain lo m hi → Chain lo' m hi
  Chain-lower [] lo lo' hi h c = omega arith
  Chain-lower ((k, r) ∷ m) lo lo' hi h c = (c.0, omega arith, c.2, c.3)

  pub Chain-append :
      (xs ys : FunctionSymbolRanges Die) (lo mid hi : ℕ)
      → Chain lo xs mid
      → Chain mid ys hi
      → Chain lo (xs ++ ys) hi
  Chain-append [] ys lo mid hi c d = Chain-lower ys mid lo hi c d
  Chain-append ((k, r) ∷ xs) ys lo mid hi c d =
      (c.0, c.1, c.2, Chain-append xs ys r.end_addr mid hi c.3 d)

  pub Chain-widen :
      (m : FunctionSymbolRanges Die) (lo hi hi' : ℕ) → hi ≤ hi' → Chain lo m hi → Chain lo m hi'
  Chain-widen [] lo hi hi' h c = omega arith
  Chain-widen ((k, r) ∷ m) lo hi hi' h c = (c.0, c.1, c.2, Chain-widen m r.end_addr hi hi' h c.3)

  pub at_below :
      (a : ℕ) (m : FunctionSymbolRanges Die) (lo hi : ℕ) → Chain lo m hi → a < lo → at a m ≡ none
  unfolding at
  at_below a [] lo hi c h = refl
  at_below a ((k, r) ∷ m) lo hi c h = ground (arith, at_below a m r.end_addr hi c.3)

  pub at_above :
      (a : ℕ) (m : FunctionSymbolRanges Die) (lo hi : ℕ) → Chain lo m hi → hi ≤ a → at a m ≡ none
  unfolding at
  at_above a [] lo hi c h = refl
  at_above a ((k, r) ∷ m) lo hi c h =
      ground (arith, at_above a m r.end_addr hi c.3, Chain-le m r.end_addr hi c.3)

  -- An entry behind all the others goes to the end.
  pub emplace_last :
      (k : ℕ) (v : SymbolRange Die) (m : FunctionSymbolRanges Die) (lo hi : ℕ)
      → Chain lo m hi
      → hi < k
      → emplace k v m ≡ m ++ (k, v) ∷ []
  unfolding emplace
  emplace_last k v [] lo hi c h = refl
  emplace_last k v ((j, w) ∷ m) lo hi c h =
      ground (arith, emplace_last k v m w.end_addr hi c.3, Chain-le m w.end_addr hi c.3)

  -- Whatever contains an address is a range of the map's.
  pub at-covers :
      (a : ℕ) (m : FunctionSymbolRanges Die) (r : SymbolRange Die)
      → at a m ≡ some r
      → covers r a ≡ true
  unfolding at
  at-covers a [] r e = cc
  at-covers a ((k, w) ∷ m) r e = ground (arith, at-covers a m r)
