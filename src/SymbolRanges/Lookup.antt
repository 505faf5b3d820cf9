-- ===== src/SymbolRanges/Lookup.antt =====
-- find_symbol's lookup by upper_bound, on a well-formed map.
use libcwd.Base.{Bool-cases, inl, inr, ℕ, ◌≤◌, ◌≡◌, refl, ◌++◌, [], ◌∷◌, arith, leb, max}
use libcwd.SymbolRanges.{
  FunctionSymbolRanges, get_symbol_range, lookup_in, upper_bound, before_upper_bound,
}
use libcwd.SymbolRanges.Chain.{Chain, at, at_below}

module _ {Die : Type 0} where
  -- On a well-formed map the lookup finds the entry that contains the address, and nothing if there
  -- is none.
  pub get_symbol_range-at :
      (a : ℕ) (m : FunctionSymbolRanges Die) (lo hi : ℕ)
      → Chain lo m hi
      → get_symbol_range a m ≡ at a m
  unfolding get_symbol_range lookup_in upper_bound at
  get_symbol_range-at a [] lo hi c = refl
  get_symbol_range-at a ((k, r) ∷ m) lo hi c =
      ground (arith, get_symbol_range-at a m r.end_addr hi c.3, at_below a m r.end_addr hi c.3)

  pub before-upper_bound-append :
      (a : ℕ) (m : FunctionSymbolRanges Die) → before_upper_bound a m ++ upper_bound a m ≡ m
  unfolding before_upper_bound upper_bound
  before-upper_bound-append a [] = refl
  before-upper_bound-append a ((k, r) ∷ m) = ground (arith, before-upper_bound-append a m)

  -- Where the map is cut: what lies ahead of the iterator ends at or below the address.
  pub upper_bound-Chain :
      (a : ℕ) (m : FunctionSymbolRanges Die) (lo hi : ℕ)
      → Chain lo m hi
      → (mid : ℕ) × Chain lo (before_upper_bound a m) mid
        × Chain mid (upper_bound a m) hi
        × (mid ≤ max lo a)
  unfolding before_upper_bound upper_bound
  upper_bound-Chain a [] lo hi c = (lo, omega arith, c, omega arith)
  upper_bound-Chain a ((k, r) ∷ m) lo hi c = elim (Bool-cases (leb k a)) [
    | inl e ↦
        let (mid, before, after, le) = upper_bound-Chain a m r.end_addr hi c.3 in
        rw e (mid, (c.0, c.1, c.2, before), after, ground arith)
    | inr e ↦ rw e (lo, omega arith, c, omega arith)
  ]
