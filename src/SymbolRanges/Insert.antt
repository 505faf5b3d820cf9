-- ===== src/SymbolRanges/Insert.antt =====
-- The scan of insert_function_symbol_range over the existing entries, address by address.
pub mod Scan
pub mod Outcome
pub mod Pieces
use mathlib.Core.List.{append-nil}
use libcwd.Base.{
  ℕ, ◌-◌, ◌≤◌, ◌<◌, max, min, ◌≡◌, refl, ◌∙◌, ap, Bool, true, false, not, ◌&&◌, Option, none, some,
  [], ◌∷◌, ◌++◌, arith, ltb, leb, if◌then◌else◌, inl, inr, sym, Bool-cases,
}
use libcwd.SymbolRanges.{
  SymbolRange, FunctionSymbolRanges, PendingSymbolPieces, is_elf_die, is_elf_symbol, fragment,
  new_symbol_range_wins, split_existing, step, loop, emplace, remove_pending_symbol_subrange,
}
use libcwd.SymbolRanges.Chain.{
  IsRange, Chain, covers, or_else, at, at-append, at_below, at_above, Chain-le, Chain-append,
  Chain-widen, emplace_last,
}
use libcwd.SymbolRanges.Pending.{between, in_pieces, Apart, in_pieces-remove, remove-Apart}

-- The symbol that an entry is a part of; a DIE without an address is as good as none.
pub record Owner (Die : Type 0) : Type 0 where
  pub symbol_start_addr : ℕ
  pub symbol_end_addr : ℕ
  pub name : ℕ
  pub die : Option Die

module _ {Die : Type 0} (null_addr : Die → Bool) where
  pub owner : SymbolRange Die → Owner Die
  owner r = record {
    symbol_start_addr = r.symbol_start_addr;
    symbol_end_addr = r.symbol_end_addr;
    name = r.name;
    die = if is_elf_symbol null_addr r then none else r.die;
  }

  abbrev pub owner_of : Option (SymbolRange Die) → Option (Owner Die)
  owner_of none = none
  owner_of (some r) = some (owner r)

  -- A fragment belongs to the symbol that it was cut from.
  owner-fragment : (s e : ℕ) (r : SymbolRange Die) → owner (fragment null_addr s e r) ≡ owner r
  unfolding owner fragment is_elf_symbol is_elf_die
  owner-fragment s e r = ground arith

  abbrev left_part : ℕ → SymbolRange Die → FunctionSymbolRanges Die
  left_part os old =
      if ltb old.start_addr os then (os, fragment null_addr old.start_addr os old) ∷ [] else []

  abbrev right_part : ℕ → SymbolRange Die → FunctionSymbolRanges Die
  right_part oe old =
      if ltb oe old.end_addr
      then (old.end_addr, fragment null_addr oe old.end_addr old) ∷ []
      else []

  left_part-Chain :
      (os lo : ℕ) (old : SymbolRange Die)
      → IsRange old
      → lo ≤ old.start_addr
      → old.start_addr ≤ os
      → os ≤ old.end_addr
      → Chain lo (left_part os old) os
  unfolding fragment
  left_part-Chain os lo old r h k l = ground arith

  right_part-Chain :
      (os oe : ℕ) (old : SymbolRange Die)
      → IsRange old
      → os ≤ oe
      → old.start_addr ≤ oe
      → oe ≤ old.end_addr
      → Chain os (right_part oe old) old.end_addr
  unfolding fragment
  right_part-Chain os oe old r h k l = ground arith

  module _ (os oe : ℕ) (old : SymbolRange Die) (done : FunctionSymbolRanges Die) (lo mid : ℕ)
      (c : Chain lo done mid) (r : IsRange old) (h : mid ≤ old.start_addr) (k : old.start_addr ≤ os)
      (l : os < oe) (n : oe ≤ old.end_addr) where
    left-Chain : Chain lo (done ++ left_part os old) os
    left-Chain =
        Chain-append done (left_part os old) lo mid os c
          (left_part-Chain os mid old r h k (omega arith))

    left-append :
        (if ltb old.start_addr os
          then emplace os (fragment null_addr old.start_addr os old) done
          else done)
        ≡ done ++ left_part os old
    left-append = elim (Bool-cases (ltb old.start_addr os)) [
      | inl e ↦ rw e (emplace_last os _ done lo mid c (ground arith))
      | inr e ↦ rw e (sym (append-nil done))
    ]

    -- The two parts of an entry that the new symbol cuts in two go behind the entries before it.
    split_existing-append :
        split_existing null_addr os oe old done ≡ (done ++ left_part os old) ++ right_part oe old
    unfolding split_existing
    split_existing-append = elim (Bool-cases (ltb oe old.end_addr)) [
      | inl e ↦ rw (e, left-append) (emplace_last old.end_addr _ _ lo os left-Chain (ground arith))
      | inr e ↦ rw (e, left-append) (sym (append-nil _))
    ]

    split_existing-Chain : Chain lo (split_existing null_addr os oe old done) old.end_addr
    split_existing-Chain = rw split_existing-append (
        Chain-append (done ++ left_part os old) (right_part oe old) lo os old.end_addr left-Chain
          (right_part-Chain os oe old r (omega arith) (omega arith) n))

  owner_of-or_else :
      (x y : Option (SymbolRange Die)) → owner_of (or_else x y) ≡ or_else (owner_of x) (owner_of y)
  owner_of-or_else none y = refl
  owner_of-or_else (some x) y = refl

  pub owner_of-at-append :
      (a : ℕ) (xs ys : FunctionSymbolRanges Die)
      → owner_of (at a (xs ++ ys)) ≡ or_else (owner_of (at a xs)) (owner_of (at a ys))
  owner_of-at-append a xs ys = rw (at-append a xs ys) (owner_of-or_else (at a xs) (at a ys))

  at-left_part :
      (a os : ℕ) (old : SymbolRange Die)
      → owner_of (at a (left_part os old))
        ≡ (if between old.start_addr os a then some (owner old) else none)
  unfolding at fragment
  at-left_part a os old = ground (arith, owner-fragment old.start_addr os old)

  at-right_part :
      (a oe : ℕ) (old : SymbolRange Die)
      → owner_of (at a (right_part oe old))
        ≡ (if between oe old.end_addr a then some (owner old) else none)
  unfolding at fragment
  at-right_part a oe old = ground (arith, owner-fragment oe old.end_addr old)

  -- Cutting a part out of an entry takes its addresses away, and leaves the others to its symbol.
  split_existing-at :
      (a os oe : ℕ) (old : SymbolRange Die) (done : FunctionSymbolRanges Die) (lo mid : ℕ)
      → Chain lo done mid
      → IsRange old
      → mid ≤ old.start_addr
      → old.start_addr ≤ os
      → os < oe
      → oe ≤ old.end_addr
      → owner_of (at a (split_existing null_addr os oe old done))
        ≡ or_else
            (owner_of (at a done))
            (if covers old a && not (between os oe a) then some (owner old) else none)
  split_existing-at a os oe old done lo mid c r h k l n =
      rw
        (
          split_existing-append os oe old done lo mid c r h k l n,
          owner_of-at-append a (done ++ left_part os old) (right_part oe old),
          owner_of-at-append a done (left_part os old),
          at-left_part a os old,
          at-right_part a oe old,
        )
        (ground arith)

module _ {Die : Type 0} (null_addr : Die → Bool) (start_addr end_addr : ℕ) (new_is_elf : Bool) where
  abbrev pub wins : SymbolRange Die → Bool
  wins r = new_symbol_range_wins null_addr r new_is_elf (end_addr - start_addr)

  -- What the scan leaves of the entry at an address.
  abbrev pub survivor : ℕ → Option (SymbolRange Die) → Option (Owner Die)
  survivor a none = none
  survivor a (some r) =
      if between start_addr end_addr a && wins r then none else some (owner null_addr r)

  -- Does the entry at an address keep the new symbol out?
  abbrev pub blocked : ℕ → Option (SymbolRange Die) → Bool
  blocked a none = false
  blocked a (some r) = between start_addr end_addr a && not (wins r)

  module _ (k : ℕ) (r : SymbolRange Die) (done : FunctionSymbolRanges Die)
      (pending : PendingSymbolPieces) (lo mid : ℕ) (c : Chain lo done mid) (h : mid ≤ r.start_addr)
      (w : IsRange r) (e : k ≡ r.end_addr) where
    pub step-Chain :
        Chain lo (step null_addr start_addr end_addr new_is_elf (k, r) (done, pending)).0 r.end_addr
    unfolding step
    step-Chain = ground (
      arith,
      Chain-append done ((k, r) ∷ []) lo mid r.end_addr c (e, h, w, omega arith),
      split_existing-Chain null_addr (max start_addr r.start_addr) (min end_addr r.end_addr) r done
          lo mid c w h,
    )

    pub step-at :
        (a : ℕ)
        → owner_of null_addr
            (at a (step null_addr start_addr end_addr new_is_elf (k, r) (done, pending)).0)
          ≡ or_else
              (owner_of null_addr (at a done))
              (if covers r a then survivor a (some r) else none)
    unfolding step at
    step-at a = ground (
      arith,
      owner_of-at-append null_addr a done ((k, r) ∷ []),
      split_existing-at null_addr a (max start_addr r.start_addr) (min end_addr r.end_addr) r done
          lo mid c w h,
    )

    pub step-pending :
        (a : ℕ)
        → in_pieces a (step null_addr start_addr end_addr new_is_elf (k, r) (done, pending)).1
          ≡ in_pieces a pending && not (covers r a && blocked a (some r))
    unfolding step
    step-pending a =
        ground (
          arith,
          in_pieces-remove (max start_addr r.start_addr) (min end_addr r.end_addr) a pending,
        )

    pub step-Apart :
        (hi : ℕ)
        → Apart start_addr pending hi
        → Apart start_addr
            (step null_addr start_addr end_addr new_is_elf (k, r) (done, pending)).1
            hi
    unfolding step
    step-Apart hi p = ground (
      arith,
      remove-Apart (max start_addr r.start_addr) (min end_addr r.end_addr) pending start_addr hi p,
    )
