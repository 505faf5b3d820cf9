-- ===== src/SymbolRanges/Insert/Outcome.antt =====
-- insert_function_symbol_range as a whole: the map after a call, address by address.
use libcwd.Base.{
  ℕ, ◌<◌, ◌≡◌, refl, max, ◌↔◌, Bool, true, false, not, ◌&&◌, Option, none, some, [], ◌∷◌, arith,
  leb, if◌then◌else◌, Bool-cases, inl, inr,
}
use libcwd.SymbolRanges.{
  SymbolRange, FunctionSymbolRanges, PendingSymbolPieces, loop, is_nullptr, before_upper_bound,
  upper_bound, get_symbol_range, insert_function_symbol_range,
}
use libcwd.SymbolRanges.Chain.{Chain, at, at-append, at_below, at_above, Chain-widen}
use libcwd.SymbolRanges.Lookup.{get_symbol_range-at, before-upper_bound-append, upper_bound-Chain}
use libcwd.SymbolRanges.Pending.{between, in_pieces, Apart}
use libcwd.SymbolRanges.Insert.{Owner, owner, owner_of, wins, survivor, blocked}
use libcwd.SymbolRanges.Insert.Scan.{loop-Chain, loop-at, loop-pending, loop-Apart}
use libcwd.SymbolRanges.Insert.Pieces.{
  AreFree, is_cons, new_owner, insert_pieces-Chain, insert_pieces-at, insert_pieces-inserted,
}

module _ {Die : Type 0} (null_addr : Die → Bool) (start_addr end_addr name : ℕ)
    (func_die : Option Die) where
  -- Who owns an address after the call, by who owned it before.
  abbrev pub outcome : ℕ → Option (SymbolRange Die) → Option (Owner Die)
  outcome a none =
      if between start_addr end_addr a
      then some (new_owner start_addr end_addr name func_die null_addr)
      else none
  outcome a (some r) =
      if between start_addr end_addr a && wins null_addr start_addr end_addr (is_nullptr func_die) r
      then some (new_owner start_addr end_addr name func_die null_addr)
      else some (owner null_addr r)

module _ {Die : Type 0} (null_addr : Die → Bool) (m : FunctionSymbolRanges Die)
    (start_addr end_addr name : ℕ) (func_die : Option Die) (hi : ℕ) (c : Chain 0 m hi) where
  abbrev elf : Bool
  elf = is_nullptr func_die

  abbrev scanned : FunctionSymbolRanges Die × PendingSymbolPieces
  scanned =
      loop null_addr start_addr end_addr elf (upper_bound start_addr m)
        (before_upper_bound start_addr m, (start_addr, end_addr) ∷ [])

  abbrev top : ℕ
  top = max hi end_addr

  scanned-Chain : Chain 0 scanned.0 top
  scanned-Chain =
      let (mid, before, after, le) = upper_bound-Chain start_addr m 0 hi c in
      Chain-widen (scanned.0) 0 hi top (omega arith) (
        loop-Chain null_addr start_addr end_addr elf (upper_bound start_addr m)
          (before_upper_bound start_addr m) ((start_addr, end_addr) ∷ []) 0 mid hi before after)

  scanned-at :
      (a : ℕ)
      → owner_of null_addr (at a scanned.0) ≡ survivor null_addr start_addr end_addr elf a (at a m)
  scanned-at a =
      let (mid, before, after, le) = upper_bound-Chain start_addr m 0 hi c in
      ground (
        arith,
        loop-at null_addr start_addr end_addr elf a (upper_bound start_addr m)
            (before_upper_bound start_addr m) ((start_addr, end_addr) ∷ []) 0 mid hi before after,
        at_above a (before_upper_bound start_addr m) 0 mid before,
        at_below a (upper_bound start_addr m) mid hi after,
        at-append a (before_upper_bound start_addr m) (upper_bound start_addr m),
        before-upper_bound-append start_addr m,
      )

  scanned-pending :
      (a : ℕ)
      → in_pieces a scanned.1
        ≡ between start_addr end_addr a
          && not (blocked null_addr start_addr end_addr elf a (at a m))
  unfolding in_pieces
  scanned-pending a =
      let (mid, before, after, le) = upper_bound-Chain start_addr m 0 hi c in
      ground (
        arith,
        loop-pending null_addr start_addr end_addr elf a (upper_bound start_addr m)
            (before_upper_bound start_addr m) ((start_addr, end_addr) ∷ []) 0 mid hi before after,
        at_above a (before_upper_bound start_addr m) 0 mid before,
        at_below a (upper_bound start_addr m) mid hi after,
        at-append a (before_upper_bound start_addr m) (upper_bound start_addr m),
        before-upper_bound-append start_addr m,
      )

  scanned-Apart : start_addr < end_addr → Apart start_addr scanned.1 end_addr
  scanned-Apart h =
      let (mid, before, after, le) = upper_bound-Chain start_addr m 0 hi c in
      loop-Apart null_addr start_addr end_addr elf (upper_bound start_addr m)
        (before_upper_bound start_addr m) ((start_addr, end_addr) ∷ []) 0 mid hi end_addr before
        after (omega arith)

  scanned-AreFree : AreFree start_addr end_addr name func_die scanned.1 scanned.0
  scanned-AreFree a i = ground (arith, scanned-at a, scanned-pending a)

  abbrev inserted : FunctionSymbolRanges Die × Bool
  inserted = insert_function_symbol_range null_addr m start_addr end_addr name func_die

  -- If every entry of the map is nonempty, lies inside its symbol and ends at its key, and the
  -- entries are in order and apart, then after insert_function_symbol_range this is so again.
  pub insert-Chain : Chain 0 inserted.0 top
  unfolding insert_function_symbol_range
  insert-Chain = elim (Bool-cases (leb end_addr start_addr)) [
    | inl e ↦ rw e (Chain-widen m 0 hi top (omega arith) c)
    | inr e ↦ rw e (
        insert_pieces-Chain start_addr end_addr name func_die (scanned.1) (scanned.0) false
          start_addr top scanned-Chain (omega arith) (scanned-Apart (ground arith)) scanned-AreFree
          (omega arith))
  ]

  insert-at :
      (a : ℕ)
      → owner_of null_addr (at a inserted.0)
        ≡ outcome null_addr start_addr end_addr name func_die a (at a m)
  unfolding insert_function_symbol_range
  insert-at a = elim (Bool-cases (leb end_addr start_addr)) [
    | inl e ↦ rw e (ground arith)
    | inr e ↦ rw e (
        ground (
          arith,
          insert_pieces-at start_addr end_addr name func_die null_addr a (scanned.1) (scanned.0)
              false start_addr top scanned-Chain (omega arith) (scanned-Apart (ground arith))
              scanned-AreFree (omega arith),
          scanned-at a,
          scanned-pending a,
        ))
  ]

  -- After insert_function_symbol_range on a well-formed map the lookup of an address yields the new
  -- symbol exactly where the new range contains the address and the address was free or held by an
  -- entry that the new symbol wins over; every other address keeps its symbol, or stays without one.
  pub insert-get_symbol_range :
      (a : ℕ)
      → owner_of null_addr (get_symbol_range a inserted.0)
        ≡ outcome null_addr start_addr end_addr name func_die a (get_symbol_range a m)
  insert-get_symbol_range a =
      rw (get_symbol_range-at a (inserted.0) 0 top insert-Chain, get_symbol_range-at a m 0 hi c)
        (insert-at a)

  pieces_nonempty :
      (ps : PendingSymbolPieces) (lo : ℕ)
      → Apart lo ps end_addr
      → is_cons ps ≡ true
      → (a : ℕ) × (in_pieces a ps ≡ true)
  unfolding in_pieces
  pieces_nonempty [] lo p h = cc
  pieces_nonempty ((s, e) ∷ ps) lo p h = (s, ground arith)

  pieces_empty : (ps : PendingSymbolPieces) (a : ℕ) → in_pieces a ps ≡ true → is_cons ps ≡ true
  unfolding in_pieces
  pieces_empty [] a h = cc
  pieces_empty (p ∷ ps) a h = refl

  -- insert_function_symbol_range returns true exactly if some address of the new range was free or
  -- held by an entry that the new symbol wins over.
  pub insert-inserted : (inserted.1 ≡ true) ↔ (
      (a : ℕ) × (between start_addr end_addr a ≡ true)
      × (blocked null_addr start_addr end_addr elf a (get_symbol_range a m) ≡ false))
  unfolding insert_function_symbol_range
  insert-inserted = elim (Bool-cases (leb end_addr start_addr)) [
    | inl e ↦ rw e (λ h. cc, λ (a, i, j). ground arith)
    | inr e ↦
        let p = scanned-Apart (ground arith) in
        rw
          (
            e,
            insert_pieces-inserted start_addr end_addr name func_die (scanned.1) (scanned.0) false
                start_addr top scanned-Chain (omega arith) p scanned-AreFree (omega arith),
          )
          (
            λ h.
                let (a, i) = pieces_nonempty (scanned.1) start_addr p h in
                (
                  a,
                  ground (arith, scanned-pending a),
                  ground (arith, scanned-pending a, get_symbol_range-at a m 0 hi c),
                ),
            λ (a, i, j).
                pieces_empty (scanned.1) a
                  (ground (arith, scanned-pending a, get_symbol_range-at a m 0 hi c)),
          )
  ]
