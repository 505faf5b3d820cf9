-- ===== src/SymbolRanges/Insert/Scan.antt =====
-- The whole scan of insert_function_symbol_range over the entries from upper_bound(start_addr) on.
use libcwd.Base.{ℕ, ◌≡◌, Bool, not, ◌&&◌, [], ◌∷◌, arith}
use libcwd.SymbolRanges.{SymbolRange, FunctionSymbolRanges, PendingSymbolPieces, step, loop}
use libcwd.SymbolRanges.Chain.{Chain, or_else, at, at_below, Chain-widen}
use libcwd.SymbolRanges.Pending.{in_pieces, Apart}
use libcwd.SymbolRanges.Insert.{
  owner_of, survivor, blocked, step-Chain, step-at, step-pending, step-Apart,
}

module _ {Die : Type 0} (null_addr : Die → Bool) (start_addr end_addr : ℕ) (new_is_elf : Bool) where
  abbrev State : Type 0
  State = FunctionSymbolRanges Die × PendingSymbolPieces

  abbrev scan : FunctionSymbolRanges Die → State → State
  scan = loop null_addr start_addr end_addr new_is_elf

  abbrev round : ℕ × SymbolRange Die → State → State
  round = step null_addr start_addr end_addr new_is_elf

  -- The map stays well formed.
  pub loop-Chain :
      (todo done : FunctionSymbolRanges Die) (pending : PendingSymbolPieces) (lo mid hi : ℕ)
      → Chain lo done mid
      → Chain mid todo hi
      → Chain lo (scan todo (done, pending)).0 hi
  unfolding loop
  loop-Chain [] done pending lo mid hi c d = Chain-widen done lo mid hi d c
  loop-Chain ((k, r) ∷ todo) done pending lo mid hi c d =
      let s = round (k, r) (done, pending) in
      loop-Chain todo (s.0) (s.1) lo r.end_addr hi
        (step-Chain null_addr start_addr end_addr new_is_elf k r done pending lo mid c d.1 d.2 d.0)
        d.3

  -- Address by address: the entries ahead stay, and of each scanned one the survivor.
  pub loop-at :
      (a : ℕ) (todo done : FunctionSymbolRanges Die) (pending : PendingSymbolPieces) (lo mid hi : ℕ)
      → Chain lo done mid
      → Chain mid todo hi
      → owner_of null_addr (at a (scan todo (done, pending)).0)
        ≡ or_else
            (owner_of null_addr (at a done))
            (survivor null_addr start_addr end_addr new_is_elf a (at a todo))
  unfolding loop at
  loop-at a [] done pending lo mid hi c d = ground arith
  loop-at a ((k, r) ∷ todo) done pending lo mid hi c d =
      let s = round (k, r) (done, pending) in
      ground (
        arith,
        loop-at a todo (s.0) (s.1) lo r.end_addr hi
            (step-Chain null_addr start_addr end_addr new_is_elf k r done pending lo mid c d.1 d.2
              d.0)
            d.3,
        step-at null_addr start_addr end_addr new_is_elf k r done pending lo mid c d.1 d.2 d.0 a,
        at_below a todo r.end_addr hi d.3,
      )

  -- What is left to insert: the addresses that no scanned entry blocks.
  pub loop-pending :
      (a : ℕ) (todo done : FunctionSymbolRanges Die) (pending : PendingSymbolPieces) (lo mid hi : ℕ)
      → Chain lo done mid
      → Chain mid todo hi
      → in_pieces a (scan todo (done, pending)).1
        ≡ in_pieces a pending
          && not (blocked null_addr start_addr end_addr new_is_elf a (at a todo))
  unfolding loop at
  loop-pending a [] done pending lo mid hi c d = ground arith
  loop-pending a ((k, r) ∷ todo) done pending lo mid hi c d =
      let s = round (k, r) (done, pending) in
      ground (
        arith,
        loop-pending a todo (s.0) (s.1) lo r.end_addr hi
            (step-Chain null_addr start_addr end_addr new_is_elf k r done pending lo mid c d.1 d.2
              d.0)
            d.3,
        step-pending null_addr start_addr end_addr new_is_elf k r done pending lo mid c d.1 d.2 d.0
            a,
        at_below a todo r.end_addr hi d.3,
      )

  pub loop-Apart :
      (todo done : FunctionSymbolRanges Die) (pending : PendingSymbolPieces) (lo mid hi end : ℕ)
      → Chain lo done mid
      → Chain mid todo hi
      → Apart start_addr pending end
      → Apart start_addr (scan todo (done, pending)).1 end
  unfolding loop
  loop-Apart [] done pending lo mid hi end c d p = p
  loop-Apart ((k, r) ∷ todo) done pending lo mid hi end c d p =
      let s = round (k, r) (done, pending) in
      loop-Apart todo (s.0) (s.1) lo r.end_addr hi end
        (step-Chain null_addr start_addr end_addr new_is_elf k r done pending lo mid c d.1 d.2 d.0)
        d.3
        (step-Apart null_addr start_addr end_addr new_is_elf k r done pending lo mid c d.1 d.2 d.0
          end p)
