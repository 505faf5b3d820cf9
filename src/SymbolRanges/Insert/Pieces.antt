-- ===== src/SymbolRanges/Insert/Pieces.antt =====
-- The last loop of insert_function_symbol_range: the pending pieces go into the map.
use libcwd.Base.{
  ℕ, ◌≤◌, ◌<◌, ◌≡◌, refl, max, Bool, true, false, not, ◌||◌, Option, none, some, [], ◌∷◌, arith,
  if◌then◌else◌,
}
use libcwd.SymbolRanges.{
  SymbolRange, FunctionSymbolRanges, PendingSymbolPieces, emplace, has_key, new_range,
  insert_pieces, is_elf_symbol,
}
use libcwd.SymbolRanges.Chain.{IsRange, Chain, covers, at, Chain-le, Chain-widen}
use libcwd.SymbolRanges.Insert.{Owner, owner, owner_of}
use libcwd.SymbolRanges.Pending.{in_pieces, Apart, Apart-le}

module _ {Die : Type 0} where
  -- The new range meets no entry.
  abbrev pub IsFree : SymbolRange Die → FunctionSymbolRanges Die → Type 0
  IsFree v m = (a : ℕ) → covers v a ≡ true → at a m ≡ none

  IsFree-tail :
      (k : ℕ) (r v : SymbolRange Die) (m : FunctionSymbolRanges Die)
      → IsFree v ((k, r) ∷ m)
      → IsFree v m
  unfolding at
  IsFree-tail k r v m f a h = ground (arith, f a h)

  pub emplace-Chain :
      (v : SymbolRange Die) (m : FunctionSymbolRanges Die) (lo hi : ℕ)
      → Chain lo m hi
      → IsRange v
      → lo ≤ v.start_addr
      → IsFree v m
      → Chain lo (emplace v.end_addr v m) (max hi v.end_addr)
  unfolding emplace at
  emplace-Chain v [] lo hi c r h f = (refl, h, r, omega arith)
  emplace-Chain v ((k, w) ∷ m) lo hi c r h f = ground (
    arith,
    f (max v.start_addr w.start_addr),
    Chain-widen m w.end_addr hi (max hi v.end_addr) (omega arith) c.3,
    emplace-Chain v m w.end_addr hi c.3 r,
    IsFree-tail k w v m f,
    Chain-le m w.end_addr hi c.3,
  )

  pub emplace-at :
      (a : ℕ) (v : SymbolRange Die) (m : FunctionSymbolRanges Die) (lo hi : ℕ)
      → Chain lo m hi
      → IsRange v
      → IsFree v m
      → at a (emplace v.end_addr v m) ≡ (if covers v a then some v else at a m)
  unfolding emplace at
  emplace-at a v [] lo hi c r f = refl
  emplace-at a v ((k, w) ∷ m) lo hi c r f = ground (
    arith,
    f (max v.start_addr w.start_addr),
    f a,
    emplace-at a v m w.end_addr hi c.3 r (IsFree-tail k w v m f),
  )

  -- The key of a new range is new.
  pub has_key-free :
      (v : SymbolRange Die) (m : FunctionSymbolRanges Die) (lo hi : ℕ)
      → Chain lo m hi
      → IsRange v
      → IsFree v m
      → has_key v.end_addr m ≡ false
  unfolding has_key at
  has_key-free v [] lo hi c r f = refl
  has_key-free v ((k, w) ∷ m) lo hi c r f = ground (
    arith,
    f (max v.start_addr w.start_addr),
    has_key-free v m w.end_addr hi c.3 r (IsFree-tail k w v m f),
  )

in_pieces_below :
    (a : ℕ) (ps : PendingSymbolPieces) (lo hi : ℕ)
    → Apart lo ps hi
    → a < lo
    → in_pieces a ps ≡ false
unfolding in_pieces
in_pieces_below a [] lo hi p h = refl
in_pieces_below a ((s, e) ∷ ps) lo hi p h = ground (arith, in_pieces_below a ps e hi p.2)

abbrev pub is_cons : PendingSymbolPieces → Bool
is_cons [] = false
is_cons (p ∷ ps) = true

module _ {Die : Type 0} (start_addr end_addr name : ℕ) (func_die : Option Die) where
  abbrev piece_range : ℕ × ℕ → SymbolRange Die
  piece_range = new_range start_addr end_addr name func_die

  -- No pending address is taken.
  abbrev pub AreFree : PendingSymbolPieces → FunctionSymbolRanges Die → Type 0
  AreFree ps m = (a : ℕ) → in_pieces a ps ≡ true → at a m ≡ none

  piece-IsRange : (s e : ℕ) → start_addr ≤ s → s < e → e ≤ end_addr → IsRange (piece_range (s, e))
  unfolding new_range
  piece-IsRange s e h k l = omega arith

  piece-IsFree :
      (s e : ℕ) (ps : PendingSymbolPieces) (m : FunctionSymbolRanges Die)
      → AreFree ((s, e) ∷ ps) m
      → IsFree (piece_range (s, e)) m
  unfolding new_range in_pieces
  piece-IsFree s e ps m f a h = ground (arith, f a)

  AreFree-emplace :
      (s e : ℕ) (ps : PendingSymbolPieces) (m : FunctionSymbolRanges Die) (lo hi : ℕ)
      → Chain lo m hi
      → start_addr ≤ s
      → Apart s ((s, e) ∷ ps) end_addr
      → AreFree ((s, e) ∷ ps) m
      → AreFree ps (emplace e (piece_range (s, e)) m)
  unfolding in_pieces new_range
  AreFree-emplace s e ps m lo hi c h p f a i = ground (
    arith,
    f a,
    in_pieces_below a ps e end_addr p.2,
    emplace-at a (piece_range (s, e)) m lo hi c
        (piece-IsRange s e h p.1 (Apart-le ps e end_addr p.2)) (piece-IsFree s e ps m f),
  )

  -- One piece more.
  emplace_piece-Chain :
      (s e : ℕ) (ps : PendingSymbolPieces) (m : FunctionSymbolRanges Die) (hi : ℕ)
      → Chain 0 m hi
      → start_addr ≤ s
      → Apart s ((s, e) ∷ ps) end_addr
      → AreFree ((s, e) ∷ ps) m
      → end_addr ≤ hi
      → Chain 0 (emplace e (piece_range (s, e)) m) hi
  unfolding new_range
  emplace_piece-Chain s e ps m hi c h p f l =
      let le = Apart-le ps e end_addr p.2 in
      Chain-widen (emplace e (piece_range (s, e)) m) 0 (max hi e) hi (omega arith) (
        emplace-Chain (piece_range (s, e)) m 0 hi c (piece-IsRange s e h p.1 le) (omega arith)
          (piece-IsFree s e ps m f))

  pub insert_pieces-Chain :
      (ps : PendingSymbolPieces) (m : FunctionSymbolRanges Die) (b : Bool) (lo hi : ℕ)
      → Chain 0 m hi
      → start_addr ≤ lo
      → Apart lo ps end_addr
      → AreFree ps m
      → end_addr ≤ hi
      → Chain 0 (insert_pieces start_addr end_addr name func_die ps (m, b)).0 hi
  unfolding insert_pieces
  insert_pieces-Chain [] m b lo hi c h p f l = c
  insert_pieces-Chain ((s, e) ∷ ps) m b lo hi c h p f l =
      let p' : Apart s ((s, e) ∷ ps) end_addr = (omega arith, p.1, p.2) in
      insert_pieces-Chain ps (emplace e (piece_range (s, e)) m) (b || not (has_key e m)) e hi
        (emplace_piece-Chain s e ps m hi c (omega arith) p' f l) (omega arith) p.2
        (AreFree-emplace s e ps m 0 hi c (omega arith) p' f) l

  module _ (null_addr : Die → Bool) where
    abbrev pub new_owner : Owner Die
    new_owner = owner null_addr (piece_range (start_addr, end_addr))

    -- Address by address: the pending ones go to the new symbol, the others are as before.
    pub insert_pieces-at :
        (a : ℕ) (ps : PendingSymbolPieces) (m : FunctionSymbolRanges Die) (b : Bool) (lo hi : ℕ)
        → Chain 0 m hi
        → start_addr ≤ lo
        → Apart lo ps end_addr
        → AreFree ps m
        → end_addr ≤ hi
        → owner_of null_addr (at a (insert_pieces start_addr end_addr name func_die ps (m, b)).0)
          ≡ (if in_pieces a ps then some new_owner else owner_of null_addr (at a m))
    unfolding insert_pieces in_pieces new_range owner is_elf_symbol
    insert_pieces-at a [] m b lo hi c h p f l = refl
    insert_pieces-at a ((s, e) ∷ ps) m b lo hi c h p f l =
        let p' : Apart s ((s, e) ∷ ps) end_addr = (omega arith, p.1, p.2) in
        ground (
          arith,
          insert_pieces-at a ps (emplace e (piece_range (s, e)) m) (b || not (has_key e m)) e hi
              (emplace_piece-Chain s e ps m hi c (omega arith) p' f l) (omega arith) p.2
              (AreFree-emplace s e ps m 0 hi c (omega arith) p' f) l,
          emplace-at a (piece_range (s, e)) m 0 hi c
              (piece-IsRange s e (omega arith) p.1 (Apart-le ps e end_addr p.2))
              (piece-IsFree s e ps m f),
          in_pieces_below a ps e end_addr p.2,
        )

  -- The result says whether there was a piece.
  pub insert_pieces-inserted :
      (ps : PendingSymbolPieces) (m : FunctionSymbolRanges Die) (b : Bool) (lo hi : ℕ)
      → Chain 0 m hi
      → start_addr ≤ lo
      → Apart lo ps end_addr
      → AreFree ps m
      → end_addr ≤ hi
      → (insert_pieces start_addr end_addr name func_die ps (m, b)).1 ≡ b || is_cons ps
  unfolding insert_pieces new_range
  insert_pieces-inserted [] m b lo hi c h p f l = ground arith
  insert_pieces-inserted ((s, e) ∷ ps) m b lo hi c h p f l =
      let p' : Apart s ((s, e) ∷ ps) end_addr = (omega arith, p.1, p.2) in
      ground (
        arith,
        insert_pieces-inserted ps (emplace e (piece_range (s, e)) m) (b || not (has_key e m)) e hi
            (emplace_piece-Chain s e ps m hi c (omega arith) p' f l) (omega arith) p.2
            (AreFree-emplace s e ps m 0 hi c (omega arith) p' f) l,
        has_key-free (piece_range (s, e)) m 0 hi c
            (piece-IsRange s e (omega arith) p.1 (Apart-le ps e end_addr p.2))
            (piece-IsFree s e ps m f),
      )
