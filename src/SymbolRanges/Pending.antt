-- ===== src/SymbolRanges/Pending.antt =====
-- remove_pending_symbol_subrange against a plain description: the pieces are a set of addresses, and
-- the removed range is taken out of it.
use libcwd.Base.{
  ℕ, ◌≤◌, ◌<◌, ◌≡◌, refl, Bool, false, not, ◌&&◌, ◌||◌, [], ◌∷◌, ◌++◌, arith, ltb, leb,
}
use libcwd.SymbolRanges.{PendingSymbolPieces, cut_piece, remove_pending_symbol_subrange}

abbrev pub between : ℕ → ℕ → ℕ → Bool
between lo hi a = leb lo a && ltb a hi

unfoldable pub in_pieces : ℕ → PendingSymbolPieces → Bool
in_pieces a [] = false
in_pieces a ((s, e) ∷ ps) = between s e a || in_pieces a ps

-- The pieces are nonempty, in order and apart.
abbrev pub Apart : ℕ → PendingSymbolPieces → ℕ → Type 0
Apart lo [] hi = lo ≤ hi
Apart lo ((s, e) ∷ ps) hi = (lo ≤ s) × (s < e) × Apart e ps hi

pub in_pieces-append :
    (a : ℕ) (ps qs : PendingSymbolPieces)
    → in_pieces a (ps ++ qs) ≡ in_pieces a ps || in_pieces a qs
unfolding in_pieces
in_pieces-append a [] qs = refl
in_pieces-append a ((s, e) ∷ ps) qs = ground (arith, in_pieces-append a ps qs)

pub Apart-le : (ps : PendingSymbolPieces) (lo hi : ℕ) → Apart lo ps hi → lo ≤ hi
Apart-le [] lo hi c = c
Apart-le ((s, e) ∷ ps) lo hi c = omega (arith, Apart-le ps e hi c.2)

Apart-lower :
    (ps : PendingSymbolPieces) (lo lo' hi : ℕ) → lo' ≤ lo → Apart lo ps hi → Apart lo' ps hi
Apart-lower [] lo lo' hi h c = omega arith
Apart-lower ((s, e) ∷ ps) lo lo' hi h c = (omega arith, c.1, c.2)

Apart-append :
    (ps qs : PendingSymbolPieces) (lo mid hi : ℕ)
    → Apart lo ps mid
    → Apart mid qs hi
    → Apart lo (ps ++ qs) hi
Apart-append [] qs lo mid hi c d = Apart-lower qs mid lo hi c d
Apart-append ((s, e) ∷ ps) qs lo mid hi c d = (c.0, c.1, Apart-append ps qs e mid hi c.2 d)

in_pieces-cut_piece :
    (rs re s e a : ℕ)
    → in_pieces a (cut_piece rs re (s, e)) ≡ between s e a && not (between rs re a)
unfolding in_pieces cut_piece
in_pieces-cut_piece rs re s e a = ground arith

cut_piece-Apart : (rs re s e lo : ℕ) → lo ≤ s → s < e → Apart lo (cut_piece rs re (s, e)) e
unfolding cut_piece
cut_piece-Apart rs re s e lo h k = ground arith

-- Exactly the addresses of the removed range go.
pub in_pieces-remove :
    (rs re a : ℕ) (ps : PendingSymbolPieces)
    → in_pieces a (remove_pending_symbol_subrange rs re ps)
      ≡ in_pieces a ps && not (between rs re a)
unfolding remove_pending_symbol_subrange in_pieces
in_pieces-remove rs re a [] = refl
in_pieces-remove rs re a ((s, e) ∷ ps) = ground (
  arith,
  in_pieces-append a (cut_piece rs re (s, e)) (remove_pending_symbol_subrange rs re ps),
  in_pieces-cut_piece rs re s e a,
  in_pieces-remove rs re a ps,
)

-- What is left is again nonempty, in order and apart.
pub remove-Apart :
    (rs re : ℕ) (ps : PendingSymbolPieces) (lo hi : ℕ)
    → Apart lo ps hi
    → Apart lo (remove_pending_symbol_subrange rs re ps) hi
unfolding remove_pending_symbol_subrange
remove-Apart rs re [] lo hi c = c
remove-Apart rs re ((s, e) ∷ ps) lo hi c =
    Apart-append (cut_piece rs re (s, e)) (remove_pending_symbol_subrange rs re ps) lo e hi
      (cut_piece-Apart rs re s e lo c.0 c.1) (remove-Apart rs re ps e hi c.2)
