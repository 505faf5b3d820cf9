-- ===== src/SymbolRanges.antt =====
-- include/dwarf_symbol_ranges.h: the address ranges of the function symbols of one object file.
-- The `std::map` from end address to `SymbolRange` is a list of entries in the order of the keys.
-- `Dwarf_Die` is libdw's type: a parameter, with the test of its `addr` field against `nullptr`.
-- `none` stands for a value-initialised `die_`.
pub mod Chain
pub mod Pending
pub mod Lookup
pub mod Insert
mod Samples
use libcwd.Base.{
  ℕ, ◌-◌, max, min, Bool, true, false, not, ◌&&◌, ◌||◌, Option, none, some, List, [], ◌∷◌, ◌++◌,
  ltb, leb, ◌==◌, if◌then◌else◌,
}

pub record SymbolRange (Die : Type 0) : Type 0 where
  pub start_addr : ℕ
  pub end_addr : ℕ
  pub symbol_start_addr : ℕ
  pub symbol_end_addr : ℕ
  pub name : ℕ
  pub die : Option Die

-- A map of type FunctionSymbolRanges: the key and the value of each entry.
abbrev pub FunctionSymbolRanges : Type 0 → Type 0
FunctionSymbolRanges Die = List (ℕ × SymbolRange Die)

-- The half-open parts of the new symbol that are still to be inserted.
abbrev pub PendingSymbolPieces : Type 0
PendingSymbolPieces = List (ℕ × ℕ)

-- One round of the loop of remove_pending_symbol_subrange: what becomes of a piece.
pub cut_piece : ℕ → ℕ → ℕ × ℕ → PendingSymbolPieces
cut_piece remove_start remove_end (piece_start, piece_end) =
    let overlap_start : ℕ = max piece_start remove_start in
    let overlap_end : ℕ = min piece_end remove_end in
    if leb overlap_end overlap_start
    then (piece_start, piece_end) ∷ []
    else if overlap_start == piece_start && overlap_end == piece_end
    then []
    else if overlap_start == piece_start
    then (overlap_end, piece_end) ∷ []
    else if overlap_end == piece_end
    then (piece_start, overlap_start) ∷ []
    else (piece_start, overlap_start) ∷ (overlap_end, piece_end) ∷ []

pub remove_pending_symbol_subrange : ℕ → ℕ → PendingSymbolPieces → PendingSymbolPieces
remove_pending_symbol_subrange remove_start remove_end [] = []
remove_pending_symbol_subrange remove_start remove_end (p ∷ ps) =
    cut_piece remove_start remove_end p ++ remove_pending_symbol_subrange remove_start remove_end ps

module _ {Die : Type 0} where
  -- std::map::emplace and try_emplace: an entry with an equal key stays, and the test says so.
  pub emplace : ℕ → SymbolRange Die → FunctionSymbolRanges Die → FunctionSymbolRanges Die
  emplace k v [] = (k, v) ∷ []
  emplace k v ((j, w) ∷ m) =
      if ltb k j then (k, v) ∷ (j, w) ∷ m else if k == j then (j, w) ∷ m else (j, w) ∷ emplace k v m

  pub has_key : ℕ → FunctionSymbolRanges Die → Bool
  has_key k [] = false
  has_key k ((j, w) ∷ m) = k == j || has_key k m

  -- The entries before and from upper_bound(a).
  pub before_upper_bound : ℕ → FunctionSymbolRanges Die → FunctionSymbolRanges Die
  before_upper_bound a [] = []
  before_upper_bound a ((j, w) ∷ m) = if leb j a then (j, w) ∷ before_upper_bound a m else []

  pub upper_bound : ℕ → FunctionSymbolRanges Die → FunctionSymbolRanges Die
  upper_bound a [] = []
  upper_bound a ((j, w) ∷ m) = if leb j a then upper_bound a m else (j, w) ∷ m

  pub size : SymbolRange Die → ℕ
  size r = r.symbol_end_addr - r.symbol_start_addr

  -- get_symbol_range_from_function_symbols_map
  pub lookup_in : ℕ → FunctionSymbolRanges Die → Option (SymbolRange Die)
  lookup_in addr [] = none
  lookup_in addr ((j, w) ∷ m) = if leb w.start_addr addr then some w else none

  pub get_symbol_range : ℕ → FunctionSymbolRanges Die → Option (SymbolRange Die)
  get_symbol_range addr m = lookup_in addr (upper_bound addr m)

  pub is_nullptr : Option Die → Bool
  is_nullptr none = true
  is_nullptr (some d) = false

  pub new_range : ℕ → ℕ → ℕ → Option Die → ℕ × ℕ → SymbolRange Die
  new_range start_addr end_addr name func_die (piece_start, piece_end) = record {
    start_addr = piece_start;
    end_addr = piece_end;
    symbol_start_addr = start_addr;
    symbol_end_addr = end_addr;
    name = name;
    die = func_die;
  }

  pub insert_pieces :
      ℕ
      → ℕ
      → ℕ
      → Option Die
      → PendingSymbolPieces
      → FunctionSymbolRanges Die × Bool
      → FunctionSymbolRanges Die × Bool
  insert_pieces start_addr end_addr name func_die [] s = s
  insert_pieces start_addr end_addr name func_die (p ∷ ps) (m, inserted) =
      insert_pieces start_addr end_addr name func_die ps (
        emplace (p.1) (new_range start_addr end_addr name func_die p) m,
        inserted || not (has_key (p.1) m),
      )

-- `null_addr` tells whether a DIE's `addr` is a null pointer.
module _ {Die : Type 0} (null_addr : Die → Bool) where
  pub is_elf_die : Option Die → Bool
  is_elf_die none = true
  is_elf_die (some d) = null_addr d

  pub is_elf_symbol : SymbolRange Die → Bool
  is_elf_symbol r = is_elf_die r.die

  pub fragment : ℕ → ℕ → SymbolRange Die → SymbolRange Die
  fragment start_addr end_addr r = record r {
    start_addr = start_addr;
    end_addr = end_addr;
    die = if is_elf_symbol r then none else r.die;
  }

  pub new_symbol_range_wins : SymbolRange Die → Bool → ℕ → Bool
  new_symbol_range_wins existing new_is_elf new_size =
      if is_elf_symbol existing
      then (if new_is_elf then ltb new_size (size existing) else true)
      else (if new_is_elf then false else ltb new_size (size existing))

  -- What replaces an existing entry that the new symbol overlaps from `os` to `oe` and wins over:
  -- the parts of it on either side, put into the map behind the entries `done`.
  pub split_existing : ℕ → ℕ → SymbolRange Die → FunctionSymbolRanges Die → FunctionSymbolRanges Die
  split_existing os oe old done =
      let left =
        if ltb old.start_addr os then emplace os (fragment old.start_addr os old) done else done in
      if ltb oe old.end_addr then emplace old.end_addr (fragment oe old.end_addr old) left else left

  -- One round of the loop over the existing entries. The state is the part of the map ahead of the
  -- iterator and the pending pieces. What a round inserts has keys below those that follow.
  pub step :
      ℕ
      → ℕ
      → Bool
      → ℕ × SymbolRange Die
      → FunctionSymbolRanges Die × PendingSymbolPieces
      → FunctionSymbolRanges Die × PendingSymbolPieces
  step start_addr end_addr new_is_elf (k, existing) (done, pending) =
      let os : ℕ = max start_addr existing.start_addr in
      let oe : ℕ = min end_addr existing.end_addr in
      if leb oe os
      then (done ++ (k, existing) ∷ [], pending)
      else if new_symbol_range_wins existing new_is_elf (end_addr - start_addr)
      then (split_existing os oe existing done, pending)
      else (done ++ (k, existing) ∷ [], remove_pending_symbol_subrange os oe pending)

  pub loop :
      ℕ
      → ℕ
      → Bool
      → FunctionSymbolRanges Die
      → FunctionSymbolRanges Die × PendingSymbolPieces
      → FunctionSymbolRanges Die × PendingSymbolPieces
  loop start_addr end_addr new_is_elf [] s = s
  loop start_addr end_addr new_is_elf (e ∷ todo) s =
      loop start_addr end_addr new_is_elf todo (step start_addr end_addr new_is_elf e s)

  pub insert_function_symbol_range :
      FunctionSymbolRanges Die → ℕ → ℕ → ℕ → Option Die → FunctionSymbolRanges Die × Bool
  insert_function_symbol_range m start_addr end_addr name func_die =
      if leb end_addr start_addr
      then (m, false)
      else let (scanned, pending) =
          loop start_addr end_addr (is_nullptr func_die) (upper_bound start_addr m)
            (before_upper_bound start_addr m, (start_addr, end_addr) ∷ []) in
        insert_pieces start_addr end_addr name func_die pending (scanned, false)
