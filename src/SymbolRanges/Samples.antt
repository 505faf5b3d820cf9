-- ===== src/SymbolRanges/Samples.antt =====
-- Runs of insert_function_symbol_range, and the theorems at concrete tables.
use libcwd.Base.{◌==◌, ℕ, ◌≡◌, ◌↔◌, refl, Bool, true, false, none, some, [], ◌∷◌, arith}
use libcwd.SymbolRanges.{
  SymbolRange, FunctionSymbolRanges, insert_function_symbol_range, get_symbol_range, upper_bound,
  before_upper_bound, loop, step, new_symbol_range_wins, split_existing, emplace, has_key, fragment,
  is_elf_symbol, is_elf_die, size, is_nullptr, new_range, insert_pieces,
  remove_pending_symbol_subrange, cut_piece,
}
use libcwd.SymbolRanges.Chain.{Chain, at}
use libcwd.SymbolRanges.Lookup.{get_symbol_range-at}
use libcwd.SymbolRanges.Pending.{between, in_pieces, in_pieces-remove}
use libcwd.SymbolRanges.Insert.{owner_of, blocked}
use libcwd.SymbolRanges.Insert.Outcome.{
  outcome, insert-Chain, insert-get_symbol_range, insert-inserted,
}

-- DIEs are their addresses here; 0 is the null pointer.
abbrev null_addr : ℕ → Bool
null_addr d = d == 0

abbrev elf_range : SymbolRange ℕ
elf_range = record {
  start_addr = 10;
  end_addr = 20;
  symbol_start_addr = 10;
  symbol_end_addr = 20;
  name = 1;
  die = none;
}

abbrev table : FunctionSymbolRanges ℕ
table = (20, elf_range) ∷ []

table-Chain : Chain 0 table 20
table-Chain = omega arith

-- A DWARF symbol from 12 to 15 splits an ELF symbol from 10 to 20.
split_run : insert_function_symbol_range null_addr table 12 15 2 (some 7) ≡ (
  (12, record elf_range { end_addr = 12 })
      ∷ (15, new_range 12 15 2 (some 7) (12, 15))
      ∷ (20, record elf_range { start_addr = 15 })
      ∷ [],
  true,
)
unfolding insert_function_symbol_range loop step new_symbol_range_wins split_existing emplace
    has_key fragment is_elf_symbol is_elf_die size is_nullptr new_range insert_pieces
    before_upper_bound upper_bound
split_run = refl

-- An ELF symbol inside another one of the same size or smaller is dropped.
dropped_run : insert_function_symbol_range null_addr table 10 20 2 none ≡ (table, false)
unfolding insert_function_symbol_range loop step new_symbol_range_wins emplace has_key is_elf_symbol
    is_elf_die size is_nullptr new_range insert_pieces before_upper_bound upper_bound
    remove_pending_symbol_subrange cut_piece
dropped_run = refl

insert-Chain_example : Chain 0 (insert_function_symbol_range null_addr table 12 15 2 (some 7)).0 20
insert-Chain_example = insert-Chain null_addr table 12 15 2 (some 7) 20 table-Chain

insert-get_symbol_range_example :
    owner_of null_addr
      (get_symbol_range 13 (insert_function_symbol_range null_addr table 12 15 2 (some 7)).0)
    ≡ outcome null_addr 12 15 2 (some 7) 13 (get_symbol_range 13 table)
insert-get_symbol_range_example =
    insert-get_symbol_range null_addr table 12 15 2 (some 7) 20 table-Chain 13

insert-inserted_example :
    ((insert_function_symbol_range null_addr table 12 15 2 (some 7)).1 ≡ true) ↔ (
      (a : ℕ) × (between 12 15 a ≡ true)
      × (blocked null_addr 12 15 false a (get_symbol_range a table) ≡ false))
unfolding is_nullptr
insert-inserted_example = insert-inserted null_addr table 12 15 2 (some 7) 20 table-Chain

in_pieces-remove_example : in_pieces 5 (remove_pending_symbol_subrange 4 6 ((1, 9) ∷ [])) ≡ false
unfolding in_pieces
in_pieces-remove_example = in_pieces-remove 4 6 5 ((1, 9) ∷ [])

get_symbol_range-at_example : get_symbol_range 13 table ≡ at 13 table
get_symbol_range-at_example = get_symbol_range-at 13 table 0 20 table-Chain
