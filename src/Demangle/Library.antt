-- ===== src/Demangle/Library.antt =====
-- demangle_symbol and demangle_type of src/demangle.cxx, which write to a string of the caller.
use libcwd.Base.{ℕ, not, Option, none, some, [], ◌∷◌, ◌++◌, if◌then◌else◌, codes, drop}
use libcwd.Demangle.{Bytes, char_at}
use libcwd.Demangle.Machine.{Machine, ok, ◌>>=◌, return, branch, run, read_current, ◌is◌}
use libcwd.Demangle.Grammar.{decode_type}
use libcwd.Demangle.Grammar.Knot.{
  decoders, start_machine, int_max, Answer, after_encoding, after_type, global_symbol,
}
use libcwd.Demangle.Decimal.Ieee.{details}

-- A session on the input, with what is in the output.
abbrev pub start_with : Bytes → Bytes → Machine
start_with output input = record (start_machine input) { strings = output ∷ [] ∷ [] }

unfoldable pub demangle_symbol : ℕ → Option Bytes → Bytes → Answer
demangle_symbol fuel none output = ok (output ++ codes "(null)") (start_with output [])
demangle_symbol fuel (some input) output =
    let w = start_with output [] in
    let encoding =
      after_encoding input ((decoders details fuel).encoding 0 (drop 2 input) int_max w) in
    if not (char_at input 0 is "_")
    then ok input w
    else if char_at input 1 is "Z"
    then encoding
    else if char_at input 1 is "G"
    then ok (global_symbol input) w
    else ok input w

unfoldable pub demangle_type : ℕ → Option Bytes → Bytes → Answer
demangle_type fuel none output = ok (output ++ codes "(null)") (start_with output [])
demangle_type fuel (some input) output = after_type input (
    run (start_with output input) (
      decode_type (decoders details fuel) 0 none >>= λ b.
      branch b (read_current >>= λ c. return (b, c)) (return (b, 0))))
