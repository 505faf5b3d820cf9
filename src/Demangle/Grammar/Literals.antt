-- ===== src/Demangle/Grammar/Literals.antt =====
-- decode_literal, and how a decoder runs decode_encoding on what is left of the text.
use libcwd.Base.{
  ℕ, ◌+◌, ◌-◌, Bool, true, false, not, ◌&&◌, ◌||◌, Option, none, some, leb, if◌then◌else◌, drop,
}
use libcwd.Demangle.Leaf.{decode_number}
use libcwd.Demangle.Machine.{
  M, ◌>>=◌, ◌>>◌, return, branch, frame, set_pos, fail, give, read_current, read_next, skip, put,
  leaf, ◌is◌, ◌>>!◌,
}
use libcwd.Demangle.Grammar.{ImplementationDetails, Decoders, decode_type}
use libcwd.Demangle.Grammar.Leaves.{decode_real}

-- (pos_ += n) >= 0. After a failure the position is negative, and nothing reads there.
unfoldable pub move_on : ℕ → Option ℕ → M Bool
move_on start none w = return false w
move_on start (some n) w = (set_pos (start + n) >>= λ _. return true) w

abbrev pub is_integral : ℕ → Bool
is_integral c = c is "i" || c is "j" || c is "l" || c is "m" || c is "x" || c is "y"

-- size_of_real
abbrev pub size_of_real : ℕ → ℕ
size_of_real c = if c is "d" then 8 else if c is "f" then 4 else 16

module _ (id : ImplementationDetails) (d : Decoders) where
  -- decode_encoding, started `skipped` characters on, in what the session may still read.
  unfoldable pub nested_encoding : ℕ → ℕ → M Bool
  nested_encoding skipped output w =
      (do
        fr ← frame
        let start = fr.cursor.pos + skipped
        n ← d.encoding output (drop start fr.cursor.str) (fr.cursor.len - start)
        move_on start n)
        w

  unfoldable pub literal_type : ℕ → ℕ → M Bool
  literal_type output c w =
      branch (is_integral c && id.style_literal || c is "i" && not id.style_literal_int)
        (skip >>= λ _. return true)
        (do put output "("; decode_type d output none >>! (put output ")" >>= λ _. return true)) w

  unfoldable pub literal_value : ℕ → ℕ → M Bool
  literal_value output c w =
      branch (leb 100 c && leb c 103) (decode_real id output (size_of_real c))
        (leaf decode_number output) w

  unfoldable pub literal_suffix : ℕ → ℕ → M (Unit {0})
  literal_suffix output c w =
      (do
        branch (c is "j" || c is "m" || c is "y") (put output "u") (return tt)
        branch (c is "l" || c is "m") (put output "l") (return tt)
        branch (c is "x" || c is "y") (put output "ll") (return tt))
        w

  unfoldable pub typed_literal : ℕ → ℕ → M Bool
  typed_literal output c w =
      (literal_type output c
          >>! literal_value output c
          >>! (do branch id.style_literal (literal_suffix output c) (return tt); give))
        w

  unfoldable pub decode_literal : ℕ → M Bool
  decode_literal output w =
      (do
        skip
        c ← read_current
        branch (c is "_")
            (do
              z ← read_next
              branch (not (z is "Z")) fail (do skip; nested_encoding 0 output >>! give))
            (branch (c is "b")
              (do v ← read_next; put output (if v is "0" then "false" else "true"); skip; give)
              (typed_literal output c)))
        w
