-- ===== src/Demangle/Grammar/Expressions.antt =====
-- decode_operator_name, decode_expression and decode_template_args. Where find_operator finds
-- nothing, `cv` is a cast: its hash is within the table.
use libcwd.Base.{
  ℕ, ◌+◌, ◌-◌, Bool, true, false, not, ◌&&◌, ◌||◌, Option, none, some, [], ◌∷◌, ◌==◌, if◌then◌else◌,
  length, drop,
}
use Prim.Native.String.{String}
use libcwd.Demangle.{Bytes, char_at, to_lower}
use libcwd.Demangle.Operators.{Entry, Arity, unary, trinary, find_operator, hash_of}
use libcwd.Demangle.Machine.{
  Depth, Flags, M, ◌>>=◌, ◌>>◌, return, branch, frame, set_depth, set_flags, fail, give,
  read_current, read_next, read_next_peek, eat, skip, get_string, put, emit, ◌is◌, ◌>>!◌,
  add_template_arg,
}
use libcwd.Demangle.Grammar.{ImplementationDetails, Decoders, decode_type}
use libcwd.Demangle.Grammar.References.{set_space}

abbrev pub is_cast : ℕ → ℕ → Bool
is_cast opcode0 second = opcode0 is "c" && to_lower second is "v"

-- opcode1 != current()
abbrev pub is_assignment : ℕ → Bool
is_assignment second = not (to_lower second == second)

abbrev pub last_char : Bytes → ℕ
last_char [] = 0
last_char (c ∷ s) = elim s [ [] ↦ c | _ ∷ _ ↦ last_char s ]

abbrev pub is_unary : Arity → Bool
is_unary unary = true
is_unary _ = false

abbrev pub is_trinary : Arity → Bool
is_trinary trinary = true
is_trinary _ = false

-- entry.symbol_name + 8, without a space in front
abbrev pub symbol_of : Bytes → Bytes
symbol_of name = let op = drop 8 name in if char_at op 0 is " " then drop 1 op else op

module _ (id : ImplementationDetails) (d : Decoders) where
  -- A templated cast "cvT_I...E": its argument is known in advance.
  unfoldable pub cast_operator : ℕ → M Bool
  cast_operator output w =
      (do
        skip
        put output "operator "
        c ← read_current
        branch (c is "T")
            (do
              fr ← frame
              set_flags
                  (λ (f : Flags). record f { template_arg_pos_offset = length fr.template_arg_pos })
              add_template_arg (fr.cursor.pos + 3))
            (return tt)
        decode_type d output none >>! (do
          fr ← frame
          branch (fr.depth.inside_template_args == 0)
              (set_flags (λ (f : Flags). record f { name_is_conversion_operator = true }))
              (return tt)
          give))
        w

  unfoldable pub operator_entry : ℕ → ℕ → ℕ → Option Entry → M Bool
  operator_entry output opcode0 second none w =
      branch (is_cast opcode0 second) (cast_operator output) fail w
  operator_entry output opcode0 second (some e) w =
      let hash = hash_of opcode0 (to_lower second) in
      (do
        emit output e.symbol_name
        branch (is_assignment second) (put output "=") (return tt)
        skip
        branch (hash == 16 || hash == 17) (set_space true) (return tt)
        give)
        w

  unfoldable pub decode_operator_name : ℕ → M Bool
  decode_operator_name output w =
      (do
        opcode0 ← read_current
        second ← read_next
        operator_entry output opcode0 second (find_operator opcode0 second))
        w

  -- `operator>` gets a second pair of parentheses inside template arguments.
  abbrev pub put_around : Bool → ℕ → String → M (Unit {0})
  put_around b output s = branch b (put output s) (return tt)

  unfoldable pub third_operand : ℕ → Bool → M Bool
  third_operand output b w =
      branch b
        (do
          put output (if id.style_compact_expr_ops then ":(" else " : (")
          d.expression output >>! (put output ")" >>= λ _. return true))
        (return true) w

  unfoldable pub second_operand : ℕ → Bytes → Bool → Bool → Bool → M Bool
  second_operand output op is_eq is_greater has_third w =
      (do
        put_around (not id.style_compact_expr_ops) output " "
        emit output op
        put_around is_eq output "="
        put_around (not id.style_compact_expr_ops) output " "
        put output "("
        d.expression output >>! (do
          put output ")"
          put_around is_greater output ")"
          third_operand output has_third))
        w

  unfoldable pub operation : ℕ → ℕ → ℕ → Option Entry → M Bool
  operation output opcode0 second none w =
      branch (is_cast opcode0 second)
        (do
          skip
          put output "("
          decode_type d output none
              >>! (do put output ")("; d.expression output >>! (put output ")" >>= λ _. give)))
        fail w
  operation output opcode0 second (some e) w =
      let op = symbol_of e.symbol_name in
      let one = is_unary e.arity in
      (do
        branch one (emit output op) (return tt)
        skip
        fr ← frame
        let is_greater =
            hash_of opcode0 (to_lower second) == 34 && not (fr.depth.inside_template_args == 0)
        put_around is_greater output "("
        put output "("
        d.expression output >>! (do
          put output ")"
          branch one (return true)
                (second_operand output op (is_assignment second) is_greater (is_trinary e.arity))
              >>! give))
        w

  -- A <nested-name>, or std::something.
  unfoldable pub is_typedef : M Bool
  is_typedef w =
      (do
        c ← read_current
        branch (c is "N") (return true)
            (branch (c is "S") (read_next_peek >>= λ t. return (t is "t")) (return false)))
        w

  unfoldable pub typename : ℕ → M (Unit {0})
  typename output w =
      branch id.style_sizeof_typename (is_typedef >>= λ b. put_around b output "typename ")
        (return tt) w

  unfoldable pub size_of : ℕ → ℕ → M Bool
  size_of output opcode1 w =
      (do
        skip
        put output (if id.style_compact_expr_ops then "sizeof(" else "sizeof (")
        branch (opcode1 is "t") (typename output >>= λ _. decode_type d output none)
              (d.expression output)
            >>! (put output ")" >>= λ _. give))
        w

  unfoldable pub dependent_name : ℕ → M Bool
  dependent_name output w =
      (do
        skip
        decode_type d output none >>! (do
          put output "::"
          d.unqualified_name output
              >>! (do c ← read_current; branch (c is "I") (d.template_args output >>! give) give)))
        w

  unfoldable pub decode_expression : ℕ → M Bool
  decode_expression output w =
      (do
        c ← read_current
        branch (c is "T") (d.template_param output none >>! give) (
            branch (c is "L")
              (d.literal output
                >>! (do e ← read_current; branch (not (e is "E")) fail (do skip; give)))
              (branch (c is "s")
                (do
                  opcode1 ← read_next
                  branch (opcode1 is "t" || opcode1 is "z") (size_of output opcode1)
                      (do r ← read_current; branch (r is "r") (dependent_name output) fail))
                (do second ← read_next; operation output c second (find_operator c second)))))
        w

  -- A <template-arg>; to return true is not to fail.
  unfoldable pub template_arg : ℕ → M Bool
  template_arg output w =
      (do
        c ← read_current
        let closed : M Bool = do
          e ← read_current
          branch (not (e is "E")) fail (skip >>= λ _. return true)
        branch (c is "X") (do skip; d.expression output >>! closed)
            (branch (c is "L") (d.literal output >>! closed)
              (decode_type d output none >>! return true)))
        w

  -- for (;;)
  unfoldable pub more_template_args : ℕ → M Bool
  more_template_args output w =
      (do
        fr ← frame
        branch (fr.depth.inside_template_args == 1 && (fr.depth.inside_type == 0))
            (add_template_arg fr.cursor.pos) (return tt)
        template_arg output >>! (do
          c ← read_current
          branch (c is "E") (return true) (put output ", " >>= λ _. d.more_template_args output)))
        w

  unfoldable pub end_template_args : ℕ → ℕ → M Bool
  end_template_args output prev_size w =
      (do
        skip
        s ← get_string output
        put_around (last_char s is ">") output " "
        put output ">"
        set_depth (λ (h : Depth). record h { inside_template_args = h.inside_template_args - 1 })
        fr ← frame
        branch (fr.depth.inside_template_args == 0 && (fr.depth.inside_type == 0))
            (set_flags (λ (f : Flags). record f {
              name_is_template = true;
              template_arg_pos_offset = prev_size;
            }))
            (return tt)
        give)
        w

  unfoldable pub decode_template_args : ℕ → M Bool
  decode_template_args output w =
      (do
        c ← eat
        branch (not (c is "I")) fail (do
          fr ← frame
          set_depth (λ (h : Depth). record h { inside_template_args = h.inside_template_args + 1 })
          branch fr.flags.template_args_need_space (do put output " "; set_space false) (return tt)
          put output "<"
          d.more_template_args output >>! end_template_args output (length fr.template_arg_pos)))
        w
