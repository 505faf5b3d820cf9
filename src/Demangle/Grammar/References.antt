-- ===== src/Demangle/Grammar/References.antt =====
-- decode_substitution and decode_template_param, which switch to an earlier position of the text.
use libcwd.Base.{
  ℕ, suc, zero, ◌+◌, ◌-◌, ◌%◌, Bool, true, false, not, ◌||◌, Option, none, some, ltb, leb, ◌==◌,
  length, get_elem?, codes,
}
use Prim.Native.String.{String}
use libcwd.Demangle.Machine.{
  SubstitutionNt, Substitution, type, template_template_param, unscoped_template_name, Depth, Flags,
  M, ◌>>=◌, ◌>>◌, return, branch, frame, set_pos, set_depth, set_flags, fail, give, position,
  read_current, read_next, eat, skip, set_string, put, ◌is◌, ◌>>!◌,
}
use libcwd.Demangle.Qualifiers.{suppress}
use libcwd.Demangle.Grammar.{Decoders, decode_type}
use libcwd.Demangle.Grammar.Leaves.{seq_id_loop, parameter_loop, text_fuel, unsigned_limit}

abbrev pub set_space : Bool → M (Unit {0})
set_space b = set_flags (λ (f : Flags). record f { template_args_need_space = b })

abbrev pub add_substitution_depth : Depth → Depth
add_substitution_depth d = record d { inside_substitution = d.inside_substitution + 1 }

abbrev pub sub_substitution_depth : Depth → Depth
sub_substitution_depth d = record d { inside_substitution = d.inside_substitution - 1 }

-- The flags of a name that is a template of std.
abbrev pub template_name : Flags → Flags
template_name f = record f {
  name_is_template = true;
  name_is_cdtor = false;
  name_is_conversion_operator = false;
}

-- The cases a, b, d, i, o and s of the switch.
unfoldable pub standard_name : ℕ → Option ℕ → String → String → M Bool
standard_name output qualifiers full short w =
    (do
      put output full
      fr ← frame
      branch (fr.depth.inside_template_args == 0)
          (do set_string fr.function_name (codes short); set_flags template_name) (return tt)
      skip
      suppress qualifiers
      give)
      w

module _ (d : Decoders) where
  -- The parts of a prefix, `number` in all, of which `cnt` are left. To return true is not to fail.
  unfoldable pub prefixes_loop : ℕ → ℕ → ℕ → M Bool
  prefixes_loop output number zero w = return true w
  prefixes_loop output number (suc cnt) w =
      (do
        c ← read_current
        branch (c is "I")
            (do
              fr ← frame
              branch fr.flags.template_args_need_space (put output " ") (return tt)
              set_space false
              d.template_args output >>! prefixes_loop output number cnt)
            (do
              branch (ltb (suc cnt) number) (put output "::") (return tt)
              branch (c is "S") (d.substitution output none) (d.unqualified_name output)
                  >>! prefixes_loop output number cnt))
        w

  -- switch (substitution.type)
  unfoldable pub expand : ℕ → Option ℕ → ℕ → SubstitutionNt → M Bool
  expand output qualifiers number type w = (decode_type d output qualifiers >>= λ _. return true) w
  expand output qualifiers number template_template_param w =
      (d.template_param output qualifiers >>= λ _. return true) w
  expand output qualifiers number unscoped_template_name w =
      (do _ ← d.unscoped_name output; suppress qualifiers; return true) w
  expand output qualifiers number _ w =
      (prefixes_loop output number number >>! (suppress qualifiers >>= λ _. return true)) w

  unfoldable pub resolve : ℕ → Option ℕ → Option Substitution → M Bool
  resolve output qualifiers none w = fail w
  resolve output qualifiers (some sub) w =
      (do
        set_depth add_substitution_depth
        saved_pos ← position
        set_pos sub.start_pos
        completed ← expand output qualifiers sub.number_of_prefixes sub.sub_type
        branch completed (do set_pos saved_pos; set_depth sub_substitution_depth; give)
            (return false))
        w

  unfoldable pub numbered : ℕ → Option ℕ → Option ℕ → M Bool
  numbered output qualifiers none w = return false w
  numbered output qualifiers (some value) w =
      (do
        skip
        fr ← frame
        branch (leb (length fr.substitutions_pos) value || ltb 20 fr.depth.inside_type) fail
            (resolve output qualifiers (get_elem? fr.substitutions_pos value)))
        w

  unfoldable pub decode_substitution : ℕ → Option ℕ → M Bool
  decode_substitution output qualifiers w =
      let standard = standard_name output qualifiers in
      (do
        c ← read_next
        branch (c is "_") (numbered output qualifiers (some 0)) (
            branch (c is "a") (standard "std::allocator" "allocator") (
              branch (c is "b") (standard "std::basic_string" "basic_string") (
                branch (c is "d") (standard "std::iostream" "iostream") (
                  branch (c is "i") (standard "std::istream" "istream") (
                    branch (c is "o") (standard "std::ostream" "ostream") (
                      branch (c is "s") (standard "std::string" "string") (
                        branch (c is "t") (do put output "std"; skip; suppress qualifiers; give)
                          (do
                            fuel ← text_fuel
                            value ← seq_id_loop fuel 0 c
                            numbered output qualifiers value)))))))))
        w

  -- What stands at a template argument.
  unfoldable pub decode_argument : ℕ → Option ℕ → M Bool
  decode_argument output qualifiers w =
      (do
        c ← read_current
        branch (c is "X") (skip >>= λ _. d.expression output)
            (branch (c is "L") (d.literal output) (decode_type d output qualifiers)))
        w

  unfoldable pub at_argument : ℕ → Option ℕ → Option ℕ → M Bool
  at_argument output qualifiers none w = fail w
  at_argument output qualifiers (some p) w =
      (do
        saved_pos ← position
        set_pos p
        fr ← frame
        branch (ltb 20 fr.depth.inside_type) fail (do
          set_depth add_substitution_depth
          _ ← decode_argument output qualifiers
          set_depth sub_substitution_depth
          set_pos saved_pos
          give))
        w

  unfoldable pub parameter_value : M ℕ
  parameter_value w =
      (do
        c ← read_next
        branch (c is "_") (return 0) (text_fuel >>= λ fuel. parameter_loop fuel 0 c))
        w

  unfoldable pub decode_template_param : ℕ → Option ℕ → M Bool
  decode_template_param output qualifiers w =
      (do
        t ← read_current
        branch (not (t is "T")) fail (do
          value ← parameter_value
          c ← eat
          branch (not (c is "_")) fail (do
            fr ← frame
            at_argument output qualifiers (
                get_elem? fr.template_arg_pos
                  ((value + fr.flags.template_arg_pos_offset) % unsigned_limit)))))
        w
