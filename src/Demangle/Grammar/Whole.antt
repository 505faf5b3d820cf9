-- ===== src/Demangle/Grammar/Whole.antt =====
-- What follows a type's qualifiers, and decode_type_with_postfix itself.
use libcwd.Base.{
  ℕ, ◌+◌, ◌-◌, Bool, true, false, not, ◌&&◌, ◌||◌, Option, none, some, [], leb, codes,
}
use libcwd.Demangle.{is_digit}
use libcwd.Demangle.Leaf.{decode_builtin_type}
use libcwd.Demangle.Machine.{
  type, template_template_param, Depth, M, ◌>>=◌, ◌>>◌, return, branch, frame, set_depth, fail,
  give, position, read_current, read_next_peek, skip, put, leaf, ◌is◌, ◌>>!◌, add_substitution,
}
use libcwd.Demangle.Qualifiers.{
  new_list, get_list, suppress, add_qualifier_start, decode_qualifiers,
}
use libcwd.Demangle.Grammar.{
  ImplementationDetails, Decoders, Eaten, failed, whole_type, rest_follows,
}
use libcwd.Demangle.Grammar.Types.{function_type}

abbrev pub is_given : Option ℕ → Bool
is_given none = false
is_given (some _) = true

-- The caller's qualifiers, or a new list.
unfoldable pub list_of : Option ℕ → M ℕ
list_of none w = new_list w
list_of (some l) w = return l w

abbrev pub enter_type : Depth → Depth
enter_type h = record h { inside_type = h.inside_type + 1 }

abbrev pub leave_type : Depth → Depth
leave_type h = record h { inside_type = h.inside_type - 1 }

module _ (id : ImplementationDetails) (d : Decoders) where
  -- !recursive_template_param_or_substitution_call && qualifiers->suppressed()
  unfoldable pub is_suppressed : Bool → ℕ → M Bool
  is_suppressed recursive l w =
      (do q ← get_list l; return (not recursive && q.printing_suppressed)) w

  -- What the next three do at the end, returning true.
  unfoldable pub finish_type : Bool → ℕ → ℕ → ℕ → M Bool
  finish_type recursive prefix postfix l w =
      (do
        branch recursive (suppress (some l)) (decode_qualifiers l prefix postfix false)
        return true)
        w

  unfoldable pub param_type : Bool → ℕ → ℕ → ℕ → ℕ → M Bool
  param_type recursive prefix postfix l start w =
      (d.template_param prefix (some l) >>! (do
        c ← read_current
        branch (c is "I")
              (do add_substitution start template_template_param 0; d.template_args prefix)
              (return true)
            >>! (do
              b ← is_suppressed recursive l
              branch b (do add_substitution start type 0; decode_qualifiers l prefix postfix false)
                  (return tt)
              return true)))
        w

  unfoldable pub substituted_type : Bool → ℕ → ℕ → ℕ → ℕ → M Bool
  substituted_type recursive prefix postfix l start w =
      (d.substitution prefix (some l) >>! (do
        c ← read_current
        branch (c is "I")
              (d.template_args prefix >>! (do
                b ← is_suppressed recursive l
                branch b (add_substitution start type 0) (return tt)
                return true))
              (return true)
            >>! (do
              b ← is_suppressed recursive l
              branch b (decode_qualifiers l prefix postfix false) (return tt)
              return true)))
        w

  unfoldable pub named_type : Bool → ℕ → ℕ → ℕ → ℕ → M Bool
  named_type recursive prefix postfix l start w =
      (d.class_enum_type prefix >>! (do
        branch recursive (return tt) (add_substitution start type 0)
        finish_type recursive prefix postfix l))
        w

  -- A `C` or `G` in front.
  unfoldable pub complex_type : ℕ → ℕ → ℕ → M (Unit {0})
  complex_type prefix l c w =
      branch (c is "C" || c is "G")
        (do
          branch (c is "C") (put prefix "complex ") (put prefix "imaginary ")
          start ← position
          add_qualifier_start l (codes "G") start []
          skip)
        (return tt) w

  unfoldable pub rest_of_type : Bool → ℕ → ℕ → ℕ → M Bool
  rest_of_type recursive prefix postfix l w =
      (do
        g ← read_current
        complex_type prefix l g
        start ← position
        c ← read_current
        branch (c is "F") (function_type id d prefix postfix l start) (
            branch (c is "T") (param_type recursive prefix postfix l start) (
              branch (c is "S")
                (do
                  fr ← frame
                  branch (leb fr.cursor.len (start + 1)) (return false) (do
                    t ← read_next_peek
                    branch (t is "t") (named_type recursive prefix postfix l start)
                        (substituted_type recursive prefix postfix l start)))
                (branch (c is "N" || c is "Z" || is_digit c)
                  (named_type recursive prefix postfix l start)
                  (leaf decode_builtin_type prefix >>! finish_type recursive prefix postfix l)))))
        w

  unfoldable pub after_qualifiers : Bool → ℕ → ℕ → ℕ → Eaten → M Bool
  after_qualifiers recursive prefix postfix l failed w = return false w
  after_qualifiers recursive prefix postfix l whole_type w = return true w
  after_qualifiers recursive prefix postfix l rest_follows w =
      rest_of_type recursive prefix postfix l w

  unfoldable pub type_within : ℕ → ℕ → Option ℕ → M Bool
  type_within prefix postfix qualifiers w =
      (do
        l ← list_of qualifiers
        eaten ← d.eat_qualifiers prefix postfix l
        after_qualifiers (is_given qualifiers) prefix postfix l eaten)
        w

  unfoldable pub decode_type_with_postfix : ℕ → ℕ → Option ℕ → M Bool
  decode_type_with_postfix prefix postfix qualifiers w =
      (do
        set_depth enter_type
        succeeded ← type_within prefix postfix qualifiers
        set_depth leave_type
        branch succeeded give fail)
        w
