-- ===== src/Demangle/Grammar/Types.antt =====
-- decode_type_with_postfix, decode_bare_function_type and decode_class_enum_type.
use libcwd.Base.{
  ℕ, ◌+◌, Bool, true, false, not, ◌&&◌, ◌||◌, Option, none, some, [], ◌∷◌, ltb, ◌==◌, length, drop,
  take, codes,
}
use libcwd.Demangle.Leaf.{decode_number, decode_source_name}
use libcwd.Demangle.Machine.{
  type, Flags, M, ◌>>=◌, ◌>>◌, return, branch, frame, set_flags, fail, give, position, read_current,
  read_next, eat, skip, restore_pos, fresh, get_string, put, emit, leaf, ◌is◌, is_cv, ◌>>!◌,
  add_substitution,
}
use libcwd.Demangle.Qualifiers.{new_list, add_qualifier_start, decode_qualifiers}
use libcwd.Demangle.Grammar.{
  ImplementationDetails, Decoders, Eaten, failed, whole_type, rest_follows, decode_type,
}
use libcwd.Demangle.Grammar.Expressions.{last_char}
use libcwd.Demangle.Grammar.References.{set_space}

abbrev set_saw_destructor : Bool → M (Unit {0})
set_saw_destructor b = set_flags (λ (f : Flags). record f { saw_destructor = b })

abbrev is_some : Option ℕ → Bool
is_some none = false
is_some (some _) = true

-- current() != 'E' && current() != 0
abbrev goes_on : ℕ → Bool
goes_on c = not (c is "E") && not (c == 0)

module _ (id : ImplementationDetails) (d : Decoders) where
  unfoldable pub decode_class_enum_type : ℕ → M Bool
  decode_class_enum_type output w =
      (do
        qualifiers ← fresh
        d.name output qualifiers >>! (do s ← get_string qualifiers; emit output s; give))
        w

  -- while (current() != 'E' && current() != 0)
  unfoldable pub more_parameters : ℕ → M Bool
  more_parameters output w =
      (do
        c ← read_current
        branch (goes_on c)
            (do put output ", "; decode_type d output none >>! d.more_parameters output)
            (return true))
        w

  unfoldable pub no_parameters : ℕ → M Bool
  no_parameters output w =
      (do
        c ← read_current
        branch (goes_on c) fail (do put output "()"; set_saw_destructor false; give))
        w

  unfoldable pub decode_bare_function_type : ℕ → M Bool
  decode_bare_function_type output w =
      (do
        fr ← frame
        branch fr.flags.saw_destructor
            (do c ← eat; branch (not (c is "v")) fail (no_parameters output))
            (do
              c ← read_current
              branch (c is "v" && not id.style_void) (skip >>= λ _. no_parameters output) (do
                put output "("
                set_space false
                decode_type d output none
                    >>! d.more_parameters output
                    >>! (do put output ")"; give))))
        w

  -- while (c == 'K' || c == 'V' || c == 'r'): how many there are, after `count` of them
  unfoldable pub cv_run : ℕ → ℕ → M ℕ
  cv_run c count w = branch (is_cv c) (read_next >>= λ c'. d.cv_run c' (count + 1)) (return count) w

  -- The qualifier of a run of K, V and r: it keeps three of them.
  unfoldable pub add_cv_qualifier : ℕ → ℕ → ℕ → M (Unit {0})
  add_cv_qualifier l start count w =
      (do
        fr ← frame
        add_qualifier_start l (take 3 (take count (drop start fr.cursor.str))) start [])
        w

  unfoldable pub vendor_extension : ℕ → ℕ → ℕ → ℕ → M Eaten
  vendor_extension prefix postfix l start w =
      (do
        skip
        source_name ← fresh
        b ← leaf decode_source_name source_name
        branch b
            (do
              s ← get_string source_name
              add_qualifier_start l (codes "U") start s
              d.eat_qualifiers prefix postfix l)
            (return failed))
        w

  -- next() == 'n' || !decode_number(index)
  unfoldable pub array_number : ℕ → M Bool
  array_number index w =
      (do c ← read_next; branch (c is "n") (return false) (leaf decode_number index)) w

  unfoldable pub array_expression : ℕ → ℕ → M Bool
  array_expression index saved_pos w =
      (do
        restore_pos saved_pos
        c ← read_next
        branch (c is "_") (return true) (d.expression index))
        w

  unfoldable pub array_type : ℕ → ℕ → ℕ → ℕ → M Eaten
  array_type prefix postfix l start w =
      (do
        index ← fresh
        is_number ← array_number index
        b ← branch is_number (return true) (array_expression index start)
        branch (not b) (return failed) (do
          c ← eat
          branch (not (c is "_")) (return failed) (do
            s ← get_string index
            add_qualifier_start l (codes "A") start s
            d.eat_qualifiers prefix postfix l)))
        w

  -- The qualifiers of a member function, in a string.
  unfoldable pub member_qualifiers : ℕ → ℕ → M ℕ
  member_qualifiers start count w =
      (do
        l ← new_list
        branch (count == 0) (return tt) (add_cv_qualifier l start count)
        quals ← fresh
        post ← fresh
        decode_qualifiers l quals post true
        s ← get_string post
        emit quals s
        return quals)
        w

  unfoldable pub member_function : ℕ → ℕ → ℕ → ℕ → ℕ → ℕ → M Eaten
  member_function prefix postfix l start class_type c w =
      (do
        q2_start ← position
        count ← d.cv_run c 0
        quals ← member_qualifiers q2_start count
        function_pos ← position
        f ← eat
        branch (not (f is "F")) (return failed) (do
          return_postfix ← fresh
          b ← d.type_with_postfix prefix return_postfix none
          branch (not b) (return failed) (do
            s ← get_string class_type
            put prefix " ("
            emit prefix s
            put prefix "::*"
            bare ← fresh
            b' ← d.bare_function_type bare
            e ← branch b' eat (return 0)
            branch (not (e is "E")) (return failed) (do
              add_substitution function_pos type 0
              add_substitution start type 0
              decode_qualifiers l prefix postfix false
              t₁ ← get_string bare
              t₂ ← get_string quals
              t₃ ← get_string return_postfix
              put postfix ")"
              emit postfix t₁
              emit postfix t₂
              emit postfix t₃
              return whole_type))))
        w

  unfoldable pub pointer_to_member : ℕ → ℕ → ℕ → ℕ → M Eaten
  pointer_to_member prefix postfix l start w =
      (do
        skip
        class_type ← fresh
        b ← decode_type d class_type none
        branch (not b) (return failed) (do
          c ← read_current
          branch (c is "F" || is_cv c) (member_function prefix postfix l start class_type c) (do
            s ← get_string class_type
            add_qualifier_start l (codes "M") start s
            d.eat_qualifiers prefix postfix l)))
        w

  -- for (;;)
  unfoldable pub eat_qualifiers : ℕ → ℕ → ℕ → M Eaten
  eat_qualifiers prefix postfix l w =
      (do
        start ← position
        c ← read_current
        branch (c is "P" || c is "R")
            (do add_qualifier_start l (c ∷ []) start []; skip; d.eat_qualifiers prefix postfix l)
            (branch (is_cv c)
              (do
                count ← d.cv_run c 0
                add_cv_qualifier l start count
                d.eat_qualifiers prefix postfix l)
              (branch (c is "U") (vendor_extension prefix postfix l start) (
                branch (c is "A") (array_type prefix postfix l start) (
                  branch (c is "M") (pointer_to_member prefix postfix l start)
                    (return rest_follows))))))
        w

  unfoldable pub function_type : ℕ → ℕ → ℕ → ℕ → M Bool
  function_type prefix postfix l start w =
      (do
        y ← read_next
        let extern_c = y is "Y"
        branch extern_c skip (return tt)
        return_postfix ← fresh
        d.type_with_postfix prefix return_postfix none >>! (do
          r ← get_string return_postfix
          p ← get_string prefix
          branch (length r == 0 || ltb 0 (length p) && not (last_char p is "*")) (put prefix " ")
              (return tt)
          put prefix "("
          bare ← fresh
          b ← d.bare_function_type bare
          e ← branch b eat (return 0)
          branch (not (e is "E")) (return false) (do
            add_substitution start type 0
            decode_qualifiers l prefix postfix false
            put postfix ")"
            branch extern_c (put postfix " [extern \"C\"] ") (return tt)
            s ← get_string bare
            t ← get_string return_postfix
            emit postfix s
            emit postfix t
            return true)))
        w
