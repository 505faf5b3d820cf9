-- ===== src/Demangle/Endless.antt =====
-- A template argument of an expression that names itself, on which decode_expression of
-- include/cwd_demangle.h calls itself for ever.
use libcwd.Base.{
  ℕ, suc, zero, ◌+◌, ◌%◌, ◌≡◌, refl, sym, ◌∙◌, ap, arith, Bool, false, none, some, ltb, get_elem?,
}
use mathlib.Core.Path.{subst}
use libcwd.Demangle.{char_at}
use libcwd.Demangle.Machine.{
  Machine, ok, out_of_fuel, M, ◌>>=◌, ◌>>◌, return, branch, stop, frame, set_pos, set_depth,
  read_current, read_next, eat, skip, fail, give,
}
use libcwd.Demangle.Steps.{
  bind-ok, bind-out_of_fuel, read_current-IsAt, eat-IsAt, next-IsAt, IsAt, moved,
}
use libcwd.Demangle.Grammar.{ImplementationDetails, Decoders}
use libcwd.Demangle.Grammar.Leaves.{unsigned_limit}
use libcwd.Demangle.Grammar.References.{
  add_substitution_depth, sub_substitution_depth, decode_argument, at_argument, parameter_value,
  decode_template_param,
}
use libcwd.Demangle.Grammar.Expressions.{decode_expression}
use libcwd.Demangle.Grammar.Knot.{decoders, over}

-- At `p` stands a template argument, an expression that is the first template parameter; and that
-- parameter is the argument at `p`.
pub record IsKnot (w : Machine) (p : ℕ) : Type 0 where
  pub at_x : IsAt w.frame.cursor.str w.frame.cursor.len p 88
  pub at_t : IsAt w.frame.cursor.str w.frame.cursor.len (p + 1) 84
  pub at_underscore : IsAt w.frame.cursor.str w.frame.cursor.len (p + 1 + 1) 95
  pub is_argument :
      get_elem? w.frame.template_arg_pos (w.frame.flags.template_arg_pos_offset % unsigned_limit)
      ≡ some p
  pub is_shallow : ltb 20 w.frame.depth.inside_type ≡ false

-- The session behind the X, one substitution deeper.
abbrev deeper : Machine → Machine
deeper w = record w { frame = record w.frame { depth = add_substitution_depth w.frame.depth } }

parameter_value-IsKnot :
    (d : Decoders) (p : ℕ) (w : Machine)
    → IsKnot w p
    → w.frame.cursor.pos ≡ p + 1
    → parameter_value d w ≡ ok 0 (moved (w.frame.cursor.pos + 1) w)
unfolding parameter_value branch return char_at
parameter_value-IsKnot d p w k e = bind-ok read_next _ w 95 _ (
    next-IsAt 95 w (
      subst (λ i. IsAt w.frame.cursor.str w.frame.cursor.len (i + 1) 95) (sym e)
        (IsKnot.at_underscore k)))

decode_argument-IsKnot :
    (d : Decoders) (output p : ℕ) (w : Machine)
    → IsAt w.frame.cursor.str w.frame.cursor.len w.frame.cursor.pos 88
    → d.expression output (moved (w.frame.cursor.pos + 1) w) ≡ out_of_fuel
    → decode_argument d output none w ≡ out_of_fuel
unfolding decode_argument branch return char_at
decode_argument-IsKnot d output p w h e =
    bind-ok read_current _ w 88 w (read_current-IsAt 88 w h)
    ∙ bind-ok skip _ w tt _ (bind-ok eat _ w 88 _ (eat-IsAt 88 w h))
    ∙ e

at_argument-IsKnot :
    (d : Decoders) (output p : ℕ) (w : Machine)
    → IsAt w.frame.cursor.str w.frame.cursor.len p 88
    → ltb 20 w.frame.depth.inside_type ≡ false
    → d.expression output (moved (p + 1) (deeper w)) ≡ out_of_fuel
    → at_argument d output none (some p) w ≡ out_of_fuel
unfolding at_argument branch return frame set_pos set_depth ◌>>=◌
at_argument-IsKnot d output p w h s e =
    let rest : M Bool = do
      set_depth add_substitution_depth
      _ ← decode_argument d output none
      set_depth sub_substitution_depth
      set_pos w.frame.cursor.pos
      give
    in ap (λ b. (branch b fail rest) (moved p w)) s
      ∙ bind-out_of_fuel (decode_argument d output none) _ (moved p (deeper w))
          (decode_argument-IsKnot d output p (moved p (deeper w)) h e)

-- The template parameter at `p + 1` stands for the expression at `p`, so for itself.
template_param-IsKnot :
    (d : Decoders) (output p : ℕ) (w : Machine)
    → IsKnot w p
    → w.frame.cursor.pos ≡ p + 1
    → d.expression output (moved (p + 1) (deeper w)) ≡ out_of_fuel
    → decode_template_param d output none w ≡ out_of_fuel
unfolding decode_template_param branch return frame char_at
template_param-IsKnot d output p w k at e =
    let pos = w.frame.cursor.pos in
    let v = moved (pos + 1 + 1) w in
    let here = λ (i c : ℕ). IsAt w.frame.cursor.str w.frame.cursor.len i c in
    bind-ok read_current _ w 84 w
      (read_current-IsAt 84 w (subst (λ i. here i 84) (sym at) (IsKnot.at_t k)))
    ∙ bind-ok (parameter_value d) _ w 0 _ (parameter_value-IsKnot d p w k at)
    ∙ bind-ok eat _ (moved (pos + 1) w) 95 v (
        eat-IsAt 95 (moved (pos + 1) w)
          (subst (λ i. here (i + 1) 95) (sym at) (IsKnot.at_underscore k)))
    ∙ bind-ok frame _ v v.frame v refl
    ∙ ap
        (λ n. at_argument d output none (get_elem? w.frame.template_arg_pos (n % unsigned_limit)) v)
        zero_add
    ∙ ap (λ o. at_argument d output none o v) (IsKnot.is_argument k)
    ∙ at_argument-IsKnot d output p v (IsKnot.at_x k) (IsKnot.is_shallow k) e
  where
    zero_add : 0 + w.frame.flags.template_arg_pos_offset ≡ w.frame.flags.template_arg_pos_offset
    zero_add = omega arith

-- Where a template argument is an expression that is that argument's own parameter, decode_expression
-- never returns: within no fuel does it come to an end.
pub expression-IsKnot :
    (id : ImplementationDetails) (fuel output p : ℕ) (w : Machine)
    → IsKnot w p
    → w.frame.cursor.pos ≡ p + 1
    → (decoders id fuel).expression output w ≡ out_of_fuel
unfolding decoders over decode_expression branch stop char_at
expression-IsKnot id zero output p w k at = refl
expression-IsKnot id (suc zero) output p w k at =
    let here = λ (i c : ℕ). IsAt w.frame.cursor.str w.frame.cursor.len i c in
    bind-ok read_current _ w 84 w
      (read_current-IsAt 84 w (subst (λ i. here i 84) (sym at) (IsKnot.at_t k)))
    ∙ bind-out_of_fuel ((decoders id zero).template_param output none) _ w refl
expression-IsKnot id (suc (suc fuel)) output p w k at =
    let here = λ (i c : ℕ). IsAt w.frame.cursor.str w.frame.cursor.len i c in
    let again : IsKnot (moved (p + 1) (deeper w)) p = record {
      at_x = IsKnot.at_x k;
      at_t = IsKnot.at_t k;
      at_underscore = IsKnot.at_underscore k;
      is_argument = IsKnot.is_argument k;
      is_shallow = IsKnot.is_shallow k;
    } in
    bind-ok read_current _ w 84 w
      (read_current-IsAt 84 w (subst (λ i. here i 84) (sym at) (IsKnot.at_t k)))
    ∙ bind-out_of_fuel ((decoders id (suc fuel)).template_param output none) _ w (
        template_param-IsKnot (decoders id fuel) output p w k at
          (expression-IsKnot id fuel output p (moved (p + 1) (deeper w)) again refl))
