-- ===== src/Demangle/Kept/Rules.antt =====
-- The rules by which a decoder of include/cwd_demangle.h is shown to keep its session: one for each step of the machine.
use libcwd.Base.{ℕ, ◌-◌, ◌≡◌, refl, ◌∙◌, ap, arith, Bool, Option, leb, ◌==◌, length}
use libcwd.Demangle.{Bytes, Session, Outcome, returned, undefined}
use libcwd.Demangle.Machine.{
  SubstitutionNt, Depth, Flags, Machine, Ending, ok, undefined_access, out_of_fuel, M, ◌>>=◌,
  return, stop, overrun, frame, set_pos, set_result, set_depth, set_flags, QualifierList, read_char,
  read_current, read_next_peek, read_next, eat, get_string, set_string, emit, fresh, with_outcome,
  leaf, add_substitution, add_template_arg,
}
use libcwd.Demangle.Qualifiers.{new_list, get_list, set_list}
use libcwd.Demangle.Grammar.{Decoders}
use libcwd.Demangle.Grammar.Encodings.{in_session, back_to, opened}
use libcwd.Demangle.Grammar.Whole.{enter_type, leave_type}
use libcwd.Demangle.Kept.{
  Extends, Extended-append, Keeps, equal_parts, Keeps-trans, Keeps-bind, Keeps-branch, Keeps-if,
}

pub Keeps-stop : (A : Type 0) (w : Machine) → Keeps w (stop {A = A} w)
unfolding Keeps stop
Keeps-stop A w = tt

pub Keeps-overrun : (A : Type 0) (w : Machine) → Keeps w (overrun {A = A} w)
unfolding Keeps overrun
Keeps-overrun A w = tt

pub Keeps-return : {A : Type 0} (a : A) (w : Machine) → Keeps w (return a w)
unfolding Keeps return
Keeps-return a w = equal_parts w _ refl refl refl refl refl refl

pub Keeps-frame : (w : Machine) → Keeps w (frame w)
unfolding Keeps frame
Keeps-frame w = equal_parts w _ refl refl refl refl refl refl

pub Keeps-set_pos : (p : ℕ) (w : Machine) → Keeps w (set_pos p w)
unfolding Keeps set_pos
Keeps-set_pos p w = equal_parts w _ refl refl refl refl refl refl

pub Keeps-set_result : (b : Bool) (w : Machine) → Keeps w (set_result b w)
unfolding Keeps set_result
Keeps-set_result b w = equal_parts w _ refl refl refl refl refl refl

pub Keeps-set_flags : (f : Flags → Flags) (w : Machine) → Keeps w (set_flags f w)
unfolding Keeps set_flags
Keeps-set_flags f w = equal_parts w _ refl refl refl refl refl refl

pub Keeps-get_string : (r : ℕ) (w : Machine) → Keeps w (get_string r w)
unfolding Keeps get_string
Keeps-get_string r w = equal_parts w _ refl refl refl refl refl refl

pub Keeps-set_string : (r : ℕ) (s : Bytes) (w : Machine) → Keeps w (set_string r s w)
unfolding Keeps set_string
Keeps-set_string r s w = equal_parts w _ refl refl refl refl refl refl

pub Keeps-fresh : (w : Machine) → Keeps w (fresh w)
unfolding Keeps fresh
Keeps-fresh w = equal_parts w _ refl refl refl refl refl refl

pub Keeps-new_list : (w : Machine) → Keeps w (new_list w)
unfolding Keeps new_list
Keeps-new_list w = equal_parts w _ refl refl refl refl refl refl

pub Keeps-get_list : (l : ℕ) (w : Machine) → Keeps w (get_list l w)
unfolding Keeps get_list
Keeps-get_list l w = equal_parts w _ refl refl refl refl refl refl

pub Keeps-set_list : (l : ℕ) (q : QualifierList) (w : Machine) → Keeps w (set_list l q w)
unfolding Keeps set_list
Keeps-set_list l q w = equal_parts w _ refl refl refl refl refl refl

pub Keeps-set_depth :
    (f : Depth → Depth) (w : Machine)
    → ((h : Depth) → Depth.inside_type (f h) ≡ h.inside_type)
    → Keeps w (set_depth f w)
unfolding Keeps set_depth
Keeps-set_depth f w h = equal_parts w _ refl refl refl (h w.frame.depth) refl refl

pub Keeps-read_char : (i : ℕ) (w : Machine) → Keeps w (read_char i w)
unfolding read_char Keeps
Keeps-read_char i w =
    Keeps-if (leb i (length w.frame.cursor.str)) w _ _
      (equal_parts w _ refl refl refl refl refl refl) tt

ruleset reading = (Keeps-bind, Keeps-branch, Keeps-return, Keeps-read_char, Keeps-set_pos)

pub Keeps-read_current : (w : Machine) → Keeps w (read_current w)
unfolding read_current
Keeps-read_current w = search (reading)

pub Keeps-read_next_peek : (w : Machine) → Keeps w (read_next_peek w)
unfolding read_next_peek
Keeps-read_next_peek w = search (reading)

pub Keeps-read_next : (w : Machine) → Keeps w (read_next w)
unfolding read_next
Keeps-read_next w = search (reading) depth 12

pub Keeps-eat : (w : Machine) → Keeps w (eat w)
unfolding eat
Keeps-eat w = search (reading) depth 12

pub Keeps-emit : (r : ℕ) (s : Bytes) (w : Machine) → Keeps w (emit r s w)
unfolding emit
Keeps-emit r s w = search (Keeps-bind, Keeps-get_string, Keeps-set_string)

Keeps-with_outcome : (r : ℕ) (w : Machine) (o : Outcome) → Keeps w (with_outcome r w o)
unfolding Keeps
Keeps-with_outcome r w (returned b s output) = equal_parts w _ refl refl refl refl refl refl
Keeps-with_outcome r w undefined = tt

pub Keeps-leaf : (f : Session → Bytes → Outcome) (r : ℕ) (w : Machine) → Keeps w (leaf f r w)
unfolding leaf
Keeps-leaf f r w = search (Keeps-bind, Keeps-read_current, Keeps-with_outcome)

pub Keeps-add_substitution :
    (start : ℕ) (t : SubstitutionNt) (n : ℕ) (w : Machine) → Keeps w (add_substitution start t n w)
unfolding Keeps add_substitution
Keeps-add_substitution start t n w =
    Keeps-if (w.frame.depth.inside_substitution == 0) w _ _
      (record {
        same_str = refl;
        same_len = refl;
        same_function_name = refl;
        same_depth = refl;
        substitutions = Extended-append w.frame.substitutions_pos _;
        template_args = λ _ _ e. e;
      })
      (equal_parts w _ refl refl refl refl refl refl)

pub Keeps-add_template_arg : (p : ℕ) (w : Machine) → Keeps w (add_template_arg p w)
unfolding Keeps add_template_arg
Keeps-add_template_arg p w = record {
  same_str = refl;
  same_len = refl;
  same_function_name = refl;
  same_depth = refl;
  substitutions = λ _ _ e. e;
  template_args = Extended-append w.frame.template_arg_pos _;
}

Keeps-back_to : {A : Type 0} (w : Machine) (o : Ending A) → Keeps w (back_to w.frame o)
unfolding Keeps
Keeps-back_to w (ok a v) = equal_parts w _ refl refl refl refl refl refl
Keeps-back_to w undefined_access = tt
Keeps-back_to w out_of_fuel = tt

pub Keeps-in_session :
    {A : Type 0} (str : Bytes) (len : ℕ) (m : M A) (w : Machine) → Keeps w (in_session str len m w)
unfolding in_session
Keeps-in_session str len m w = Keeps-back_to w (m (opened str len w))

abbrev entered : Machine → Machine
entered w = record w { frame = record w.frame { depth = enter_type w.frame.depth } }

abbrev left : Machine → Machine
left w = record w { frame = record w.frame { depth = leave_type w.frame.depth } }

-- What is one deeper between two changes of the depth keeps the depth.
Keeps-left :
    {A : Type 0} (w : Machine) (o : Ending A) (f : A → M Bool)
    → Keeps (entered w) o
    → ((a : A) (v : Machine) → Keeps v (f a v))
    → Keeps w (((λ (_ : Machine). o) >>= λ a. set_depth leave_type >>= λ _. f a) w)
unfolding Keeps ◌>>=◌ set_depth
Keeps-left w (ok a v) f h k =
    let u = left v in
    Keeps-trans w u (f a u)
      (record {
        same_str = h.same_str;
        same_len = h.same_len;
        same_function_name = h.same_function_name;
        same_depth = ap (λ n. n - 1) h.same_depth ∙ omega arith;
        substitutions = h.substitutions;
        template_args = h.template_args;
      })
      (k a u)
Keeps-left w undefined_access f h k = tt
Keeps-left w out_of_fuel f h k = tt

pub Keeps-within_type :
    {A : Type 0} (m : M A) (f : A → M Bool) (w : Machine)
    → ((v : Machine) → Keeps v (m v))
    → ((a : A) (v : Machine) → Keeps v (f a v))
    → Keeps w ((set_depth enter_type >>= λ _. m >>= λ a. set_depth leave_type >>= λ _. f a) w)
unfolding ◌>>=◌ set_depth
Keeps-within_type m f w h k = Keeps-left w (m (entered w)) f (h (entered w)) k

-- All the decoders of a record do.
pub record Keeping (d : Decoders) : Type 0 where
  pub type_with_postfix_keeps :
      (p q : ℕ) (l : Option ℕ) (w : Machine) → Keeps w (d.type_with_postfix p q l w)
  pub eat_qualifiers_keeps : (p q l : ℕ) (w : Machine) → Keeps w (d.eat_qualifiers p q l w)
  pub cv_run_keeps : (c n : ℕ) (w : Machine) → Keeps w (d.cv_run c n w)
  pub bare_function_type_keeps : (r : ℕ) (w : Machine) → Keeps w (d.bare_function_type r w)
  pub more_parameters_keeps : (r : ℕ) (w : Machine) → Keeps w (d.more_parameters r w)
  pub expression_keeps : (r : ℕ) (w : Machine) → Keeps w (d.expression r w)
  pub template_args_keeps : (r : ℕ) (w : Machine) → Keeps w (d.template_args r w)
  pub more_template_args_keeps : (r : ℕ) (w : Machine) → Keeps w (d.more_template_args r w)
  pub substitution_keeps : (r : ℕ) (l : Option ℕ) (w : Machine) → Keeps w (d.substitution r l w)
  pub template_param_keeps : (r : ℕ) (l : Option ℕ) (w : Machine) → Keeps w (d.template_param r l w)
  pub literal_keeps : (r : ℕ) (w : Machine) → Keeps w (d.literal r w)
  pub operator_name_keeps : (r : ℕ) (w : Machine) → Keeps w (d.operator_name r w)
  pub class_enum_type_keeps : (r : ℕ) (w : Machine) → Keeps w (d.class_enum_type r w)
  pub nested_name_keeps : (r q : ℕ) (w : Machine) → Keeps w (d.nested_name r q w)
  pub nested_prefixes_keeps : (r p n : ℕ) (w : Machine) → Keeps w (d.nested_prefixes r p n w)
  pub local_name_keeps : (r : ℕ) (w : Machine) → Keeps w (d.local_name r w)
  pub unqualified_name_keeps : (r : ℕ) (w : Machine) → Keeps w (d.unqualified_name r w)
  pub unscoped_name_keeps : (r : ℕ) (w : Machine) → Keeps w (d.unscoped_name r w)
  pub name_keeps : (r q : ℕ) (w : Machine) → Keeps w (d.name r q w)
  pub special_name_keeps : (r : ℕ) (w : Machine) → Keeps w (d.special_name r w)
  pub encoding_keeps : (r : ℕ) (s : Bytes) (n : ℕ) (w : Machine) → Keeps w (d.encoding r s n w)

pub ruleset keeps = (
  Keeps-bind, Keeps-branch, Keeps-return, Keeps-stop, Keeps-overrun, Keeps-frame, Keeps-set_pos,
  Keeps-set_result, Keeps-set_flags, Keeps-get_string, Keeps-set_string, Keeps-fresh,
  Keeps-new_list, Keeps-get_list, Keeps-set_list, Keeps-read_current, Keeps-read_next_peek,
  Keeps-read_next, Keeps-eat, Keeps-emit, Keeps-leaf, Keeps-add_substitution,
  Keeps-add_template_arg,
)
