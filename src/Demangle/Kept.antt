-- ===== src/Demangle/Kept.antt =====
-- What every decoder of include/cwd_demangle.h keeps of its session: the text, function_name_, how
-- deep it is in types, and the numbers of the substitutions and of the template arguments so far.
pub mod Rules
pub mod Listing
pub mod Reading
pub mod Decoding
pub mod Expressing
pub mod Typing
pub mod Naming
pub mod Encoding
pub mod Whole
use libcwd.Base.{
  ℕ, suc, zero, ◌+◌, ◌-◌, ◌≡◌, refl, sym, ◌∙◌, ap, arith, Bool, true, false, Option, none, some,
  List, [], ◌∷◌, ◌++◌, leb, ltb, ◌==◌, length, get_elem?, if◌then◌else◌,
}
use libcwd.Demangle.{Bytes, Session, Outcome, returned, undefined}
use libcwd.Demangle.Machine.{
  SubstitutionNt, Substitution, Depth, Flags, Machine, Ending, ok, undefined_access, out_of_fuel, M,
  ◌>>=◌, return, branch, stop, overrun, frame, set_pos, set_result, set_depth, set_flags,
  QualifierList, read_char, read_current, read_next_peek, read_next, eat, string_at, get_string,
  set_string, emit, fresh, with_outcome, leaf, add_substitution, add_template_arg,
}
use libcwd.Demangle.Qualifiers.{new_list, get_list, set_list}
use libcwd.Demangle.Grammar.{Decoders}
use libcwd.Demangle.Grammar.Encodings.{in_session, back_to, opened}
use libcwd.Demangle.Grammar.Whole.{enter_type, leave_type}

-- Every element keeps its number.
abbrev pub Extended : {A : Type 0} → List A → List A → Type 0
Extended {A} xs ys = (i : ℕ) (a : A) → get_elem? xs i ≡ some a → get_elem? ys i ≡ some a

pub Extended-append : {A : Type 0} (xs ys : List A) → Extended xs (xs ++ ys)
Extended-append [] ys i a e = absurd cc
Extended-append (x ∷ xs) ys zero a e = e
Extended-append (x ∷ xs) ys (suc i) a e = Extended-append xs ys i a e

pub record Extends (w v : Machine) : Type 0 where
  pub same_str : v.frame.cursor.str ≡ w.frame.cursor.str
  pub same_len : v.frame.cursor.len ≡ w.frame.cursor.len
  pub same_function_name : v.frame.function_name ≡ w.frame.function_name
  pub same_depth : v.frame.depth.inside_type ≡ w.frame.depth.inside_type
  pub substitutions : Extended w.frame.substitutions_pos v.frame.substitutions_pos
  pub template_args : Extended w.frame.template_arg_pos v.frame.template_arg_pos

Extends-trans : (u v w : Machine) → Extends u v → Extends v w → Extends u w
Extends-trans u v w h k = record {
  same_str = k.same_str ∙ h.same_str;
  same_len = k.same_len ∙ h.same_len;
  same_function_name = k.same_function_name ∙ h.same_function_name;
  same_depth = k.same_depth ∙ h.same_depth;
  substitutions = λ i a e. k.substitutions i a (h.substitutions i a e);
  template_args = λ i a e. k.template_args i a (h.template_args i a e);
}

-- If the ending is a return, what was there at `w` is kept.
unfoldable pub Keeps : {A : Type 0} → Machine → Ending A → Type 0
Keeps w (ok a v) = Extends w v
Keeps w undefined_access = Unit
Keeps w out_of_fuel = Unit

pub equal_parts :
    (w v : Machine)
    → v.frame.cursor.str ≡ w.frame.cursor.str
    → v.frame.cursor.len ≡ w.frame.cursor.len
    → v.frame.function_name ≡ w.frame.function_name
    → v.frame.depth.inside_type ≡ w.frame.depth.inside_type
    → v.frame.substitutions_pos ≡ w.frame.substitutions_pos
    → v.frame.template_arg_pos ≡ w.frame.template_arg_pos
    → Extends w v
equal_parts w v e₁ e₂ e₃ e₄ e₅ e₆ = record {
  same_str = e₁;
  same_len = e₂;
  same_function_name = e₃;
  same_depth = e₄;
  substitutions = λ i a e. ap (λ xs. get_elem? xs i) e₅ ∙ e;
  template_args = λ i a e. ap (λ xs. get_elem? xs i) e₆ ∙ e;
}

pub Keeps-trans : {A : Type 0} (w v : Machine) (o : Ending A) → Extends w v → Keeps v o → Keeps w o
unfolding Keeps
Keeps-trans w v (ok a u) h k = Extends-trans w v u h k
Keeps-trans w v undefined_access h k = tt
Keeps-trans w v out_of_fuel h k = tt

Keeps-bind_ending :
    {A B : Type 0} (o : Ending A) (f : A → M B) (w : Machine)
    → Keeps w o
    → ((a : A) (v : Machine) → Keeps v (f a v))
    → Keeps w (((λ (_ : Machine). o) >>= f) w)
unfolding Keeps ◌>>=◌
Keeps-bind_ending (ok a v) f w h k = Keeps-trans w v (f a v) h (k a v)
Keeps-bind_ending undefined_access f w h k = tt
Keeps-bind_ending out_of_fuel f w h k = tt

pub Keeps-bind :
    {A B : Type 0} (m : M A) (f : A → M B) (w : Machine)
    → Keeps w (m w)
    → ((a : A) (v : Machine) → Keeps v (f a v))
    → Keeps w ((m >>= f) w)
unfolding ◌>>=◌
Keeps-bind m f w h k = Keeps-bind_ending (m w) f w h k

pub Keeps-branch :
    {A : Type 0} (b : Bool) (m n : M A) (w : Machine)
    → Keeps w (m w)
    → Keeps w (n w)
    → Keeps w (branch b m n w)
unfolding branch
Keeps-branch true m n w h k = h
Keeps-branch false m n w h k = k

pub Keeps-if :
    {A : Type 0} (b : Bool) (w : Machine) (o o' : Ending A)
    → Keeps w o
    → Keeps w o'
    → Keeps w (if b then o else o')
Keeps-if true w o o' h k = h
Keeps-if false w o o' h k = k
