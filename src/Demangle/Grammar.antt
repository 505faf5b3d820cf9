-- ===== src/Demangle/Grammar.antt =====
-- What the decoders of include/cwd_demangle.h call of each other, and the demangler's options. Each
-- decoder is defined over a record of all of them; Grammar.Knot gives each the others with one unit
-- of fuel less. `output`, `prefix`, `postfix` and the like are places in the machine's strings.
pub mod Leaves
pub mod References
pub mod Literals
pub mod Expressions
pub mod Types
pub mod Whole
pub mod Unqualified
pub mod Encodings
pub mod Knot
use libcwd.Base.{ℕ, ◌+◌, ◌-◌, Bool, Option, none, some, List}
use libcwd.Demangle.{Bytes}
use libcwd.Demangle.Machine.{M, ◌>>=◌, ◌>>◌, return, fresh, get_string, emit}

-- The style flags, and decode_real, which the user may override: it gets the words and the size.
pub record ImplementationDetails : Type 0 where
  pub style_void : Bool
  pub style_literal : Bool
  pub style_literal_int : Bool
  pub style_compact_expr_ops : Bool
  pub style_sizeof_typename : Bool
  pub override_real : List ℕ → ℕ → Option Bytes

-- How the eating of qualifiers ends: it failed, it met a member function, which was the whole type,
-- or the rest of the type follows.
pub data Eaten : Type 0 where
  failed whole_type rest_follows : Eaten

pub record Decoders : Type 0 where
  pub type_with_postfix : ℕ → ℕ → Option ℕ → M Bool
  pub eat_qualifiers : ℕ → ℕ → ℕ → M Eaten
  pub cv_run : ℕ → ℕ → M ℕ
  pub bare_function_type : ℕ → M Bool
  pub more_parameters : ℕ → M Bool
  pub expression : ℕ → M Bool
  pub template_args : ℕ → M Bool
  pub more_template_args : ℕ → M Bool
  pub substitution : ℕ → Option ℕ → M Bool
  pub template_param : ℕ → Option ℕ → M Bool
  pub literal : ℕ → M Bool
  pub operator_name : ℕ → M Bool
  pub class_enum_type : ℕ → M Bool
  pub nested_name : ℕ → ℕ → M Bool
  pub nested_prefixes : ℕ → ℕ → ℕ → M Bool
  pub local_name : ℕ → M Bool
  pub unqualified_name : ℕ → M Bool
  pub unscoped_name : ℕ → M Bool
  pub name : ℕ → ℕ → M Bool
  pub special_name : ℕ → M Bool
  pub encoding : ℕ → Bytes → ℕ → M (Option ℕ)

-- session::decode_type
unfoldable pub decode_type : Decoders → ℕ → Option ℕ → M Bool
decode_type d output qualifiers w =
    (do
      postfix ← fresh
      res ← d.type_with_postfix output postfix qualifiers
      s ← get_string postfix
      emit output s
      return res)
      w
