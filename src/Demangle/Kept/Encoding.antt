-- ===== src/Demangle/Kept/Encoding.antt =====
-- What decode_local_name, decode_special_name and decode_encoding keep.
use libcwd.Base.{ℕ, suc, zero}
use libcwd.Demangle.{Bytes}
use libcwd.Demangle.Machine.{Machine}
use libcwd.Demangle.Kept.{Keeps}
use libcwd.Demangle.Kept.Rules.{keeps, Keeping, Keeps-in_session}
use libcwd.Demangle.Grammar.{ImplementationDetails, Decoders}
use libcwd.Demangle.Grammar.Encodings.{
  construction_vtable, decode_encoding, decode_local_name, decode_special_name, discriminator,
  entity_name, function_encoding, guard_variable, named_encoding, return_type, skip_digits,
  thunk_target, typed_name,
}
use libcwd.Demangle.Kept.Decoding.{Keeps-decode_type, Keeps-nested_encoding}

module _ (id : ImplementationDetails) (d : Decoders) (k : Keeping d) where
  pub Keeps-entity_name : (output : ℕ) (w : Machine) → Keeps w (entity_name id d output w)
  unfolding entity_name
  Keeps-entity_name output w = search (keeps, k.name_keeps) depth 60 fits 4000

  pub Keeps-discriminator : (w : Machine) → Keeps w (discriminator id d w)
  unfolding discriminator
  Keeps-discriminator w = search (keeps) depth 60 fits 4000

  pub Keeps-decode_local_name :
      (output : ℕ) (w : Machine) → Keeps w (decode_local_name id d output w)
  unfolding decode_local_name
  Keeps-decode_local_name output w =
      search (keeps, (Keeps-nested_encoding id d k), Keeps-entity_name, Keeps-discriminator) depth
        60 fits 4000

  pub Keeps-skip_digits : (o : ℕ) (w : Machine) → Keeps w (skip_digits id d o w)
  unfolding skip_digits
  Keeps-skip_digits zero w = search (keeps) depth 60 fits 4000
  Keeps-skip_digits (suc fuel) w = search (keeps, (Keeps-skip_digits fuel)) depth 60 fits 4000

  pub Keeps-construction_vtable :
      (output : ℕ) (w : Machine) → Keeps w (construction_vtable id d output w)
  unfolding construction_vtable
  Keeps-construction_vtable output w =
      search (keeps, (Keeps-decode_type id d k), Keeps-skip_digits) depth 60 fits 4000

  pub Keeps-thunk_target : (output : ℕ) (w : Machine) → Keeps w (thunk_target id d output w)
  unfolding thunk_target
  Keeps-thunk_target output w = search (keeps, (Keeps-nested_encoding id d k)) depth 60 fits 4000

  pub Keeps-typed_name : (output : ℕ) (w : Machine) → Keeps w (typed_name id d output w)
  unfolding typed_name
  Keeps-typed_name output w = search (keeps, (Keeps-decode_type id d k)) depth 60 fits 4000

  pub Keeps-guard_variable : (output : ℕ) (w : Machine) → Keeps w (guard_variable id d output w)
  unfolding guard_variable
  Keeps-guard_variable output w = search (keeps, Keeps-entity_name) depth 60 fits 4000

  pub Keeps-decode_special_name :
      (output : ℕ) (w : Machine) → Keeps w (decode_special_name id d output w)
  unfolding decode_special_name
  Keeps-decode_special_name output w =
      search
        (
          keeps, Keeps-construction_vtable, Keeps-thunk_target, Keeps-typed_name,
          Keeps-guard_variable,
        )
        depth 60 fits 4000

  pub Keeps-return_type :
      (output : ℕ) (return_postfix : ℕ) (w : Machine)
      → Keeps w (return_type id d output return_postfix w)
  unfolding return_type
  Keeps-return_type output return_postfix w =
      search (keeps, k.type_with_postfix_keeps) depth 60 fits 4000

  pub Keeps-function_encoding :
      (output : ℕ) (name : ℕ) (qualifiers : ℕ) (w : Machine)
      → Keeps w (function_encoding id d output name qualifiers w)
  unfolding function_encoding
  Keeps-function_encoding output name qualifiers w =
      search (keeps, k.bare_function_type_keeps, Keeps-return_type) depth 60 fits 4000

  pub Keeps-named_encoding : (output : ℕ) (w : Machine) → Keeps w (named_encoding id d output w)
  unfolding named_encoding
  Keeps-named_encoding output w =
      search (keeps, k.name_keeps, Keeps-function_encoding) depth 60 fits 4000

  pub Keeps-decode_encoding :
      (output : ℕ) (str : Bytes) (len : ℕ) (w : Machine)
      → Keeps w (decode_encoding id d output str len w)
  unfolding decode_encoding
  Keeps-decode_encoding output str len w = search (keeps, Keeps-in_session) depth 60 fits 4000
