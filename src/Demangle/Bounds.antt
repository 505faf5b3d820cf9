-- ===== src/Demangle/Bounds.antt =====
-- The decoders of numbers, of builtin types and of the characters of a name keep the cursor within the text.
use libcwd.Base.{
  ℕ, suc, zero, ◌+◌, ◌-◌, ◌≤◌, ◌<◌, ◌≡◌, refl, ◌∙◌, Bool, true, false, not, Option, none, some, [],
  ◌∷◌, ◌++◌, ltb, ◌==◌, arith, if◌then◌else◌, Bool-cases, inl, inr, get_elem?,
}
use libcwd.Demangle.{
  Bytes, Session, Outcome, returned, undefined, current, next_peek, next, eat_current, advance,
  is_digit, is_lower, failure, give_back,
}
use libcwd.Demangle.Leaf.{
  digits_loop, decode_non_negative_decimal_integer, decode_number, decode_builtin_type, put_type,
  copy_loop, skip_name, name_of_length, join, builtin_type_c,
}

-- From `s` to `t` the cursor has moved on, if at all, within the same text.
pub record Moves (s t : Session) : Type 0 where
  pub same_str : t.str ≡ s.str
  pub same_len : t.len ≡ s.len
  pub onward : s.pos ≤ t.pos
  pub within : t.pos ≤ t.len

-- The same for an outcome, if it is a success.
abbrev pub IsWithin : Session → Outcome → Type 0
IsWithin s undefined = Unit
IsWithin s (returned false t output) = Unit
IsWithin s (returned true t output) = Moves s t

pub Moves-refl : (s : Session) → s.pos ≤ s.len → Moves s s
Moves-refl s h = record { same_str = refl; same_len = refl; onward = omega arith; within = h }

pub Moves-trans : (s t u : Session) → Moves s t → Moves t u → Moves s u
Moves-trans s t u h k = record {
  same_str = k.same_str ∙ h.same_str;
  same_len = k.same_len ∙ h.same_len;
  onward = omega (arith, h.onward, k.onward);
  within = k.within;
}

pub IsWithin-trans : (s t : Session) (o : Outcome) → Moves s t → IsWithin t o → IsWithin s o
IsWithin-trans s t undefined h k = tt
IsWithin-trans s t (returned false u output) h k = tt
IsWithin-trans s t (returned true u output) h k = Moves-trans s t u h k

step_if :
    (b : Bool) (s : Session)
    → s.pos ≤ s.len
    → (b ≡ true → s.pos < s.len)
    → Moves s (if b then advance 1 s else s)
step_if true s h k = record {
  same_str = refl;
  same_len = refl;
  onward = omega arith;
  within = omega (arith, k refl);
}
step_if false s h k = Moves-refl s h

pub Moves-next : (s : Session) → s.pos ≤ s.len → Moves s (next s)
unfolding next
Moves-next s h = step_if (ltb (s.pos + 1) s.len) s h (λ e. ground (arith, e))

pub Moves-eat_current : (s : Session) → s.pos ≤ s.len → Moves s (eat_current s)
unfolding eat_current
Moves-eat_current s h = step_if (ltb s.pos s.len) s h (λ e. ground (arith, e))

pub IsWithin-give_back :
    (s t : Session) (output : Bytes) → Moves s t → IsWithin s (give_back t output)
IsWithin-give_back s t output h = by_result t.result h
  where
    by_result : (b : Bool) → Moves s t → IsWithin s (returned b t output)
    by_result true k = k
    by_result false k = tt

pub IsWithin-if :
    (b : Bool) (s : Session) (o o' : Outcome)
    → IsWithin s o
    → IsWithin s o'
    → IsWithin s (if b then o else o')
IsWithin-if true s o o' h h' = h
IsWithin-if false s o o' h h' = h'

Moves-if :
    (b : Bool) (s : Session) (r r' : Session × Bytes)
    → Moves s r.0
    → Moves s r'.0
    → Moves s (if b then r else r').0
Moves-if true s r r' h h' = h
Moves-if false s r r' h h' = h'

Moves-digits_loop :
    (fuel c : ℕ) (s : Session) (output : Bytes)
    → s.pos ≤ s.len
    → Moves s (digits_loop fuel c s output).0
unfolding digits_loop
Moves-digits_loop zero c s output h = Moves-refl s h
Moves-digits_loop (suc fuel) c s output h =
    let m = Moves-next s h in
    Moves-if (is_digit (next_peek s)) s _ _
      (Moves-trans s (next s) _ m
        (Moves-digits_loop fuel (next_peek s) (next s) (output ++ c ∷ []) m.within))
      m

IsWithin-integer :
    (s : Session) (output : Bytes)
    → s.pos ≤ s.len
    → IsWithin s (decode_non_negative_decimal_integer s output)
unfolding decode_non_negative_decimal_integer
IsWithin-integer s output h =
    let r = digits_loop (suc s.len) (current s) s output in
    let rest = if not (is_digit (current s)) then failure s output else give_back r.0 r.1 in
    IsWithin-if (current s == 48) s (give_back (eat_current s) (output ++ 48 ∷ [])) rest
      (IsWithin-give_back s (eat_current s) (output ++ 48 ∷ []) (Moves-eat_current s h))
      (IsWithin-if (not (is_digit (current s))) s (failure s output) (give_back r.0 r.1) tt
        (IsWithin-give_back s r.0 r.1 (Moves-digits_loop (suc s.len) (current s) s output h)))

pub IsWithin-number :
    (s : Session) (output : Bytes) → s.pos ≤ s.len → IsWithin s (decode_number s output)
unfolding decode_number
IsWithin-number s output h =
    let m = Moves-eat_current s h in
    let signed = decode_non_negative_decimal_integer (eat_current s) (output ++ 45 ∷ []) in
    IsWithin-if (not (current s == 110)) s (decode_non_negative_decimal_integer s output) signed
      (IsWithin-integer s output h)
      (IsWithin-trans s (eat_current s) signed m
        (IsWithin-integer (eat_current s) (output ++ 45 ∷ []) m.within))

IsWithin-put_type :
    (s : Session) (output : Bytes) (o : Option Bytes)
    → s.pos ≤ s.len
    → IsWithin s (put_type s output o)
IsWithin-put_type s output none h = tt
IsWithin-put_type s output (some bt) h =
    IsWithin-give_back s (eat_current s) (output ++ bt) (Moves-eat_current s h)

pub IsWithin-builtin_type :
    (s : Session) (output : Bytes) → s.pos ≤ s.len → IsWithin s (decode_builtin_type s output)
unfolding decode_builtin_type
IsWithin-builtin_type s output h =
    let bt = join (get_elem? builtin_type_c (current s - 97)) in
    IsWithin-if (not (is_lower (current s))) s (failure s output) (put_type s output bt) tt
      (IsWithin-put_type s output bt h)

IsWithin-copy_loop :
    (n : ℕ) (s : Session) (output : Bytes) → s.pos ≤ s.len → IsWithin s (copy_loop n s output)
unfolding copy_loop
IsWithin-copy_loop zero s output h = IsWithin-give_back s s output (Moves-refl s h)
IsWithin-copy_loop (suc n) s output h =
    let m = Moves-eat_current s h in
    let output' = output ++ current s ∷ [] in
    let rest = copy_loop n (eat_current s) output' in
    IsWithin-if (current s == 0) s (failure s output) rest tt (
      IsWithin-trans s (eat_current s) rest m
        (IsWithin-copy_loop n (eat_current s) output' m.within))

IsWithin-skip_name : (n : ℕ) (s : Session) (output : Bytes) → IsWithin s (skip_name n s output)
unfolding skip_name
IsWithin-skip_name n s output = elim (Bool-cases (ltb s.len (s.pos + n))) [
  | inl e ↦ rw (e) tt
  | inr e ↦ rw (e) (
      IsWithin-give_back s (advance n s) _ (record {
        same_str = refl;
        same_len = refl;
        onward = omega arith;
        within = ground (arith, e);
      }))
]

pub IsWithin-name :
    (n : ℕ) (s : Session) (output : Bytes) (o : Option Bool)
    → s.pos ≤ s.len
    → IsWithin s (name_of_length n s output o)
unfolding name_of_length
IsWithin-name n s output none h = tt
IsWithin-name n s output (some true) h = IsWithin-skip_name n s output
IsWithin-name n s output (some false) h = IsWithin-copy_loop n s output h
