-- ===== src/Demangle/Within.antt =====
-- The decoders of names and of call offsets keep the cursor within the text.
use libcwd.Base.{
  ℕ, suc, zero, ◌+◌, ◌-◌, ◌*◌, ◌≤◌, Bool, true, false, ◌||◌, Option, none, some, [], ltb, ◌==◌,
  if◌then◌else◌,
}
use libcwd.Demangle.{
  Bytes, Session, Outcome, returned, undefined, current, next_peek, next, eat_current, is_digit,
  failure, give_back,
}
use libcwd.Demangle.Leaf.{
  decode_number, decode_builtin_type, length_loop, after_length, decode_source_name, after_number,
  decode_call_offset, is_anonymous, int_limit,
}
use libcwd.Demangle.Bounds.{
  Moves, IsWithin, Moves-refl, Moves-trans, IsWithin-trans, Moves-next, Moves-eat_current,
  IsWithin-give_back, IsWithin-if, IsWithin-number, IsWithin-builtin_type, IsWithin-name,
}

-- What the loop over the length leaves.
abbrev IsCounted : Session → Option (ℕ × Session) → Type 0
IsCounted s none = Unit
IsCounted s (some r) = Moves s r.1

IsCounted-if :
    (b b' : Bool) (s : Session) (o o' : Option (ℕ × Session))
    → IsCounted s o
    → IsCounted s o'
    → IsCounted s (if b then (if b' then o else none) else o')
IsCounted-if true true s o o' h h' = h
IsCounted-if true false s o o' h h' = tt
IsCounted-if false b' s o o' h h' = h'

IsCounted-trans :
    (s t : Session) (o : Option (ℕ × Session)) → Moves s t → IsCounted t o → IsCounted s o
IsCounted-trans s t none h k = tt
IsCounted-trans s t (some r) h k = Moves-trans s t r.1 h k

IsCounted-length_loop :
    (fuel n : ℕ) (s : Session) → s.pos ≤ s.len → IsCounted s (length_loop fuel n s)
unfolding length_loop
IsCounted-length_loop zero n s h = Moves-refl s h
IsCounted-length_loop (suc fuel) n s h =
    let m = Moves-next s h in
    IsCounted-if (is_digit (next_peek s)) (ltb (10 * n + next_peek s) int_limit) s _ _
      (IsCounted-trans s (next s) _ m
        (IsCounted-length_loop fuel (10 * n + next_peek s - 48) (next s) m.within))
      m

IsWithin-after_length :
    (s : Session) (output : Bytes) (o : Option (ℕ × Session))
    → IsCounted s o
    → IsWithin s (after_length output o)
unfolding after_length
IsWithin-after_length s output none k = tt
IsWithin-after_length s output (some r) k =
    IsWithin-trans s r.1 _ k (IsWithin-name r.0 r.1 output (is_anonymous r.0 r.1) k.within)

IsWithin-source_name :
    (s : Session) (output : Bytes) → s.pos ≤ s.len → IsWithin s (decode_source_name s output)
unfolding decode_source_name
IsWithin-source_name s output h =
    let o = length_loop s.len (current s - 48) s in
    IsWithin-if (ltb (current s) 49 || ltb 57 (current s)) s (failure s output)
      (after_length output o) tt
      (IsWithin-after_length s output o (IsCounted-length_loop s.len (current s - 48) s h))

IsWithin-after_number :
    (s : Session) (good bad : Session → Outcome) (o : Outcome)
    → IsWithin s o
    → ((t : Session) → Moves s t → IsWithin s (good t))
    → ((t : Session) → IsWithin s (bad t))
    → IsWithin s (after_number good bad o)
IsWithin-after_number s good bad undefined h hg hb = tt
IsWithin-after_number s good bad (returned false t output) h hg hb = hb t
IsWithin-after_number s good bad (returned true t output) h hg hb =
    IsWithin-if (current t == 95) s (good (eat_current t)) (bad t)
      (hg (eat_current t) (Moves-trans s t (eat_current t) h (Moves-eat_current t h.within))) (hb t)

IsWithin-done :
    (s : Session) (output : Bytes) (t : Session) → Moves s t → IsWithin s (give_back t output)
IsWithin-done s output t h = IsWithin-give_back s t output h

IsWithin-call_offset :
    (s : Session) (output : Bytes) → s.pos ≤ s.len → IsWithin s (decode_call_offset s output)
unfolding decode_call_offset
IsWithin-call_offset s output h =
    let bad = λ (t : Session). failure t output in
    let good = λ (t : Session). give_back t output in
    let m = Moves-eat_current s h in
    let first = decode_number (eat_current s) [] in
    let within =
      IsWithin-trans s (eat_current s) first m (IsWithin-number (eat_current s) [] m.within) in
    let second = λ (t : Session). after_number good bad (decode_number t []) in
    IsWithin-if (current s == 104) s (after_number good bad first)
      (if current s == 118 then after_number second bad first else failure s output)
      (IsWithin-after_number s good bad first within (IsWithin-done s output) (λ t. tt))
      (IsWithin-if (current s == 118) s (after_number second bad first) (failure s output)
        (IsWithin-after_number s second bad first within
          (λ t k.
            IsWithin-after_number s good bad (decode_number t [])
              (IsWithin-trans s t (decode_number t []) k (IsWithin-number t [] k.within))
              (IsWithin-done s output) (λ u. tt))
          (λ t. tt))
        tt)

-- A decoder of a number, of a builtin type, of a name behind its length or of a call offset, started
-- within the text, leaves the text as it is if it succeeds, and its cursor within the text and not
-- before where it started.
pub leaves-IsWithin :
    (s : Session) (output : Bytes)
    → s.pos ≤ s.len
    → IsWithin s (decode_number s output)
      × (IsWithin s (decode_builtin_type s output)
          × (IsWithin s (decode_source_name s output) × IsWithin s (decode_call_offset s output)))
leaves-IsWithin s output h = (
  IsWithin-number s output h,
  (
    IsWithin-builtin_type s output h,
    (IsWithin-source_name s output h, IsWithin-call_offset s output h),
  ),
)
