-- ===== src/Demangle/Thunk.antt =====
-- The names of covariant return thunks in decode_special_name of include/cwd_demangle.h.
use libcwd.Base.{ℕ, ◌+◌, ◌≡◌, refl, ◌∙◌, ap, false, if◌then◌else◌, ◌++◌, codes}
use libcwd.Demangle.{Bytes, Session, current, char_at, failure}
use libcwd.Demangle.Leaf.{decode_call_offset}
use libcwd.Demangle.Machine.{
  Machine, ok, ◌>>=◌, return, branch, set_result, emit, get_string, set_string, leaf, read_current,
  read_next, string_at, with_outcome, set_at,
}
use libcwd.Demangle.Steps.{bind-ok, read_current-IsAt, next-IsAt, IsAt, moved}
use libcwd.Demangle.Grammar.{ImplementationDetails, Decoders}
use libcwd.Demangle.Grammar.Encodings.{decode_special_name}

current-IsAt : (s : Session) (c : ℕ) → IsAt s.str s.len s.pos c → current s ≡ c
unfolding current
current-IsAt s c h =
    ap (λ b. if b then char_at s.str s.pos else 0) (IsAt.in_range h) ∙ IsAt.is_char h

call_offset_at_c :
    (s : Session) (output : Bytes) → current s ≡ 99 → decode_call_offset s output ≡ failure s output
unfolding decode_call_offset
call_offset_at_c s output e = rw (e) refl

leaf-call_offset :
    (output : ℕ) (w : Machine)
    → IsAt w.frame.cursor.str w.frame.cursor.len w.frame.cursor.pos 99
    → (v : Machine) × (leaf decode_call_offset output w ≡ ok false v)
unfolding leaf
leaf-call_offset output w h = (
  _,
  bind-ok read_current _ w 99 w (read_current-IsAt 99 w h)
      ∙ ap (with_outcome output w)
          (call_offset_at_c w.frame.cursor (string_at output w) (current-IsAt w.frame.cursor 99 h)),
)

abbrev after_put : ℕ → Machine → Machine
after_put output w = record w {
  strings = set_at w.strings output (string_at output w ++ codes "covariant return thunk to ");
}

-- A special name that begins with Tc, a covariant return thunk, is never decoded: decode_special_name
-- comes back with false, whatever follows.
pub special_name-covariant :
    (id : ImplementationDetails) (d : Decoders) (output : ℕ) (w : Machine)
    → IsAt w.frame.cursor.str w.frame.cursor.len w.frame.cursor.pos 84
    → IsAt w.frame.cursor.str w.frame.cursor.len (w.frame.cursor.pos + 1) 99
    → (v : Machine) × (decode_special_name id d output w ≡ ok false v)
unfolding decode_special_name branch char_at emit get_string set_string ◌>>=◌ return set_result
special_name-covariant id d output w t c =
    let p = w.frame.cursor.pos + 1 in
    let v = after_put output (moved p w) in
    let (u, e) = leaf-call_offset output v c in
    (
      _,
      bind-ok read_current _ w 84 w (read_current-IsAt 84 w t)
          ∙ bind-ok read_next _ w 99 (moved p w) (next-IsAt 99 w c)
          ∙ bind-ok (leaf decode_call_offset output) _ v false u e,
    )
