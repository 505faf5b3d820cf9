-- ===== src/Demangle/Steps.antt =====
-- Single steps of the demangler's machine, of Demangle.Machine, where the character to read is known.
use libcwd.Base.{ℕ, ◌+◌, ◌≡◌, ◌∙◌, ap, true, ltb, leb, length}
use libcwd.Demangle.{Bytes, char_at}
use libcwd.Demangle.Machine.{
  Machine, Ending, ok, out_of_fuel, M, ◌>>=◌, return, branch, set_pos, set_cursor, read_char,
  read_current, read_next, eat,
}

module _ {A B : Type 0} where
  pub bind-ok :
      (m : M A) (f : A → M B) (w : Machine) (a : A) (v : Machine)
      → m w ≡ ok a v
      → (m >>= f) w ≡ f a v
  unfolding ◌>>=◌
  bind-ok m f w a v e = ap (λ (o : Ending A). ((λ (_ : Machine). o) >>= f) w) e

  pub bind-out_of_fuel :
      (m : M A) (f : A → M B) (w : Machine) → m w ≡ out_of_fuel → (m >>= f) w ≡ out_of_fuel
  unfolding ◌>>=◌
  bind-out_of_fuel m f w e = ap (λ (o : Ending A). ((λ (_ : Machine). o) >>= f) w) e

-- The text has the character `c` at `i`, where the session may read it.
pub record IsAt (str : Bytes) (len i c : ℕ) : Type 0 where
  pub in_range : ltb i len ≡ true
  pub in_text : leb i (length str) ≡ true
  pub is_char : char_at str i ≡ c

abbrev pub moved : ℕ → Machine → Machine
moved p w = set_cursor (record w.frame.cursor { pos = p }) w

read_char-IsAt :
    (i c : ℕ) (w : Machine)
    → IsAt w.frame.cursor.str w.frame.cursor.len i c
    → read_char i w ≡ ok c w
unfolding read_char
read_char-IsAt i c w h = rw (read_char, IsAt.in_text h) (ap (λ n. ok n w) (IsAt.is_char h))

pub read_current-IsAt :
    (c : ℕ) (w : Machine)
    → IsAt w.frame.cursor.str w.frame.cursor.len w.frame.cursor.pos c
    → read_current w ≡ ok c w
unfolding read_current branch
read_current-IsAt c w h =
    ap (λ b. (branch b (read_char w.frame.cursor.pos) (return 0)) w) (IsAt.in_range h)
    ∙ read_char-IsAt w.frame.cursor.pos c w h

read_then-IsAt :
    (i q c : ℕ) (w : Machine)
    → IsAt w.frame.cursor.str w.frame.cursor.len i c
    → (read_char i >>= λ k. set_pos q >>= λ _. return k) w ≡ ok c (moved q w)
unfolding ◌>>=◌ set_pos return
read_then-IsAt i q c w h =
    bind-ok (read_char i) (λ k. set_pos q >>= λ _. return k) w c w (read_char-IsAt i c w h)

pub eat-IsAt :
    (c : ℕ) (w : Machine)
    → IsAt w.frame.cursor.str w.frame.cursor.len w.frame.cursor.pos c
    → eat w ≡ ok c (moved (w.frame.cursor.pos + 1) w)
unfolding eat branch
eat-IsAt c w h =
    let p = w.frame.cursor.pos in
    ap (λ b. (branch b (read_char p >>= λ k. set_pos (p + 1) >>= λ _. return k) (return 0)) w)
      (IsAt.in_range h)
    ∙ read_then-IsAt p (p + 1) c w h

pub next-IsAt :
    (c : ℕ) (w : Machine)
    → IsAt w.frame.cursor.str w.frame.cursor.len (w.frame.cursor.pos + 1) c
    → read_next w ≡ ok c (moved (w.frame.cursor.pos + 1) w)
unfolding read_next branch
next-IsAt c w h =
    let p = w.frame.cursor.pos + 1 in
    ap (λ b. (branch b (read_char p >>= λ k. set_pos p >>= λ _. return k) (return 0)) w)
      (IsAt.in_range h)
    ∙ read_then-IsAt p p c w h
