-- ===== src/Demangle/Cursor.antt =====
-- The session's cursor in front of a text.
use libcwd.Base.{
  ℕ, suc, zero, ◌+◌, ◌≤◌, ◌<◌, ◌≡◌, ◌∙◌, ap, [], ◌∷◌, ◌++◌, length, drop, length-drop, arith,
  if◌then◌else◌, lt→ltb,
}
use mathlib.Core.Path.{subst}
use libcwd.Demangle.{Bytes, Session, char_at, current, next_peek, next, eat_current, advance}

-- What is still to be read is `t`, up to the NUL.
abbrev pub Sees : Bytes → Session → Type 0
Sees t s = (drop s.pos s.str ≡ t) × (s.len ≡ length s.str)

drop-cons :
    (str : Bytes) (n c : ℕ) (t : Bytes)
    → drop n str ≡ c ∷ t
    → (char_at str n ≡ c) × ((n < length str) × (drop (suc n) str ≡ t))
unfolding char_at
drop-cons [] zero c t e = cc e
drop-cons [] (suc n) c t e = cc e
drop-cons (d ∷ str) zero c t e = (cc e, (omega arith, cc e))
drop-cons (d ∷ str) (suc n) c t e =
    let (h, (l, r)) = drop-cons str n c t e in (h, (omega (arith, l), r))

no_step : (n : ℕ) → n ≡ n + 0
no_step n = omega arith

plus_one : (n : ℕ) → n + 1 ≡ suc n
plus_one n = omega arith

module _ (s : Session) (t : Bytes) where
  pub current-Sees : (c : ℕ) → Sees (c ∷ t) s → current s ≡ c
  unfolding current
  current-Sees c h = let (e, (l, _)) = drop-cons s.str s.pos c t h.0 in ground (arith, e, l, h.1)

  pub Sees-advance : (c : ℕ) → Sees (c ∷ t) s → Sees t (advance 1 s)
  Sees-advance c h =
      (ap (λ k. drop k s.str) (plus_one s.pos) ∙ ((drop-cons s.str s.pos c t h.0).1).1, h.1)

  pub pos_below : (c : ℕ) → Sees (c ∷ t) s → s.pos < s.len
  pos_below c h = omega (arith, ((drop-cons s.str s.pos c t h.0).1).0, h.1)

  pub eat-Sees : (c : ℕ) → Sees (c ∷ t) s → eat_current s ≡ advance 1 s
  unfolding eat_current
  eat-Sees c h = ap (λ b. if b then advance 1 s else s) (lt→ltb s.pos s.len (pos_below c h))

module _ (s : Session) (c d : ℕ) (t : Bytes) (h : Sees (c ∷ d ∷ t) s) where
  next_below : s.pos + 1 < s.len
  next_below = pos_below (advance 1 s) t d (Sees-advance s (d ∷ t) c h)

  pub next-Sees : next s ≡ advance 1 s
  unfolding next
  next-Sees = ap (λ b. if b then advance 1 s else s) (lt→ltb (s.pos + 1) s.len next_below)

  pub next_peek-Sees : next_peek s ≡ d
  unfolding next_peek
  next_peek-Sees =
      ap (λ b. if b then char_at s.str (s.pos + 1) else 0) (lt→ltb (s.pos + 1) s.len next_below)
      ∙ (drop-cons s.str (s.pos + 1) d t (Sees-advance s (d ∷ t) c h).0).0

pub advance_none : (s : Session) → s ≡ advance 0 s
advance_none s = ap (λ p. record s { pos = p }) (no_step s.pos)

pub advance-suc : (n : ℕ) (s : Session) → advance n (advance 1 s) ≡ advance (suc n) s
advance-suc n s = ap (λ p. record s { pos = p }) (omega arith)

pub advance-advance : (m n : ℕ) (s : Session) → advance n (advance m s) ≡ advance (m + n) s
advance-advance m n s = ap (λ p. record s { pos = p }) (omega arith)

-- What is ahead is not longer than the text.
pub length-Sees : (t : Bytes) (s : Session) → Sees t s → length t ≤ s.len
length-Sees t s h = omega (arith, ap length h.0, length-drop s.pos s.str, h.1)

pub Sees-advance_past :
    (a t : Bytes) (s : Session) → Sees (a ++ t) s → Sees t (advance (length a) s)
Sees-advance_past [] t s h = subst (Sees t) (advance_none s) h
Sees-advance_past (c ∷ a) t s h =
    subst (Sees t) (advance-suc (length a) s)
      (Sees-advance_past a t (advance 1 s) (Sees-advance s (a ++ t) c h))
