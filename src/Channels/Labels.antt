-- ===== src/Channels/Labels.antt =====
-- The labels of the registered channels, src/debug.cxx: what the new width makes of them, and that it
-- keeps their order.
use libcwd.Base.{
  ℕ, suc, zero, ◌+◌, ◌-◌, ◌≤◌, ◌≡◌, refl, sym, ◌∙◌, ap, false, List, [], ◌∷◌, ◌++◌, length, map,
  take, replicate, length-append, length-replicate, ltb, ◌==◌, All, arith, if◌then◌else◌,
}
use libcwd.Channels.{Bytes, Channel, max_label_len, set_at, set_label_at, greater}
use libcwd.Channels.Order.{IsSorted, greater_irrefl}

-- `k` spaces and the NUL at the end of label_.
abbrev pub spaces : ℕ → Bytes
spaces k = replicate k 32 ++ (0 ∷ [])

-- The rest of label_ from the NUL at `width` on.
abbrev pub label_end : ℕ → Bytes
label_end width = set_at 0 0 (spaces (max_label_len - width))

-- label_ is filled up to the width, with a NUL there and spaces behind it.
abbrev pub IsLabel : ℕ → Bytes → Type 0
IsLabel width l = (s : Bytes) × (length s ≡ width) × (l ≡ s ++ label_end width)

pub set_at-append : (c i : ℕ) (s t : Bytes) → set_at (length s + i) c (s ++ t) ≡ s ++ set_at i c t
unfolding set_at
set_at-append c i [] t = ap (λ n. set_at n c t) (omega arith)
set_at-append c i (x ∷ s) t =
    let e : suc (length s) + i ≡ suc (length s + i) = omega arith in
    ap (λ n. set_at n c (x ∷ (s ++ t))) e ∙ ap (λ l. x ∷ l) (set_at-append c i s t)

pub set_at-spaces :
    (d e : ℕ) → set_at d 0 (spaces (d + e)) ≡ replicate d 32 ++ set_at 0 0 (spaces e)
unfolding set_at
set_at-spaces zero e = ap (λ n. set_at 0 0 (spaces n)) (omega arith)
set_at-spaces (suc d) e =
    let h : suc d + e ≡ suc (d + e) = omega arith in
    ap (λ n. set_at (suc d) 0 (spaces n)) h ∙ ap (λ l. 32 ∷ l) (set_at-spaces d e)

-- The NUL of a label turned into a space again, and the next one set.
move_nul :
    (k d e : ℕ)
    → k ≡ d + e
    → set_at d 0 (set_at 0 32 (set_at 0 0 (spaces k))) ≡ replicate d 32 ++ set_at 0 0 (spaces e)
unfolding set_at
move_nul zero zero zero h = refl
move_nul zero zero (suc e) h = absurd (omega (arith, h))
move_nul zero (suc d) e h = absurd (omega (arith, h))
move_nul (suc k) d e h = ap (λ n. set_at d 0 (spaces n)) h ∙ set_at-spaces d e

-- The texts of two labels decide, whatever the same bytes are behind them.
greater-append :
    (s s' u v : Bytes) (n : ℕ)
    → length s ≡ length s'
    → greater (length s + n) (s ++ u) (s' ++ u) ≡ greater (length s) (s ++ v) (s' ++ v)
unfolding greater
greater-append [] [] u v n h = greater_irrefl (0 + n) u
greater-append [] (y ∷ s') u v n h = absurd (omega (arith, h))
greater-append (x ∷ s) [] u v n h = absurd (omega (arith, h))
greater-append (x ∷ s) (y ∷ s') u v n h =
    let e : suc (length s) + n ≡ suc (length s + n) = omega arith in
    ap (λ k. greater k (x ∷ (s ++ u)) (y ∷ (s' ++ u))) e
    ∙ ap (λ b. if x == y then (if x == 0 then false else b) else ltb y x)
        (greater-append s s' u v n (omega (arith, h)))

-- A label of width `w` after that of width `w + d`, which is what `widen` makes of it.
abbrev pub relabelled : (w w' : ℕ) → Channel → Channel
relabelled w w' ch = record ch {
  label = take w ch.label ++ (replicate (w' - w) 32 ++ label_end w');
}

abbrev pub moved : (w w' : ℕ) → Channel → Channel
moved w w' ch = set_label_at w' 0 (set_label_at w 32 ch)

pub append_assoc : (a b c : Bytes) → (a ++ b) ++ c ≡ a ++ (b ++ c)
append_assoc [] b c = refl
append_assoc (x ∷ a) b c = ap (λ l. x ∷ l) (append_assoc a b c)

take-append : (s t : Bytes) → take (length s) (s ++ t) ≡ s
take-append [] t = refl
take-append (x ∷ s) t = ap (λ l. x ∷ l) (take-append s t)

module _ (w w' : ℕ) (wider : w ≤ w') (fits : w' ≤ max_label_len) where
  move_label :
      (s : Bytes)
      → length s ≡ w
      → set_at w' 0 (set_at w 32 (s ++ label_end w)) ≡ s ++ (replicate (w' - w) 32 ++ label_end w')
  move_label s h =
      let t = label_end w in
      let first : set_at w 32 (s ++ t) ≡ s ++ set_at 0 32 t =
        ap (λ n. set_at n 32 (s ++ t)) (omega (arith, h)) ∙ set_at-append 32 0 s t in
      ap (set_at w' 0) first
      ∙ ap (λ n. set_at n 0 (s ++ set_at 0 32 t)) (omega (arith, h))
      ∙ set_at-append 0 (w' - w) s (set_at 0 32 t)
      ∙ ap (◌++◌ s)
          (move_nul (max_label_len - w) (w' - w) (max_label_len - w') (omega (arith, wider, fits)))

  moved-relabelled : (ch : Channel) → IsLabel w ch.label → moved w w' ch ≡ relabelled w w' ch
  unfolding set_label_at
  moved-relabelled ch (s, h, e) =
      let text : take w ch.label ≡ s =
        ap (take w) e ∙ ap (λ n. take n (s ++ label_end w)) (sym h) ∙ take-append s (label_end w) in
      ap (λ l. record ch { label = l })
        (ap (λ l. set_at w' 0 (set_at w 32 l)) e
          ∙ move_label s h
          ∙ ap (λ t. t ++ (replicate (w' - w) 32 ++ label_end w')) (sym text))

  moved-IsLabel : (ch : Channel) → IsLabel w ch.label → IsLabel w' (moved w w' ch).label
  unfolding set_label_at
  moved-IsLabel ch (s, h, e) = (
    s ++ replicate (w' - w) 32,
    length-append s (replicate (w' - w) 32)
        ∙ omega (arith, h, wider, length-replicate {A = ℕ} (w' - w) 32),
    ap (λ l. set_at w' 0 (set_at w 32 l)) e
        ∙ move_label s h
        ∙ sym (append_assoc s (replicate (w' - w) 32) (label_end w')),
  )

  greater-moved :
      (x y : Channel)
      → IsLabel w x.label
      → IsLabel w y.label
      → greater w' (moved w w' x).label (moved w w' y).label ≡ greater w x.label y.label
  unfolding set_label_at
  greater-moved x y (s, h, e) (s', h', e') =
      let u = replicate (w' - w) 32 ++ label_end w' in
      let move : (l t : Bytes)
          → length t ≡ w
          → l ≡ t ++ label_end w
          → set_at w' 0 (set_at w 32 l) ≡ t ++ u =
        λ l t h e. ap (λ l. set_at w' 0 (set_at w 32 l)) e ∙ move_label t h in
      ap (λ l. greater w' l (moved w w' y).label) (move x.label s h e)
      ∙ ap (greater w' (s ++ u)) (move y.label s' h' e')
      ∙ ap (λ n. greater n (s ++ u) (s' ++ u)) (omega (arith, h, wider))
      ∙ greater-append s s' u (label_end w) (w' - w) (h ∙ sym h')
      ∙ ap (λ n. greater n (s ++ label_end w) (s' ++ label_end w)) h
      ∙ ap (λ l. greater w l (s' ++ label_end w)) (sym e)
      ∙ ap (greater w x.label) (sym e')

  above-moved :
      (x : Channel) (ys : List Channel)
      → IsLabel w x.label
      → All (λ y. IsLabel w y.label) ys
      → All (λ y. greater w x.label y.label ≡ false) ys
      → All (λ y. greater w' (moved w w' x).label y.label ≡ false) (map (moved w w') ys)
  above-moved x [] l ls h = tt
  above-moved x (y ∷ ys) l ls h = (greater-moved x y l ls.0 ∙ h.0, above-moved x ys l ls.1 h.1)

  pub moved-IsSorted :
      (xs : List Channel)
      → All (λ x. IsLabel w x.label) xs
      → IsSorted w xs
      → IsSorted w' (map (moved w w') xs)
  moved-IsSorted [] ls h = tt
  moved-IsSorted (x ∷ xs) ls h = (above-moved x xs ls.0 ls.1 h.0, moved-IsSorted xs ls.1 h.1)

  pub moved-AreLabels :
      (xs : List Channel)
      → All (λ x. IsLabel w x.label) xs
      → All (λ x. IsLabel w' x.label) (map (moved w w') xs)
  moved-AreLabels [] ls = tt
  moved-AreLabels (x ∷ xs) ls = (moved-IsLabel x ls.0, moved-AreLabels xs ls.1)

  pub map-moved :
      (xs : List Channel)
      → All (λ x. IsLabel w x.label) xs
      → map (moved w w') xs ≡ map (relabelled w w') xs
  map-moved [] ls = refl
  map-moved (x ∷ xs) ls =
      ap (λ y. y ∷ map (moved w w') xs) (moved-relabelled x ls.0)
      ∙ ap (λ ys. relabelled w w' x ∷ ys) (map-moved xs ls.1)
