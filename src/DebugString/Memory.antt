-- ===== src/DebugString/Memory.antt =====
-- Areas of bytes: writes inside of them, and strings in front of them.
use mathlib.Core.List.{append_assoc}
use libcwd.Base.{
  ℕ, ◌+◌, ◌-◌, ◌≤◌, ◌<◌, ◌≡◌, refl, sym, ap, suc, zero, true, some, List, [], ◌∷◌, ◌++◌, length,
  take, drop, replicate, leb, arith, length-append, take-append_length, drop-append_length,
  length-take, length-replicate, ◌∙◌,
}
use libcwd.DebugString.{write_at, realloc, strncpy}

-- A NUL-terminated text and whatever lies behind it.
abbrev pub Holds : List ℕ → List ℕ → Type 0
Holds area text = (rest : List ℕ) × (area ≡ text ++ (0 ∷ rest))

-- An area in three parts: `n` bytes, one, and the rest.
pub split_at :
    (n : ℕ) (xs : List ℕ)
    → n < length xs
    → (ys : List ℕ) × (z : ℕ) × (zs : List ℕ) × (xs ≡ ys ++ (z ∷ zs)) × (length ys ≡ n)
split_at zero (x ∷ xs) lt = ([], x, xs, refl, refl)
split_at (suc n) (x ∷ xs) lt =
    let (ys, z, zs, e, l) = split_at n xs (omega (arith, lt)) in
    (x ∷ ys, z, zs, ap (◌∷◌ x) e, ap suc l)
split_at n [] lt = absurd (omega (arith, lt))

module _ (xs old zs s : List ℕ) (n : ℕ) (e : length xs ≡ n) (l : length old ≡ length s) where
  in_range : leb (n + length s) (length (xs ++ (old ++ zs))) ≡ true
  in_range = ground (arith, length-append xs (old ++ zs), length-append old zs, e, l)

  before : take n (xs ++ (old ++ zs)) ≡ xs
  before = rw (sym e) (take-append_length xs (old ++ zs))

  behind : drop (n + length s) (xs ++ (old ++ zs)) ≡ zs
  behind =
      let m : length (xs ++ old) ≡ n + length s = omega (arith, length-append xs old, e, l) in
      rw (sym m, sym (append_assoc xs old zs)) (drop-append_length (xs ++ old) zs)

-- A write over `old`, as long as the text.
pub write_at-over :
    (xs old zs s : List ℕ) (n : ℕ)
    → length xs ≡ n
    → length old ≡ length s
    → write_at n s (xs ++ (old ++ zs)) ≡ some (xs ++ (s ++ zs))
unfolding write_at
write_at-over xs old zs s n e l =
    rw (write_at, in_range xs old zs s n e l, before xs old zs s n e l, behind xs old zs s n e l)
      refl

pub length-strncpy : (s : List ℕ) → length (strncpy s) ≡ length s
unfolding strncpy
length-strncpy [] = refl
length-strncpy (c ∷ s) = ground (arith, length-strncpy s, length-replicate {A = ℕ} (length s) 0)

module _ (fresh_byte : ℕ) where
  pub length-realloc : (n : ℕ) (area : List ℕ) → length (realloc fresh_byte n area) ≡ n
  unfolding realloc
  length-realloc n area = omega (
    arith,
    length-append (take n area) (replicate (n - length area) fresh_byte),
    length-take n area,
    length-replicate (n - length area) fresh_byte,
  )

  take_past :
      (k : ℕ) (xs ys : List ℕ) (n : ℕ) → k ≡ length xs + n → take k (xs ++ ys) ≡ xs ++ take n ys
  take_past k [] ys n e = rw (e) (ap (λ j. take j ys) (omega arith))
  take_past (suc k) (x ∷ xs) ys n e = ap (◌∷◌ x) (take_past k xs ys n (omega (arith, e)))
  take_past zero (x ∷ xs) ys n e = absurd (omega (arith, e))

  pub realloc-Holds :
      (n : ℕ) (area text : List ℕ)
      → length text < n
      → Holds area text
      → Holds (realloc fresh_byte n area) text
  unfolding realloc
  realloc-Holds n area text lt (rest, e) =
      let k = n - length text - 1 in
      let more = replicate (n - length area) fresh_byte in
      (
        take k rest ++ more,
        rw
            (
              realloc,
              e,
              take_past n text (0 ∷ rest) (suc k) (omega (arith, lt)),
              append_assoc text (0 ∷ take k rest)
                  (replicate (n - length (text ++ (0 ∷ rest))) fresh_byte),
            )
            refl,
      )

-- Copying a text behind `xs` and ending it with a NUL: both writes are inside of the area.
pub put_text :
    (area xs rest s : List ℕ) (n m : ℕ)
    → area ≡ xs ++ rest
    → length xs ≡ n
    → m ≡ n + length s
    → length s < length rest
    → (copied : List ℕ) × (ended : List ℕ) × (write_at n s area ≡ some copied)
      × (write_at m (0 ∷ []) copied ≡ some ended)
      × Holds ended (xs ++ s)
      × (length ended ≡ length area)
put_text area xs rest s n m ea e em lt =
    let (ys, z, zs, er, l) = split_at (length s) rest lt in
    let all : area ≡ xs ++ (ys ++ (z ∷ zs)) = ea ∙ ap (◌++◌ xs) er in
    let lxs : length (xs ++ s) ≡ m = omega (arith, length-append xs s, e, em) in
    (
      xs ++ (s ++ (z ∷ zs)),
      (xs ++ s) ++ (0 ∷ zs),
      ap (write_at n s) all ∙ write_at-over xs ys (z ∷ zs) s n e l,
      ap (write_at m (0 ∷ [])) (sym (append_assoc xs s (z ∷ zs)))
          ∙ write_at-over (xs ++ s) (z ∷ []) zs (0 ∷ []) m lxs refl,
      (zs, refl),
      omega (
        arith,
        length-append (xs ++ s) (0 ∷ zs),
        length-append xs s,
        length-append xs (ys ++ (z ∷ zs)),
        length-append ys (z ∷ zs),
        l,
        ap length all,
      ),
    )

split_le :
    (n : ℕ) (xs : List ℕ)
    → n ≤ length xs
    → (ys : List ℕ) × (zs : List ℕ) × (xs ≡ ys ++ zs) × (length ys ≡ n)
split_le zero xs le = ([], xs, refl, refl)
split_le (suc n) (x ∷ xs) le =
    let (ys, zs, e, l) = split_le n xs (omega (arith, le)) in (x ∷ ys, zs, ap (◌∷◌ x) e, ap suc l)
split_le (suc n) [] le = absurd (omega (arith, le))

-- Moving a text and its NUL up and copying another in front: both writes are inside of the area.
pub put_front :
    (area text rest s : List ℕ) (n k : ℕ)
    → area ≡ text ++ (0 ∷ rest)
    → length s ≡ n
    → k ≡ length text + 1
    → n + k ≤ length area
    → (moved : List ℕ) × (copied : List ℕ) × (write_at n (take k area) area ≡ some moved)
      × (write_at 0 s moved ≡ some copied)
      × Holds copied (s ++ text)
      × (length copied ≡ length area)
put_front area text rest s n k ea e ek le =
    let (ys, behind, e1, l1) = split_le n area (omega (arith, le)) in
    let (ms, zs, e2, l2) =
      split_le k behind (omega (arith, le, ap length e1, length-append ys behind, l1)) in
    let all : area ≡ ys ++ (ms ++ zs) = e1 ∙ ap (◌++◌ ys) e2 in
    let t0 = text ++ (0 ∷ []) in
    let l0 : length t0 ≡ k = omega (arith, length-append text (0 ∷ []), ek) in
    let et : take k area ≡ t0 =
      ap (take k) (ea ∙ sym (append_assoc text (0 ∷ []) rest))
      ∙ ap (λ j. take j (t0 ++ rest)) (sym l0)
      ∙ take-append_length t0 rest in
    (
      ys ++ (t0 ++ zs),
      s ++ (t0 ++ zs),
      ap (λ t. write_at n t area) et
          ∙ ap (write_at n t0) all
          ∙ write_at-over ys ms zs t0 n l1 (l2 ∙ sym l0),
      write_at-over [] ys (t0 ++ zs) s 0 refl (l1 ∙ sym e),
      (zs, ap (◌++◌ s) (append_assoc text (0 ∷ []) zs) ∙ sym (append_assoc s text (0 ∷ zs))),
      omega (
        arith,
        length-append s (t0 ++ zs),
        length-append t0 zs,
        length-append ys (ms ++ zs),
        length-append ms zs,
        l1,
        l2,
        l0,
        e,
        ap length all,
      ),
    )
