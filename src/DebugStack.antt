-- ===== src/DebugStack.antt =====
-- include/private_DebugStack.inl.h: a stack of at most 64 values in an array. `init` is the empty
-- list; the head is `*current_`, and the length is `current_ - (stack_ - 1)`.
use libcwd.Base.{
  ℕ, ◌≤◌, ◌≡◌, Option, none, some, List, [], ◌∷◌, length, ◌==◌, if◌then◌else◌, arith, Bool-cases,
  inl, inr, refl, ◌⊎◌,
}

abbrev pub max_size : ℕ
max_size = 64

module _ {ℓ} {A : Type ℓ} where
  -- `none` is core_dump().
  unfoldable pub push : A → List A → Option (List A)
  push x s = if length s == max_size then none else some (x ∷ s)

  -- `none` is print_pop_error().
  unfoldable pub pop : List A → Option (List A)
  pop [] = none
  pop (x ∷ s) = some s

  -- `none` is a read below the array.
  unfoldable pub top : List A → Option A
  top [] = none
  top (x ∷ s) = some x

  -- While the stack holds at most 64 values, a push succeeds exactly below 64; then the value is on
  -- top, a pop gives the old stack back, and there are still at most 64.
  pub push_lem :
      (x : A) (s : List A)
      → length s ≤ max_size
      → ((push x s ≡ none) × (length s ≡ max_size))
        ⊎ ((s' : List A) × (push x s ≡ some s')
            × (top s' ≡ some x)
            × (pop s' ≡ some s)
            × (length s' ≤ max_size))
  unfolding push pop top
  push_lem x s h = elim (Bool-cases (length s == max_size)) [
    | inl e ↦ inl (rw e, ground arith)
    | inr e ↦ inr (x ∷ s, rw e, refl, refl, ground arith)
  ]
