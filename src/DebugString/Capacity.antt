-- ===== src/DebugString/Capacity.antt =====
-- calculate_capacity: it ends, and what it returns is large enough and not too large.
use libcwd.Base.{
  ℕ, ◌+◌, ◌-◌, ◌*◌, ◌%◌, ◌^◌, ◌≤◌, ◌<◌, ◌≡◌, refl, suc, zero, some, leb, arith, Bool-cases, inl,
  inr, ◌⊎◌, leb→le,
}
use libcwd.DebugString.{grow, calculate_capacity}

abbrev pub half : ℕ
half = 2 ^ 63

doubled : (c size : ℕ) → c ≤ size → size < half → c * 2 % 2 ^ 64 ≡ c * 2
doubled c size le lt = omega (arith, le, lt)

abbrev doublings : ℕ → ℕ → ℕ
doublings zero c = c
doublings (suc fuel) c = doublings fuel (c * 2)

within : (c r size : ℕ) → c ≤ size → (r ≡ c * 2) ⊎ (r ≤ 2 * size) → r ≤ 2 * size
within c r size le (inl e) = omega (arith, le, e)
within c r size le (inr h) = h

grow_lem :
    (fuel size c : ℕ)
    → size < half
    → size < doublings fuel c
    → (r : ℕ) × (grow fuel size c ≡ some r) × (size < r) × (c ≤ r) × ((r ≡ c) ⊎ (r ≤ 2 * size))
unfolding grow
grow_lem zero size c lt enough = (c, ground (arith, enough), enough, omega arith, inl refl)
grow_lem (suc fuel) size c lt enough = elim (Bool-cases (leb c size)) [
  | inl e ↦
      let (r, er, big, above, tight) = grow_lem fuel size (c * 2) lt enough in
      (
        r,
        rw (e, doubled c size (leb→le c size e) lt) er,
        big,
        omega (arith, above),
        inr (within c r size (leb→le c size e) tight),
      )
  | inr e ↦ (c, rw (e) refl, ground arith, omega arith, inl refl)
]

from_grow :
    (d size r : ℕ) → grow 64 size (d + 1) ≡ some r → calculate_capacity d size ≡ some (r - 1)
unfolding calculate_capacity
from_grow d size r e = rw (calculate_capacity, e) refl

enough_64 : (d size : ℕ) → size < half → size < doublings 64 (d + 1)
enough_64 d size lt = omega (arith, lt)

-- For a length below 2^63 the loop ends, and gives a capacity that holds it. It is the default
-- capacity, or below twice the length.
pub calculate_capacity_lem :
    (default_capacity size : ℕ)
    → size < half
    → (c : ℕ) × (calculate_capacity default_capacity size ≡ some c)
      × (size ≤ c)
      × (default_capacity ≤ c)
      × ((c ≡ default_capacity) ⊎ (c < 2 * size))
calculate_capacity_lem d size lt =
    let (r, e, big, above, tight) = grow_lem 64 size (d + 1) lt (enough_64 d size lt) in
    (
      r - 1,
      from_grow d size r e,
      omega (arith, big),
      omega (arith, above),
      ground (arith, tight, big),
    )
