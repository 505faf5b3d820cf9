-- ===== src/DebugString.antt =====
-- class DebugString: the members NS_internal_init to internal_swallow of src/debug.cxx, and
-- include/libcwd/DebugString.inl.h. `area` is the allocated memory that `str_` points to; malloc and
-- realloc always succeed, and a new byte is `fresh_byte`. A write outside of the area is `none`.
pub mod Capacity
pub mod Memory
pub mod Contents
pub mod Stack
mod Samples
use libcwd.Base.{
  ℕ, ◌+◌, ◌-◌, ◌*◌, ◌%◌, ◌^◌, suc, zero, Bool, true, false, ◌&&◌, ◌||◌, Option, none, some, List,
  [], ◌∷◌, ◌++◌, length, take, drop, replicate, ltb, leb, ◌==◌, if◌then◌else◌, ◌>>=◌,
}

pub record DebugString : Type 0 where
  pub area : List ℕ
  pub size : ℕ
  pub capacity : ℕ
  pub default_capacity : ℕ

abbrev pub min_capacity : ℕ
min_capacity = 64

-- `while (size >= capacity_plus_one) capacity_plus_one *= 2;` on a 64-bit size_t. `none` is not
-- enough fuel: the loop runs on.
unfoldable pub grow : ℕ → ℕ → ℕ → Option ℕ
grow zero size capacity_plus_one =
    if leb capacity_plus_one size then none else some capacity_plus_one
grow (suc fuel) size capacity_plus_one =
    let more = grow fuel size (capacity_plus_one * 2 % 2 ^ 64) in
    if leb capacity_plus_one size then more else some capacity_plus_one

-- 64 doublings are enough.
unfoldable pub calculate_capacity : ℕ → ℕ → Option ℕ
calculate_capacity default_capacity size = elim (grow 64 size (default_capacity + 1)) [
  | none ↦ none
  | some c ↦ some (c - 1)
]

-- strncpy(dst, str, len): from a NUL on, zeros.
unfoldable pub strncpy : List ℕ → List ℕ
strncpy [] = []
strncpy (c ∷ s) = if c == 0 then 0 ∷ replicate (length s) 0 else c ∷ strncpy s

-- Write `s` at `at`.
unfoldable pub write_at : ℕ → List ℕ → List ℕ → Option (List ℕ)
write_at at s area =
    if leb (at + length s) (length area)
    then some (take at area ++ (s ++ drop (at + length s) area))
    else none

module _ (fresh_byte : ℕ) where
  unfoldable pub malloc : ℕ → List ℕ
  malloc n = replicate n fresh_byte

  unfoldable pub realloc : ℕ → List ℕ → List ℕ
  realloc n area = take n area ++ replicate (n - length area) fresh_byte

  unfoldable pub init : List ℕ → Option DebugString
  init str = do
    c ← calculate_capacity min_capacity (length str)
    copied ← write_at 0 (strncpy str) (malloc (c + 1))
    ended ← write_at (length str) (0 ∷ []) copied
    some (record { area = ended; size = length str; capacity = c; default_capacity = c })

  -- The `if` in front of internal_assign, internal_append and internal_prepend, for the new length.
  unfoldable pub fit : ℕ → DebugString → Option DebugString
  fit len ds =
      if ltb ds.capacity len || ltb ds.default_capacity ds.capacity && ltb len ds.default_capacity
      then elim (calculate_capacity ds.default_capacity len) [
        | none ↦ none
        | some c ↦ some (record ds { area = realloc (c + 1) ds.area; capacity = c })
      ]
      else some ds

  unfoldable pub internal_assign : List ℕ → DebugString → Option DebugString
  internal_assign str ds = do
    ds' ← fit (length str) ds
    copied ← write_at 0 (strncpy str) ds'.area
    ended ← write_at (length str) (0 ∷ []) copied
    some (record ds' { area = ended; size = length str })

  unfoldable pub internal_append : List ℕ → DebugString → Option DebugString
  internal_append str ds = do
    ds' ← fit (ds.size + length str) ds
    copied ← write_at ds'.size (strncpy str) ds'.area
    ended ← write_at (ds'.size + length str) (0 ∷ []) copied
    some (record ds' { area = ended; size = ds'.size + length str })

  -- memmove reads before it writes.
  unfoldable pub internal_prepend : List ℕ → DebugString → Option DebugString
  internal_prepend str ds = do
    ds' ← fit (ds.size + length str) ds
    moved ← write_at (length str) (take (ds'.size + 1) ds'.area) ds'.area
    copied ← write_at 0 (strncpy str) moved
    some (record ds' { area = copied; size = ds'.size + length str })

  unfoldable pub reserve : ℕ → DebugString → Option DebugString
  reserve size ds =
      if ltb size ds.size then some ds else elim (calculate_capacity min_capacity size) [
        | none ↦ none
        | some c ↦
            some (record ds { area = realloc (c + 1) ds.area; capacity = c; default_capacity = c })
      ]

  -- The copy constructor.
  unfoldable pub copy : DebugString → Option DebugString
  copy ds = do
    new ← init (take ds.size ds.area)
    big ← if ltb new.capacity ds.capacity then reserve ds.capacity new else some new
    some (record big { default_capacity = ds.default_capacity })

  -- push_margin and push_marker: the string and the stack below it.
  unfoldable pub push : DebugString → List DebugString → Option (List DebugString)
  push ds stack = do element ← copy ds; some (element ∷ stack)

-- pop_margin and pop_marker, with internal_swallow. `none` is the DoutFatal.
unfoldable pub pop : List DebugString → Option (DebugString × List DebugString)
pop [] = none
pop (top ∷ stack) = some (top, stack)
