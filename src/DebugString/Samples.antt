-- ===== src/DebugString/Samples.antt =====
-- Concrete strings.
use libcwd.Base.{ℕ, ◌≡◌, refl, some, List, [], ◌∷◌, ◌++◌, replicate, arith, ◌⊎◌, ◌<◌, ◌≤◌, ◌*◌}
use libcwd.DebugString.{
  DebugString, internal_append, internal_prepend, push, pop, strncpy, calculate_capacity,
}
use libcwd.DebugString.Capacity.{calculate_capacity_lem}
use libcwd.DebugString.Stack.{pop-push}
use libcwd.DebugString.Contents.{IsString, append-IsString, prepend-IsString}

abbrev hi : DebugString
hi = record { area = 104 ∷ 105 ∷ replicate 63 0; size = 2; capacity = 64; default_capacity = 64 }

abbrev hi_text : List ℕ
hi_text = 104 ∷ 105 ∷ []

hi-IsString : IsString hi hi_text
hi-IsString = record {
  holds = (replicate 62 0, refl);
  size_is = refl;
  room = refl;
  above = omega arith;
}

calculate_capacity_lem_example :
    (c : ℕ) × (calculate_capacity 64 100 ≡ some c)
    × (100 ≤ c)
    × (64 ≤ c)
    × ((c ≡ 64) ⊎ (c < 2 * 100))
calculate_capacity_lem_example = calculate_capacity_lem 64 100 (omega arith)

append-IsString_example :
    (new : DebugString) × (internal_append 7 (104 ∷ 111 ∷ []) hi ≡ some new)
    × IsString new (hi_text ++ 104 ∷ 111 ∷ [])
unfolding strncpy
append-IsString_example = append-IsString 7 hi hi_text (104 ∷ 111 ∷ []) (omega arith) hi-IsString

prepend-IsString_example :
    (new : DebugString) × (internal_prepend 7 (104 ∷ 111 ∷ []) hi ≡ some new)
    × IsString new (104 ∷ 111 ∷ hi_text)
unfolding strncpy
prepend-IsString_example = prepend-IsString 7 hi hi_text (104 ∷ 111 ∷ []) (omega arith) hi-IsString

pop-push_example :
    (pushed : List DebugString) × (new : DebugString) × (push 7 hi (hi ∷ []) ≡ some pushed)
    × (pop pushed ≡ some (new, hi ∷ []))
    × IsString new hi_text
unfolding strncpy
pop-push_example = pop-push 7 hi hi_text (hi ∷ []) (omega arith) (omega arith) refl hi-IsString
