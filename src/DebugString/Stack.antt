-- ===== src/DebugString/Stack.antt =====
-- Copies of a DebugString, and the stacks of margins and markers.
use mathlib.Core.Path.{subst}
use libcwd.Base.{
  ℕ, ◌≤◌, ◌<◌, ◌≡◌, refl, ap, ◌∙◌, some, List, ◌∷◌, length, take, ltb, arith, Bool-cases, inl, inr,
  length-append, take-append_length,
}
use libcwd.DebugString.{DebugString, strncpy, copy, push, pop}
use libcwd.DebugString.Capacity.{half}
use libcwd.DebugString.Contents.{IsString, init-IsString, reserve-IsString}

module _ (fresh_byte : ℕ) where
  fits : (ds : DebugString) (text : List ℕ) → IsString ds text → length text ≤ ds.capacity
  fits ds text is =
      let (rest, e) = is.holds in omega (arith, ap length e, length-append text (0 ∷ rest), is.room)

  text_of : (ds : DebugString) (text : List ℕ) → IsString ds text → take ds.size ds.area ≡ text
  text_of ds text is =
      let (rest, e) = is.holds in
      ap (λ n. take n ds.area) is.size_is
      ∙ ap (take (length text)) e
      ∙ take-append_length text (0 ∷ rest)

  copy_lem :
      (ds : DebugString) (text : List ℕ)
      → length text < half
      → ds.capacity < half
      → strncpy text ≡ text
      → IsString ds text
      → (new : DebugString) × (copy fresh_byte ds ≡ some new) × IsString new text
  unfolding copy
  copy_lem ds text lt small no_nul is =
      let (new, ei, is') = init-IsString fresh_byte text lt in
      let isn : IsString new text = subst (λ t. IsString new t) no_nul is' in
      elim (Bool-cases (ltb new.capacity ds.capacity)) [
        | inl e ↦
            let (big, er, isb, roomy) =
              reserve-IsString fresh_byte new text ds.capacity small isn in
            (
              record big { default_capacity = ds.default_capacity },
              rw (copy, text_of ds text is, ei, e, er) refl,
              record {
                holds = isb.holds;
                size_is = isb.size_is;
                room = isb.room;
                above = ground (arith, roomy, fits ds text is, is.above);
              },
            )
        | inr e ↦ (
          record new { default_capacity = ds.default_capacity },
          rw (copy, text_of ds text is, ei, e) refl,
          record {
            holds = isn.holds;
            size_is = isn.size_is;
            room = isn.room;
            above = ground (arith, e, is.above);
          },
        )
      ]

  -- push_margin and push_marker of a text that has no NUL and fewer than 2^63 bytes succeed, and
  -- the pop after them brings back the same text, and the stack as it was.
  pub pop-push :
      (ds : DebugString) (text : List ℕ) (stack : List DebugString)
      → length text < half
      → ds.capacity < half
      → strncpy text ≡ text
      → IsString ds text
      → (pushed : List DebugString) × (new : DebugString) × (push fresh_byte ds stack ≡ some pushed)
        × (pop pushed ≡ some (new, stack))
        × IsString new text
  unfolding push pop
  pop-push ds text stack lt small no_nul is =
      let (new, e, is') = copy_lem ds text lt small no_nul is in
      (new ∷ stack, new, rw (push, e) refl, refl, is')
