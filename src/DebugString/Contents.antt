-- ===== src/DebugString/Contents.antt =====
-- The operations of DebugString stay inside of the allocated memory, and hold the text they should.
use libcwd.Base.{
  ℕ, ◌+◌, ◌≤◌, ◌<◌, ◌≡◌, refl, sym, ap, ◌∙◌, suc, ◌&&◌, ◌||◌, some, List, [], ◌∷◌, ◌++◌, length,
  ltb, arith, Bool-cases, inl, inr, ◌⊎◌, length-append, length-replicate,
}
use libcwd.DebugString.{
  DebugString, strncpy, malloc, realloc, init, fit, internal_assign, internal_append,
  internal_prepend, reserve, min_capacity,
}
use libcwd.DebugString.Capacity.{calculate_capacity_lem, half}
use libcwd.DebugString.Memory.{
  Holds, put_text, put_front, length-strncpy, length-realloc, realloc-Holds,
}

-- The string is `text`: it ends in a NUL inside of an area of capacity_ + 1 bytes.
pub record IsString (ds : DebugString) (text : List ℕ) : Type 0 where
  pub holds : Holds ds.area text
  pub size_is : ds.size ≡ length text
  pub room : length ds.area ≡ ds.capacity + 1
  pub above : ds.default_capacity ≤ ds.capacity

-- The area that `fit` leaves has room for the new length.
record HasFit (len : ℕ) (ds new : DebugString) : Type 0 where
  same_size : new.size ≡ ds.size
  new_room : length new.area ≡ new.capacity + 1
  enough : len ≤ new.capacity
  new_above : new.default_capacity ≤ new.capacity
  keeps : (text : List ℕ) → length text ≤ len → Holds ds.area text → Holds new.area text

module _ (fresh_byte : ℕ) where
  fit_lem :
      (len : ℕ) (ds : DebugString) (text : List ℕ)
      → len < half
      → IsString ds text
      → (new : DebugString) × (fit fresh_byte len ds ≡ some new) × HasFit len ds new
  unfolding fit
  fit_lem len ds text lt is =
      elim (Bool-cases (
        ltb ds.capacity len
        || ltb ds.default_capacity ds.capacity && ltb len ds.default_capacity)) [
          | inl e ↦
              let (c, ec, big, above, tight) = calculate_capacity_lem ds.default_capacity len lt in
              (
                record ds { area = realloc fresh_byte (c + 1) ds.area; capacity = c },
                rw (fit, e, ec) refl,
                record {
                  same_size = refl;
                  new_room = length-realloc fresh_byte (c + 1) ds.area;
                  enough = big;
                  new_above = above;
                  keeps = λ t le h.
                      realloc-Holds fresh_byte (c + 1) ds.area t (omega (arith, le, big)) h;
                },
              )
          | inr e ↦ (
            ds,
            rw (fit, e) refl,
            record {
              same_size = refl;
              new_room = is.room;
              enough = ground (arith, e);
              new_above = is.above;
              keeps = λ t le h. h;
            },
          )
        ]

  -- internal_assign, for a text below 2^63 bytes, makes no write outside of its memory and leaves
  -- the text, up to its first NUL and with zeros behind it.
  pub assign-IsString :
      (ds : DebugString) (text str : List ℕ)
      → length str < half
      → IsString ds text
      → (new : DebugString) × (internal_assign fresh_byte str ds ≡ some new)
        × IsString new (strncpy str)
  unfolding internal_assign
  assign-IsString ds text str lt is =
      let (ds', ef, f) = fit_lem (length str) ds text lt is in
      let (copied, ended, e1, e2, h, l) =
        put_text ds'.area [] ds'.area (strncpy str) 0 (length str) refl refl
          (omega (arith, length-strncpy str))
          (omega (arith, length-strncpy str, f.enough, f.new_room)) in
      (
        record ds' { area = ended; size = length str },
        rw (internal_assign, ef, e1, e2) refl,
        record {
          holds = h;
          size_is = sym (length-strncpy str);
          room = l ∙ f.new_room;
          above = f.new_above;
        },
      )

  -- internal_append leaves the old text with the new one behind it.
  pub append-IsString :
      (ds : DebugString) (text str : List ℕ)
      → length text + length str < half
      → IsString ds text
      → (new : DebugString) × (internal_append fresh_byte str ds ≡ some new)
        × IsString new (text ++ strncpy str)
  unfolding internal_append
  append-IsString ds text str lt is =
      let e : ds.size + length str ≡ length text + length str =
        ap (λ n. n + length str) is.size_is in
      let (ds', ef, f) = fit_lem (ds.size + length str) ds text (omega (arith, e, lt)) is in
      let (rest, ea) = f.keeps text (omega (arith, e)) is.holds in
      let size' : ds'.size ≡ length text = f.same_size ∙ is.size_is in
      let room' : length ds'.area ≡ length text + suc (length rest) =
        ap length ea ∙ length-append text (0 ∷ rest) in
      let (copied, ended, e1, e2, h, l) =
        put_text ds'.area text (0 ∷ rest) (strncpy str) ds'.size (ds'.size + length str) ea
          (sym size') (omega (arith, length-strncpy str))
          (omega (arith, length-strncpy str, f.enough, f.new_room, room', is.size_is)) in
      (
        record ds' { area = ended; size = ds'.size + length str },
        rw (internal_append, ef, e1, e2) refl,
        record {
          holds = h;
          size_is = omega (arith, size', length-append text (strncpy str), length-strncpy str);
          room = l ∙ f.new_room;
          above = f.new_above;
        },
      )

  -- NS_internal_init makes the string.
  pub init-IsString :
      (str : List ℕ)
      → length str < half
      → (new : DebugString) × (init fresh_byte str ≡ some new) × IsString new (strncpy str)
  unfolding init malloc
  init-IsString str lt =
      let (c, ec, big, above, tight) = calculate_capacity_lem min_capacity (length str) lt in
      let (copied, ended, e1, e2, h, l) =
        put_text (malloc fresh_byte (c + 1)) [] (malloc fresh_byte (c + 1)) (strncpy str) 0
          (length str) refl refl (omega (arith, length-strncpy str))
          (omega (arith, length-strncpy str, big, length-replicate (c + 1) fresh_byte)) in
      (
        record { area = ended; size = length str; capacity = c; default_capacity = c },
        rw (init, ec, e1, e2) refl,
        record {
          holds = h;
          size_is = sym (length-strncpy str);
          room = l ∙ length-replicate (c + 1) fresh_byte;
          above = omega arith;
        },
      )

  -- reserve keeps the text, and leaves room for `size` bytes.
  pub reserve-IsString :
      (ds : DebugString) (text : List ℕ) (size : ℕ)
      → size < half
      → IsString ds text
      → (new : DebugString) × (reserve fresh_byte size ds ≡ some new)
        × IsString new text
        × ((size < length text) ⊎ (size ≤ new.capacity))
  unfolding reserve
  reserve-IsString ds text size lt is = elim (Bool-cases (ltb size ds.size)) [
    | inl e ↦ (ds, rw (reserve, e) refl, is, inl (ground (arith, e, is.size_is)))
    | inr e ↦
        let (c, ec, big, above, tight) = calculate_capacity_lem min_capacity size lt in
        (
          record ds {
            area = realloc fresh_byte (c + 1) ds.area;
            capacity = c;
            default_capacity = c;
          },
          rw (reserve, e, ec) refl,
          record {
            holds =
                realloc-Holds fresh_byte (c + 1) ds.area text (ground (arith, e, is.size_is, big))
                  is.holds;
            size_is = is.size_is;
            room = length-realloc fresh_byte (c + 1) ds.area;
            above = omega arith;
          },
          inr big,
        )
  ]

  -- internal_prepend leaves the new text with the old one behind it.
  pub prepend-IsString :
      (ds : DebugString) (text str : List ℕ)
      → length text + length str < half
      → IsString ds text
      → (new : DebugString) × (internal_prepend fresh_byte str ds ≡ some new)
        × IsString new (strncpy str ++ text)
  unfolding internal_prepend
  prepend-IsString ds text str lt is =
      let e : ds.size + length str ≡ length text + length str =
        ap (λ n. n + length str) is.size_is in
      let (ds', ef, f) = fit_lem (ds.size + length str) ds text (omega (arith, e, lt)) is in
      let (rest, ea) = f.keeps text (omega (arith, e)) is.holds in
      let size' : ds'.size ≡ length text = f.same_size ∙ is.size_is in
      let (moved, copied, e1, e2, h, l) =
        put_front ds'.area text rest (strncpy str) (length str) (ds'.size + 1) ea
          (length-strncpy str) (omega (arith, size'))
          (omega (arith, size', f.enough, f.new_room, is.size_is)) in
      (
        record ds' { area = copied; size = ds'.size + length str },
        rw (internal_prepend, ef, e1, e2) refl,
        record {
          holds = h;
          size_is = omega (arith, size', length-append (strncpy str) text, length-strncpy str);
          room = l ∙ f.new_room;
          above = f.new_above;
        },
      )
