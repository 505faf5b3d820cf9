-- ===== src/Demangle/Perfect.antt =====
-- The hash of the operators is perfect.
use libcwd.Base.{
  not-true, and_left, and_right, ℕ, suc, zero, ◌+◌, ◌<◌, ◌≡◌, refl, sym, ◌∙◌, ap, Bool, true, false,
  not, ◌&&◌, none, some, Option, List, [], ◌∷◌, ltb, ◌==◌, length, get_elem?, arith, if◌then◌else◌,
  Bool-cases, inl, inr, Option-cases, ==_iff, lt→ltb,
}
use mathlib.Core.Path.{subst}
use libcwd.Demangle.{char_at, to_lower}
use libcwd.Demangle.Operators.{
  Entry, offset_of, symbol_name_table_c, hash_of, has_opcode, accepts, keep_if, find_operator,
  first_entry,
}

-- The place of each entry is its hash.
unfoldable is_perfect : ℕ → List Entry → Bool
unfolding char_at
is_perfect k [] = true
is_perfect k (e ∷ es) =
    (hash_of (char_at e.opcode 0) (char_at e.opcode 1) == k
      && not (offset_of (char_at e.opcode 0) == 0))
    && is_perfect (suc k) es

table_is_perfect : is_perfect 0 symbol_name_table_c ≡ true
unfolding is_perfect hash_of offset_of char_at
table_is_perfect = refl

abbrev IsPlaced : ℕ → List Entry → Entry → Type 0
IsPlaced i es e = get_elem? es i ≡ some e

none_is_not_some : {e : Entry} → none ≡ some e → ⊥
none_is_not_some h = cc h

some_injective : {a b : Entry} → some a ≡ some b → a ≡ b
some_injective h = cc h

-- Where an entry stands.
place_hash :
    (k : ℕ) (es : List Entry) (i : ℕ) (e : Entry)
    → is_perfect k es ≡ true
    → IsPlaced i es e
    → (hash_of (char_at e.opcode 0) (char_at e.opcode 1) ≡ k + i)
      × ((offset_of (char_at e.opcode 0) == 0) ≡ false)
unfolding is_perfect
place_hash k [] i e h a = cc a
place_hash k (e' ∷ es) zero e h a =
    let h' = and_left _ (is_perfect (suc k) es) h in
    let l = and_left (hash_of (char_at e'.opcode 0) (char_at e'.opcode 1) == k) _ h' in
    let r = and_right (hash_of (char_at e'.opcode 0) (char_at e'.opcode 1) == k) _ h' in
    subst
      (λ x.
        (hash_of (char_at x.opcode 0) (char_at x.opcode 1) ≡ k + 0)
        × ((offset_of (char_at x.opcode 0) == 0) ≡ false))
      (some_injective a) (ground (arith, l), not-true _ r)
place_hash k (e' ∷ es) (suc i) e h a =
    let h' = and_right _ (is_perfect (suc k) es) h in
    let (l, r) = place_hash (suc k) es i e h' a in (l ∙ omega arith, r)

first_true :
    (p : Entry → Bool) (e : Entry) (es : List Entry) → p e ≡ true → first_entry p (e ∷ es) ≡ some e
unfolding first_entry
first_true p e es h = ap (λ b. if b then some e else first_entry p es) h

first_false :
    (p : Entry → Bool) (e : Entry) (es : List Entry)
    → p e ≡ false
    → first_entry p (e ∷ es) ≡ first_entry p es
unfolding first_entry
first_false p e es h = ap (λ b. if b then some e else first_entry p es) h

place_below : (es : List Entry) (i : ℕ) (e : Entry) → IsPlaced i es e → i < length es
place_below [] i e a = cc a
place_below (e' ∷ es) zero e a = omega arith
place_below (e' ∷ es) (suc i) e a = omega (arith, place_below es i e a)

accepted_entry :
    (p : Entry → Bool) (es : List Entry) (e : Entry)
    → first_entry p es ≡ some e
    → (i : ℕ) × (IsPlaced i es e × (p e ≡ true))
unfolding first_entry
accepted_entry p [] e h = cc h
accepted_entry p (e' ∷ es) e h = elim (Bool-cases (p e')) [
  | inl t ↦
      let same = some_injective (sym (first_true p e' es t) ∙ h) in
      (0, (ap some same, sym (ap p same) ∙ t))
  | inr f ↦ let (i, r) = accepted_entry p es e (sym (first_false p e' es f) ∙ h) in (suc i, r)
]

refused :
    (p : Entry → Bool) (e : Entry) (es : List Entry) → first_entry p (e ∷ es) ≡ none → p e ≡ false
refused p e es h = elim (Bool-cases (p e)) [
  | inl t ↦ absurd (none_is_not_some (sym h ∙ first_true p e es t))
  | inr f ↦ f
]

refused_entry :
    (p : Entry → Bool) (es : List Entry) (i : ℕ) (e : Entry)
    → first_entry p es ≡ none
    → IsPlaced i es e
    → p e ≡ false
unfolding first_entry
refused_entry p [] i e h a = cc a
refused_entry p (e' ∷ es) zero e h a = sym (ap p (some_injective a)) ∙ refused p e' es h
refused_entry p (e' ∷ es) (suc i) e h a =
    refused_entry p es i e (sym (first_false p e' es (refused p e' es h)) ∙ h) a

accepts-opcode :
    (opcode0 second : ℕ) (e : Entry)
    → accepts opcode0 second e ≡ true
    → (char_at e.opcode 0 ≡ opcode0) × (char_at e.opcode 1 ≡ to_lower second)
unfolding accepts has_opcode
accepts-opcode opcode0 second e h =
    let h' = and_left (has_opcode opcode0 (to_lower second) e) _ h in
    (
      (==_iff (char_at e.opcode 0) opcode0).0 (and_left _ _ h'),
      (==_iff (char_at e.opcode 1) (to_lower second)).0
          (and_right (char_at e.opcode 0 == opcode0) _ h'),
    )

keep_none :
    (p : Entry → Bool) (o : Option Entry)
    → ((e : Entry) → o ≡ some e → p e ≡ false)
    → keep_if p o ≡ none
keep_none p none h = refl
keep_none p (some e) h = ap (λ b. if b then some e else none) (h e refl)

zero_plus : (i : ℕ) → 0 + i ≡ i
zero_plus i = omega arith

if_none : (b : Bool) (o : Option Entry) → o ≡ none → (if b then o else none) ≡ none
if_none true o h = h
if_none false o h = refl

module _ (es : List Entry) (perfect : is_perfect 0 es ≡ true) (opcode0 second : ℕ) where
  abbrev found : Option Entry
  found =
      if not (offset_of opcode0 == 0) && ltb (hash_of opcode0 (to_lower second)) (length es)
      then keep_if (accepts opcode0 second) (get_elem? es (hash_of opcode0 (to_lower second)))
      else none

  found_entry :
      (e : Entry) (i : ℕ) → IsPlaced i es e → accepts opcode0 second e ≡ true → found ≡ some e
  found_entry e i a h =
      let (c, c') = accepts-opcode opcode0 second e h in
      let (l, r) = place_hash 0 es i e perfect a in
      let place =
        ap (λ x. hash_of x (to_lower second)) (sym c)
        ∙ ap (hash_of (char_at e.opcode 0)) (sym c')
        ∙ l
        ∙ zero_plus i in
      let p = accepts opcode0 second in
      let at = λ (z : Bool) (x : ℕ).
        if not z && ltb x (length es) then keep_if p (get_elem? es x) else none in
      ap (λ z. at z (hash_of opcode0 (to_lower second))) (ap (λ x. offset_of x == 0) (sym c) ∙ r)
      ∙ ap (at false) place
      ∙ ap (λ b. if b then keep_if p (get_elem? es i) else none)
          (lt→ltb i (length es) (place_below es i e a))
      ∙ ap (keep_if p) a
      ∙ ap (λ b. if b then some e else none) h

  found_lem : found ≡ first_entry (accepts opcode0 second) es
  found_lem = elim (Option-cases (first_entry (accepts opcode0 second) es)) [
    | inl h ↦ if_none _ _ (keep_none _ _ (λ e a. refused_entry _ es _ e h a)) ∙ sym h
    | inr (e, h) ↦
        let (i, (a, t)) = accepted_entry (accepts opcode0 second) es e h in
        found_entry e i a t ∙ sym h
  ]

-- The hash finds what a search of the table from its start finds: for every two characters, the
-- entry that decode_operator_name accepts at their hash is the first of the table that it accepts,
-- and there is none if it accepts none.
pub find_operator_lem :
    (opcode0 second : ℕ)
    → find_operator opcode0 second ≡ first_entry (accepts opcode0 second) symbol_name_table_c
unfolding find_operator
find_operator_lem opcode0 second = found_lem symbol_name_table_c table_is_perfect opcode0 second
