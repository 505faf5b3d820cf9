-- ===== src/LockableAutoPtr/Ownership.antt =====
-- Every object has at most one owner, and an owner's object is alive.
use mathlib.Core.Path.{subst}
use libcwd.Base.{
  ℕ, ◌≡◌, ◌≢◌, refl, sym, ◌∙◌, Bool, true, false, Option, none, some, ◌==◌, ==_iff, if◌then◌else◌,
  Bool-cases, inl, inr, ◌⊎◌, arith,
}
use libcwd.LockableAutoPtr.{
  LockableAutoPtr, Heap, set, delete, delete_if_owner, assign, destruct, reset,
}

abbrev pub Owns : Option LockableAutoPtr → ℕ → Type 0
Owns none x = ⊥
Owns (some p) x = (p.owner ≡ true) × (p.ptr ≡ some x)

pub record IsSound (h : Heap) : Type 0 where
  pub alive_if : (k x : ℕ) → Owns (h.pointers k) x → h.alive x ≡ true
  pub one : (k j x : ℕ) → Owns (h.pointers k) x → Owns (h.pointers j) x → k ≡ j

-- Ownership that can be traced back is sound.
traced :
    (h : Heap) (f : ℕ → Option LockableAutoPtr) (alive : ℕ → Bool) (t : ℕ → ℕ)
    → IsSound h
    → ((i x : ℕ) → Owns (f i) x → Owns (h.pointers (t i)) x)
    → ((i j x : ℕ) → Owns (f i) x → Owns (f j) x → t i ≡ t j → i ≡ j)
    → ((i x : ℕ) → Owns (f i) x → alive x ≡ true)
    → IsSound (record { pointers = f; alive = alive })
traced h f alive t sound back inj living = record {
  alive_if = living;
  one = λ i j x oi oj. inj i j x oi oj (sound.one (t i) (t j) x (back i x oi) (back j x oj));
}

pub when_locked : {A : Type 0} (b : Bool) (x y : A) → b ≡ true → (if b then x else y) ≡ x
when_locked b x y e = rw (e) refl

pub when_unlocked : {A : Type 0} (b : Bool) (x y : A) → b ≡ false → (if b then x else y) ≡ y
when_unlocked b x y e = rw (e) refl

pub not_both : (b : Bool) → b ≡ false → b ≡ true → ⊥
not_both b e e' = cc (e, e')

moved_inj :
    (i i' j k : ℕ)
    → i ≢ j
    → i' ≢ j
    → (if i == k then j else i) ≡ (if i' == k then j else i')
    → i ≡ i'
moved_inj i i' j k n n' e = ground arith

-- Everything that a pointer other than `k` owns is alive.
abbrev pub Spares : Heap → ℕ → (ℕ → Bool) → Type 0
Spares h k alive = (j x : ℕ) → j ≢ k → Owns (h.pointers j) x → alive x ≡ true

Owns-set :
    (f : ℕ → Option LockableAutoPtr) (k : ℕ) (v : Option LockableAutoPtr) (i x : ℕ)
    → Owns (set f k v i) x
    → ((i ≡ k) × Owns v x) ⊎ ((i ≢ k) × Owns (f i) x)
Owns-set f k v i x o = elim (Bool-cases (i == k)) [
  | inl e ↦ inl ((==_iff i k).0 e, subst (λ b. Owns (if b then v else f i) x) e o)
  | inr e ↦ inr (ground (arith, e), subst (λ b. Owns (if b then v else f i) x) e o)
]

module _ (h : Heap) (sound : IsSound h) (k : ℕ) where
  -- A pointer that owns nothing in the place of `k`, once its object is deleted.
  pub dropped :
      (alive : ℕ → Bool) (v : Option LockableAutoPtr)
      → Spares h k alive
      → ((x : ℕ) → Owns v x → ⊥)
      → IsSound (record { pointers = set h.pointers k v; alive = alive })
  dropped alive v spares owns_nothing =
      let back : (i x : ℕ) → Owns (set h.pointers k v i) x → (i ≢ k) × Owns (h.pointers i) x =
        λ i x o. elim (Owns-set h.pointers k v i x o) [
          | inl (e, o') ↦ absurd (owns_nothing x o')
          | inr both ↦ both
        ] in
      traced h (set h.pointers k v) alive (λ i. i) sound (λ i x o. (back i x o).1)
        (λ i j x oi oj e. e) (λ i x o. spares i x (back i x o).0 (back i x o).1)

module _ (h : Heap) (sound : IsSound h) (k j : ℕ) (r : LockableAutoPtr)
    (at_j : h.pointers j ≡ some r) (ne : j ≢ k) where
  -- The ownership of `j` passes to `k`.
  pub passed :
      (alive : ℕ → Bool) (p' r' : LockableAutoPtr)
      → Spares h k alive
      → p'.ptr ≡ r.ptr
      → ((p'.owner ≡ true) → r.owner ≡ true)
      → r'.owner ≡ false
      → IsSound (record { pointers = set (set h.pointers k (some p')) j (some r'); alive = alive })
  passed alive p' r' spares ep eo er =
      let t : ℕ → ℕ = λ i. if i == k then j else i in
      let f = set (set h.pointers k (some p')) j (some r') in
      let back : (i x : ℕ) → Owns (f i) x → (i ≢ j) × (t i ≢ k) × Owns (h.pointers (t i)) x =
        λ i x o. elim (Owns-set (set h.pointers k (some p')) j (some r') i x o) [
          | inl (e, o') ↦ absurd (not_both r'.owner er o'.0)
          | inr (n, o') ↦ elim (Owns-set h.pointers k (some p') i x o') [
            | inl (e, o'') ↦
                let h' : (i == k) ≡ true = (==_iff i k).1 e in
                (n, rw (h') ne, rw (h', at_j) (eo o''.0, sym ep ∙ o''.1))
            | inr (n', o'') ↦
                let h' : (i == k) ≡ false = ground (arith, n') in (n, rw (h') n', rw (h') o'')
          ]
        ] in
      traced h f alive t sound (λ i x o. (back i x o).2)
        (λ i i' x oi oj e. moved_inj i i' j k (back i x oi).0 (back i' x oj).0 e)
        (λ i x o. spares (t i) x (back i x o).1 (back i x o).2)

module _ (h : Heap) (sound : IsSound h) (k : ℕ) (p : LockableAutoPtr)
    (at_k : h.pointers k ≡ some p) where
  delete_owned :
      (o : Option ℕ) (b : Bool)
      → p.ptr ≡ o
      → p.owner ≡ b
      → (alive : ℕ → Bool) × ((if b then delete o h else some h)
          ≡ some (record h { alive = alive }))
        × Spares h k alive
  unfolding delete
  delete_owned o false eo eb = (h.alive, refl, λ j x ne o. sound.alive_if j x o)
  delete_owned none true eo eb = (h.alive, refl, λ j x ne o. sound.alive_if j x o)
  delete_owned (some x) true eo eb =
      let own : Owns (h.pointers k) x = rw (at_k) (eb, eo) in
      (
        set h.alive x false,
        rw (sound.alive_if k x own) refl,
        λ j y ne o. elim (Bool-cases (y == x)) [
          | inl e ↦
              absurd
                (ne (sound.one j k x (subst (λ z. Owns (h.pointers j) z) ((==_iff y x).0 e) o) own))
          | inr e ↦ rw (e) (sound.alive_if j y o)
        ],
      )

  delete_if_owner_lem :
      (alive : ℕ → Bool) × (delete_if_owner p h ≡ some (record h { alive = alive }))
      × Spares h k alive
  unfolding delete_if_owner
  delete_if_owner_lem = delete_owned p.ptr p.owner refl refl

  -- The destructor of a pointer deletes no object twice, and leaves sound ownership.
  pub destruct-IsSound : (h' : Heap) × (destruct k h ≡ some h') × IsSound h'
  unfolding destruct
  destruct-IsSound =
      let (alive, e, spares) = delete_if_owner_lem in
      (
        record { pointers = set h.pointers k none; alive = alive },
        rw (destruct, at_k, e) refl,
        dropped h sound k alive none spares (λ x o. o),
      )

  -- So does `reset`.
  pub reset-IsSound : (h' : Heap) × (reset k h ≡ some h') × IsSound h'
  unfolding reset
  reset-IsSound =
      let (alive, e, spares) = delete_if_owner_lem in
      let p' : LockableAutoPtr = record p { ptr = none; owner = false } in
      (
        record { pointers = set h.pointers k (some p'); alive = alive },
        rw (reset, at_k, e) refl,
        dropped h sound k alive (some p') spares (λ x o. not_both false refl o.0),
      )

  module _ (j : ℕ) (r : LockableAutoPtr) (at_j : h.pointers j ≡ some r) (ne : j ≢ k) where
    -- The assignment of another pointer deletes what `k` owned, no object twice, and leaves sound
    -- ownership.
    pub assign-IsSound : (h' : Heap) × (assign k j h ≡ some h') × IsSound h'
    unfolding assign
    assign-IsSound =
        let (alive, e, spares) = delete_if_owner_lem in
        let other : (j == k) ≡ false = ground (arith, ne) in
        elim (Bool-cases r.locked) [
          | inl l ↦
              let p' : LockableAutoPtr = record p { ptr = r.ptr; owner = false } in
              (
                record { pointers = set h.pointers k (some p'); alive = alive },
                rw (assign, at_k, at_j, other, e) (when_locked r.locked _ _ l),
                dropped h sound k alive (some p') spares (λ x o. not_both false refl o.0),
              )
          | inr l ↦
              let p' : LockableAutoPtr = record p { ptr = r.ptr; owner = r.owner } in
              let r' : LockableAutoPtr = record r { owner = false } in
              (
                record { pointers = set (set h.pointers k (some p')) j (some r'); alive = alive },
                rw (assign, at_k, at_j, other, e) (when_unlocked r.locked _ _ l),
                passed h sound k j r at_j ne alive p' r' spares refl (λ o. o) refl,
              )
        ]
