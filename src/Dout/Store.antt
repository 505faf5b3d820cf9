-- ===== src/Dout/Store.antt =====
-- Reading a store after a write.
use libcwd.Base.{ℕ, ◌≡◌, ◌≢◌, arith, some, Bool, true, false}
use libcwd.Dout.{update, World, M, Outcome, ok, ◌>>=◌, when, load, OutputState}
use mathlib.Core.Path.{fun_ext}

module _ {ℓ} {A : Type ℓ} where
  pub update_self : (f : ℕ → A) (k : ℕ) (v : A) → update f k v k ≡ v
  unfolding update
  update_self f k v = ground arith

  pub update_ne : (f : ℕ → A) (k j : ℕ) (v : A) → j ≢ k → update f k v j ≡ f j
  unfolding update
  update_ne f k j v h = ground arith

  pub update-update : (f : ℕ → A) (k : ℕ) (v v' : A) → update (update f k v) k v' ≡ update f k v'
  unfolding update
  update-update f k v v' = fun_ext (λ j. ground arith)

  pub update_same : (f : ℕ → A) (k : ℕ) (v : A) → f k ≡ v → update f k v ≡ f
  unfolding update
  update_same f k v h = fun_ext (λ j. ground arith)

pub ruleset stores = (update_self, update-update)

-- Stepping through a `do` block: what the first action does, and what the rest does after it.
module _ {A B : Type 0} (m : M A) (f : A → M B) (w : World) (r : Outcome B) where
  pub step : (a : A) (w' : World) → m w ≡ ok a w' → f a w' ≡ r → (m >>= f) w ≡ r
  step a w' e k = rw (e, ◌>>=◌) k

pub when-false : (b : Bool) (m : M (Unit {0})) (w : World) → b ≡ false → when b m w ≡ ok tt w
when-false b m w e = rw (e, when)

pub when-true : (b : Bool) (m : M (Unit {0})) (w : World) → b ≡ true → when b m w ≡ m w
when-true b m w e = rw (e, when)

pub load_ok : (p : ℕ) (o : OutputState) (w : World) → w.heap p ≡ some o → load p w ≡ ok o w
load_ok p o w e = rw (e, load)
