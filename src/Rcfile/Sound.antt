-- ===== src/Rcfile/Sound.antt =====
-- Postconditions of RcFile's operations: what they leave of the switches, and how they may end.
use libcwd.Base.{
  not-true, and_left, ℕ, suc, zero, ◌+◌, ◌≤◌, ◌≡◌, ◌≢◌, refl, sym, ◌∙◌, Bool, true, false, not,
  if◌then◌else◌, Bool-cases, inl, inr, arith, ◌&&◌, none, some, List, [], ◌∷◌,
}
use libcwd.Base.Int.{ℤ, pos, negsuc, neg_part, ◌+ℤ◌, ◌-ℤ◌}
use mathlib.Core.Path.{subst}
use libcwd.Base
use libcwd.Dout
use libcwd.Channels
use libcwd.Channels.{Channel}
use libcwd.Dout.Store.{update_ne}
use libcwd.Switches.{is_on}
use libcwd.Rcfile.{
  World, M, Outcome, ok, died, ◌>>=◌, Death, on_too_often, not_balanced, Message, say,
  channel_is_on, channel_on, channel_off, when, branch, get, return, skip, die,
}
use libcwd.Rcfile.Switching.{for_all}

-- An end that the configuration asks for.
abbrev pub IsConfigError : Death → Type 0
IsConfigError on_too_often = ⊥
IsConfigError not_balanced = ⊥
IsConfigError _ = Unit

abbrev pub Post : {A : Type 0} → (A → World → Type 0) → Outcome A → Type 0
Post P (ok a w) = P a w
Post P (died d) = IsConfigError d

Post-bind_out :
    {A B : Type 0} (P : A → World → Type 0) (Q : B → World → Type 0) (o : Outcome A) (f : A → M B)
    (w : World)
    → Post P o
    → ((a : A) (v : World) → P a v → Post Q (f a v))
    → Post Q (((λ _. o) >>= f) w)
unfolding ◌>>=◌
Post-bind_out P Q (ok a v) f w h k = k a v h
Post-bind_out P Q (died d) f w h k = h

pub Post-bind :
    {A B : Type 0} (P : A → World → Type 0) (Q : B → World → Type 0) (m : M A) (f : A → M B)
    (w : World)
    → Post P (m w)
    → ((a : A) (v : World) → P a v → Post Q (f a v))
    → Post Q ((m >>= f) w)
unfolding ◌>>=◌
Post-bind P Q m f w = Post-bind_out P Q (m w) f w

-- -1 or more.
abbrev pub IsSwitch : ℤ → Type 0
IsSwitch n = neg_part n ≤ 1

pub off-IsSwitch : (n : ℤ) → IsSwitch n → IsSwitch (Channels.off n)
unfolding Channels.off ◌+ℤ◌
off-IsSwitch (pos n) h = ground arith
off-IsSwitch (negsuc n) h = ground arith

-- `on` takes one call of `off` back.
pub on-off_count : (n : ℤ) → is_on n ≡ false → (m : ℤ) × ((Channels.on n ≡ some m) × IsSwitch m)
unfolding Channels.on is_on ◌-ℤ◌
on-off_count (pos zero) h = (negsuc 0, (refl, ground arith))
on-off_count (pos (suc n)) h = (pos n, (ground arith, ground arith))
on-off_count (negsuc n) h = ground arith

said-off_cnt :
    (b : Bool) (ms : List Message) (w : World)
    → World.off_cnt (if b then record w { said = ms } else w) ≡ w.off_cnt
said-off_cnt true ms w = refl
said-off_cnt false ms w = refl

-- The switches are sound, and that of the channel at `i` is `n`.
abbrev pub IsSound : ℕ → ℤ → (ℕ → ℤ) → Type 0
IsSound i n cnt = ((j : ℕ) → IsSwitch (cnt j)) × (cnt i ≡ n)

module _ (i : ℕ) (n : ℤ) where
  -- Started at `w` with sound switches, `m` comes to `Q` or ends as the configuration asks.
  unfoldable pub Ends : {A : Type 0} → (A → World → Type 0) → M A → World → Type 0
  Ends Q m w = IsSound i n w.off_cnt → Post Q (m w)

  -- It leaves them sound.
  unfoldable pub Keeps : {A : Type 0} → M A → World → Type 0
  Keeps m w = IsSound i n w.off_cnt → Post (λ a v. IsSound i n v.off_cnt) (m w)

  module _ {A B : Type 0} where
    pub Ends-bind :
        (Q : B → World → Type 0) (m : M A) (f : A → M B) (w : World)
        → Keeps m w
        → ((a : A) (v : World) → Ends Q (f a) v)
        → Ends Q (m >>= f) w
    unfolding Ends Keeps
    Ends-bind Q m f w h k s = Post-bind (λ a v. IsSound i n v.off_cnt) Q m f w (h s) k

    pub Keeps-bind :
        (m : M A) (f : A → M B) (w : World)
        → Keeps m w
        → ((a : A) (v : World) → Keeps (f a) v)
        → Keeps (m >>= f) w
    unfolding Keeps
    Keeps-bind m f w h k s =
        Post-bind (λ a v. IsSound i n v.off_cnt) (λ a v. IsSound i n v.off_cnt) m f w (h s) k

  module _ {A : Type 0} where
    pub Ends-get :
        (Q : A → World → Type 0) (f : World → M A) (w : World)
        → Ends Q (f w) w
        → Ends Q (get >>= f) w
    unfolding Ends ◌>>=◌ get
    Ends-get Q f w h = h

    pub Ends-branch :
        (Q : A → World → Type 0) (b : Bool) (m m' : M A) (w : World)
        → (b ≡ true → Ends Q m w)
        → (b ≡ false → Ends Q m' w)
        → Ends Q (branch b m m') w
    unfolding Ends branch
    Ends-branch Q true m m' w h h' = h refl
    Ends-branch Q false m m' w h h' = h' refl

    pub Ends-die :
        (Q : A → World → Type 0) (d : Death) (w : World) → IsConfigError d → Ends Q (die d) w
    unfolding Ends die
    Ends-die Q d w h s = h

    pub Keeps-get : (f : World → M A) (w : World) → Keeps (f w) w → Keeps (get >>= f) w
    unfolding Keeps ◌>>=◌ get
    Keeps-get f w h = h

    pub Keeps-return : (a : A) (w : World) → Keeps (return a) w
    unfolding Keeps return
    Keeps-return a w s = s

    pub Keeps-branch :
        (b : Bool) (m m' : M A) (w : World)
        → (b ≡ true → Keeps m w)
        → (b ≡ false → Keeps m' w)
        → Keeps (branch b m m') w
    unfolding Keeps branch
    Keeps-branch true m m' w h h' = h refl
    Keeps-branch false m m' w h h' = h' refl

  pub Keeps-die : (A : Type 0) (d : Death) (w : World) → IsConfigError d → Keeps {A = A} (die d) w
  unfolding Keeps die
  Keeps-die A d w h s = h

  pub Keeps-skip : (w : World) → Keeps skip w
  unfolding Keeps skip
  Keeps-skip w s = s

  pub Keeps-when :
      (b : Bool) (m : M (Unit {0})) (w : World) → (b ≡ true → Keeps m w) → Keeps (when b m) w
  unfolding Keeps when
  Keeps-when true m w h = h refl
  Keeps-when false m w h = λ s. s

  pub Keeps-say : (ch : Channel) (msg : Message) (w : World) → Keeps (say ch msg) w
  unfolding Keeps say
  Keeps-say ch msg w s =
      subst (IsSound i n) (sym (said-off_cnt (channel_is_on ch w) (msg ∷ w.said) w)) s

  pub IsSound-set :
      (cnt : ℕ → ℤ) (j : ℕ) (m : ℤ)
      → j ≢ i
      → IsSwitch m
      → IsSound i n cnt
      → IsSound i n (Dout.update cnt j m)
  unfolding Dout.update
  IsSound-set cnt j m h hm s =
      (λ l. ground (arith, s.0 l), update_ne cnt j i m (λ e. h (sym e)) ∙ s.1)

  pub Keeps-channel_off : (ch : Channel) (w : World) → ch.index ≢ i → Keeps (channel_off ch) w
  unfolding Keeps channel_off
  Keeps-channel_off ch w h s =
      IsSound-set w.off_cnt ch.index (Channels.off (w.off_cnt ch.index)) h
        (off-IsSwitch (w.off_cnt ch.index) (s.0 ch.index)) s

  pub Keeps-channel_on :
      (ch : Channel) (w : World)
      → ch.index ≢ i
      → channel_is_on ch w ≡ false
      → Keeps (channel_on ch) w
  unfolding Keeps channel_on
  Keeps-channel_on ch w h off s =
      let (m, (e, hm)) = on-off_count (w.off_cnt ch.index) off in
      rw (channel_on, Post, e) (IsSound-set w.off_cnt ch.index m h hm s)

  pub Keeps-for_all :
      (f : Channel → M (Unit {0})) (chs : List Channel) (w : World)
      → Base.All (λ ch. (v : World) → Keeps (f ch) v) chs
      → Keeps (for_all f chs) w
  unfolding for_all
  Keeps-for_all f [] w h = Keeps-skip w
  Keeps-for_all f (ch ∷ chs) w h =
      Keeps-bind (f ch) (λ _. for_all f chs) w (h.0 w) (λ a v. Keeps-for_all f chs v h.1)

pub ruleset keeps = (
  Keeps-bind, Keeps-get, Keeps-return, Keeps-skip, Keeps-branch, Keeps-when, Keeps-say,
  Keeps-channel_off, Keeps-channel_on, not-true, and_left,
)
