-- ===== src/Rcfile/Effects.antt =====
-- The turns of the loops of set_all_channels_on and set_all_channels_off.
use libcwd.Base.{
  ℕ, suc, zero, ◌≡◌, refl, sym, ◌∙◌, ap, Bool, true, false, not, ◌&&◌, ◌||◌, if◌then◌else◌, arith,
  List, [], ◌∷◌, ◌==◌, some,
}
use libcwd.Base.Int.{ℤ, pos, negsuc, minus_one, pos_part, ◌-ℤ◌}
use libcwd.Channels
use libcwd.Channels.{Channel}
use libcwd.Dout.{update}
use libcwd.Switches.{is_on}
use libcwd.Dout.Store.{update-update, update_same, update_self}
use libcwd.Rcfile.{
  World, M, Outcome, ok, ◌>>=◌, ◌>>◌, get, channel_is_on, channel_on, channel_off, when, skip,
}
use libcwd.Rcfile.Switching.{on_loop, on_fuel, all_on_turn, label_of, elfutils_label, off_if_on}
use libcwd.Rcfile.Text.{eq_bytes}

-- Is there a channel of index `j` in the list that passes the test?
abbrev pub has : (Channel → Bool) → ℕ → List Channel → Bool
has p j [] = false
has p j (ch ∷ chs) = (j == ch.index && p ch) || has p j chs

-- An entry once its channel was turned off, or on, if it was not.
abbrev pub off_entry : ℤ → ℤ
off_entry n = if is_on n then Channels.off n else n

abbrev pub on_entry : ℤ → ℤ
on_entry n = if is_on n then n else minus_one

abbrev pub with_entry : ℕ → ℤ → World → World
with_entry j n w = record w { off_cnt = update w.off_cnt j n }

-- Writing back what is there.
pub with_entry_same : (j : ℕ) (n : ℤ) (w : World) → w.off_cnt j ≡ n → w ≡ with_entry j n w
with_entry_same j n w e = ap (λ c. record w { off_cnt = c }) (sym (update_same w.off_cnt j n e))

if_with_entry :
    (b : Bool) (j : ℕ) (n : ℤ) (w : World)
    → (if b then ok tt (with_entry j n w) else ok tt w)
      ≡ ok tt (with_entry j (if b then n else w.off_cnt j) w)
if_with_entry true j n w = refl
if_with_entry false j n w = ap (ok tt) (with_entry_same j (w.off_cnt j) w refl)

pub off_if_on_world :
    (ch : Channel) (w : World)
    → off_if_on ch w ≡ ok tt (with_entry ch.index (off_entry (w.off_cnt ch.index)) w)
unfolding off_if_on ◌>>=◌ get when channel_off
off_if_on_world ch w =
    if_with_entry (channel_is_on ch w) ch.index (Channels.off (w.off_cnt ch.index)) w

pub channel_on_world :
    (ch : Channel) (w : World) (n m : ℤ)
    → Channels.on n ≡ some m
    → channel_on ch (with_entry ch.index n w) ≡ ok tt (with_entry ch.index m w)
unfolding channel_on
channel_on_world ch w n m e =
    rw (channel_on, update_self w.off_cnt ch.index n, e, update-update w.off_cnt ch.index n m) refl

pub bind_ok :
    {A B : Type 0} (m : M A) (f : A → M B) (w : World) (a : A) (v : World)
    → m w ≡ ok a v
    → (m >>= f) w ≡ f a v
unfolding ◌>>=◌
bind_ok m f w a v e = rw (◌>>=◌, e) refl

pub when_on : (b : Bool) (m : M (Unit {0})) (w : World) → b ≡ true → when b m w ≡ m w
unfolding when
when_on b m w e = rw (when, e) refl

pub is_on_pos : (n : ℕ) → is_on (pos n) ≡ false
unfolding is_on
is_on_pos n = ground arith

pub is_on_neg : (n : ℕ) → is_on (negsuc n) ≡ true
unfolding is_on
is_on_neg n = ground arith

stays_on :
    (ch : Channel) (n : ℕ) (w : World)
    → on_loop ch 1 (with_entry ch.index (negsuc n) w) ≡ ok tt (with_entry ch.index (negsuc n) w)
unfolding on_loop ◌>>=◌ get when
stays_on ch n w = rw (update_self, is_on_neg n) refl

on_loop_world :
    (ch : Channel) (n : ℕ) (w : World)
    → on_loop ch (suc n) (with_entry ch.index (pos n) w) ≡ ok tt (with_entry ch.index minus_one w)
unfolding on_loop ◌>>=◌ get Channels.on ◌-ℤ◌ skip is_on
on_loop_world ch zero w =
    when_on _ (do channel_on ch; skip) (with_entry ch.index (pos 0) w) (rw (update_self) refl)
    ∙ bind_ok (channel_on ch) (λ _. skip) (with_entry ch.index (pos 0) w) tt _
        (channel_on_world ch w (pos 0) minus_one refl)
on_loop_world ch (suc n) w =
    when_on _ (do channel_on ch; on_loop ch (suc n)) (with_entry ch.index (pos (suc n)) w)
      (rw (update_self) (ground arith))
    ∙ bind_ok (channel_on ch) (λ _. on_loop ch (suc n)) (with_entry ch.index (pos (suc n)) w) tt _
        (channel_on_world ch w (pos (suc n)) (pos n) (ground arith))
    ∙ on_loop_world ch n w

-- Enough turns, whatever the entry is.
on_loop_entry :
    (ch : Channel) (n : ℤ) (w : World)
    → on_loop ch (suc (pos_part n)) (with_entry ch.index n w)
      ≡ ok tt (with_entry ch.index (on_entry n) w)
on_loop_entry ch (pos n) w = rw (is_on_pos n) (on_loop_world ch n w)
on_loop_entry ch (negsuc n) w = rw (is_on_neg n) (stays_on ch n w)

pub if_ok :
    (b : Bool) (o : Outcome (Unit {0})) (v w : World)
    → o ≡ ok tt v
    → (if b then o else ok tt w) ≡ ok tt (if b then v else w)
if_ok true o v w e = e
if_ok false o v w e = refl

pub all_on_turn_world :
    (ch : Channel) (w : World)
    → all_on_turn ch w
      ≡ ok tt (
          if not (eq_bytes (label_of ch) elfutils_label)
          then with_entry ch.index (on_entry (w.off_cnt ch.index)) w
          else w)
unfolding all_on_turn ◌>>=◌ get when
all_on_turn_world ch w =
    if_ok (not (eq_bytes (label_of ch) elfutils_label)) (on_loop ch (on_fuel ch w) w) _ w (
      ap (on_loop ch (on_fuel ch w)) (with_entry_same ch.index (w.off_cnt ch.index) w refl)
      ∙ on_loop_entry ch (w.off_cnt ch.index) w)

pub moved :
    (b : Bool) (j : ℕ) (n : ℤ) (h : (ℕ → ℤ) → ℕ → ℤ) (w : World)
    → (let v = if b then with_entry j n w else w in record v { off_cnt = h v.off_cnt })
      ≡ record w { off_cnt = h (if b then update w.off_cnt j n else w.off_cnt) }
moved true j n h w = refl
moved false j n h w = refl
