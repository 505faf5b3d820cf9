-- ===== src/Rcfile/Passes.antt =====
-- What set_all_channels_on and set_all_channels_off make of the switches.
use libcwd.Base.{
  ℕ, ◌≡◌, refl, sym, ◌∙◌, ap, Bool, true, false, not, ◌&&◌, if◌then◌else◌, Bool-cases, inl, inr,
  arith, List, [], ◌∷◌, ◌==◌, some,
}
use libcwd.Base.Int.{ℤ, pos, negsuc, ◌+ℤ◌, ◌-ℤ◌}
use libcwd.Channels
use libcwd.Channels.{Channel}
use libcwd.Dout.{update}
use libcwd.Switches.{is_on}
use libcwd.Rcfile.{
  Message, say, all_on, all_off, World, M, ok, ◌>>=◌, Known, get, put, channel_is_on, channel_on,
  when, skip,
}
use libcwd.Rcfile.Switching.{
  for_all, set_elfutils_on, all_on_turn, label_of, elfutils_label, set_all_channels_on, off_if_on,
  set_all_channels_off,
}
use libcwd.Rcfile.Text.{eq_bytes}
use libcwd.Rcfile.Sound.{IsSwitch}
use libcwd.Rcfile.Effects.{
  has, off_entry, on_entry, with_entry, with_entry_same, off_if_on_world, channel_on_world, bind_ok,
  is_on_pos, is_on_neg, if_ok, all_on_turn_world, moved,
}

-- One pass over the list, at the channels that pass the test.
module _ (p : Channel → Bool) (g : ℤ → ℤ) where
  unfoldable pub entries : List Channel → (ℕ → ℤ) → ℕ → ℤ
  entries [] cnt = cnt
  entries (ch ∷ chs) cnt =
      entries chs (if p ch then update cnt ch.index (g (cnt ch.index)) else cnt)

  for_all_world :
      (f : Channel → M (Unit {0}))
      → ((ch : Channel) (w : World)
          → f ch w ≡ ok tt (if p ch then with_entry ch.index (g (w.off_cnt ch.index)) w else w))
      → (chs : List Channel) (w : World)
      → for_all f chs w ≡ ok tt (record w { off_cnt = entries chs w.off_cnt })
  unfolding for_all entries skip
  for_all_world f h [] w = refl
  for_all_world f h (ch ∷ chs) w =
      bind_ok (f ch) (λ _. for_all f chs) w tt _ (h ch w)
      ∙ for_all_world f h chs (if p ch then with_entry ch.index (g (w.off_cnt ch.index)) w else w)
      ∙ ap (ok tt) (moved (p ch) ch.index (g (w.off_cnt ch.index)) (entries chs) w)

  entries_at :
      (chs : List Channel) (cnt : ℕ → ℤ) (j : ℕ)
      → g (g (cnt j)) ≡ g (cnt j)
      → entries chs cnt j ≡ (if has p j chs then g (cnt j) else cnt j)
  unfolding entries update
  entries_at [] cnt j h = refl
  entries_at (ch ∷ chs) cnt j h = elim (Bool-cases (p ch)) [
    | inl e ↦ rw (e) (ground (arith, h, entries_at chs (update cnt ch.index (g (cnt ch.index))) j))
    | inr e ↦ rw (e) (ground (arith, h, entries_at chs cnt j h))
  ]

if_said :
    (b : Bool) (ms : List Message) (w : World)
    → (if b then record w { said = ms } else w) ≡ record w { said = if b then ms else w.said }
if_said true ms w = refl
if_said false ms w = refl

-- `say` only adds a message, if anything.
pub say_world :
    (ch : Channel) (msg : Message) (w : World)
    → (ms : List Message) × (say ch msg w ≡ ok tt (record w { said = ms }))
unfolding say
say_world ch msg w = (_, ap (ok tt) (if_said (channel_is_on ch w) (msg ∷ w.said) w))

on_entry_twice : (n : ℤ) → on_entry (on_entry n) ≡ on_entry n
on_entry_twice (pos n) = rw (is_on_pos n, is_on_neg 0) refl
on_entry_twice (negsuc n) = rw (is_on_neg n, is_on_neg n) refl

off_entry_twice : (n : ℤ) → IsSwitch n → off_entry (off_entry n) ≡ off_entry n
unfolding is_on Channels.off ◌+ℤ◌
off_entry_twice (pos n) h = ground arith
off_entry_twice (negsuc n) h = ground arith

abbrev pub any : Channel → Bool
any ch = true

abbrev pub not_elfutils : Channel → Bool
not_elfutils ch = not (eq_bytes (label_of ch) elfutils_label)

-- set_all_channels_on comes to an end: it leaves `elfutils_on` set and every visible channel on,
-- except one whose label is ELFUTILS. A channel that was on, or is not visible, keeps its switch.
pub set_all_channels_on_lem :
    (k : Known) (w : World)
    → (v : World) × ((set_all_channels_on k w ≡ ok tt v)
        × ((v.elfutils_on ≡ true)
            × ((j : ℕ)
                → v.off_cnt j ≡ (
                    if has not_elfutils j k.visible then on_entry (w.off_cnt j) else w.off_cnt j))))
unfolding set_all_channels_on set_elfutils_on get put ◌>>=◌
set_all_channels_on_lem k w =
    let (ms, e) = say_world k.rcfile all_on w in
    (
      _,
      (
        bind_ok (say k.rcfile all_on) _ w tt _ e
            ∙ bind_ok (for_all all_on_turn k.visible) _ _ tt _ (
                for_all_world not_elfutils on_entry all_on_turn all_on_turn_world k.visible
                  (record w { said = ms })),
        (
          refl,
          λ j.
              entries_at not_elfutils on_entry k.visible w.off_cnt j (on_entry_twice (w.off_cnt j)),
        ),
      ),
    )

-- A switch that was turned off, if it was on, and then on once.
abbrev pub keep_on : ℤ → ℤ
keep_on n = if is_on n then n else n -ℤ pos 1

on-off_entry : (n : ℤ) → IsSwitch n → Channels.on (off_entry n) ≡ some (keep_on n)
unfolding is_on Channels.off Channels.on ◌+ℤ◌ ◌-ℤ◌
on-off_entry (pos n) h = ground arith
on-off_entry (negsuc n) h = ground arith

pub channel_on_at :
    (ch : Channel) (w : World) (n m : ℤ)
    → w.off_cnt ch.index ≡ n
    → Channels.on n ≡ some m
    → channel_on ch w ≡ ok tt (with_entry ch.index m w)
channel_on_at ch w n m h e =
    ap (channel_on ch) (with_entry_same ch.index n w h) ∙ channel_on_world ch w n m e

when_ok :
    (b : Bool) (m : M (Unit {0})) (v w : World)
    → m w ≡ ok tt v
    → when b m w ≡ ok tt (if b then v else w)
unfolding when
when_ok b m v w e = if_ok b (m w) v w e

off_or_warning :
    (b : Bool) (i j : ℕ) (n m : ℤ) (w : World) (r : ℤ)
    → w.off_cnt j ≡ r
    → (j ≡ i → m ≡ n)
    → World.off_cnt (if b then with_entry i m w else w) j ≡ (if b && (j == i) then n else r)
unfolding update
off_or_warning true i j n m w r h e = ground (arith, e)
off_or_warning false i j n m w r h e = h

-- set_all_channels_off comes to an end, if dc::warning is a visible channel: it resets
-- `elfutils_on` and turns every visible channel off that was on. With `warning_on` it turns
-- dc::warning on once behind that: a channel that was on stays on, and one that was off is turned
-- on by one step.
pub set_all_channels_off_lem :
    (k : Known) (warning_on : Bool) (w : World)
    → ((j : ℕ) → IsSwitch (w.off_cnt j))
    → has any k.warning.index k.visible ≡ true
    → (v : World) × ((set_all_channels_off k warning_on w ≡ ok tt v)
        × ((v.elfutils_on ≡ false)
            × ((j : ℕ)
                → v.off_cnt j ≡ (
                    if warning_on && (j == k.warning.index)
                    then keep_on (w.off_cnt j)
                    else if has any j k.visible
                    then off_entry (w.off_cnt j)
                    else w.off_cnt j))))
unfolding set_all_channels_off set_elfutils_on get put ◌>>=◌
set_all_channels_off_lem k warning_on w h hw =
    let (ms, e) = say_world k.rcfile (all_off warning_on) w in
    let i = k.warning.index in
    let at = λ (j : ℕ).
      entries_at any off_entry k.visible w.off_cnt j (off_entry_twice (w.off_cnt j) (h j)) in
    let u = record w { said = ms; off_cnt = entries any off_entry k.visible w.off_cnt } in
    (
      _,
      (
        bind_ok (say k.rcfile (all_off warning_on)) _ w tt _ e
            ∙ bind_ok (for_all off_if_on k.visible) _ _ tt u (
                for_all_world any off_entry off_if_on off_if_on_world k.visible
                  (record w { said = ms }))
            ∙ bind_ok (when warning_on (channel_on k.warning)) _ u tt _ (
                when_ok warning_on (channel_on k.warning) _ u (
                  channel_on_at k.warning u (off_entry (w.off_cnt i)) (keep_on (w.off_cnt i))
                    (at i ∙ ap (λ b. if b then off_entry (w.off_cnt i) else w.off_cnt i) hw)
                    (on-off_entry (w.off_cnt i) (h i)))),
        (
          refl,
          λ j.
              off_or_warning warning_on i j (keep_on (w.off_cnt j)) (keep_on (w.off_cnt i)) u _
                (at j) (λ e. ap (λ l. keep_on (w.off_cnt l)) (sym e)),
        ),
      ),
    )
