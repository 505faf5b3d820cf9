-- ===== src/Rcfile/Turns.antt =====
-- A turn of RcFile::read's loop: the switch of dc::rcfile goes with `rcfile_on`.
use libcwd.Base.{
  not-true, and_right, ℕ, ◌≡◌, ◌≢◌, refl, sym, ◌∙◌, ap, Bool, true, false, ◌&&◌, if◌then◌else◌,
  Bool-cases, inl, inr, arith, some, List, [], ◌∷◌, All, ◌==◌,
}
use mathlib.Core.Path.{subst}
use libcwd.Base.Int.{ℤ, pos, negsuc, minus_one, ◌+ℤ◌, ◌-ℤ◌}
use libcwd.Channels
use libcwd.Channels.{Channel}
use libcwd.Dout.{update}
use libcwd.Dout.Store.{update_self, update-update, update_same}
use libcwd.Switches.{is_on, restore, force_on}
use libcwd.Rcfile.{
  Bytes, Known, World, ok, Message, ◌>>=◌, ◌>>◌, get, put, return, channel_is_on, channel_on,
  channel_off, say, unknown,
}
use libcwd.Rcfile.Switching.{set_all_channels_off}
use libcwd.Rcfile.Locate.{print_delayed_msg}
use libcwd.Rcfile.Sound.{
  keeps, Keeps, Ends, Ends-bind, Ends-branch, Ends-get, Ends-die, IsSwitch, IsSound, Post,
  off-IsSwitch,
}
use libcwd.Rcfile.Kept.{Keeps-process_channels, Keeps-set_all_channels_on}
use libcwd.Rcfile.Effects.{has, off_entry, bind_ok}
use libcwd.Rcfile.Passes.{any, keep_on, set_all_channels_off_lem, say_world, channel_on_at}
use libcwd.Rcfile.Found.{Keeps-with_on, Keeps-set_env_set}
use libcwd.Rcfile.Read.{
  Reading, Place, Turn, next, leave, run_force_on, run_restore, put_back, silent, channels_default,
  channels_toggle, channels_on, channels_off, warn_unknown, set_gdb_bin, set_konsole_command,
  announce,
}

-- dc::rcfile is no visible channel and none of the other two, and dc::warning is visible.
pub record IsKnown (k : Known) : Type 0 where
  pub apart : All (λ ch. ch.index ≢ k.rcfile.index) k.visible
  pub warning_apart : k.warning.index ≢ k.rcfile.index
  pub elfutils_apart : k.elfutils.index ≢ k.rcfile.index
  pub warning_visible : has any k.warning.index k.visible ≡ true

has-apart : (j : ℕ) (chs : List Channel) → All (λ ch. ch.index ≢ j) chs → has any j chs ≡ false
has-apart j [] h = refl
has-apart j (ch ∷ chs) h = ground (arith, h.0, has-apart j chs h.1)

off_entry-IsSwitch : (n : ℤ) → IsSwitch n → IsSwitch (off_entry n)
off_entry-IsSwitch n h = elim (Bool-cases (is_on n)) [
  | inl e ↦ rw (e) (off-IsSwitch n h)
  | inr e ↦ rw (e) h
]

keep_on-IsSwitch : (n : ℤ) → IsSwitch n → IsSwitch (keep_on n)
unfolding is_on ◌-ℤ◌
keep_on-IsSwitch (pos n) h = ground arith
keep_on-IsSwitch (negsuc n) h = ground arith

one_of-IsSwitch :
    (a b : Bool) (l m n : ℤ)
    → IsSwitch l
    → IsSwitch m
    → IsSwitch n
    → IsSwitch (if a then l else if b then m else n)
one_of-IsSwitch true b l m n hl hm hn = hl
one_of-IsSwitch false true l m n hl hm hn = hm
one_of-IsSwitch false false l m n hl hm hn = hn

off_is_not_on : false ≡ true → ⊥
off_is_not_on e = cc e

-- The switch of dc::rcfile while `rcfile_on` is `b`.
abbrev pub expected : Bool → ℤ
expected true = minus_one
expected false = pos 0

pub IsSound-reset :
    (i : ℕ) (n m l : ℤ) (cnt : ℕ → ℤ)
    → l ≡ m
    → IsSwitch m
    → IsSound i n cnt
    → IsSound i m (update cnt i l)
unfolding update
IsSound-reset i n m l cnt e h s = (
  λ j. subst (λ x. IsSwitch (update cnt i x j)) (sym e) (ground (arith, s.0 j, h)),
  update_self cnt i l ∙ e,
)

off-expected : (b : Bool) (n : ℤ) → n ≡ expected b → is_on n ≡ true → Channels.off n ≡ pos 0
unfolding Channels.off is_on ◌+ℤ◌
off-expected true n e h = rw (e) refl
off-expected false n e h = absurd (off_is_not_on (sym (ap is_on e) ∙ h))

pub on-expected :
    (b : Bool) (n : ℤ) → n ≡ expected b → is_on n ≡ false → Channels.on n ≡ some minus_one
unfolding Channels.on is_on ◌-ℤ◌
on-expected true n e h = absurd (off_is_not_on (sym h ∙ ap is_on e))
on-expected false n e h = rw (e) refl

pub run_restore_world :
    (ch : Channel) (n : ℤ) (w : World)
    → w.off_cnt ch.index ≡ minus_one
    → run_restore ch n w ≡ ok tt (record w { off_cnt = update w.off_cnt ch.index n })
unfolding run_restore ◌>>=◌ get put restore put_back
run_restore_world ch n w e = ap (λ m. put_back ch (restore n m) w) e

module _ (k : Known) (hk : IsKnown k) where
  Keeps-set_all_channels_off :
      (n : ℤ) (b : Bool) (w : World) → Keeps k.rcfile.index n (set_all_channels_off k b) w
  unfolding Keeps
  Keeps-set_all_channels_off n b w s =
      let (v, (e, (_, at))) = set_all_channels_off_lem k b w s.0 hk.warning_visible in
      subst (Post (λ _ u. IsSound k.rcfile.index n u.off_cnt)) (sym e) (
        (λ j. subst IsSwitch (sym (at j)) (
            one_of-IsSwitch (b && (j == k.warning.index)) (has any j k.visible)
              (keep_on (w.off_cnt j)) (off_entry (w.off_cnt j)) (w.off_cnt j)
              (keep_on-IsSwitch (w.off_cnt j) (s.0 j)) (off_entry-IsSwitch (w.off_cnt j) (s.0 j))
              (s.0 j))),
        at k.rcfile.index
            ∙ ground (arith, hk.warning_apart, has-apart k.rcfile.index k.visible hk.apart)
            ∙ s.1,
      )

  warn_unknown_world :
      (p : Place) (keyword : Bytes) (w : World)
      → (ms : List Message) × (warn_unknown k p keyword w ≡ ok tt (record w { said = ms }))
  unfolding warn_unknown run_force_on ◌>>=◌ get put return force_on
  warn_unknown_world p keyword w =
      let i = k.warning.index in
      let u = record w { off_cnt = update w.off_cnt i minus_one } in
      let (ms, e) = say_world k.warning (unknown p.name p.lines_read keyword) u in
      (
        ms,
        bind_ok (say k.warning (unknown p.name p.lines_read keyword)) _ u tt _ e
            ∙ run_restore_world k.warning (w.off_cnt i) (record u { said = ms })
                (update_self w.off_cnt i minus_one)
            ∙ ap (λ c. ok tt (record w { said = ms; off_cnt = c }))
                (update-update w.off_cnt i minus_one (w.off_cnt i)
                  ∙ update_same w.off_cnt i (w.off_cnt i) refl),
      )

  pub Keeps-warn_unknown :
      (n : ℤ) (p : Place) (keyword : Bytes) (w : World)
      → Keeps k.rcfile.index n (warn_unknown k p keyword) w
  unfolding Keeps
  Keeps-warn_unknown n p keyword w s =
      let (ms, e) = warn_unknown_world p keyword w in
      subst (Post (λ _ u. IsSound k.rcfile.index n u.off_cnt)) (sym e) s

  pub Keeps-announce :
      (n : ℤ) (p : Place) (keyword value : Bytes) (w : World)
      → Keeps k.rcfile.index n (announce k p keyword value) w
  unfolding announce print_delayed_msg
  Keeps-announce n p keyword value w = search (keeps, Keeps-set_env_set)

  pub Keeps-set_gdb_bin : (n : ℤ) (s : Bytes) (w : World) → Keeps k.rcfile.index n (set_gdb_bin s) w
  unfolding set_gdb_bin Keeps ◌>>=◌ get put
  Keeps-set_gdb_bin n s w h = h

  pub Keeps-set_konsole_command :
      (n : ℤ) (s : Bytes) (w : World) → Keeps k.rcfile.index n (set_konsole_command s) w
  unfolding set_konsole_command Keeps ◌>>=◌ get put
  Keeps-set_konsole_command n s w h = h

  -- The loop goes on with the switch as `rcfile_on` says, or is left.
  abbrev pub IsTurn : Turn → World → Type 0
  IsTurn (next r) w = IsSound k.rcfile.index (expected r.rcfile_on) w.off_cnt
  IsTurn leave w = Unit

  pub Ends-next :
      (r : Reading) (w : World)
      → Ends k.rcfile.index (expected r.rcfile_on) IsTurn (return (next r)) w
  unfolding Ends return
  Ends-next r w s = s

  pub Ends-leave : (n : ℤ) (w : World) → Ends k.rcfile.index n IsTurn (return leave) w
  unfolding Ends return
  Ends-leave n w s = tt

  ruleset turns = (
    keeps, Ends-next, Ends-leave, Ends-branch, Ends-bind, Ends-get, Keeps-with_on,
    Keeps-process_channels, Keeps-set_all_channels_on, Keeps-set_all_channels_off,
  )

  pub Ends-channels_default :
      (p : Place) (value : Bytes) (r : Reading) (w : World)
      → Ends k.rcfile.index (expected r.rcfile_on) IsTurn (channels_default k p value r) w
  unfolding channels_default Ends
  Ends-channels_default p value r w = search (turns, hk.warning_apart, hk.apart) depth 10

  pub Ends-channels_toggle :
      (p : Place) (value : Bytes) (r : Reading) (w : World)
      → Ends k.rcfile.index (expected r.rcfile_on) IsTurn (channels_toggle k p value r) w
  unfolding channels_toggle Ends
  Ends-channels_toggle p value r w = search (turns, Ends-die, hk.apart) depth 10

  pub Ends-channels_on :
      (p : Place) (value : Bytes) (r : Reading) (w : World)
      → Ends k.rcfile.index (expected r.rcfile_on) IsTurn (channels_on k p value r) w
  unfolding channels_on Ends
  Ends-channels_on p value r w = search (turns, hk.apart) depth 10

  pub Ends-channels_off :
      (p : Place) (value : Bytes) (r : Reading) (w : World)
      → Ends k.rcfile.index (expected r.rcfile_on) IsTurn (channels_off k p value r) w
  unfolding channels_off Ends
  Ends-channels_off p value r w = search (turns, hk.apart) depth 10

  Ends-off :
      (r : Reading) (w : World)
      → channel_is_on k.rcfile w ≡ true
      → Ends k.rcfile.index
          (expected r.rcfile_on)
          IsTurn
          (do channel_off k.rcfile; return (next (record r { rcfile_on = false })))
          w
  unfolding Ends ◌>>=◌ return channel_off
  Ends-off r w e s =
      IsSound-reset k.rcfile.index (expected r.rcfile_on) (pos 0)
        (Channels.off (w.off_cnt k.rcfile.index)) w.off_cnt
        (off-expected r.rcfile_on (w.off_cnt k.rcfile.index) s.1 e) (omega arith) s

  Ends-on :
      (r : Reading) (w : World)
      → channel_is_on k.rcfile w ≡ false
      → Ends k.rcfile.index
          (expected r.rcfile_on)
          IsTurn
          (do channel_on k.rcfile; return (next (record r { rcfile_on = true })))
          w
  unfolding Ends return
  Ends-on r w e s =
      subst (Post IsTurn)
        (sym (
          bind_ok (channel_on k.rcfile) (λ _. return (next (record r { rcfile_on = true }))) w tt _
            (channel_on_at k.rcfile w _ minus_one refl
              (on-expected r.rcfile_on (w.off_cnt k.rcfile.index) s.1 e))))
        (IsSound-reset k.rcfile.index (expected r.rcfile_on) minus_one minus_one w.off_cnt refl
          (omega arith) s)

  pub Ends-silent :
      (value : Bytes) (r : Reading) (w : World)
      → Ends k.rcfile.index (expected r.rcfile_on) IsTurn (silent k value r) w
  unfolding silent
  Ends-silent value r w =
      let i = k.rcfile.index in
      let n = expected r.rcfile_on in
      Ends-get i n _ _ w (
        Ends-branch i n _ _ _ _ w
          (λ h. Ends-branch i n _ _ _ _ w (Ends-off r w) (λ e. Ends-next r w))
          (λ h.
            Ends-branch i n _ _ _ _ w (λ e. Ends-on r w (not-true _ (and_right _ _ e)))
              (λ e. Ends-next r w)))
