-- ===== src/Rcfile/Other.antt =====
-- What RcFile::process_channel makes of the switch of a channel that is not ELFUTILS.
use libcwd.Base.{
  not-true, and_left, ℕ, suc, zero, ◌≡◌, refl, sym, ◌∙◌, ap, Bool, true, false, not, ◌&&◌,
  if◌then◌else◌, arith, List,
}
use libcwd.Base.Int.{ℤ, pos, negsuc, minus_one, pos_part, ◌-ℤ◌}
use libcwd.Channels
use libcwd.Channels.{Channel}
use libcwd.Switches.{is_on}
use libcwd.Dout.Store.{update_self}
use libcwd.Rcfile.{
  Bytes, Message, Known, World, M, ok, ◌>>=◌, ◌>>◌, get, when, branch, skip, say, turned_on,
  turned_off, channel_on, channel_off,
}
use libcwd.Rcfile.Switching.{
  Action, turns_on, turns_off, turn_on_loop, on_fuel, process_other, upper_label,
}
use libcwd.Rcfile.Effects.{
  with_entry, with_entry_same, channel_on_world, bind_ok, is_on_pos, is_on_neg, when_on,
}
use libcwd.Rcfile.Passes.{say_world}

-- Enough turns: the channel is on in the end.
turn_on_loop_world :
    (rcfile ch : Channel) (label : Bytes) (n : ℕ) (w : World)
    → (ms : List Message) × (turn_on_loop rcfile ch label (suc n) (with_entry ch.index (pos n) w)
        ≡ ok tt (with_entry ch.index minus_one (record w { said = ms })))
unfolding turn_on_loop Channels.on ◌-ℤ◌ ◌>>=◌ get when skip
turn_on_loop_world rcfile ch label zero w =
    let v = with_entry ch.index minus_one w in
    let (ms, e) = say_world rcfile (turned_on label) v in
    (
      ms,
      bind_ok (channel_on ch) _ (with_entry ch.index (pos 0) w) tt v
            (channel_on_world ch w (pos 0) minus_one refl)
          ∙ bind_ok (say rcfile (turned_on label)) _ v tt (record v { said = ms }) e
          ∙ ap (λ x. when (not (is_on x)) skip (record v { said = ms }))
              (update_self w.off_cnt ch.index minus_one)
          ∙ ap (λ b. when (not b) skip (record v { said = ms })) (is_on_neg 0),
    )
turn_on_loop_world rcfile ch label (suc n) w =
    let v = with_entry ch.index (pos n) w in
    let (ms, e) = say_world rcfile (turned_on label) v in
    let (ms', e') = turn_on_loop_world rcfile ch label n (record w { said = ms }) in
    (
      ms',
      bind_ok (channel_on ch) _ (with_entry ch.index (pos (suc n)) w) tt v
            (channel_on_world ch w (pos (suc n)) (pos n) (ground arith))
          ∙ bind_ok (say rcfile (turned_on label)) _ v tt (record v { said = ms }) e
          ∙ when_on _ (turn_on_loop rcfile ch label (suc n)) (record v { said = ms })
              (ap (λ x. not (is_on x)) (update_self w.off_cnt ch.index (pos n))
                ∙ ap not (is_on_pos n))
          ∙ e',
    )

-- A channel's entry after the action.
unfoldable pub acted : Action → ℤ → ℤ
acted action n =
    if not (is_on n) && turns_on action
    then minus_one
    else if is_on n && turns_off action
    then Channels.off n
    else n

abbrev pub IsSaid : ℕ → ℤ → World → M (Unit {0}) → Type 0
IsSaid j n w m = (ms : List Message) × (m w ≡ ok tt (with_entry j n (record w { said = ms })))

process_other_on :
    (k : Known) (ch : Channel) (n : ℤ) (w : World)
    → w.off_cnt ch.index ≡ n
    → is_on n ≡ false
    → IsSaid ch.index minus_one w (turn_on_loop k.rcfile ch (upper_label ch) (on_fuel ch w))
process_other_on k ch (pos n) w h e =
    let (ms, e') = turn_on_loop_world k.rcfile ch (upper_label ch) n w in
    (
      ms,
      ap (λ v. turn_on_loop k.rcfile ch (upper_label ch) (on_fuel ch v) v)
            (with_entry_same ch.index (pos n) w h)
          ∙ ap
              (λ x.
                turn_on_loop k.rcfile ch (upper_label ch) (suc (pos_part x))
                  (with_entry ch.index (pos n) w))
              (update_self w.off_cnt ch.index (pos n))
          ∙ e',
    )
process_other_on k ch (negsuc n) w h e = absurd (cc (sym (is_on_neg n) ∙ e))

process_other_off :
    (k : Known) (ch : Channel) (w : World)
    → IsSaid ch.index
        (Channels.off (w.off_cnt ch.index))
        w
        (do channel_off ch; say k.rcfile (turned_off (upper_label ch)))
unfolding ◌>>=◌ channel_off
process_other_off k ch w =
    say_world k.rcfile (turned_off (upper_label ch))
      (with_entry ch.index (Channels.off (w.off_cnt ch.index)) w)

IsSaid-branch :
    (b : Bool) (j : ℕ) (n n' : ℤ) (w : World) (m m' : M (Unit {0}))
    → (b ≡ true → IsSaid j n w m)
    → (b ≡ false → IsSaid j n' w m')
    → IsSaid j (if b then n else n') w (branch b m m')
unfolding branch
IsSaid-branch true j n n' w m m' h h' = h refl
IsSaid-branch false j n n' w m m' h h' = h' refl

IsSaid-when :
    (b : Bool) (j : ℕ) (n : ℤ) (w : World) (m : M (Unit {0}))
    → (b ≡ true → IsSaid j n w m)
    → IsSaid j (if b then n else w.off_cnt j) w (when b m)
unfolding when
IsSaid-when true j n w m h = h refl
IsSaid-when false j n w m h = (w.said, ap (ok tt) (with_entry_same j (w.off_cnt j) w refl))

pub process_other_world :
    (k : Known) (ch : Channel) (action : Action) (w : World)
    → IsSaid ch.index (acted action (w.off_cnt ch.index)) w (process_other k ch action)
unfolding process_other acted ◌>>=◌ get
process_other_world k ch action w =
    IsSaid-branch _ ch.index _ _ w _ _
      (λ e. process_other_on k ch _ w refl (not-true _ (and_left _ _ e)))
      (λ _. IsSaid-when _ ch.index _ w _ (λ _. process_other_off k ch w))
