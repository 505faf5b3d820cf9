-- ===== src/Rcfile/Switched.antt =====
-- What RcFile::process_channel makes of a channel's switch and of elfutils_on.
use libcwd.Base.{ℕ, ◌≡◌, refl, ◌∙◌, ap, Bool, true, false, not, ◌&&◌, if◌then◌else◌, List}
use libcwd.Base.Int.{ℤ}
use libcwd.Channels
use libcwd.Channels.{Channel}
use libcwd.Match.{match}
use libcwd.Rcfile.{
  Bytes, Message, Known, World, M, ok, ◌>>=◌, ◌>>◌, get, put, when, branch, skip, say, turned_on,
  turned_off, channel_off,
}
use libcwd.Rcfile.Switching.{
  Action, turns_on, turns_off, process_other, process_elfutils, process_channel, upper_label,
  elfutils_label, set_elfutils_on,
}
use libcwd.Rcfile.Text.{eq_bytes}
use libcwd.Rcfile.Effects.{with_entry, with_entry_same}
use libcwd.Rcfile.Passes.{say_world}
use libcwd.Rcfile.Other.{acted, process_other_world}

-- What becomes of the switch and of elfutils_on, of which ELFUTILS only has the second for being on.
unfoldable pub switch_after : Action → (is_elfutils elfutils_on : Bool) → ℤ → ℤ
switch_after action is_elfutils elfutils_on n =
    if is_elfutils
    then (if elfutils_on && turns_off action then Channels.off n else n)
    else acted action n

unfoldable pub elfutils_after : Action → (is_elfutils elfutils_on : Bool) → Bool
elfutils_after action is_elfutils elfutils_on =
    if is_elfutils
    then (if elfutils_on then not (turns_off action) else turns_on action)
    else elfutils_on

-- `m` returns, with the entry `n` at `j`, with elfutils_on as `b`, and all else but the messages
-- as it was.
unfoldable pub IsChanged : ℕ → ℤ → Bool → World → M (Unit {0}) → Type 0
IsChanged j n b w m =
    (ms : List Message) × (m w ≡ ok tt (with_entry j n (record w { said = ms; elfutils_on = b })))

elfutils_steps :
    (rcfile ch : Channel) (to_on to_off b : Bool) (w : World)
    → w.elfutils_on ≡ b
    → IsChanged ch.index
        (if b && to_off then Channels.off (w.off_cnt ch.index) else w.off_cnt ch.index)
        (if b then not to_off else to_on)
        w
        (branch
          (not b && to_on)
          (do set_elfutils_on true; say rcfile (turned_on elfutils_label))
          (when
            (b && to_off)
            (do set_elfutils_on false; channel_off ch; say rcfile (turned_off elfutils_label))))
unfolding IsChanged branch when skip ◌>>=◌ set_elfutils_on get put channel_off
elfutils_steps rcfile ch true to_off false w e =
    let v : World = record w { elfutils_on = true } in
    let (ms, e') = say_world rcfile (turned_on elfutils_label) v in
    (ms, e' ∙ ap (ok tt) (with_entry_same ch.index _ (record v { said = ms }) refl))
elfutils_steps rcfile ch to_on true true w e =
    say_world rcfile (turned_off elfutils_label)
      (with_entry ch.index (Channels.off (w.off_cnt ch.index)) (record w { elfutils_on = false }))
elfutils_steps rcfile ch false to_off false w e = (
  w.said,
  ap (ok tt) (
      with_entry_same ch.index _ w refl
      ∙ ap (λ b. with_entry ch.index (w.off_cnt ch.index) (record w { elfutils_on = b })) e),
)
elfutils_steps rcfile ch to_on false true w e = (
  w.said,
  ap (ok tt) (
      with_entry_same ch.index _ w refl
      ∙ ap (λ b. with_entry ch.index (w.off_cnt ch.index) (record w { elfutils_on = b })) e),
)

process_by_label :
    (is_elfutils : Bool) (k : Known) (action : Action) (ch : Channel) (w : World)
    → IsChanged ch.index
        (switch_after action is_elfutils w.elfutils_on (w.off_cnt ch.index))
        (elfutils_after action is_elfutils w.elfutils_on)
        w
        (branch is_elfutils (process_elfutils k ch action) (process_other k ch action))
unfolding switch_after elfutils_after IsChanged branch process_elfutils ◌>>=◌ get
process_by_label true k action ch w =
    elfutils_steps k.rcfile ch (turns_on action) (turns_off action) w.elfutils_on w refl
process_by_label false k action ch w = process_other_world k ch action w

IsChanged-when :
    (b : Bool) (j : ℕ) (n : ℤ) (c : Bool) (w : World) (m : M (Unit {0}))
    → IsChanged j n c w m
    → IsChanged j (if b then n else w.off_cnt j) (if b then c else w.elfutils_on) w (when b m)
unfolding when IsChanged
IsChanged-when true j n c w m h = h
IsChanged-when false j n c w m h = (w.said, ap (ok tt) (with_entry_same j (w.off_cnt j) w refl))

-- process_channel comes to an end, whatever the channel and its switch. If the mask matches the
-- label in upper case, up to its first space, and that is not ELFUTILS, then the action turns the
-- channel on, as often as it takes, if it was off, or off, once, if it was on. If it is ELFUTILS,
-- then the action sets elfutils_on in this way instead, and the channel is never turned on, and
-- turned off, once more, where elfutils_on goes off. If the mask does not match, nothing changes,
-- and never anything but this and the messages.
pub process_channel_lem :
    (k : Known) (mask : Bytes) (action : Action) (ch : Channel) (w : World)
    → IsChanged ch.index
        (if match mask (upper_label ch)
          then switch_after action
              (eq_bytes (upper_label ch) elfutils_label)
              w.elfutils_on
              (w.off_cnt ch.index)
          else w.off_cnt ch.index)
        (if match mask (upper_label ch)
          then elfutils_after action (eq_bytes (upper_label ch) elfutils_label) w.elfutils_on
          else w.elfutils_on)
        w
        (process_channel k mask action ch)
unfolding process_channel
process_channel_lem k mask action ch w =
    IsChanged-when (match mask (upper_label ch)) ch.index _ _ w _
      (process_by_label (eq_bytes (upper_label ch) elfutils_label) k action ch w)
