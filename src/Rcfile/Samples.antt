-- ===== src/Rcfile/Samples.antt =====
-- RcFile on a small file, and witnesses.
use libcwd.Base
use libcwd.Base.{
  ℕ, ◌+◌, ◌≡◌, ◌≢◌, refl, Bool, true, false, Option, none, some, List, [], ◌∷◌, ◌++◌, codes, arith,
  if◌then◌else◌, ◌&&◌, ◌==◌,
}
use libcwd.Base.Int.{pos, minus_one}
use libcwd.Channels.{Channel}
use libcwd.Rcfile.{Bytes, Env, Known, World, M, ok, absent, readable}
use libcwd.Rcfile.Lines.{interpret_lem}
use libcwd.Rcfile.Text.{drop_while, drop_end, is_blank, interpret, setting, eq_bytes}
use libcwd.Rcfile.Read.{read}
use libcwd.Match.{match}
use libcwd.Rcfile.Sound.{Post, IsSwitch}
use libcwd.Rcfile.Text.{take_until, to_upper}
use libcwd.Rcfile.Switching.{
  on, set_all_channels_on, set_all_channels_off, process_loop, process_channel, upper_label,
  label_of, elfutils_label,
}
use libcwd.Rcfile.Effects.{has, on_entry, off_entry}
use libcwd.Rcfile.Passes.{
  any, not_elfutils, keep_on, set_all_channels_on_lem, set_all_channels_off_lem,
}
use libcwd.Rcfile.Tokens.{words, for_each, process_loop_lem}
use libcwd.Rcfile.Switched.{switch_after, elfutils_after, IsChanged, process_channel_lem}
use libcwd.Rcfile.Turns.{IsKnown}
use libcwd.Rcfile.Restored.{read-IsRestored, IsRestored}

abbrev rcfile_channel : Channel
rcfile_channel = record { label = codes "RCFILE"; index = 0 }

abbrev warning_channel : Channel
warning_channel = record { label = codes "WARNING"; index = 1 }

abbrev elfutils_channel : Channel
elfutils_channel = record { label = codes "ELFUTILS"; index = 2 }

abbrev foo_channel : Channel
foo_channel = record { label = codes "FOO "; index = 3 }

abbrev known : Known
known = record {
  visible = warning_channel ∷ elfutils_channel ∷ foo_channel ∷ [];
  rcfile = rcfile_channel;
  warning = warning_channel;
  elfutils = elfutils_channel;
}

abbrev newline : Bytes
newline = 10 ∷ []

abbrev file : Bytes
file =
    codes "# comment"
    ++ newline
    ++ codes " silent = on "
    ++ newline
    ++ codes "channels_default=off"
    ++ newline
    ++ codes "channels_on = f*, nope"
    ++ newline

abbrev env : Env
env = record {
  rcfile_name = none;
  override_name = none;
  home = none;
  pw_dir = none;
  access = λ name. if eq_bytes name (codes ".libcwdrc") then readable else absent;
  content = λ name. file;
}

-- Every channel is on but those behind index 2, which one call of `off` has turned off.
abbrev world : World
world = record {
  off_cnt = λ i. if Base.leb i 2 then minus_one else pos 0;
  said = [];
  indent = 0;
  konsole_command = [];
  gdb_bin = [];
  env_set = false;
  elfutils_on = false;
  read_called = false;
}

abbrev always : Bytes → Bytes → M Bool
always keyword value w = ok true w

known-IsKnown : IsKnown known
known-IsKnown = record {
  apart = (
    λ e. absurd (omega (arith, e)),
    (λ e. absurd (omega (arith, e)), (λ e. absurd (omega (arith, e)), tt)),
  );
  warning_apart = λ e. absurd (omega (arith, e));
  elfutils_apart = λ e. absurd (omega (arith, e));
  warning_visible = refl;
}

world-IsSwitch : (j : ℕ) → IsSwitch (world.off_cnt j)
world-IsSwitch j = ground arith

read-IsRestored_example :
    Post
      (λ _ v. IsRestored known minus_one v)
      (read always known env (codes "/usr/share") true world)
read-IsRestored_example =
    read-IsRestored known known-IsKnown always (λ keyword value w. (true, w, (refl, refl))) env
      (codes "/usr/share") true world world-IsSwitch

foo_is_other : eq_bytes (upper_label foo_channel) elfutils_label ≡ false
unfolding eq_bytes upper_label label_of take_until to_upper
foo_is_other = refl

set_all_channels_on_lem_example :
    (v : World) × ((set_all_channels_on known world ≡ ok tt v)
      × ((v.elfutils_on ≡ true)
          × ((j : ℕ)
              → v.off_cnt j ≡ (
                  if has not_elfutils j known.visible
                  then on_entry (world.off_cnt j)
                  else world.off_cnt j))))
set_all_channels_on_lem_example = set_all_channels_on_lem known world

set_all_channels_off_lem_example :
    (v : World) × ((set_all_channels_off known true world ≡ ok tt v)
      × ((v.elfutils_on ≡ false)
          × ((j : ℕ)
              → v.off_cnt j ≡ (
                  if true && (j == 1)
                  then keep_on (world.off_cnt j)
                  else if has any j known.visible
                  then off_entry (world.off_cnt j)
                  else world.off_cnt j))))
set_all_channels_off_lem_example = set_all_channels_off_lem known true world world-IsSwitch refl

-- A body that looks at nothing but the mask.
abbrev note_mask : Bytes → M (Unit {0})
note_mask mask w = ok tt (record w { konsole_command = mask ++ w.konsole_command })

process_loop_lem_example :
    process_loop note_mask 14 (codes ", foo,bar  baz")
    ≡ for_each note_mask (words (codes ", foo,bar  baz"))
process_loop_lem_example = process_loop_lem note_mask 14 (codes ", foo,bar  baz") (omega arith)

process_channel_lem_example :
    IsChanged 3
      (if match (codes "F*") (upper_label foo_channel)
        then switch_after on
            (eq_bytes (upper_label foo_channel) elfutils_label)
            world.elfutils_on
            (pos 0)
        else pos 0)
      (if match (codes "F*") (upper_label foo_channel)
        then elfutils_after on (eq_bytes (upper_label foo_channel) elfutils_label) world.elfutils_on
        else world.elfutils_on)
      world
      (process_channel known (codes "F*") on foo_channel)
process_channel_lem_example = process_channel_lem known (codes "F*") on foo_channel world

path_starts_plainly : drop_while is_blank (codes "/bin/gdb") ≡ codes "/bin/gdb"
unfolding drop_while
path_starts_plainly = refl

path_ends_plainly : drop_end is_blank (codes "/bin/gdb") ≡ codes "/bin/gdb"
unfolding drop_end
path_ends_plainly = refl

interpret_lem_example : interpret (codes "gdb=/bin/gdb") ≡ setting (codes "gdb") (codes "/bin/gdb")
interpret_lem_example =
    interpret_lem 103 (codes "db") (codes "/bin/gdb") (refl, (refl, (refl, tt))) refl
      path_starts_plainly path_ends_plainly
