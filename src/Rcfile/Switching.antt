-- ===== src/Rcfile/Switching.antt =====
-- RcFile::process_channel, process_channels, set_all_channels_on and set_all_channels_off.
use libcwd.Base.{
  ℕ, suc, zero, Bool, true, false, not, ◌&&◌, List, [], ◌∷◌, length, map, ◌==◌, codes,
}
use libcwd.Base.Int.{pos_part}
use libcwd.Channels.{Channel}
use libcwd.Match.{match}
use libcwd.Switches.{inc_indent, dec_indent}
use libcwd.Rcfile.{
  Bytes, Known, World, M, ◌>>=◌, ◌>>◌, skip, branch, when, get, put, channel_is_on, channel_on,
  channel_off, say, turned_on, turned_off, all_on, all_off,
}
use libcwd.Rcfile.Text.{is_separator, drop_while, drop_until, take_until, to_upper, eq_bytes}

-- action_nt
pub data Action : Type 0 where
  toggle on off : Action

abbrev pub turns_on : Action → Bool
turns_on off = false
turns_on _ = true

abbrev pub turns_off : Action → Bool
turns_off on = false
turns_off _ = true

-- get_label up to the first space.
unfoldable pub label_of : Channel → Bytes
label_of ch = take_until (λ c. c == 32) (take_until (λ c. c == 0) ch.label)

unfoldable pub upper_label : Channel → Bytes
upper_label ch = map to_upper (label_of ch)

abbrev pub elfutils_label : Bytes
elfutils_label = codes "ELFUTILS"

-- As many calls of `on` as are needed at most.
abbrev pub on_fuel : Channel → World → ℕ
on_fuel ch w = suc (pos_part (w.off_cnt ch.index))

-- do { on(); Dout } while (!is_on())
unfoldable pub turn_on_loop : Channel → Channel → Bytes → ℕ → M (Unit {0})
turn_on_loop rcfile ch label zero = skip
turn_on_loop rcfile ch label (suc fuel) = do
  channel_on ch
  say rcfile (turned_on label)
  w ← get
  when (not (channel_is_on ch w)) (turn_on_loop rcfile ch label fuel)

-- while (!is_on()) on()
unfoldable pub on_loop : Channel → ℕ → M (Unit {0})
on_loop ch zero = skip
on_loop ch (suc fuel) = do
  w ← get
  when (not (channel_is_on ch w)) (do channel_on ch; on_loop ch fuel)

unfoldable pub set_elfutils_on : Bool → M (Unit {0})
set_elfutils_on b = do w ← get; put (record w { elfutils_on = b })

unfoldable pub process_elfutils : Known → Channel → Action → M (Unit {0})
process_elfutils k ch action = do
  w ← get
  branch (not w.elfutils_on && turns_on action)
      (do set_elfutils_on true; say k.rcfile (turned_on elfutils_label))
      (when (w.elfutils_on && turns_off action)
        (do set_elfutils_on false; channel_off ch; say k.rcfile (turned_off elfutils_label)))

unfoldable pub process_other : Known → Channel → Action → M (Unit {0})
process_other k ch action = do
  w ← get
  branch (not (channel_is_on ch w) && turns_on action)
      (turn_on_loop k.rcfile ch (upper_label ch) (on_fuel ch w))
      (when (channel_is_on ch w && turns_off action)
        (do channel_off ch; say k.rcfile (turned_off (upper_label ch))))

unfoldable pub process_channel : Known → Bytes → Action → Channel → M (Unit {0})
process_channel k mask action ch = when (match mask (upper_label ch)) (
    branch (eq_bytes (upper_label ch) elfutils_label) (process_elfutils k ch action)
      (process_other k ch action))

-- ForAllDebugChannels
unfoldable pub for_all : (Channel → M (Unit {0})) → List Channel → M (Unit {0})
for_all f [] = skip
for_all f (ch ∷ chs) = do f ch; for_all f chs

-- A turn of the loop over the list, behind the separators in front; `again` is the next one.
unfoldable pub process_turn : (Bytes → M (Unit {0})) → (Bytes → M (Unit {0})) → Bytes → M (Unit {0})
process_turn f again [] = skip
process_turn f again (c ∷ s) = do
  f (map to_upper (take_until is_separator (c ∷ s)))
  again (drop_until is_separator (c ∷ s))

-- Each turn that does not leave the loop shortens the list.
unfoldable pub process_loop : (Bytes → M (Unit {0})) → ℕ → Bytes → M (Unit {0})
process_loop f zero s = skip
process_loop f (suc fuel) s = process_turn f (process_loop f fuel) (drop_while is_separator s)

unfoldable pub move_indent : (ℕ → ℕ) → M (Unit {0})
move_indent f = do w ← get; put (record w { indent = f w.indent })

unfoldable pub process_channels : Known → Bytes → Action → M (Unit {0})
process_channels k s action = do
  move_indent (inc_indent 4)
  process_loop (λ mask. for_all (process_channel k mask action) k.visible) (suc (length s)) s
  move_indent (dec_indent 4)

unfoldable pub all_on_turn : Channel → M (Unit {0})
all_on_turn ch = do
  w ← get
  when (not (eq_bytes (label_of ch) elfutils_label)) (on_loop ch (on_fuel ch w))

unfoldable pub set_all_channels_on : Known → M (Unit {0})
set_all_channels_on k = do say k.rcfile all_on; for_all all_on_turn k.visible; set_elfutils_on true

unfoldable pub off_if_on : Channel → M (Unit {0})
off_if_on ch = do w ← get; when (channel_is_on ch w) (channel_off ch)

unfoldable pub set_all_channels_off : Known → Bool → M (Unit {0})
set_all_channels_off k warning_on = do
  say k.rcfile (all_off warning_on)
  for_all off_if_on k.visible
  when warning_on (channel_on k.warning)
  set_elfutils_on false
