-- ===== src/Rcfile/Kept.antt =====
-- What the operations on channels leave of the switches.
use libcwd.Base.{ℕ, suc, zero, ◌≡◌, ◌≢◌, Bool, false, List, [], ◌∷◌, All}
use libcwd.Base.Int.{ℤ}
use libcwd.Channels.{Channel}
use libcwd.Rcfile.{Bytes, World, M, ◌>>=◌, Known, get, put, channel_is_on}
use libcwd.Rcfile.Switching.{
  Action, for_all, turn_on_loop, on_loop, set_elfutils_on, process_elfutils, process_other,
  process_channel, process_loop, process_turn, process_channels, move_indent, all_on_turn,
  set_all_channels_on, off_if_on,
}
use libcwd.Rcfile.Sound.{keeps, Keeps, Keeps-skip, Keeps-bind}
use libcwd.Rcfile.Text.{is_separator, drop_while}

module _ (i : ℕ) (n : ℤ) where
  pub Keeps-on_loop :
      (ch : Channel) (fuel : ℕ) (w : World) → ch.index ≢ i → Keeps i n (on_loop ch fuel) w
  unfolding on_loop
  Keeps-on_loop ch zero w h = Keeps-skip i n w
  Keeps-on_loop ch (suc fuel) w h = search (keeps, Keeps-on_loop ch fuel) depth 8

  pub Keeps-turn_on_loop :
      (rcfile ch : Channel) (label : Bytes) (fuel : ℕ) (w : World)
      → ch.index ≢ i
      → channel_is_on ch w ≡ false
      → Keeps i n (turn_on_loop rcfile ch label fuel) w
  unfolding turn_on_loop
  Keeps-turn_on_loop rcfile ch label zero w h e = Keeps-skip i n w
  Keeps-turn_on_loop rcfile ch label (suc fuel) w h e =
      search (keeps, Keeps-turn_on_loop rcfile ch label fuel) depth 8

  pub Keeps-set_elfutils_on : (b : Bool) (w : World) → Keeps i n (set_elfutils_on b) w
  unfolding set_elfutils_on Keeps ◌>>=◌ get put
  Keeps-set_elfutils_on b w s = s

  pub Keeps-move_indent : (f : ℕ → ℕ) (w : World) → Keeps i n (move_indent f) w
  unfolding move_indent Keeps ◌>>=◌ get put
  Keeps-move_indent f w s = s

  pub Keeps-process_channel :
      (k : Known) (mask : Bytes) (action : Action) (ch : Channel) (w : World)
      → ch.index ≢ i
      → Keeps i n (process_channel k mask action ch) w
  unfolding process_channel process_elfutils process_other
  Keeps-process_channel k mask action ch w h =
      search (keeps, Keeps-turn_on_loop, Keeps-set_elfutils_on) depth 9

  pub Keeps-process_turn :
      (f again : Bytes → M (Unit {0})) (s : Bytes) (w : World)
      → ((mask : Bytes) (v : World) → Keeps i n (f mask) v)
      → ((t : Bytes) (v : World) → Keeps i n (again t) v)
      → Keeps i n (process_turn f again s) w
  unfolding process_turn
  Keeps-process_turn f again [] w h h' = Keeps-skip i n w
  Keeps-process_turn f again (c ∷ s) w h h' = search (keeps, h, h')

  pub Keeps-process_loop :
      (f : Bytes → M (Unit {0})) (fuel : ℕ) (s : Bytes) (w : World)
      → ((mask : Bytes) (v : World) → Keeps i n (f mask) v)
      → Keeps i n (process_loop f fuel s) w
  unfolding process_loop
  Keeps-process_loop f zero s w h = Keeps-skip i n w
  Keeps-process_loop f (suc fuel) s w h =
      Keeps-process_turn f (process_loop f fuel) (drop_while is_separator s) w h
        (λ t v. Keeps-process_loop f fuel t v h)

  module _ (k : Known) (apart : All (λ ch. ch.index ≢ i) k.visible) where
    pub Keeps-each :
        (f : Channel → M (Unit {0})) (chs : List Channel) (w : World)
        → ((ch : Channel) (v : World) → ch.index ≢ i → Keeps i n (f ch) v)
        → All (λ ch. ch.index ≢ i) chs
        → Keeps i n (for_all f chs) w
    unfolding for_all
    Keeps-each f [] w h hs = Keeps-skip i n w
    Keeps-each f (ch ∷ chs) w h hs =
        Keeps-bind i n (f ch) (λ _. for_all f chs) w (h ch w hs.0)
          (λ a v. Keeps-each f chs v h hs.1)

    pub Keeps-process_channels :
        (s : Bytes) (action : Action) (w : World) → Keeps i n (process_channels k s action) w
    unfolding process_channels
    Keeps-process_channels s action w =
        search (keeps, Keeps-process_loop, Keeps-move_indent, Keeps-each, Keeps-process_channel)
          depth 9

    pub Keeps-all_on_turn : (ch : Channel) (w : World) → ch.index ≢ i → Keeps i n (all_on_turn ch) w
    unfolding all_on_turn
    Keeps-all_on_turn ch w h = search (keeps, Keeps-on_loop)

    pub Keeps-set_all_channels_on : (w : World) → Keeps i n (set_all_channels_on k) w
    unfolding set_all_channels_on
    Keeps-set_all_channels_on w =
        search (keeps, Keeps-set_elfutils_on, Keeps-each, Keeps-all_on_turn) depth 9

    pub Keeps-off_if_on : (ch : Channel) (w : World) → ch.index ≢ i → Keeps i n (off_if_on ch) w
    unfolding off_if_on
    Keeps-off_if_on ch w h = search (keeps)
