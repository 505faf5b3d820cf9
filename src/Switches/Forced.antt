-- ===== src/Switches/Forced.antt =====
-- Channel::force_on and Channel::restore of src/debug.cxx, with the registration of a channel that is
-- not registered yet, and calls of Channel::off and Channel::on between them.
use libcwd.Base.{
  ℕ, suc, zero, ◌≡◌, refl, ◌∙◌, ap, Bool, true, Option, none, some, List, [], ◌∷◌, ◌==◌,
  if◌then◌else◌, arith, ◌>>=◌,
}
use libcwd.Base.Int.{ℤ}
use libcwd.Channels.{Bytes, Channel, Registry, initialize_channel, off, on}
use libcwd.Dout.{update}
use libcwd.Dout.Store.{update_self, update-update, update_same}
use libcwd.Switches.{
  Switch, turn_off, turn_on, run, pending, level, map_level, run-level, force_on, restore,
}

-- The registry, off_cnt_array of the thread, and the channel once it is initialized.
pub record ChannelState : Type 0 where
  pub registry : Registry
  pub off_cnt_array : ℕ → ℤ
  pub channel : Option Channel

unfoldable pub registered : Registry × Channel × ℤ → ChannelState → Channel × ChannelState
registered (r, ch, off_cnt) s = (
  ch,
  record {
    registry = r;
    off_cnt_array = update s.off_cnt_array ch.index off_cnt;
    channel = some ch;
  },
)

-- Channel::NS_initialize: nothing for a channel that is initialized. `none` is the DoutFatal.
unfoldable pub ns_initialize : Bytes → Bool → ChannelState → Option (Channel × ChannelState)
ns_initialize label add_to_channel_list s = elim s.channel [
  | some ch ↦ some (ch, s)
  | none ↦
      initialize_channel label add_to_channel_list s.registry >>= λ new. some (registered new s)
]

abbrev pub set_entry : Channel → ℤ → ChannelState → ChannelState
set_entry ch n s = record s { off_cnt_array = update s.off_cnt_array ch.index n }

-- The channel, what is saved in `state`, and what is left, behind NS_initialize.
unfoldable pub hold_on : Channel × ChannelState → Channel × ℤ × ChannelState
hold_on (ch, s) =
    let forced = force_on (s.off_cnt_array ch.index) in (ch, forced.0, set_entry ch forced.1 s)

unfoldable pub channel_force_on : Bytes → ChannelState → Option (Channel × ℤ × ChannelState)
channel_force_on label s = ns_initialize label true s >>= λ c. some (hold_on c)

unfoldable pub channel_restore : Channel → ℤ → ChannelState → Option ChannelState
channel_restore ch saved s =
    restore saved (s.off_cnt_array ch.index) >>= λ n. some (set_entry ch n s)

-- Channel::off and Channel::on of a channel.
abbrev pub run_at : Channel → List Switch → ChannelState → Option ChannelState
run_at ch [] s = some s
run_at ch (turn_off ∷ ops) s = run_at ch ops (set_entry ch (off (s.off_cnt_array ch.index)) s)
run_at ch (turn_on ∷ ops) s =
    on (s.off_cnt_array ch.index) >>= λ n. run_at ch ops (set_entry ch n s)

-- force_on, the calls, and restore with what force_on has saved.
abbrev pub forced : Bytes → List Switch → ChannelState → Option ChannelState
forced label ops s =
    channel_force_on label s >>= λ f. run_at f.0 ops (f.2) >>= channel_restore f.0 (f.1)

set_entry-set_entry :
    (ch : Channel) (n m : ℤ) (s : ChannelState)
    → set_entry ch m (set_entry ch n s) ≡ set_entry ch m s
set_entry-set_entry ch n m s =
    ap (λ f. record s { off_cnt_array = f }) (update-update s.off_cnt_array ch.index n m)

bind_some :
    (f : ℤ → Option ChannelState) (g : ℤ → Option ℤ) (h : ℤ → Option ChannelState) (o : Option ℤ)
    → ((m : ℤ) → f m ≡ (g m >>= h))
    → (o >>= f) ≡ (o >>= g >>= h)
bind_some f g h none e = refl
bind_some f g h (some m) e = e m

run_at-run :
    (ch : Channel) (ops : List Switch) (n : ℤ) (s : ChannelState)
    → run_at ch ops (set_entry ch n s) ≡ (run ops n >>= λ m. some (set_entry ch m s))
run_at-run ch [] n s = refl
run_at-run ch (turn_off ∷ ops) n s =
    ap (λ m. run_at ch ops (set_entry ch (off m) (set_entry ch n s)))
      (update_self s.off_cnt_array ch.index n)
    ∙ ap (run_at ch ops) (set_entry-set_entry ch n (off n) s)
    ∙ run_at-run ch ops (off n) s
run_at-run ch (turn_on ∷ ops) n s =
    ap (λ m. on m >>= λ m'. run_at ch ops (set_entry ch m' (set_entry ch n s)))
      (update_self s.off_cnt_array ch.index n)
    ∙ bind_some _ _ _ (on n)
        (λ m. ap (run_at ch ops) (set_entry-set_entry ch n m s) ∙ run_at-run ch ops m s)

restore-level : (n : ℤ) (k : ℕ) → restore n (level k) ≡ (if k == 0 then some n else none)
unfolding restore
restore-level n zero = refl
restore-level n (suc k) = ground arith

put_back :
    (ch : Channel) (m : ℤ) (s : ChannelState) (k : ℕ)
    → ((if k == 0 then some (s.off_cnt_array ch.index) else none) >>= λ n.
        some (set_entry ch n (set_entry ch m s)))
      ≡ (if k == 0 then some s else none)
put_back ch m s zero = ap some (
    set_entry-set_entry ch m (s.off_cnt_array ch.index) s
    ∙ ap (λ f. record s { off_cnt_array = f }) (update_same s.off_cnt_array ch.index _ refl))
put_back ch m s (suc k) = ground arith

restored :
    (ch : Channel) (s : ChannelState) (o : Option ℕ)
    → (map_level o
        >>= (λ m. some (set_entry ch m s))
        >>= channel_restore ch (s.off_cnt_array ch.index))
      ≡ (o >>= λ k. if k == 0 then some s else none)
unfolding channel_restore
restored ch s none = refl
restored ch s (some k) =
    ap
      (λ m. restore (s.off_cnt_array ch.index) m >>= λ n.
        some (set_entry ch n (set_entry ch (level k) s)))
      (update_self s.off_cnt_array ch.index (level k))
    ∙ ap (λ o. o >>= λ n. some (set_entry ch n (set_entry ch (level k) s)))
        (restore-level (s.off_cnt_array ch.index) k)
    ∙ put_back ch (level k) s k

after_initialize :
    (ops : List Switch) (o : Option (Channel × ChannelState))
    → (o >>= (λ c. some (hold_on c)) >>= λ f. run_at f.0 ops (f.2) >>= channel_restore f.0 (f.1))
      ≡ (o >>= λ c. pending ops 0 >>= λ k. if k == 0 then some (c.1) else none)
unfolding hold_on force_on
after_initialize ops none = refl
after_initialize ops (some (ch, s)) =
    ap (λ o. o >>= channel_restore ch (s.off_cnt_array ch.index))
      (run_at-run ch ops (level 0) s
        ∙ ap (λ o. o >>= λ m. some (set_entry ch m s)) (run-level ops 0))
    ∙ restored ch s (pending ops 0)

-- Channel::force_on of a channel, calls of its off and on, and Channel::restore: the channel is
-- registered if it was not, and the program dies if its label is too long then. Each `off` must be
-- cancelled by an `on` behind it: then all is as it was once the channel was registered, its switch
-- too, whatever that was. Otherwise the program dies, of an `on` too many or in restore.
pub forced_lem :
    (label : Bytes) (ops : List Switch) (s : ChannelState)
    → forced label ops s ≡ (
        ns_initialize label true s >>= λ c.
        pending ops 0 >>= λ k. if k == 0 then some (c.1) else none)
unfolding channel_force_on
forced_lem label ops s = after_initialize ops (ns_initialize label true s)
