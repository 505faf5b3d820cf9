-- ===== src/Channels/Samples.antt =====
-- A small registry.
use libcwd.Base.{ℕ, ◌-◌, ◌≡◌, refl, true, none, some, [], ◌∷◌, ◌++◌, codes, replicate, map, arith}
use libcwd.Base.Int.{ℤ}
use libcwd.Channels.Labels.{label_end, relabelled}
use libcwd.Channels.Registered.{IsOrdered, IsPlaced, width_with, initialize_channel-IsOrdered}
use libcwd.Channels.{
  Channel, Registry, Bytes, initialize_channel, find, find_from, is_prefix, lower, greater,
}
use libcwd.Channels.Order.{IsSorted, Finds, find-largest}

abbrev channel_of : Bytes → ℕ → Channel
channel_of text index = record { label = text ++ (0 ∷ []); index = index }

abbrev foo : Channel
foo = channel_of (codes "FOO ") 1

abbrev foot : Channel
foot = channel_of (codes "FOOT") 2

abbrev some_channels : Registry
some_channels = record {
  visible = foo ∷ foot ∷ [];
  hidden = [];
  next_index = 2;
  max_len = 4;
  core = codes "COREDUMP";
  fatal = codes "FATAL   ";
}

some_channels-IsSorted : IsSorted 4 (foo ∷ foot ∷ [])
unfolding greater
some_channels-IsSorted = ((refl, tt), (tt, tt))

find_run : find (codes "foo") some_channels ≡ some foot
unfolding find find_from is_prefix lower
find_run = refl

abbrev empty : Registry
empty = record {
  visible = [];
  hidden = [];
  next_index = 0;
  max_len = 4;
  core = replicate 17 32;
  fatal = replicate 17 32;
}

abbrev labelled : Bytes → ℕ → Channel
labelled text index = record { label = text ++ label_end 4; index = index }

abbrev narrow : Registry
narrow = record some_channels {
  visible = labelled (codes "FOO ") 1 ∷ labelled (codes "FOOT") 2 ∷ [];
}

narrow-IsOrdered : IsOrdered narrow
unfolding greater
narrow-IsOrdered = (
  omega arith,
  ((codes "FOO ", refl, refl), ((codes "FOOT", refl, refl), tt)),
  ((refl, tt), (tt, tt)),
)

initialize_channel-IsOrdered_example :
    (r' : Registry) × (ch : Channel) × (off_cnt : ℤ) × (initialize_channel
        (codes "FOLDER")
        true
        narrow
      ≡ some (r', ch, off_cnt))
    × (r'.max_len ≡ width_with 6 narrow)
    × (ch.index ≡ 3)
    × (ch.label ≡ codes "FOLDER" ++ (replicate (r'.max_len - 6) 32 ++ label_end r'.max_len))
    × IsOrdered r'
    × IsPlaced true ch (map (relabelled 4 r'.max_len) narrow.visible) r'.visible
initialize_channel-IsOrdered_example =
    initialize_channel-IsOrdered (codes "FOLDER") true narrow narrow-IsOrdered (omega arith)

find-largest_example :
    Finds 4 (codes "foo") none (foo ∷ foot ∷ []) (find (codes "foo") some_channels)
find-largest_example = find-largest (codes "foo") some_channels some_channels-IsSorted
