-- ===== src/Switches/Samples.antt =====
-- A few switches.
use libcwd.Base.{◌≡◌, codes, none, true, [], ◌∷◌, some, none, ◌>>=◌, ◌==◌, if◌then◌else◌}
use libcwd.Base.Int.{pos}
use libcwd.Switches.Forced.{ChannelState, ns_initialize, forced, forced_lem}
use libcwd.Switches.{turn_off, turn_on, run, pending, level, map_level, run-level}

run-level_example :
    run (turn_off ∷ turn_off ∷ turn_on ∷ []) (level 0)
    ≡ map_level (pending (turn_off ∷ turn_off ∷ turn_on ∷ []) 0)
run-level_example = run-level (turn_off ∷ turn_off ∷ turn_on ∷ []) 0

abbrev fresh : ChannelState
fresh = record {
  registry = record {
    visible = [];
    hidden = [];
    next_index = 0;
    max_len = 4;
    core = codes "CORE";
    fatal = codes "FATAL";
  };
  off_cnt_array = λ j. pos 0;
  channel = none;
}

forced_lem_example : forced (codes "NOTICE") (turn_off ∷ turn_on ∷ []) fresh ≡ (
    ns_initialize (codes "NOTICE") true fresh >>= λ c.
    pending (turn_off ∷ turn_on ∷ []) 0 >>= λ k. if k == 0 then some (c.1) else none)
forced_lem_example = forced_lem (codes "NOTICE") (turn_off ∷ turn_on ∷ []) fresh
