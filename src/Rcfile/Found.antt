-- ===== src/Rcfile/Found.antt =====
-- What the search for the configuration file leaves of the switches.
use libcwd.Base.{ℕ, ◌≢◌, Bool, none, Option, some}
use libcwd.Base.Int.{ℤ}
use libcwd.Channels.{Channel}
use libcwd.Rcfile.{
  Bytes, Known, Env, Access, World, M, ◌>>=◌, get, put, absent, unreadable, readable, not_readable,
}
use libcwd.Rcfile.Sound.{keeps, Keeps-die, Keeps}
use libcwd.Rcfile.Locate.{
  exists_, print_delayed_msg, set_env_set, with_on, in_home, in_pw_dir, fall_back, search_home,
  answer, in_any, determine_rcfile_name,
}

module _ (i : ℕ) (n : ℤ) where
  Keeps-answer : (name : Bytes) (a : Access) (w : World) → Keeps i n (answer name a) w
  unfolding answer
  Keeps-answer name absent w = search (keeps)
  Keeps-answer name unreadable w = Keeps-die i n Bool (not_readable name) w tt
  Keeps-answer name readable w = search (keeps)

  Keeps-exists_ : (env : Env) (name : Bytes) (w : World) → Keeps i n (exists_ env name) w
  unfolding exists_
  Keeps-exists_ env name w = Keeps-answer name (env.access name) w

  pub Keeps-set_env_set : (b : Bool) (w : World) → Keeps i n (set_env_set b) w
  unfolding set_env_set Keeps ◌>>=◌ get put
  Keeps-set_env_set b w s = s

  pub Keeps-with_on :
      (ch : Channel) (m : M (Unit {0})) (w : World)
      → ch.index ≢ i
      → ((v : World) → Keeps i n m v)
      → Keeps i n (with_on ch m) w
  unfolding with_on
  Keeps-with_on ch m w h hm = search (keeps, hm) depth 8

  Keeps-in_any :
      (f : Bytes → M Bool) (d : Option Bytes) (w : World)
      → ((s : Bytes) (v : World) → Keeps i n (f s) v)
      → Keeps i n (in_any f d) w
  unfolding in_any
  Keeps-in_any f none w h = search (keeps)
  Keeps-in_any f (some s) w h = h s w

  Keeps-fall_back :
      (k : Known) (env : Env) (datadir rcname homedir : Bytes) (w : World)
      → k.warning.index ≢ i
      → Keeps i n (fall_back k env datadir rcname homedir) w
  unfolding fall_back print_delayed_msg
  Keeps-fall_back k env datadir rcname homedir w h =
      search (keeps, Keeps-with_on, Keeps-exists_, Keeps-die) depth 10

  pub Keeps-determine_rcfile_name :
      (k : Known) (env : Env) (datadir : Bytes) (w : World)
      → k.warning.index ≢ i
      → Keeps i n (determine_rcfile_name k env datadir) w
  unfolding determine_rcfile_name search_home in_home in_pw_dir
  Keeps-determine_rcfile_name k env datadir w h =
      search (keeps, Keeps-fall_back, Keeps-exists_, Keeps-in_any, Keeps-set_env_set) depth 10
