-- ===== src/Rcfile/Read.antt =====
-- RcFile::read. `unset` is the value that the uninitialized `default_is_on` happens to have, and
-- `unknown_keyword` is the virtual function of that name. The channels are registered, so that the
-- NS_initialize of Channel::force_on does nothing.
use libcwd.Base.{
  ℕ, ◌+◌, Bool, true, false, not, ◌&&◌, ◌||◌, Option, none, some, List, [], ◌∷◌, ◌==◌, codes,
}
use libcwd.Base.Int.{ℤ}
use libcwd.Dout.{update}
use libcwd.Channels.{Channel}
use libcwd.Switches.{force_on, restore}
use libcwd.Rcfile.{
  Bytes, Env, Known, M, ◌>>=◌, ◌>>◌, return, die, branch, when, get, put, channel_is_on, channel_on,
  channel_off, set_off_cnt, say, entry, already_set, unknown, syntax_error, toggle_before_default,
  not_balanced,
}
use libcwd.Rcfile.Text.{Line, ignored, malformed, setting, interpret, lines, eq_bytes}
use libcwd.Rcfile.Switching.{
  toggle, on, off, process_channels, set_all_channels_on, set_all_channels_off, set_elfutils_on,
  on_loop, on_fuel,
}
use libcwd.Rcfile.Locate.{with_on, print_delayed_msg, set_env_set, determine_rcfile_name}

-- The local variables of `read`. `defaults i` is channels_default_set[i].
pub record Reading : Type 0 where
  pub rcfile_on : Bool
  pub defaults : ℕ → ℕ
  pub default_is_on : Bool
  pub did_reset : Bool

-- Where in what file the loop is.
pub record Place : Type 0 where
  pub rcfiles : ℕ
  pub name : Bytes
  pub lines_read : ℕ

-- How a turn of the loop ends.
pub data Turn : Type 0 where
  next : Reading → Turn
  leave : Turn

abbrev pub is : Bytes → Bytes → Bool
is = eq_bytes

unfoldable pub run_force_on : Channel → M ℤ
run_force_on ch = do
  w ← get
  put (set_off_cnt ch (force_on (w.off_cnt ch.index)).1 w)
  return (force_on (w.off_cnt ch.index)).0

unfoldable pub put_back : Channel → Option ℤ → M (Unit {0})
put_back ch none = die not_balanced
put_back ch (some n) = do w ← get; put (set_off_cnt ch n w)

unfoldable pub run_restore : Channel → ℤ → M (Unit {0})
run_restore ch state = do w ← get; put_back ch (restore state (w.off_cnt ch.index))

unfoldable pub silent : Known → Bytes → Reading → M Turn
silent k value r = do
  w ← get
  branch (is value (codes "on"))
      (branch (channel_is_on k.rcfile w)
        (do channel_off k.rcfile; return (next (record r { rcfile_on = false }))) (return (next r)))
      (branch (is value (codes "off") && not (channel_is_on k.rcfile w))
        (do channel_on k.rcfile; return (next (record r { rcfile_on = true }))) (return (next r)))

unfoldable pub channels_default : Known → Place → Bytes → Reading → M Turn
channels_default k p value r =
    branch (not (r.defaults p.rcfiles == 0))
      (do
        with_on k.warning (say k.warning (already_set p.name p.lines_read (r.defaults p.rcfiles)))
        return (next r))
      (let r' = record r { defaults = update r.defaults p.rcfiles p.lines_read } in
        branch (is value (codes "on"))
          (do set_all_channels_on k; return (next (record r' { default_is_on = true })))
          (branch (is value (codes "off"))
            (do set_all_channels_off k false; return (next (record r' { default_is_on = false })))
            (return leave)))

unfoldable pub channels_toggle : Known → Place → Bytes → Reading → M Turn
channels_toggle k p value r =
    branch (r.defaults p.rcfiles == 0 && r.defaults 0 == 0)
      (die (toggle_before_default p.name p.lines_read))
      (do process_channels k value toggle; return (next r))

abbrev pub saw_default : Reading → Bool
saw_default r = not (r.defaults 0 == 0) || not (r.defaults 1 == 0)

-- The first channels_on or channels_off of the second file resets the channels, unless they are as
-- it expects.
unfoldable pub channels_on : Known → Place → Bytes → Reading → M Turn
channels_on k p value r =
    branch (not r.did_reset && p.rcfiles == 1 && (not (saw_default r) || r.default_is_on))
      (do
        set_all_channels_off k (not (saw_default r))
        process_channels k value on
        return (next (record r { did_reset = true })))
      (do process_channels k value on; return (next r))

unfoldable pub channels_off : Known → Place → Bytes → Reading → M Turn
channels_off k p value r =
    branch (not r.did_reset && p.rcfiles == 1 && saw_default r && not r.default_is_on)
      (do
        set_all_channels_on k
        process_channels k value off
        return (next (record r { did_reset = true })))
      (do process_channels k value off; return (next r))

unfoldable pub warn_unknown : Known → Place → Bytes → M (Unit {0})
warn_unknown k p keyword = do
  state ← run_force_on k.warning
  say k.warning (unknown p.name p.lines_read keyword)
  run_restore k.warning state

unfoldable pub set_gdb_bin : Bytes → M (Unit {0})
set_gdb_bin value = do w ← get; put (record w { gdb_bin = value })

unfoldable pub set_konsole_command : Bytes → M (Unit {0})
set_konsole_command value = do w ← get; put (record w { konsole_command = value })

unfoldable pub announce : Known → Place → Bytes → Bytes → M (Unit {0})
announce k p keyword value = do
  w ← get
  when w.env_set (do print_delayed_msg k p.rcfiles p.name; set_env_set false)
  say k.rcfile (entry p.name p.lines_read keyword value)

unfoldable pub finish_read : Known → Reading → ℤ → M (Unit {0})
finish_read k r state = do
  when (not r.rcfile_on) (channel_on k.rcfile)
  run_restore k.rcfile state
  w ← get
  when w.elfutils_on (on_loop k.elfutils (on_fuel k.elfutils w))
  v ← get
  put (record v { read_called = true })

module _ (unknown_keyword : Bytes → Bytes → M Bool) (k : Known) where
  unfoldable pub other_keyword : Place → Bytes → Bytes → Reading → M Turn
  other_keyword p keyword value r = do
    is_unknown ← unknown_keyword keyword value
    when is_unknown (warn_unknown k p keyword)
    return (next r)

  unfoldable pub by_keyword : Place → Bytes → Bytes → Reading → M Turn
  by_keyword p keyword value r =
      branch (is keyword (codes "gdb")) (do set_gdb_bin value; return (next r))
        (branch (is keyword (codes "xterm")) (do set_konsole_command value; return (next r))
          (branch (is keyword (codes "channels_default")) (channels_default k p value r) (
            branch (is keyword (codes "channels_toggle")) (channels_toggle k p value r) (
              branch (is keyword (codes "channels_on")) (channels_on k p value r) (
                branch (is keyword (codes "channels_off")) (channels_off k p value r)
                  (other_keyword p keyword value r))))))

  unfoldable pub handle : Place → Bytes → Bytes → Reading → M Turn
  handle p keyword value r =
      branch (is keyword (codes "silent")) (silent k value r)
        (do announce k p keyword value; by_keyword p keyword value r)

  unfoldable pub turn : Place → Line → Reading → M Turn
  turn p ignored r = return (next r)
  turn p malformed r = return leave
  turn p (setting keyword value) r = handle p keyword value r

  unfoldable pub after_turn : (Reading → M Reading) → M Reading → Turn → M Reading
  after_turn again failed (next r) = again r
  after_turn again failed leave = failed

  -- The loop over the lines, and the test of syntax_error behind it.
  unfoldable pub read_lines : Place → List Bytes → Reading → M Reading
  read_lines p [] r = return r
  read_lines p (line ∷ rest) r = do
    let here = record p { lines_read = p.lines_read + 1 }
    t ← turn here (interpret line) r
    after_turn (read_lines here rest) (die (syntax_error here.name here.lines_read)) t

  unfoldable pub read_file : Env → ℕ → Bytes → Reading → M Reading
  read_file env rcfiles name r =
      read_lines (record { rcfiles = rcfiles; name = name; lines_read = 0 })
        (lines (env.content name)) (record r { did_reset = false })

  -- LIBCWD_RCFILE_OVERRIDE_NAME
  unfoldable pub read_override : Env → Option Bytes → Reading → M Reading
  read_override env none r = return r
  read_override env (some name) r = do
    set_env_set true
    r' ← read_file env 1 name r
    set_env_set true
    return r'

  unfoldable pub read_files : Env → Bytes → Reading → M Reading
  read_files env name r = do r' ← read_file env 0 name r; read_override env env.override_name r'

  unfoldable pub read : Env → Bytes → Bool → M (Unit {0})
  read env datadir unset = do
    state ← run_force_on k.rcfile
    name ← determine_rcfile_name k env datadir
    w ← get
    set_elfutils_on (channel_is_on k.elfutils w)
    r ←
        read_files env name
          (record { rcfile_on = true; defaults = λ i. 0; default_is_on = unset; did_reset = false })
    finish_read k r state
