-- ===== src/Rcfile/Locate.antt =====
-- RcFile::determine_rcfile_name and what it calls. CW_DATADIR is what configure found.
use libcwd.Base.{ℕ, Bool, true, false, not, Option, none, some, [], ◌∷◌, ◌++◌, codes}
use libcwd.Rcfile.{
  Bytes, Access, absent, unreadable, readable, Env, Known, M, ◌>>=◌, ◌>>◌, return, die, branch,
  when, get, put, channel_is_on, channel_on, channel_off, say, using_variable, neither_exists,
  using_default, not_readable, no_named_rcfile, no_default_rcfile,
}
use libcwd.Channels.{Channel}

abbrev pub is_empty : Bytes → Bool
is_empty [] = true
is_empty (c ∷ s) = false

unfoldable pub answer : Bytes → Access → M Bool
answer name absent = return false
answer name unreadable = die (not_readable name)
answer name readable = return true

-- S_exists
unfoldable pub exists_ : Env → Bytes → M Bool
exists_ env name = answer name (env.access name)

unfoldable pub print_delayed_msg : Known → ℕ → Bytes → M (Unit {0})
print_delayed_msg k env_var value = say k.rcfile (using_variable env_var value)

unfoldable pub set_env_set : Bool → M (Unit {0})
set_env_set b = do w ← get; put (record w { env_set = b })

-- Run `m` with the channel on: one `on` in front if it is off, and one `off` behind.
unfoldable pub with_on : Channel → M (Unit {0}) → M (Unit {0})
with_on ch m = do
  w ← get
  when (not (channel_is_on ch w)) (channel_on ch)
  m
  when (not (channel_is_on ch w)) (channel_off ch)

abbrev pub in_dir : Bytes → Bytes → Bytes
in_dir dir name = dir ++ 47 ∷ name

-- Without a directory there is no file.
unfoldable pub in_any : (Bytes → M Bool) → Option Bytes → M Bool
in_any f none = return false
in_any f (some dir) = f dir

-- Is it in $HOME?
unfoldable pub in_home : Env → Bytes → M Bool
in_home env rcname =
    in_any (λ home. branch (is_empty home) (return false) (exists_ env (in_dir home rcname)))
      env.home

-- Is it in the directory of the password entry?
unfoldable pub in_pw_dir : Env → Bytes → M Bool
in_pw_dir env rcname = in_any (λ dir. exists_ env (in_dir dir rcname)) env.pw_dir

abbrev pub or_empty : Option Bytes → Bytes
or_empty none = []
or_empty (some s) = s

abbrev pub or_home : Option Bytes → Bytes
or_home none = codes "$HOME"
or_home (some s) = s

-- Nowhere: the default file of $datadir, unless the name was given.
unfoldable pub fall_back : Known → Env → Bytes → Bytes → Bytes → M Bytes
fall_back k env datadir rcname homedir = do
  w ← get
  branch w.env_set (do print_delayed_msg k 0 rcname; die no_named_rcfile)
      (do
        let rcfile_name = datadir ++ codes "/libcwd/libcwdrc"
        found ← exists_ env rcfile_name
        branch (not found) (die no_default_rcfile) (do
          with_on k.warning (do
            say k.warning (neither_exists rcname homedir)
            say k.warning (using_default rcfile_name))
          return rcfile_name))

unfoldable pub search_home : Known → Env → Bytes → Bytes → M Bytes
search_home k env datadir rcname = do
  home ← in_home env rcname
  branch home
      (do
        -- `homedir` is set, so the file is looked for once more.
        again ← exists_ env (in_dir (or_empty env.home) rcname)
        branch again (return (in_dir (or_empty env.home) rcname))
            (fall_back k env datadir rcname (or_empty env.home)))
      (do
        found ← in_pw_dir env rcname
        branch found (return (in_dir (or_empty env.pw_dir) rcname))
            (fall_back k env datadir rcname (or_home env.pw_dir)))

unfoldable pub name_of_rcfile : Env → Bytes
name_of_rcfile env = elim env.rcfile_name [ none ↦ codes ".libcwdrc" | some name ↦ name ]

abbrev pub is_set : Option Bytes → Bool
is_set none = false
is_set (some s) = true

unfoldable pub determine_rcfile_name : Known → Env → Bytes → M Bytes
determine_rcfile_name k env datadir = do
  when (is_set env.rcfile_name) (set_env_set true)
  here ← exists_ env (name_of_rcfile env)
  branch here (return (name_of_rcfile env)) (search_home k env datadir (name_of_rcfile env))
