-- ===== src/Rcfile/Restored.antt =====
-- RcFile::read as a whole: how it may end, and what it leaves of the switches.
use libcwd.Base.{
  ℕ, ◌≡◌, refl, sym, Bool, true, false, not, none, some, Option, List, [], ◌∷◌, arith,
}
use mathlib.Core.Path.{subst}
use libcwd.Base.Int.{ℤ, pos, minus_one}
use libcwd.Rcfile.{
  Bytes, Known, Env, World, M, ◌>>=◌, ◌>>◌, get, put, return, when, channel_on, channel_is_on,
  syntax_error,
}
use libcwd.Rcfile
use libcwd.Rcfile.Locate
use libcwd.Rcfile.Locate.{determine_rcfile_name}
use libcwd.Rcfile.Text.{lines}
use libcwd.Rcfile.Sound.{keeps, Ends, Ends-bind, Ends-get, IsSwitch, IsSound, Post, Post-bind}
use libcwd.Rcfile.Kept.{Keeps-on_loop, Keeps-set_elfutils_on}
use libcwd.Rcfile.Passes.{channel_on_at}
use libcwd.Rcfile.Found.{Keeps-set_env_set, Keeps-determine_rcfile_name}
use libcwd.Rcfile.Turns.{IsKnown, IsTurn, expected, IsSound-reset, on-expected, run_restore_world}
use libcwd.Rcfile.Keywords.{IsHarmless, Ends-turn}
use libcwd.Switches.{is_on, force_on}
use libcwd.Rcfile.Switching.{on_loop, on_fuel, set_elfutils_on}
use libcwd.Rcfile.Read.{
  Reading, Place, Turn, next, leave, run_force_on, after_turn, read_lines, read_file, read_override,
  read_files, finish_read, read,
}

Ends-run :
    {A : Type 0} (i : ℕ) (n : ℤ) (Q : A → World → Type 0) (m : M A) (w : World)
    → Ends i n Q m w
    → IsSound i n w.off_cnt
    → Post Q (m w)
unfolding Ends
Ends-run i n Q m w h = h

-- `m` comes to `P`, and then `f` to `Q`.
Ends-then :
    {A B : Type 0} (i : ℕ) (n : ℤ) (P : A → World → Type 0) (Q : B → World → Type 0) (m : M A)
    (f : A → M B) (w : World)
    → Ends i n P m w
    → ((a : A) (v : World) → P a v → Post Q (f a v))
    → Ends i n Q (m >>= f) w
unfolding Ends
Ends-then i n P Q m f w h k s = Post-bind P Q m f w (h s) k

module _ (k : Known) (hk : IsKnown k) (f : Bytes → Bytes → M Bool) (hf : IsHarmless f) where
  abbrev IsReading : Reading → World → Type 0
  IsReading r w = IsSound k.rcfile.index (expected r.rcfile_on) w.off_cnt

  -- `r` says how the switch is, and so does what `m` returns.
  abbrev Reads : Reading → M Reading → World → Type 0
  Reads r m w = Ends k.rcfile.index (expected r.rcfile_on) IsReading m w

  Ends-return : (r : Reading) (w : World) → Reads r (return r) w
  unfolding Ends return
  Ends-return r w s = s

  after_turn-Post :
      (again : Reading → M Reading) (name : Bytes) (n : ℕ) (t : Turn) (w : World)
      → ((r : Reading) → Reads r (again r) w)
      → IsTurn k hk t w
      → Post IsReading (after_turn f k again (Rcfile.die (syntax_error name n)) t w)
  unfolding after_turn Ends Rcfile.die
  after_turn-Post again name n (next r) w h s = h r s
  after_turn-Post again name n leave w h s = tt

  Ends-read_lines :
      (ls : List Bytes) (p : Place) (r : Reading) (w : World) → Reads r (read_lines f k p ls r) w
  unfolding read_lines
  Ends-read_lines [] p r w = Ends-return r w
  Ends-read_lines (line ∷ ls) p r w =
      Ends-then k.rcfile.index (expected r.rcfile_on) (IsTurn k hk) IsReading _ _ w
        (Ends-turn k hk f hf _ _ r w)
        (λ t v. after_turn-Post _ _ _ t v (λ r'. Ends-read_lines ls _ r' v))

  Ends-read_file :
      (env : Env) (rcfiles : ℕ) (name : Bytes) (r : Reading) (w : World)
      → Reads r (read_file f k env rcfiles name r) w
  unfolding read_file
  Ends-read_file env rcfiles name r w =
      Ends-read_lines (lines (env.content name)) _ (record r { did_reset = false }) w

  Ends-marked :
      (r r' : Reading) (w : World)
      → IsReading r' w
      → Post IsReading ((Locate.set_env_set true >>= λ _. return r') w)
  unfolding Locate.set_env_set ◌>>=◌ get put return
  Ends-marked r r' w s = s

  Ends-read_override :
      (env : Env) (name : Option Bytes) (r : Reading) (w : World)
      → Reads r (read_override f k env name r) w
  unfolding read_override
  Ends-read_override env none r w = Ends-return r w
  Ends-read_override env (some name) r w =
      let n = expected r.rcfile_on in
      Ends-bind k.rcfile.index n _ _ _ w (Keeps-set_env_set k.rcfile.index n true w) (λ _ v.
        Ends-then k.rcfile.index n IsReading IsReading _ _ v (Ends-read_file env 1 name r v)
          (λ r' u. Ends-marked r r' u))

  Ends-read_files :
      (env : Env) (name : Bytes) (r : Reading) (w : World) → Reads r (read_files f k env name r) w
  unfolding read_files
  Ends-read_files env name r w =
      Ends-then k.rcfile.index (expected r.rcfile_on) IsReading IsReading _ _ w
        (Ends-read_file env 0 name r w)
        (λ r' v.
          Ends-run k.rcfile.index (expected r'.rcfile_on) IsReading _ v
            (Ends-read_override env env.override_name r' v))

-- No switch is below -1, that of dc::rcfile is `n`, and `read_called` is set.
abbrev pub IsRestored : Known → ℤ → World → Type 0
IsRestored k n v =
    ((j : ℕ) → IsSwitch (v.off_cnt j)) × ((v.off_cnt k.rcfile.index ≡ n) × (v.read_called ≡ true))

module _ (k : Known) (hk : IsKnown k) where
  -- Whatever the file said last, the channel is on again.
  Ends-balance :
      (b : Bool) (w : World)
      → IsSound k.rcfile.index (expected b) w.off_cnt
      → Post
          (λ _ v. IsSound k.rcfile.index minus_one v.off_cnt)
          (when (not b) (channel_on k.rcfile) w)
  unfolding when is_on
  Ends-balance true w s = s
  Ends-balance false w s =
      subst (Post (λ _ v. IsSound k.rcfile.index minus_one v.off_cnt))
        (sym (channel_on_at k.rcfile w (pos 0) minus_one s.1 (on-expected false (pos 0) refl refl)))
        (IsSound-reset k.rcfile.index (pos 0) minus_one minus_one w.off_cnt refl (omega arith) s)

  abbrev IsDone : ℤ → Unit {0} → World → Type 0
  IsDone n _ v = IsRestored k n v

  Ends-called :
      (n : ℤ) (w : World)
      → Ends k.rcfile.index n (IsDone n) (get >>= λ v. put (record v { read_called = true })) w
  unfolding Ends ◌>>=◌ get put
  Ends-called n w s = (s.0, (s.1, refl))

  Ends-elfutils :
      (n : ℤ) (w : World)
      → Ends k.rcfile.index n
          (IsDone n)
          (get >>= λ w'. when w'.elfutils_on (on_loop k.elfutils (on_fuel k.elfutils w')) >>= λ _.
            get >>= λ v. put (record v { read_called = true }))
          w
  Ends-elfutils n w =
      let i = k.rcfile.index in
      Ends-get i n (IsDone n) _ w (
        Ends-bind i n (IsDone n) _ _ w (search (keeps, Keeps-on_loop, hk.elfutils_apart))
          (λ _ v. Ends-called n v))

  Ends-finish :
      (n : ℤ) (r : Reading) (w : World)
      → IsSwitch n
      → IsSound k.rcfile.index (expected r.rcfile_on) w.off_cnt
      → Post (IsDone n) (finish_read k r n w)
  unfolding finish_read
  Ends-finish n r w h s =
      let i = k.rcfile.index in
      Post-bind (λ _ v. IsSound i minus_one v.off_cnt) (IsDone n) _ _ w
        (Ends-balance r.rcfile_on w s)
        (λ _ v t.
          Post-bind (λ _ u. IsSound i n u.off_cnt) (IsDone n) _ _ v
            (subst (Post (λ _ u. IsSound i n u.off_cnt)) (sym (run_restore_world k.rcfile n v t.1))
              (IsSound-reset i minus_one n n v.off_cnt refl h t))
            (λ _ u t'. Ends-run i n (IsDone n) _ u (Ends-elfutils n u) t'))

module _ (k : Known) (hk : IsKnown k) (f : Bytes → Bytes → M Bool) (hf : IsHarmless f) (env : Env)
    (datadir : Bytes) (unset : Bool) where
  Ends-between :
      (n : ℤ) (w : World)
      → IsSwitch n
      → Ends k.rcfile.index minus_one
          (IsDone k hk n)
          (determine_rcfile_name k env datadir >>= λ name. get >>= λ w'.
            set_elfutils_on (channel_is_on k.elfutils w') >>= λ _.
            read_files f k env name (record {
              rcfile_on = true;
              defaults = λ i. 0;
              default_is_on = unset;
              did_reset = false;
            })
            >>= λ r. finish_read k r n)
          w
  Ends-between n w h =
      let i = k.rcfile.index in
      Ends-bind i minus_one (IsDone k hk n) _ _ w
        (Keeps-determine_rcfile_name i minus_one k env datadir w hk.warning_apart)
        (λ name v. Ends-get i minus_one (IsDone k hk n) _ v (
          Ends-bind i minus_one (IsDone k hk n) _ _ v (Keeps-set_elfutils_on i minus_one _ v)
            (λ _ u.
              Ends-then i minus_one (IsReading k hk f hf) (IsDone k hk n) _ _ u
                (Ends-read_files k hk f hf env name _ u) (λ r x s. Ends-finish k hk n r x h s))))

  -- Reading the configuration comes to an end: an error that the configuration asks for, never a
  -- call of `on` too many nor a `restore` that finds the channel off. If it returns, then dc::rcfile
  -- has the switch that it had, whatever `silent` lines there were, no switch is below -1, and
  -- `read_called` is set. It is assumed that no switch was below -1, that dc::rcfile is not visible
  -- and dc::warning is, and that `unknown_keyword` returns and touches no switch.
  pub read-IsRestored :
      (w : World)
      → ((j : ℕ) → IsSwitch (w.off_cnt j))
      → Post (λ _ v. IsRestored k (w.off_cnt k.rcfile.index) v) (read f k env datadir unset w)
  unfolding read run_force_on ◌>>=◌ get put return force_on
  read-IsRestored w h =
      let i = k.rcfile.index in
      let n = w.off_cnt i in
      Ends-run i minus_one (IsDone k hk n) _ _ (Ends-between n _ (h i))
        (IsSound-reset i n minus_one minus_one w.off_cnt refl (omega arith) (h, refl))
