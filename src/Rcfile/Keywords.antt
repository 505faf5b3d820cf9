-- ===== src/Rcfile/Keywords.antt =====
-- Every line of the configuration file keeps the switch of dc::rcfile as `rcfile_on` says.
use libcwd.Base.{◌≡◌, sym, Bool}
use mathlib.Core.Path.{subst}
use libcwd.Base.Int.{ℤ}
use libcwd.Rcfile.{Bytes, Known, World, M, ok}
use libcwd.Rcfile.Text.{Line, ignored, malformed, setting}
use libcwd.Rcfile.Sound.{keeps, Keeps, Ends, Ends-bind, Ends-branch, IsSound, Post}
use libcwd.Rcfile.Read.{Reading, Place, other_keyword, by_keyword, handle, turn}
use libcwd.Rcfile.Turns.{
  IsKnown, expected, Keeps-warn_unknown, Keeps-announce, Keeps-set_gdb_bin,
  Keeps-set_konsole_command, IsTurn, Ends-next, Ends-leave, Ends-channels_default,
  Ends-channels_toggle, Ends-channels_on, Ends-channels_off, Ends-silent,
}

-- `unknown_keyword` answers, and touches no switch.
abbrev pub IsHarmless : (Bytes → Bytes → M Bool) → Type 0
IsHarmless f =
    (keyword value : Bytes) (w : World)
    → (b : Bool) × (v : World) × ((f keyword value w ≡ ok b v) × (v.off_cnt ≡ w.off_cnt))

module _ (k : Known) (hk : IsKnown k) (f : Bytes → Bytes → M Bool) (hf : IsHarmless f) where
  Keeps-unknown_keyword :
      (n : ℤ) (keyword value : Bytes) (w : World) → Keeps k.rcfile.index n (f keyword value) w
  unfolding Keeps
  Keeps-unknown_keyword n keyword value w s =
      let (b, v, (e, same)) = hf keyword value w in
      subst (Post (λ _ u. IsSound k.rcfile.index n u.off_cnt)) (sym e)
        (subst (IsSound k.rcfile.index n) (sym same) s)

  Ends-other_keyword :
      (p : Place) (keyword value : Bytes) (r : Reading) (w : World)
      → Ends k.rcfile.index
          (expected r.rcfile_on)
          (IsTurn k hk)
          (other_keyword f k p keyword value r)
          w
  unfolding other_keyword Ends
  Ends-other_keyword p keyword value r w =
      search (keeps, Ends-bind, Ends-next k hk, Keeps-unknown_keyword, Keeps-warn_unknown k hk)

  Ends-by_keyword :
      (p : Place) (keyword value : Bytes) (r : Reading) (w : World)
      → Ends k.rcfile.index
          (expected r.rcfile_on)
          (IsTurn k hk)
          (by_keyword f k p keyword value r)
          w
  unfolding by_keyword Ends
  Ends-by_keyword p keyword value r w =
      search
        (
          Ends-bind,
          Ends-branch,
          Ends-next k hk,
          Keeps-set_gdb_bin k hk,
          Keeps-set_konsole_command k hk,
          Ends-channels_default k hk,
          Ends-channels_toggle k hk,
          Ends-channels_on k hk,
          Ends-channels_off k hk,
          Ends-other_keyword,
        )
        depth 20

  Ends-handle :
      (p : Place) (keyword value : Bytes) (r : Reading) (w : World)
      → Ends k.rcfile.index (expected r.rcfile_on) (IsTurn k hk) (handle f k p keyword value r) w
  unfolding handle Ends
  Ends-handle p keyword value r w =
      search (Ends-bind, Ends-branch, Ends-silent k hk, Keeps-announce k hk, Ends-by_keyword)

  -- A turn of the loop keeps the switch of dc::rcfile as `rcfile_on` says.
  pub Ends-turn :
      (p : Place) (line : Line) (r : Reading) (w : World)
      → Ends k.rcfile.index (expected r.rcfile_on) (IsTurn k hk) (turn f k p line r) w
  unfolding turn
  Ends-turn p ignored r w = Ends-next k hk r w
  Ends-turn p malformed r w = Ends-leave k hk (expected r.rcfile_on) w
  Ends-turn p (setting keyword value) r w = Ends-handle p keyword value r w
