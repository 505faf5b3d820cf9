-- ===== src/Match/Samples.antt =====
-- Matches on concrete strings.
use libcwd.Base.{◌≡◌, ◌↔◌, refl, true, false, codes}
use libcwd.Match.Glob.{Matches}
use libcwd.Match.Complete.{match-Matches}
use libcwd.Match.{match, match_go, first_loop, after_star, search, all_stars}

star_run : match (codes "dc::*ice") (codes "dc::notice") ≡ true
unfolding match match_go first_loop after_star search all_stars
star_run = refl

other_run : match (codes "a*b*") (codes "acc") ≡ false
unfolding match match_go first_loop after_star search all_stars
other_run = refl

match-Matches_example :
    (match (codes "dc::*ice") (codes "dc::notice") ≡ true)
    ↔ Matches (codes "dc::*ice") (codes "dc::notice")
match-Matches_example = match-Matches (codes "dc::*ice") (codes "dc::notice")
