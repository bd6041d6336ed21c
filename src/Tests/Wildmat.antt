-- ===== src/Tests/Wildmat.antt =====
-- Runs and instances for `Wildmat::matches` of crates/nntp-proto/src/command.rs.
use rust_nntp.Prelude.Text.{codes, split}
use rust_nntp.Prelude.{true, false, some, ◌≡◌, refl}
use rust_nntp.Proto.Names.{strip_first}
use rust_nntp.Proto.Wildmat.Glob.{glob}
use rust_nntp.Proto.Wildmat.Loop.{matches_one-glob}
use rust_nntp.Proto.Wildmat.Items.{last_verdict, verdict_or, matches-last_verdict}
use rust_nntp.Proto.Wildmat.{
  matches, matches_one, match_loop, match_round, match_items, head_of, only_stars,
}

backtrack_run : matches_one (codes "*ab*c?") (codes "aabxcabxcd") ≡ some true
unfolding matches_one match_loop match_round head_of only_stars
backtrack_run = refl

negated_run :
    matches (codes "comp.*,!comp.os.*,comp.os.linux.*") (codes "comp.os.mach") ≡ some false
unfolding matches match_items strip_first split matches_one match_loop match_round head_of
    only_stars
negated_run = refl

matches_one-glob_example :
    matches_one (codes "*ab*c?") (codes "aabxcabxcd")
    ≡ some (glob (codes "*ab*c?") (codes "aabxcabxcd"))
matches_one-glob_example = matches_one-glob (codes "*ab*c?") (codes "aabxcabxcd")

matches-last_verdict_example :
    matches (codes "comp.*,!comp.os.*") (codes "comp.os.mach")
    ≡ some (
        verdict_or false
          (last_verdict (codes "comp.os.mach") (split b',' (codes "comp.*,!comp.os.*"))))
matches-last_verdict_example =
    matches-last_verdict (codes "comp.*,!comp.os.*") (codes "comp.os.mach")
