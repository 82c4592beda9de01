-- ===== src/Tests/Paths.antt =====
-- Names and paths of uploads at concrete inputs.
use hubabox.Base.{true, List, [], ◌++◌, ◌≡◌, refl, Result, ok, err, invalid_name, ok-injective, All}
use hubabox.Text.{Text, codes, trim_space}
use hubabox.Text.Split.{split}
use hubabox.FilePath.{slash, base, abs, rel, clean_elems, render, is_abs}
use hubabox.FilePath.Clean.{IsPlain}
use hubabox.FilePath.Rel.{climbs}
use hubabox.Files.{sanitize_name, sanitize_rel_path, join_resolved_under_hub, join_under_hub}
use hubabox.Files.Paths.{IsSafePath, sanitize_rel_path-IsSafePath}
use hubabox.Files.Contained.{IsWorkingDir, join_resolved_under_hub-inside}
use hubabox.Files.Exact.{join_under_hub-exact}

unfoldable pub paths : Unit {0}
unfolding sanitize_name hubabox.Files.check_name hubabox.Files.check_rel_path
    hubabox.Files.write_parts sanitize_rel_path trim_space base is_abs rel clean_elems render climbs
    join_under_hub join_resolved_under_hub abs hubabox.FilePath.elems hubabox.FilePath.rel_elems
paths = tt

name_tests :
    (sanitize_name (codes " a/b.txt ") ≡ ok (codes "b.txt"))
    × (sanitize_name (codes "..") ≡ err invalid_name)
    × (sanitize_name (codes "a\\b") ≡ err invalid_name)
    × (sanitize_name [] ≡ err invalid_name)
unfolding paths
name_tests = (refl, refl, refl, refl)

abbrev nested : Text
nested = codes " docs/ a b.txt /"

abbrev stored : Text
stored = codes "docs/a b.txt"

path_tests :
    (sanitize_rel_path nested ≡ ok stored)
    × (sanitize_rel_path (codes "/etc/passwd") ≡ err invalid_name)
    × (sanitize_rel_path (codes "a/../b") ≡ err invalid_name)
    × (sanitize_rel_path (codes "a//b") ≡ err invalid_name)
    × (sanitize_rel_path (codes "c:x") ≡ err invalid_name)
unfolding paths
path_tests = (refl, refl, refl, refl, refl)

abbrev pub cwd : Result Text
cwd = ok (codes "/srv/hub")

abbrev outside : Text
outside = codes "../etc"

join_tests :
    (join_resolved_under_hub cwd (codes "data/files") stored
      ≡ ok (codes "/srv/hub/data/files/docs/a b.txt"))
    × (join_resolved_under_hub cwd (codes "data/files") outside ≡ err invalid_name)
unfolding paths
join_tests = (refl, refl)

cwd-IsWorkingDir : IsWorkingDir cwd
unfolding is_abs
cwd-IsWorkingDir dir e = let same : codes "/srv/hub" ≡ dir = ok-injective e in rw (← same) refl

sanitize_rel_path-IsSafePath_example : IsSafePath stored
sanitize_rel_path-IsSafePath_example = sanitize_rel_path-IsSafePath nested path_tests.0

join_resolved_under_hub-inside_example :
    (root rest : List Text) × (abs cwd (codes "data/files") ≡ ok (render root))
    × (codes "/srv/hub/data/files/docs/a b.txt" ≡ render (root ++ rest))
    × All IsPlain root
    × All IsPlain rest
join_resolved_under_hub-inside_example =
    join_resolved_under_hub-inside cwd (codes "data/files") stored cwd-IsWorkingDir join_tests.0

join_under_hub-exact_example :
    join_under_hub cwd (codes "/srv/files") nested
    ≡ ok (render (clean_elems true (codes "srv/files") ++ split stored slash))
join_under_hub-exact_example = join_under_hub-exact cwd (codes "srv/files") nested path_tests.0
