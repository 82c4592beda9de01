-- ===== src/Tests/Imports.antt =====
-- The import folder at concrete inputs.
use hubabox.Base.{List, [], ◌∷◌, ◌≡◌, refl, ok, err, nested_directories, same_directory}
use hubabox.Text.{Text, codes}
use hubabox.FilePath.Rel.{IsUnder}
use hubabox.Importer.{validate_paths}
use hubabox.Importer.Apart.{validate_paths-IsUnder}
use hubabox.Tests.Paths.{cwd, paths}

imports : Unit {0}
unfolding paths validate_paths hubabox.Text.has_prefix
imports = tt

-- The root is accepted, though it holds the hub's files.
runs :
    (validate_paths cwd (codes "/m") (codes "files") ≡ ok tt)
    × (validate_paths cwd (codes "/srv/hub") (codes "files") ≡ err nested_directories)
    × (validate_paths cwd (codes "files/x") (codes "files") ≡ err nested_directories)
    × (validate_paths cwd (codes "./files") (codes "files") ≡ err same_directory)
    × (validate_paths cwd (codes "/") (codes "files") ≡ ok tt)
unfolding imports
runs = (refl, refl, refl, refl, refl)

abbrev media : List Text
media = codes "m" ∷ []

abbrev files : List Text
files = codes "srv" ∷ codes "hub" ∷ codes "files" ∷ []

validate_paths-IsUnder_example : (¬ IsUnder media files) × (¬ IsUnder files media)
unfolding imports
validate_paths-IsUnder_example =
    validate_paths-IsUnder cwd (codes "/m") (codes "files") (codes "m") (codes "srv") []
      (codes "hub" ∷ codes "files" ∷ []) runs.0 refl refl
