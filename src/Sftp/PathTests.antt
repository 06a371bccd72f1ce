-- ===== src/Sftp/PathTests.antt =====
-- Runs of the path functions, and the theorems about them at concrete paths.
use connexia.Common.{
  ◌≡◌, refl, some, List, [], ◌∷◌, Text, codes, All, split, join, same, starts_with, trim,
}
use connexia.Sftp.Paths.{
  walk, walk_part, pop, path_of, normalize_path, join_path, parent_path, input_path,
}
use connexia.Sftp.Paths.Normal.{IsName, Extends, normalize_path-IsName, parent_path-join_path}

normalize_path_runs : normalize_path (codes "/home/./a//../b/") ≡ codes "/home/b"
unfolding normalize_path walk walk_part pop split join same
normalize_path_runs = refl

above_root : normalize_path (codes "../..") ≡ codes "/"
unfolding normalize_path walk walk_part pop split join same
above_root = refl

home_path : input_path (codes "/root") (codes " ~/x ") ≡ some (codes "/root/x")
unfolding input_path normalize_path walk walk_part pop split join same starts_with trim
home_path = refl

normalize_path-IsName_example :
    (names : List Text) × All IsName names
    × (normalize_path (codes "/a/../b/c") ≡ path_of names)
    × (normalize_path (path_of names) ≡ path_of names)
    × Extends (codes "/a/../b/c") names (codes "..")
normalize_path-IsName_example =
    normalize_path-IsName (codes "/a/../b/c") (codes "..") (refl, (refl, tt))

parent_path-join_path_example :
    let dir = path_of (codes "home" ∷ []) in
    (normalize_path (join_path dir (codes "b")) ≡ path_of (codes "home" ∷ codes "b" ∷ []))
    × (parent_path (join_path dir (codes "b")) ≡ dir)
unfolding same
parent_path-join_path_example =
    parent_path-join_path (codes "home" ∷ []) (codes "b")
      ((refl, refl, (refl, (refl, (refl, (refl, tt))))), tt) (refl, refl, (refl, tt))
