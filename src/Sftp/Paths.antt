-- ===== src/Sftp/Paths.antt =====
-- Remote paths in server/internal/web/static/js/dashboard/screens/sftp.js: `normalizePath`, `joinPath`,
-- `parentPath`, the paths of the crumbs, and where `navigateInput` goes.
pub mod Normal
use connexia.Common.{
  ℕ, ◌-◌, Bool, true, false, ◌||◌, Option, none, some, List, [], ◌∷◌, ◌++◌, Text, codes, same,
  starts_with, split, join, before_last, length, take, drop, filter, not, trim, if◌then◌else◌,
}

abbrev pub slash : ℕ
slash = b'/'

-- `parts.pop()`, which does nothing on an empty array.
unfoldable pub pop : List Text → List Text
pop [] = []
pop (part ∷ []) = []
pop (part ∷ next ∷ parts) = part ∷ pop (next ∷ parts)

-- One round of the loop of `normalizePath`.
unfoldable pub walk_part : Text → List Text → List Text
walk_part part parts =
    if same part [] || same part (codes ".")
    then parts
    else if same part (codes "..")
    then pop parts
    else parts ++ part ∷ []

unfoldable pub walk : List Text → List Text → List Text
walk [] parts = parts
walk (part ∷ rest) parts = walk rest (walk_part part parts)

abbrev pub path_of : List Text → Text
path_of parts = slash ∷ join (codes "/") parts

unfoldable pub normalize_path : Text → Text
normalize_path path = path_of (walk (split slash path) [])

unfoldable pub join_path : Text → Text → Text
join_path dir name = if same dir (codes "/") then slash ∷ name else dir ++ slash ∷ name

-- `path.slice(0, path.lastIndexOf("/"))`, which drops the last character where there is no slash.
unfoldable pub up_to_slash : Text → Text
up_to_slash path = elim (before_last slash path) [
  | some before ↦ before
  | none ↦ take (length path - 1) path
]

abbrev pub or_root : Text → Text
or_root [] = codes "/"
or_root (c ∷ cs) = c ∷ cs

unfoldable pub parent_path : Text → Text
parent_path path = normalize_path (or_root (up_to_slash path))

-- The parts that the path bar shows, and the path of one of them.
unfoldable pub crumbs : Text → List Text
crumbs path = filter (λ part. not (same part [])) (split slash path)

pub crumb_path : Text → ℕ → Text
crumb_path path i = slash ∷ join (codes "/") (take i (crumbs path))

-- Where `navigateInput` goes, for the home directory that the server gives. `none` is nowhere.
unfoldable pub input_path : Text → Text → Option Text
input_path home input =
    let value = trim input in
    if same value []
    then none
    else if same value (codes "~") || starts_with (codes "~/") value
    then some (normalize_path (home ++ drop 1 value))
    else some (normalize_path (if starts_with (codes "/") value then value else slash ∷ value))
