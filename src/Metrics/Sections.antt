-- ===== src/Metrics/Sections.antt =====
-- The sections of what the script of server/internal/web/static/js/dashboard/metrics/collect.js
-- prints: the head of `parseSample` with `bodyOf`, and `tokens`.
pub mod Reading
use connexia.Common.{
  ℕ, zero, suc, Bool, true, false, not, ◌&&◌, ◌||◌, Option, none, some, List, [], ◌∷◌, ◌++◌, Text,
  codes, same, trim, drop, take, length, ltb, leb, ◌==◌, is_space, if◌then◌else◌, filter, ◌-◌,
  onto_first,
}

-- `raw.split(/\r\n|\r|\n/)`: the flag says that a `\r` came just before.
unfoldable pub split_lines : Bool → Text → List Text
split_lines behind [] = [] ∷ []
split_lines behind (c ∷ cs) =
    let next = split_lines false cs in
    let returned = split_lines true cs in
    if c == 10
    then (if behind then next else [] ∷ next)
    else if c == 13
    then [] ∷ returned
    else onto_first c next

-- `if (lines.length && lines[lines.length - 1] === "") lines.pop()`
unfoldable pub drop_last_empty : List Text → List Text
drop_last_empty [] = []
drop_last_empty (line ∷ next ∷ lines) = line ∷ drop_last_empty (next ∷ lines)
drop_last_empty (line ∷ []) = if same line [] then [] else line ∷ []

-- A map from the names of the sections to their bodies: the first entry of a name counts.
abbrev pub Sections : Type 0
Sections = List (Text × Text)

unfoldable pub body_of : Text → Sections → Text
body_of name [] = []
body_of name ((at, body) ∷ sections) =
    let rest = body_of name sections in if same name at then body else rest

-- The text before the last character, where that character is `\002`.
unfoldable pub until_end : Text → Option Text
until_end [] = none
until_end (c ∷ []) = if c == 2 then some [] else none
until_end (c ∷ d ∷ cs) = elim (until_end (d ∷ cs)) [ none ↦ none | some name ↦ some (c ∷ name) ]

-- The name in a line `\001NAME\002`.
unfoldable pub header_name : Text → Option Text
header_name [] = none
header_name (c ∷ cs) = elim (c == 1) [ true ↦ until_end cs | false ↦ none ]

unfoldable pub add_line : Text → Text → Sections → Sections
add_line name line sections = (name, body_of name sections ++ (line ++ 10 ∷ [])) ∷ sections

unfoldable pub read_lines : Text → List Text → Sections → Sections
read_lines name [] sections = sections
read_lines name (line ∷ lines) sections = elim (header_name line) [
  | some next ↦ read_lines next lines sections
  | none ↦ read_lines name lines (add_line name line sections)
]

unfoldable pub parse_sections : Text → Sections
parse_sections raw = read_lines [] (drop_last_empty (split_lines false raw)) []

-- `text.split(/\s+/)`: the flag says that a space came just before.
unfoldable pub split_spaces : Bool → Text → List Text
split_spaces behind [] = [] ∷ []
split_spaces behind (c ∷ cs) =
    let gap = split_spaces true cs in
    let next = split_spaces false cs in
    if is_space c then (if behind then gap else [] ∷ gap) else onto_first c next

abbrev pub is_filled : Text → Bool
is_filled [] = false
is_filled (c ∷ cs) = true

unfoldable pub tokens : Text → List Text
tokens line = filter is_filled (split_spaces false (trim line))
