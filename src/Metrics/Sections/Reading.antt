-- ===== src/Metrics/Sections/Reading.antt =====
-- The sections that a script prints are read back.
use connexia.Common.{
  ◌≡◌, refl, sym, ap, ◌∙◌, false, none, some, List, [], ◌∷◌, ◌++◌, append_assoc, append-nil, Text,
  same, same_iff, All, All-append, ◌==◌, if◌then◌else◌, Bool-cases, inl, inr,
}
use connexia.Metrics.Sections.{
  split_lines, drop_last_empty, Sections, body_of, until_end, header_name, add_line, read_lines,
  parse_sections,
}

-- A text without the ends of a line.
unfoldable pub IsLine : Text → Type 0
IsLine = All (λ c. ((c == 10) ≡ false) × ((c == 13) ≡ false))

-- What `echo` prints for each line.
abbrev pub print_lines : List Text → Text
print_lines [] = []
print_lines (line ∷ lines) = line ++ (10 ∷ print_lines lines)

-- The script prints a header before the lines of each section.
pub print_sections : List (Text × List Text) → Text
print_sections [] = []
print_sections ((name, lines) ∷ sections) =
    (1 ∷ (name ++ 2 ∷ [])) ++ (10 ∷ (print_lines lines ++ print_sections sections))

-- The lines that are printed.
lines_of : List (Text × List Text) → List Text
lines_of [] = []
lines_of ((name, lines) ∷ sections) = (1 ∷ (name ++ 2 ∷ [])) ∷ (lines ++ lines_of sections)

split_lines-line :
    (line rest : Text)
    → IsLine line
    → split_lines false (line ++ (10 ∷ rest)) ≡ line ∷ split_lines false rest
unfolding split_lines IsLine
split_lines-line [] rest h = refl
split_lines-line (c ∷ cs) rest h = rw (h.0.0, h.0.1, split_lines-line cs rest h.1) refl

split_lines-print_lines :
    (lines : List Text)
    → All IsLine lines
    → split_lines false (print_lines lines) ≡ lines ++ [] ∷ []
unfolding split_lines
split_lines-print_lines [] h = refl
split_lines-print_lines (line ∷ lines) h =
    split_lines-line line (print_lines lines) h.0 ∙ ap (line ∷◌) (split_lines-print_lines lines h.1)

drop_last_empty-append : (lines : List Text) → drop_last_empty (lines ++ [] ∷ []) ≡ lines
unfolding drop_last_empty same
drop_last_empty-append [] = refl
drop_last_empty-append (line ∷ []) = refl
drop_last_empty-append (line ∷ next ∷ lines) = ap (line ∷◌) (drop_last_empty-append (next ∷ lines))

print_lines-append :
    (lines rest : List Text) → print_lines (lines ++ rest) ≡ print_lines lines ++ print_lines rest
print_lines-append [] rest = refl
print_lines-append (line ∷ lines) rest =
    rw (print_lines-append lines rest)
      (sym (append_assoc line (10 ∷ print_lines lines) (print_lines rest)))

print_sections-lines_of :
    (sections : List (Text × List Text)) → print_sections sections ≡ print_lines (lines_of sections)
unfolding print_sections lines_of
print_sections-lines_of [] = refl
print_sections-lines_of ((name, lines) ∷ sections) =
    rw (print_sections-lines_of sections, print_lines-append lines (lines_of sections)) refl

until_end-append : (name : Text) → until_end (name ++ 2 ∷ []) ≡ some name
unfolding until_end
until_end-append [] = refl
until_end-append (c ∷ []) = refl
until_end-append (c ∷ d ∷ cs) = rw (until_end-append (d ∷ cs)) refl

-- The lines are not ends of a line and not headers, and the names are not ends of a line.
unfoldable pub IsPlain : (Text × List Text) → Type 0
IsPlain (name, lines) =
    IsLine name × (All IsLine lines × All (λ line. header_name line ≡ none) lines)

-- The lines that are printed under a name.
pub lines_under : Text → List (Text × List Text) → List Text
lines_under k [] = []
lines_under k ((name, lines) ∷ sections) =
    (if same k name then lines else []) ++ lines_under k sections

body_of-add_line :
    (k name line : Text) (sections : Sections)
    → body_of k (add_line name line sections)
      ≡ body_of k sections ++ print_lines (if same k name then line ∷ [] else [])
unfolding body_of add_line
body_of-add_line k name line sections = elim (Bool-cases (same k name)) [
  | inl e ↦ rw (e, (same_iff k name).0 e) refl
  | inr e ↦ rw (e, append-nil (body_of k sections)) refl
]

-- The lines of one section, where the rest is read as `under`.
body_of-read_lines :
    (k name : Text) (lines rest under : List Text) (sections : Sections)
    → All (λ line. header_name line ≡ none) lines
    → ((at : Sections) → body_of k (read_lines name rest at) ≡ body_of k at ++ print_lines under)
    → body_of k (read_lines name (lines ++ rest) sections)
      ≡ body_of k sections ++ print_lines ((if same k name then lines else []) ++ under)
unfolding read_lines
body_of-read_lines k name [] rest under sections h read = elim (Bool-cases (same k name)) [
  | inl e ↦ rw e (read sections)
  | inr e ↦ rw e (read sections)
]
body_of-read_lines k name (line ∷ lines) rest under sections h read =
    rw (h.0, read_lines)
      (body_of-read_lines k name lines rest under (add_line name line sections) h.1 read
        ∙ elim (Bool-cases (same k name)) [
          | inl e ↦
              rw (e, body_of-add_line k name line sections, e)
                (append_assoc (body_of k sections) (line ++ 10 ∷ []) (print_lines (lines ++ under))
                  ∙ ap (body_of k sections ++◌)
                      (append_assoc line (10 ∷ []) (print_lines (lines ++ under))))
          | inr e ↦
              rw (e, body_of-add_line k name line sections, e, append-nil (body_of k sections)) refl
        ])

body_of-sections :
    (k name : Text) (sections : List (Text × List Text)) (at : Sections)
    → All IsPlain sections
    → body_of k (read_lines name (lines_of sections) at)
      ≡ body_of k at ++ print_lines (lines_under k sections)
unfolding lines_of lines_under read_lines header_name IsPlain
body_of-sections k name [] at h = sym (append-nil (body_of k at))
body_of-sections k name ((next, lines) ∷ sections) at h =
    rw (until_end-append next, read_lines)
      (body_of-read_lines k next lines (lines_of sections) (lines_under k sections) at h.0.1.1
        (λ later. body_of-sections k next sections later h.1))

lines_of-IsLine :
    (sections : List (Text × List Text)) → All IsPlain sections → All IsLine (lines_of sections)
unfolding lines_of IsLine IsPlain
lines_of-IsLine [] h = tt
lines_of-IsLine ((name, lines) ∷ sections) h = (
  (
    (refl, refl),
    All-append (λ c. ((c == 10) ≡ false) × ((c == 13) ≡ false)) name (2 ∷ []) h.0.0
        ((refl, refl), tt),
  ),
  All-append IsLine lines (lines_of sections) h.0.1.0 (lines_of-IsLine sections h.1),
)

-- Whatever sections a host prints, one after the other and each behind its header, the body of a
-- section is all the lines that were printed under its name, each with its end.
pub parse_sections-print_sections :
    (sections : List (Text × List Text)) (k : Text)
    → All IsPlain sections
    → body_of k (parse_sections (print_sections sections)) ≡ print_lines (lines_under k sections)
unfolding parse_sections body_of
parse_sections-print_sections sections k h =
    rw
      (
        print_sections-lines_of sections,
        split_lines-print_lines (lines_of sections) (lines_of-IsLine sections h),
        drop_last_empty-append (lines_of sections),
      )
      (body_of-sections k [] sections [] h)
