-- ===== src/Metrics/Reports.antt =====
-- The ports that `parseSample` of server/internal/web/static/js/dashboard/metrics/collect.js reads of a
-- report. The numbers of the other sections, which may have a fraction, are not modelled.
pub mod Listening
use connexia.Common.{
  ℕ, zero, suc, Bool, true, false, not, ◌&&◌, ◌||◌, Option, none, some, List, [], ◌∷◌, ◌++◌, Text,
  codes, same, trim, drop, take, length, ltb, leb, ◌==◌, is_space, if◌then◌else◌, filter, ◌-◌,
  onto_first, split, join, starts_with, includes, any, find, get_elem?, is_digit, Parsed, natural,
  not_a_number, negative, parse_int, decimal,
}
use connexia.Metrics.Sections.{Sections, body_of, split_spaces, is_filled, tokens}

abbrev pub all_are : (ℕ → Bool) → Text → Bool
all_are test [] = true
all_are test (c ∷ cs) = test c && all_are test cs

-- `/^\d+$/.test(text)`
unfoldable pub is_digits : Text → Bool
is_digits text = is_filled text && all_are is_digit text

-- The token at an index that the guards before it have made valid.
abbrev pub at : List Text → ℕ → Text
at ts i = elim (get_elem? ts i) [ none ↦ [] | some t ↦ t ]

-- `INT.test(text)`
unfoldable pub is_int : Text → Bool
is_int [] = false
is_int (c ∷ cs) = if c == b'-' || c == b'+' then is_digits cs else is_digits (c ∷ cs)

-- The digits that a text ends with, `/(\d+)$/`: none when it ends with no digit.
unfoldable pub digits_at_end : Text → Text
digits_at_end [] = []
digits_at_end (c ∷ cs) =
    let rest = digits_at_end cs in if is_digit c && all_are is_digit cs then c ∷ cs else rest

-- The first characters of a text that pass a test.
unfoldable pub run_of : (ℕ → Bool) → Text → Text
run_of test [] = []
run_of test (c ∷ cs) = let rest = run_of test cs in if test c then c ∷ rest else []

-- `[\w.\-+/]`
abbrev pub is_name : ℕ → Bool
is_name c =
    is_digit c
    || ((leb b'a' c && leb c b'z')
        || ((leb b'A' c && leb c b'Z') || (c == b'_' || leb 45 c && leb c 47 || c == b'+')))

abbrev pub drop_quote : Text → Text
drop_quote [] = []
drop_quote (c ∷ cs) = if c == b'"' then cs else c ∷ cs

-- `/\("?"?([\w.\-+/]+)"?,?/.exec(line)?.[1] ?? ""`
unfoldable pub quoted_process : Text → Text
quoted_process [] = []
quoted_process (c ∷ cs) =
    let later = quoted_process cs in
    let name = run_of is_name (drop_quote (drop_quote cs)) in
    if c == b'(' && is_filled name then name else later

-- What stands behind a `/`, up to a space.
abbrev pub behind_slash : Text → Text
behind_slash [] = []
behind_slash (c ∷ cs) = if c == b'/' then run_of (λ d. not (is_space d)) cs else []

-- `/\d+\/(\S+)/.exec(line)?.[1] ?? ""`: the match that begins first has the digit before the `/`.
unfoldable pub slashed_process : Text → Text
slashed_process [] = []
slashed_process (c ∷ cs) =
    let later = slashed_process cs in
    let name = behind_slash cs in if is_digit c && is_filled name then name else later

abbrev pub or_else : Text → Text → Text
or_else [] b = b
or_else (c ∷ cs) b = c ∷ cs

pub record Port : Type 0 where
  pub proto : Text
  pub bind : Text
  pub port : ℕ
  pub process : Text

-- A port whose address ends with digits.
unfoldable pub port_at : Text → Text → Text → Option Port
port_at line proto bind = elim (parse_int (digits_at_end bind)) [
  | not_a_number ↦ none
  | negative n ↦ none
  | natural n ↦ some record {
    proto = (if starts_with (codes "u") proto then codes "udp" else codes "tcp");
    bind = bind;
    port = n;
    process = or_else (quoted_process line) (slashed_process line);
  }
]

unfoldable pub port_of : Text → Option Port
port_of line =
    let lt = trim line in
    let ts = tokens lt in
    if not (starts_with (codes "tcp") lt) && not (starts_with (codes "udp") lt)
    then none
    else if includes lt (codes "Local Address:Port") || includes lt (codes "Proto Recv-Q")
    then none
    else if ltb (length ts) 5
    then none
    else port_at lt (at ts 0) (if is_int (at ts 1) then at ts 3 else at ts 4)

-- The results of a function that gives one.
abbrev pub collect {ℓ} : {A : Type ℓ} → (Text → Option A) → List Text → List A
collect read [] = []
collect read (line ∷ lines) = elim (read line) [
  | none ↦ collect read lines
  | some a ↦ a ∷ collect read lines
]

-- `xs.filter((x) => !seen.has(key(x)) && seen.add(key(x)))`
unfoldable pub unique_by {ℓ} : {A : Type ℓ} → (A → Text) → List Text → List A → List A
unique_by key seen [] = []
unique_by key seen (x ∷ xs) =
    let skip = unique_by key seen xs in
    let keep = unique_by key (key x ∷ seen) xs in if any (same (key x)) seen then skip else x ∷ keep

unfoldable pub port_key : Port → Text
port_key p = p.proto ++ (b':' ∷ (decimal p.port ++ (b':' ∷ p.process)))

unfoldable pub ports_of : Sections → List Port
ports_of sections =
    unique_by port_key [] (collect port_of (split 10 (body_of (codes "PRT") sections)))
