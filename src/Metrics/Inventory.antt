-- ===== src/Metrics/Inventory.antt =====
-- The logins and the system that `parseSample` of
-- server/internal/web/static/js/dashboard/metrics/collect.js reads of a report, and `listServiceUnits`.
use connexia.Common.{
  ℕ, Bool, true, false, not, ◌&&◌, ◌||◌, Option, none, some, List, [], ◌∷◌, ◌++◌, Text, codes, same,
  trim, drop, take, length, ltb, leb, ◌==◌, is_space, if◌then◌else◌, filter, ◌-◌, onto_first, split,
  join, starts_with, includes, any,
}
use connexia.Metrics.Sections.{Sections, body_of, split_spaces, is_filled, tokens}
use connexia.Metrics.Reports.{is_digits, at, run_of, collect}

pub record Login : Type 0 where
  pub user : Text
  pub detail : Text
  pub active : Bool

unfoldable pub active_login : Text → Option Login
active_login line = elim (tokens line) [
  | [] ↦ none
  | user ∷ ts ↦
      if same user (codes "USER") || starts_with (codes "LOGIN@") user
      then none
      else some record { user = user; detail = join (codes "  ") ts; active = true }
]

abbrev pub next_is_space : Text → Bool
next_is_space [] = false
next_is_space (c ∷ cs) = is_space c

-- `text.split(/\s{2,}/)`: the flag says that the gap goes on.
unfoldable pub split_gaps : Bool → Text → List Text
split_gaps within [] = [] ∷ []
split_gaps within (c ∷ cs) =
    let gap = split_gaps true cs in
    let next = split_gaps false cs in
    if is_space c && within
    then gap
    else if is_space c && next_is_space cs
    then [] ∷ gap
    else onto_first c next

abbrev pub skipped : List Text
skipped =
    codes "Username"
    ∷ codes "boot time"
    ∷ codes "shutdown "
    ∷ codes "reboot "
    ∷ codes "btmp begins"
    ∷ []

unfoldable pub past_login : Text → Option Login
past_login line =
    let l = trim line in
    if not (is_filled l)
      || (any (λ prefix. starts_with prefix l) skipped || includes l (codes " begins "))
    then none
    else elim (filter is_filled (split_gaps false l)) [
      | [] ↦ none
      | first ∷ ts ↦
          let user = trim first in
          if is_filled user
          then some record { user = user; detail = join (codes " | ") ts; active = false }
          else none
    ]

unfoldable pub logins_of : Sections → List Login
logins_of sections =
    collect active_login (split 10 (trim (body_of (codes "LOG") sections)))
    ++ collect past_login (split 10 (trim (body_of (codes "LST") sections)))

pub record SysInfo : Type 0 where
  pub hostname : Text
  pub kernel : Text
  pub arch : Text
  pub pretty_name : Text
  pub cpu_model : Text
  pub cores : Text

-- `[A-Z_]`
abbrev pub is_key : ℕ → Bool
is_key c = leb b'A' c && leb c b'Z' || c == b'_'

-- `/^([A-Z_]+)=(.*)$/.exec(line)`, for a line without ends of a line but U+2028 and U+2029.
unfoldable pub entry_of : Text → Option (Text × Text)
entry_of line =
    let key = run_of is_key line in
    elim (drop (length key) line) [
      | [] ↦ none
      | c ∷ value ↦
          if is_filled key && (c == b'=' && not (any (λ d. d == 0x2028 || d == 0x2029) value))
          then some (key, trim value)
          else none
    ]

-- The entries with the last one first, so that a later entry takes the place of an earlier one.
unfoldable pub entries_of : List Text → Sections → Sections
entries_of [] known = known
entries_of (line ∷ lines) known = elim (entry_of (trim line)) [
  | none ↦ entries_of lines known
  | some entry ↦ entries_of lines (entry ∷ known)
]

-- `slice(1, -1)` of a text that begins and ends with `"`.
abbrev pub unquoted : Text → Text
unquoted text =
    if leb 2 (length text)
      && (starts_with (codes "\"") text && starts_with (codes "\"") (drop (length text - 1) text))
    then take (length text - 2) (drop 1 text)
    else text

unfoldable pub sys_info : Sections → Option SysInfo
sys_info sections = elim (entries_of (split 10 (body_of (codes "SYS") sections)) []) [
  | [] ↦ none
  | entry ∷ entries ↦
      let sys = entry ∷ entries in
      let cores = body_of (codes "CORES") sys in
      some record {
        hostname = body_of (codes "HOSTNAME") sys;
        kernel = body_of (codes "KERNEL") sys;
        arch = body_of (codes "ARCH") sys;
        pretty_name = unquoted (body_of (codes "PRETTY_NAME") sys);
        cpu_model = body_of (codes "CPU_MODEL") sys;
        cores = (if is_digits cores then cores else []);
      }
]

pub record Service : Type 0 where
  pub unit : Text
  pub active : Text
  pub sub : Text
  pub description : Text

-- `text.replace(/^[●*○×]\s*/, "")`
abbrev pub without_bullet : Text → Text
without_bullet [] = []
without_bullet (c ∷ cs) =
    if c == 0x25cf || (c == b'*' || (c == 0x25cb || c == 0xd7))
    then drop (length (run_of is_space cs)) cs
    else c ∷ cs

unfoldable pub service_of : Text → Option Service
service_of line =
    let t = split_spaces false (without_bullet (trim line)) in
    if ltb (length t) 4
    then none
    else some record {
      unit = at t 0;
      active = at t 2;
      sub = at t 3;
      description = join (codes " ") (drop 4 t);
    }

-- `listServiceUnits`, by what the host prints.
unfoldable pub list_service_units : Text → List Service
list_service_units stdout = collect service_of (split 10 (trim stdout))
