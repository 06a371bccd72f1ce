-- ===== src/Store/Payload.antt =====
-- The data that server/internal/web/static/js/dashboard/store.js keeps: `emptyPayload`, `normalize`
-- and `setting`. The rows of the tables are of any type.
use connexia.Common.{Option, none, some, List, [], ◌∷◌, Text, same, if◌then◌else◌, ◌≡◌, refl}

-- The value under a key.
abbrev pub look_up {ℓ} : {A : Type ℓ} → Text → List (Text × A) → Option A
look_up key [] = none
look_up key ((k, a) ∷ rest) = if same k key then some a else look_up key rest

module _ (Row : Type 0) where
  pub record Data : Type 0 where
    pub hosts : List Row
    pub groups : List Row
    pub identities : List Row
    pub known_hosts : List Row
    pub snippets : List Row
    pub session_logs : List Row
    pub themes : List Row
    pub tunnels : List Row
    pub settings : List (Text × Text)

  pub record Payload : Type 0 where
    pub modified_at : Text
    pub content : Data

  -- What `JSON.parse` gives: a table that is not an array, the settings where they are no object, or
  -- the whole data may be missing.
  pub record RawData : Type 0 where
    pub hosts : Option (List Row)
    pub groups : Option (List Row)
    pub identities : Option (List Row)
    pub known_hosts : Option (List Row)
    pub snippets : Option (List Row)
    pub session_logs : Option (List Row)
    pub themes : Option (List Row)
    pub tunnels : Option (List Row)
    pub settings : Option (List (Text × Text))

  pub record RawPayload : Type 0 where
    pub modified_at : Text
    pub content : Option RawData

abbrev or_empty {ℓ} : {A : Type ℓ} → Option (List A) → List A
or_empty none = []
or_empty (some found) = found

module _ {Row : Type 0} where
  abbrev pub normal_data : RawData Row → Data Row
  normal_data d = record {
    hosts = or_empty d.hosts;
    groups = or_empty d.groups;
    identities = or_empty d.identities;
    known_hosts = or_empty d.known_hosts;
    snippets = or_empty d.snippets;
    session_logs = or_empty d.session_logs;
    themes = or_empty d.themes;
    tunnels = or_empty d.tunnels;
    settings = or_empty d.settings;
  }

  abbrev no_tables : RawData Row
  no_tables = record {
    hosts = none;
    groups = none;
    identities = none;
    known_hosts = none;
    snippets = none;
    session_logs = none;
    themes = none;
    tunnels = none;
    settings = none;
  }

  unfoldable pub normalize : RawPayload Row → Payload Row
  normalize p = record {
    modified_at = p.modified_at;
    content = normal_data (elim p.content [ none ↦ no_tables | some found ↦ found ]);
  }

  unfoldable pub empty_payload : Text → Payload Row
  empty_payload now = record { modified_at = now; content = normal_data no_tables }

  -- `setting(key, fallback)`
  pub setting : Text → Text → Data Row → Text
  setting key fallback d = elim (look_up key d.settings) [ none ↦ fallback | some value ↦ value ]

  -- A payload as `JSON.parse` gives it.
  abbrev pub raw_of : Payload Row → RawPayload Row
  raw_of p = record {
    modified_at = p.modified_at;
    content = some (record {
      hosts = some p.content.hosts;
      groups = some p.content.groups;
      identities = some p.content.identities;
      known_hosts = some p.content.known_hosts;
      snippets = some p.content.snippets;
      session_logs = some p.content.session_logs;
      themes = some p.content.themes;
      tunnels = some p.content.tunnels;
      settings = some p.content.settings;
    });
  }

  pub normalize-raw_of : (p : Payload Row) → normalize (raw_of p) ≡ p
  unfolding normalize
  normalize-raw_of p = refl

-- `JSON.stringify` and `JSON.parse` of payloads; `none` is a `SyntaxError`.
pub record Json (Row : Type 0) : Type 0 where
  pub stringify : Payload Row → Text
  pub parse : Text → Option (RawPayload Row)

pub record JsonDocumented {Row : Type 0} (j : Json Row) : Type 0 where
  pub parse-stringify : (p : Payload Row) → j.parse (j.stringify p) ≡ some (raw_of p)
