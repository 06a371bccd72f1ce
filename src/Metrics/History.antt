-- ===== src/Metrics/History.antt =====
-- The samples that server/internal/web/static/js/dashboard/metrics/history.js keeps: `prune`, `add` and
-- `load`. The object store of IndexedDB is a list of rows, whose index by time is that list in order
-- of time, and it is `none` where the database cannot be opened. Whether it refuses a transaction, and
-- how many rows its cursor gives before it fails, is an argument.
pub mod Kept
use connexia.Common.{
  ℕ, zero, suc, ◌+◌, ◌-◌, ◌*◌, min, Bool, true, false, not, ◌&&◌, Option, none, some, List, [], ◌∷◌,
  ◌++◌, Text, same, filter, drop, length, ltb, leb, if◌then◌else◌, sort_by,
}

-- A row, with the fields other than its host and its time as one value.
pub record Row (Value : Type 0) : Type 0 where
  pub host_id : Text
  pub ts : ℕ
  pub value : Value

abbrev pub keep_ms : ℕ
keep_ms = 8 * 24 * 60 * 60 * 1000

abbrev pub prune_every_ms : ℕ
prune_every_ms = 60 * 60 * 1000

pub record History (Value : Type 0) : Type 0 where
  pub stored : Option (List (Row Value))
  pub memory : List (Row Value)
  pub last_prune : ℕ

-- What the database does with a new row: it takes it, throws an error at once, or takes the call and
-- aborts the transaction later, which `add` does not listen for.
pub data Taking : Type 0 where
  taken thrown aborted : Taking

module _ {Value : Type 0} where
  -- `while (memory.length && memory[0].ts < cutoff) memory.shift()`
  unfoldable pub shift_old : ℕ → List (Row Value) → List (Row Value)
  shift_old now [] = []
  shift_old now (row ∷ rows) =
      let rest = shift_old now rows in if ltb (row.ts + keep_ms) now then rest else row ∷ rows

  abbrev pub delete_old : ℕ → List (Row Value) → List (Row Value)
  delete_old now = filter (λ row. not (leb (row.ts + keep_ms) now))

  unfoldable pub prune : ℕ → Bool → History Value → History Value
  prune now refused h = elim h.stored [
    | none ↦ record h { memory = shift_old now h.memory; last_prune = now }
    | some rows ↦ record h {
      stored = some (if refused then rows else delete_old now rows);
      last_prune = now;
    }
  ]

  abbrev pub prune_due : ℕ → Bool → History Value → History Value
  prune_due now refused h =
      if ltb (h.last_prune + prune_every_ms) now then prune now refused h else h

  unfoldable pub store_row : Taking → Row Value → History Value → History Value
  store_row taking row h = elim h.stored [
    | none ↦ record h { memory = h.memory ++ row ∷ [] }
    | some rows ↦ elim taking [
      | taken ↦ record h { stored = some (rows ++ row ∷ []) }
      | thrown ↦ record h { memory = h.memory ++ row ∷ [] }
      | aborted ↦ h
    ]
  ]

  -- Whether the database refuses to prune, and whether it takes the row.
  unfoldable pub add : ℕ → Bool → Taking → Row Value → History Value → History Value
  add now prune_refused taking row h = store_row taking row (prune_due now prune_refused h)

  -- `slice(-limit)`
  abbrev pub last_of : ℕ → List (Row Value) → List (Row Value)
  last_of limit rows = drop (length rows - limit) rows

  abbrev pub asked : Text → ℕ → List (Row Value) → List (Row Value)
  asked host_id since = filter (λ row. same row.host_id host_id && leb since row.ts)

  -- The newest rows that the cursor gives, in order of time.
  unfoldable pub load : Text → ℕ → ℕ → Option ℕ → History Value → List (Row Value)
  load host_id since limit given h =
      let from_memory = last_of limit (asked host_id since h.memory) in
      elim h.stored [
        | none ↦ from_memory
        | some rows ↦
            let read : ℕ = elim given [ none ↦ limit | some n ↦ min limit n ] in
            let by_time = sort_by (λ a b. leb a.ts b.ts) (asked host_id since rows) in
            last_of read by_time ++ from_memory
      ]
