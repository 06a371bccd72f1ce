-- ===== src/Ssh/Slots.antt =====
-- The connect slots of server/internal/web/static/js/dashboard/ssh/sessions.js: `acquireSlot` and
-- `releaseSlot`. A task is a call of `connect` that has not ended. It waits in the queue as its
-- `resolve` does, or runs behind the `await`, up to the `finally` that releases its slot.
pub mod Invariant
use connexia.Common.{
  ℕ, zero, suc, ◌+◌, ◌-◌, Bool, true, false, Option, none, some, List, [], ◌∷◌, ◌++◌, Text, min,
  max, ltb, ◌==◌, if◌then◌else◌, parse_int, Parsed, negative, natural, not_a_number,
}

-- `dialing` is false while the task has its slot and has not gone on.
pub record Task : Type 0 where
  pub session : ℕ
  pub generation : ℕ
  pub dialing : Bool

pub record Slots : Type 0 where
  pub connecting : ℕ
  pub waiting : List Task
  pub running : List Task

-- `Math.min(100, Math.max(1, parseInt(setting, 10) || 4))`. `Math.max` makes a negative number 1;
-- `-0` is no number for `||`.
unfoldable pub slot_limit : Text → ℕ
slot_limit setting = elim (parse_int setting) [
  | not_a_number ↦ 4
  | negative n ↦ if n == 0 then 4 else 1
  | natural n ↦ min 100 (max 1 (if n == 0 then 4 else n))
]

unfoldable pub acquire_slot : ℕ → Task → Slots → Slots
acquire_slot limit task s =
    if ltb s.connecting limit
    then record s { connecting = s.connecting + 1; running = s.running ++ task ∷ [] }
    else record s { waiting = s.waiting ++ task ∷ [] }

-- The slot goes to the first in the queue, if there is one.
unfoldable pub release_slot : Slots → Slots
release_slot s = elim s.waiting [
  | [] ↦ record s { connecting = s.connecting - 1 }
  | next ∷ rest ↦ record s { waiting = rest; running = s.running ++ next ∷ [] }
]

unfoldable pub remove_at {ℓ} : {A : Type ℓ} → ℕ → List A → List A
remove_at i [] = []
remove_at zero (x ∷ xs) = xs
remove_at (suc i) (x ∷ xs) = x ∷ remove_at i xs

-- The running task at a place ends: the `finally` of `connect`.
unfoldable pub finish : ℕ → Slots → Slots
finish i s = release_slot (record s { running = remove_at i s.running })

unfoldable pub mark_dialing : ℕ → List Task → List Task
mark_dialing i [] = []
mark_dialing zero (t ∷ ts) = record t { dialing = true } ∷ ts
mark_dialing (suc i) (t ∷ ts) = t ∷ mark_dialing i ts

-- The running task at a place goes on to `ssh.connect`.
unfoldable pub dial : ℕ → Slots → Slots
dial i s = record s { running = mark_dialing i s.running }
