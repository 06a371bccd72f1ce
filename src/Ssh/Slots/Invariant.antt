-- ===== src/Ssh/Slots/Invariant.antt =====
-- The count of slots in use, and the queue for them.
use connexia.Common.{
  ℕ, zero, suc, ◌+◌, ◌≤◌, ◌<◌, ◌≡◌, refl, List, [], ◌∷◌, ◌++◌, length, length-append, arith, ap,
  ◌∙◌,
}
use connexia.Ssh.Slots.{
  Task, Slots, acquire_slot, release_slot, remove_at, finish, mark_dialing, dial,
}

-- With limits that have been between `low` and `high`: `connecting` counts the tasks that run, it
-- stays within the highest limit, and a task waits only while at least the lowest number of slots is
-- taken.
pub record IsValid (low high : ℕ) (s : Slots) : Type 0 where
  pub counted : s.connecting ≡ length s.running
  pub bounded : s.connecting ≤ high
  pub busy : 0 < length s.waiting → low ≤ s.connecting

pub acquire_slot-IsValid :
    (low high limit : ℕ) (t : Task) (s : Slots)
    → low ≤ limit
    → limit ≤ high
    → IsValid low high s
    → IsValid low high (acquire_slot limit t s)
unfolding acquire_slot
acquire_slot-IsValid low high limit t s above below v =
    ground (arith, length-append s.running (t ∷ []), length-append s.waiting (t ∷ []))

length-remove_at :
    (i : ℕ) (ts : List Task) → i < length ts → length (remove_at i ts) + 1 ≡ length ts
unfolding remove_at
length-remove_at i [] h = absurd (omega arith)
length-remove_at zero (t ∷ ts) h = omega arith
length-remove_at (suc i) (t ∷ ts) h = omega (arith, length-remove_at i ts)

length-mark_dialing : (i : ℕ) (ts : List Task) → length (mark_dialing i ts) ≡ length ts
unfolding mark_dialing
length-mark_dialing i [] = refl
length-mark_dialing zero (t ∷ ts) = refl
length-mark_dialing (suc i) (t ∷ ts) = omega (arith, length-mark_dialing i ts)

finish-IsValid_at :
    (low high i connecting : ℕ) (waiting running : List Task)
    → i < length running
    → IsValid low high (record { connecting = connecting; waiting = waiting; running = running })
    → IsValid low high
        (finish i (record { connecting = connecting; waiting = waiting; running = running }))
unfolding finish release_slot
finish-IsValid_at low high i connecting [] running h v =
    ground (arith, length-remove_at i running, v.counted, v.bounded)
finish-IsValid_at low high i connecting (next ∷ rest) running h v = ground (
  arith,
  length-remove_at i running,
  length-append (remove_at i running) (next ∷ []),
  v.counted,
  v.bounded,
  v.busy,
)

-- A task that ends gives its slot back, or on to the first that waits.
pub finish-IsValid :
    (low high i : ℕ) (s : Slots)
    → i < length s.running
    → IsValid low high s
    → IsValid low high (finish i s)
finish-IsValid low high i s h v = finish-IsValid_at low high i s.connecting s.waiting s.running h v

pub dial-IsValid : (low high i : ℕ) (s : Slots) → IsValid low high s → IsValid low high (dial i s)
unfolding dial
dial-IsValid low high i s v = ground (arith, length-mark_dialing i s.running)

-- Tasks end one after the other, each at its place among those that run then.
abbrev pub finishes : List ℕ → Slots → Slots
finishes [] s = s
finishes (i ∷ is) s = finishes is (finish i s)

-- Each of the places is that of a task that runs when it ends.
abbrev pub AllRunning : List ℕ → Slots → Type 0
AllRunning [] s = Unit
AllRunning (i ∷ is) s = (i < length s.running) × AllRunning is (finish i s)

-- A task that ends while others wait: the first of them takes its place.
finish-next :
    (i connecting : ℕ) (next : Task) (rest running : List Task)
    → finish i (record { connecting = connecting; waiting = next ∷ rest; running = running })
      ≡ record {
        connecting = connecting;
        waiting = rest;
        running = remove_at i running ++ next ∷ [];
      }
unfolding finish release_slot
finish-next i connecting next rest running = refl

-- The queue is served in order: a task with as many before it in the queue as running tasks end
-- runs, as the newest, when one more running task has ended. Those behind it still wait, and as many
-- tasks run as before.
pub waiting-finishes :
    (is : List ℕ) (i : ℕ) (before after : List Task) (t : Task) (s : Slots)
    → s.waiting ≡ before ++ t ∷ after
    → length is ≡ length before
    → AllRunning (is ++ i ∷ []) s
    → ((others : List Task) × ((finishes (is ++ i ∷ []) s).running ≡ others ++ t ∷ []))
      × ((finishes (is ++ i ∷ []) s).waiting ≡ after)
      × (length (finishes (is ++ i ∷ []) s).running ≡ length s.running)
      × ((finishes (is ++ i ∷ []) s).connecting ≡ s.connecting)
waiting-finishes [] i [] after t s e l r =
    let next : finish i s ≡ record {
      connecting = s.connecting;
      waiting = after;
      running = remove_at i s.running ++ t ∷ [];
    } =
      ap (λ w. finish i (record { connecting = s.connecting; waiting = w; running = s.running })) e
      ∙ finish-next i s.connecting t after s.running in
    let size : length (remove_at i s.running ++ t ∷ []) ≡ length s.running =
      omega
        (arith, length-append (remove_at i s.running) (t ∷ []), length-remove_at i s.running r.0) in
    rw next ((remove_at i s.running, refl), refl, size, refl)
waiting-finishes (j ∷ is) i (b ∷ before) after t s e l r =
    let next : finish j s ≡ record {
      connecting = s.connecting;
      waiting = before ++ t ∷ after;
      running = remove_at j s.running ++ b ∷ [];
    } =
      ap (λ w. finish j (record { connecting = s.connecting; waiting = w; running = s.running })) e
      ∙ finish-next j s.connecting b (before ++ t ∷ after) s.running in
    let size : length (finish j s).running ≡ length s.running =
      ap (λ (u : Slots). length u.running) next
      ∙ omega (
        arith,
        length-append (remove_at j s.running) (b ∷ []),
        length-remove_at j s.running r.0,
      ) in
    let (runs, waits, many, used) =
      waiting-finishes is i before after t (finish j s) (ap (λ (u : Slots). u.waiting) next)
        (omega arith) r.1 in
    (runs, waits, many ∙ size, used ∙ ap (λ (u : Slots). u.connecting) next)
waiting-finishes [] i (b ∷ before) after t s e l r = absurd (omega arith)
waiting-finishes (j ∷ is) i [] after t s e l r = absurd (omega arith)
