-- ===== src/Metrics/History/Kept.antt =====
-- Which rows are not lost.
use connexia.Common.{
  ℕ, suc, ◌+◌, ◌≤◌, ◌≡◌, ◌≢◌, refl, sym, ap, ◌∙◌, arith, Bool, true, false, Option, none, some,
  List, [], ◌∷◌, ◌++◌, map, filter, length, ltb, leb, Bool-cases, inl, inr, All,
}
use connexia.Metrics.History.{
  Row, History, Taking, taken, thrown, aborted, keep_ms, shift_old, delete_old, prune, prune_due,
  store_row, add,
}

-- A call of `add`: the time, what is refused, and the row.
abbrev pub Call : Type 0 → Type 0
Call Value = ℕ × (Bool × Taking) × Row Value

module _ {Value : Type 0} where
  abbrev pub count : (Row Value → Bool) → List (Row Value) → ℕ
  count test rows = length (filter test rows)

  -- The rows of the database and of the memory.
  unfoldable pub rows_of : History Value → List (Row Value)
  rows_of h = (elim h.stored [ none ↦ [] | some rows ↦ rows ]) ++ h.memory

  -- The calls, the newest first.
  unfoldable pub add_all : List (Call Value) → History Value → History Value
  add_all [] h = h
  add_all ((now, refused, row) ∷ calls) h = add now refused.0 refused.1 row (add_all calls h)

  count-append :
      (test : Row Value → Bool) (xs ys : List (Row Value))
      → count test (xs ++ ys) ≡ count test xs + count test ys
  count-append test [] ys = omega arith
  count-append test (x ∷ xs) ys = elim (Bool-cases (test x)) [
    | inl e ↦ rw e (omega (arith, count-append test xs ys))
    | inr e ↦ rw e (count-append test xs ys)
  ]

  module _ (test : Row Value → Bool) (now : ℕ)
      (young : (row : Row Value) → test row ≡ true → ltb now (row.ts + keep_ms) ≡ true) where
    count-shift_old :
        (at : ℕ) (rows : List (Row Value))
        → at ≤ now
        → count test (shift_old at rows) ≡ count test rows
    unfolding shift_old
    count-shift_old at [] le = refl
    count-shift_old at (row ∷ rows) le = elim (Bool-cases (test row)) [
      | inl e ↦ elim (Bool-cases (ltb (row.ts + keep_ms) at)) [
        | inl f ↦ ground (arith, f, le, young row e)
        | inr f ↦ rw f refl
      ]
      | inr e ↦ elim (Bool-cases (ltb (row.ts + keep_ms) at)) [
        | inl f ↦ rw f (rw e (count-shift_old at rows le))
        | inr f ↦ rw f refl
      ]
    ]

    count-delete_old :
        (at : ℕ) (rows : List (Row Value))
        → at ≤ now
        → count test (delete_old at rows) ≡ count test rows
    count-delete_old at [] le = refl
    count-delete_old at (row ∷ rows) le = elim (Bool-cases (leb (row.ts + keep_ms) at)) [
      | inr f ↦ rw f (elim (Bool-cases (test row)) [
        | inl e ↦ rw e (ap suc (count-delete_old at rows le))
        | inr e ↦ rw e (count-delete_old at rows le)
      ])
      | inl f ↦ elim (Bool-cases (test row)) [
        | inl e ↦ ground (arith, f, le, young row e)
        | inr e ↦ rw f (rw e (count-delete_old at rows le))
      ]
    ]

    count-rows_of :
        (h : History Value)
        → count test (rows_of h)
          ≡ count test (elim h.stored [ none ↦ [] | some rows ↦ rows ]) + count test h.memory
    unfolding rows_of
    count-rows_of h = count-append test (elim h.stored [ none ↦ [] | some rows ↦ rows ]) h.memory

    abbrev history : Option (List (Row Value)) → List (Row Value) → ℕ → History Value
    history o memory last = record { stored = o; memory = memory; last_prune = last }

    count-prune :
        (at : ℕ) (refused : Bool) (o : Option (List (Row Value))) (memory : List (Row Value))
        (last : ℕ)
        → at ≤ now
        → count test (rows_of (prune at refused (history o memory last)))
          ≡ count test (rows_of (history o memory last))
    unfolding prune rows_of
    count-prune at refused none memory last le = count-shift_old at memory le
    count-prune at true (some rows) memory last le = refl
    count-prune at false (some rows) memory last le =
        count-append test (delete_old at rows) memory
        ∙ ap (λ n. n + count test memory) (count-delete_old at rows le)
        ∙ sym (count-append test rows memory)

    count-prune_due :
        (at : ℕ) (refused : Bool) (h : History Value)
        → at ≤ now
        → count test (rows_of (prune_due at refused h)) ≡ count test (rows_of h)
    count-prune_due at refused h le =
        ground (arith, count-prune at refused h.stored h.memory h.last_prune le)

    count-store_row :
        (taking : Taking) (row : Row Value) (o : Option (List (Row Value)))
        (memory : List (Row Value)) (last : ℕ)
        → taking ≢ aborted
        → count test (rows_of (store_row taking row (history o memory last)))
          ≡ count test (row ∷ []) + count test (rows_of (history o memory last))
    unfolding store_row rows_of
    count-store_row _ row none memory last kept = omega (arith, count-append test memory (row ∷ []))
    count-store_row thrown row (some rows) memory last kept = omega (
      arith,
      count-append test rows (memory ++ row ∷ []),
      count-append test memory (row ∷ []),
      count-append test rows memory,
    )
    count-store_row aborted row (some rows) memory last kept = absurd (kept refl)
    count-store_row taken row (some rows) memory last kept = omega (
      arith,
      count-append test (rows ++ row ∷ []) memory,
      count-append test rows (row ∷ []),
      count-append test rows memory,
    )

    count-add :
        (at : ℕ) (refused : Bool × Taking) (row : Row Value) (h : History Value)
        → at ≤ now
        → refused.1 ≢ aborted
        → count test (rows_of (add at refused.0 refused.1 row h))
          ≡ count test (row ∷ []) + count test (rows_of h)
    unfolding add
    count-add at refused row h le kept =
        let due = prune_due at refused.0 h in
        count-store_row refused.1 row due.stored due.memory due.last_prune kept
        ∙ ap (λ n. count test (row ∷ []) + n) (count-prune_due at refused.0 h le)

-- Whether the database can be opened or not, refuses to prune, takes the rows or throws at once, no
-- row is lost before its time, as long as it aborts no transaction later: of the rows that are
-- younger than eight days, those that pass a test are in the history as often as they were there
-- before and were added, when the calls were made no later than now.
pub count-add_all :
    {Value : Type 0} (test : Row Value → Bool) (now : ℕ) (calls : List (Call Value))
    (h : History Value)
    → ((row : Row Value) → test row ≡ true → ltb now (row.ts + keep_ms) ≡ true)
    → All (λ call. (call.0 ≤ now) × (call.1.1 ≢ aborted)) calls
    → count test (rows_of (add_all calls h))
      ≡ count test (map (λ call. call.2) calls) + count test (rows_of h)
unfolding add_all
count-add_all test now [] h young a = omega arith
count-add_all test now ((at, refused, row) ∷ calls) h young a =
    let later = count-add_all test now calls h young a.1 in
    omega (
      arith,
      count-add test now young at refused row (add_all calls h) a.0.0 a.0.1,
      count-append test (row ∷ []) (map (λ call. call.2) calls),
      later,
    )
