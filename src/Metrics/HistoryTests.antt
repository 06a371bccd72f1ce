-- ===== src/Metrics/HistoryTests.antt =====
-- A run of the history, and the theorem about it at concrete inputs.
use connexia.Common.{
  ℕ, ◌+◌, ◌≡◌, refl, arith, false, none, some, List, [], ◌∷◌, codes, map, ltb, sort_by, same,
}
use connexia.Metrics.History.{Row, History, taken, thrown, keep_ms, add, load, store_row, prune}
use connexia.Metrics.History.Kept.{Call, count, rows_of, add_all, count-add_all}

abbrev row_at : ℕ → Row ℕ
row_at ts = record { host_id = codes "a"; ts = ts; value = 1 }

abbrev new_history : History ℕ
new_history = record { stored = some []; memory = []; last_prune = 0 }

-- The second row is refused by the database, and the first is older than eight days then.
abbrev two_calls : List (Call ℕ)
two_calls =
    (800000000, (false, thrown), row_at 800000000) ∷ (5000, (false, taken), row_at 5000) ∷ []

load_reads : load (codes "a") 0 6000 none (add_all two_calls new_history) ≡ row_at 800000000 ∷ []
unfolding load add_all add store_row prune sort_by same
load_reads = refl

count-add_all_example :
    count (λ row. ltb 800000000 (row.ts + keep_ms)) (rows_of (add_all two_calls new_history))
    ≡ count (λ row. ltb 800000000 (row.ts + keep_ms)) (map (λ call. call.2) two_calls)
      + count (λ row. ltb 800000000 (row.ts + keep_ms)) (rows_of new_history)
count-add_all_example =
    count-add_all (λ row. ltb 800000000 (row.ts + keep_ms)) 800000000 two_calls new_history
      (λ row young. young) ((omega arith, λ e. cc e), ((omega arith, λ e. cc e), tt))
