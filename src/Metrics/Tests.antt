-- ===== src/Metrics/Tests.antt =====
-- Runs of the rates and of the retries, and the theorems about them at concrete inputs.
use connexia.Common.{ℕ, ◌≤◌, ◌≡◌, ◌↔◌, refl, true, false, some, List, [], ◌∷◌}
use connexia.Metrics.Rates.{Sample, Previous, finalize_rates, cpu_of}
use connexia.Metrics.Backoff.{new_conn, connect_failed, polls}
use connexia.Metrics.Backoff.Delay.{failures_at, connect_failed-polls}

abbrev sample_at : ℕ → ℕ → ℕ → ℕ → Sample
sample_at ts total idle rx = record {
  ts = ts;
  cpu_counters = some (record { total = total; idle = idle });
  ifaces = record { rx_bytes = rx; tx_bytes = 1 } ∷ [];
}

abbrev before : Previous
before = record {
  cpu = some (record { total = 100; idle = 50 });
  traffic = some (record { rx_cum = 1000; tx_cum = 1; ts = 5000 });
}

-- A quarter of the time busy, and 500 bytes in five seconds.
finalize_rates_runs :
    (finalize_rates before (sample_at 10000 140 80 1500)).0.cpu_pct
    ≡ some (record { over = 1000; under = 40 })
unfolding finalize_rates cpu_of
finalize_rates_runs = refl

abbrev two_samples : List Sample
two_samples = sample_at 10000 140 80 1500 ∷ sample_at 15000 190 90 1600 ∷ []

connect_failed-polls_example :
    let failed = connect_failed 1000 (failures_at (0 ∷ []) new_conn) in
    (11000 ≤ failed.retry_at)
    × (failed.retry_at ≤ 61000)
    × (failed.retry_at ≤ (connect_failed 1000 failed).retry_at)
    × ((polls false 30000 (some failed) ≡ true) ↔ (failed.retry_at ≤ 30000))
    × (polls true 30000 (some failed) ≡ true)
connect_failed-polls_example = connect_failed-polls new_conn (0 ∷ []) 1000 30000 refl
