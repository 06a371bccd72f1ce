-- ===== src/Metrics/Rates/Bounds.antt =====
-- What the rates of a series of samples add up to.
use connexia.Common.{ℕ, ◌+◌, ◌-◌, ◌≤◌, ◌<◌, ◌≡◌, List, [], ◌∷◌}
use connexia.Metrics.Rates.{Sample, Previous, rx_sum, finalize_rates}

-- The bytes that the rates of some samples stand for, each over the time of its sample, in
-- thousandths.
pub received : Previous → List Sample → ℕ
received previous [] = 0
received previous (s ∷ ss) =
    let r = finalize_rates previous s in r.0.net_rx_rate.over + received r.1 ss

-- Samples later and later, whose counters are not reset.
abbrev pub Grows : ℕ → ℕ → List Sample → Type 0
Grows rx ts [] = Unit
Grows rx ts (s ∷ ss) = (rx ≤ rx_sum s.ifaces) × (ts < s.ts) × Grows (rx_sum s.ifaces) s.ts ss

-- The counter at the last sample.
abbrev pub last_rx : ℕ → List Sample → ℕ
last_rx rx [] = rx
last_rx rx (s ∷ ss) = last_rx (rx_sum s.ifaces) ss

-- The rate of each sample is over the time since the sample before.
pub AllTimed : ℕ → Previous → List Sample → Type 0
AllTimed ts previous [] = Unit
AllTimed ts previous (s ∷ ss) =
    let r = finalize_rates previous s in (r.0.net_rx_rate.under ≡ s.ts - ts) × AllTimed s.ts r.1 ss
