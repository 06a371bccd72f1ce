-- ===== src/Metrics/Rates.antt =====
-- `finalizeRates` of server/internal/web/static/js/dashboard/metrics/controller.js. A quotient of the
-- code is a pair of its two parts, so nothing is rounded.
pub mod Bounds
use connexia.Common.{
  ℕ, zero, suc, ◌+◌, ◌-◌, ◌*◌, min, max, Bool, true, false, ◌&&◌, Option, none, some, List, [], ◌∷◌,
  ltb, leb, if◌then◌else◌,
}

pub record CpuCounters : Type 0 where
  pub total : ℕ
  pub idle : ℕ

pub record Interface : Type 0 where
  pub rx_bytes : ℕ
  pub tx_bytes : ℕ

-- The fields of a sample that the rates are made of. `ts` is in milliseconds.
pub record Sample : Type 0 where
  pub ts : ℕ
  pub cpu_counters : Option CpuCounters
  pub ifaces : List Interface

pub record Ratio : Type 0 where
  pub over : ℕ
  pub under : ℕ

-- What a connection keeps of the sample before; the two sums and the time are set together.
pub record Traffic : Type 0 where
  pub rx_cum : ℕ
  pub tx_cum : ℕ
  pub ts : ℕ

pub record Previous : Type 0 where
  pub cpu : Option CpuCounters
  pub traffic : Option Traffic

pub record Rates : Type 0 where
  pub cpu_pct : Option Ratio
  pub net_rx_rate : Ratio
  pub net_tx_rate : Ratio
  pub net_rx_cum : ℕ
  pub net_tx_cum : ℕ

abbrev pub no_rate : Ratio
no_rate = record { over = 0; under = 1 }

-- `Math.min(100, Math.max(0, (1 - dIdle / dTotal) * 100))`, where `dTotal` is not 0: the parts of
-- `(dTotal - dIdle) * 100 / dTotal`. The counters are those of /proc/stat, which are not negative.
unfoldable pub cpu_of : Option CpuCounters → Option CpuCounters → Option Ratio
cpu_of none now = none
cpu_of (some before) none = none
cpu_of (some before) (some now) =
    if ltb before.total now.total && leb before.idle now.idle
    then some (record {
      over = min (100 * (now.total - before.total)) (
          if ltb (now.total - before.total) (now.idle - before.idle)
          then 0
          else (now.total - before.total - (now.idle - before.idle)) * 100);
      under = now.total - before.total;
    })
    else none

unfoldable pub rx_sum : List Interface → ℕ
rx_sum [] = 0
rx_sum (i ∷ is) = i.rx_bytes + rx_sum is

unfoldable pub tx_sum : List Interface → ℕ
tx_sum [] = 0
tx_sum (i ∷ is) = i.tx_bytes + tx_sum is

-- Bytes per second, for a time in milliseconds.
abbrev pub per_second : ℕ → ℕ → Ratio
per_second bytes ms = record { over = bytes * 1000; under = ms }

-- Both rates, from the traffic before and the traffic now.
unfoldable pub net_of : Option Traffic → Traffic → Ratio × Ratio
net_of none now = (no_rate, no_rate)
net_of (some before) now =
    if leb before.rx_cum now.rx_cum && ltb before.ts now.ts
    then (
      per_second (now.rx_cum - before.rx_cum) (now.ts - before.ts),
      per_second (now.tx_cum - before.tx_cum) (now.ts - before.ts),
    )
    else (no_rate, no_rate)

abbrev pub newer : Option CpuCounters → Option CpuCounters → Option CpuCounters
newer before none = before
newer before (some now) = some now

unfoldable pub finalize_rates : Previous → Sample → Rates × Previous
finalize_rates previous s =
    let now : Traffic = record { rx_cum = rx_sum s.ifaces; tx_cum = tx_sum s.ifaces; ts = s.ts } in
    let net = net_of previous.traffic now in
    (
      record {
        cpu_pct = cpu_of previous.cpu s.cpu_counters;
        net_rx_rate = net.0;
        net_tx_rate = net.1;
        net_rx_cum = now.rx_cum;
        net_tx_cum = now.tx_cum;
      },
      record { cpu = newer previous.cpu s.cpu_counters; traffic = some now },
    )
