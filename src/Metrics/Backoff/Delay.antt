-- ===== src/Metrics/Backoff/Delay.antt =====
-- How long a host that cannot be reached is left alone.
use native.Mathlib.Nat.{pow-succ'}
use connexia.Common.{
  ℕ, zero, suc, ◌+◌, ◌*◌, ◌^◌, ◌≤◌, ◌≡◌, ◌↔◌, refl, arith, true, false, not, none, some, List, [],
  ◌∷◌, ltb, ◌∙◌,
}
use connexia.Metrics.Backoff.{Conn, delay, connect_failed, polls}

pow_step : (n : ℕ) → 2 ^ (n + 1) ≡ 2 * 2 ^ n
pow_step n = let e : n + 1 ≡ suc n = omega arith in rw e (pow-succ' 2 n)

pow_positive : (n : ℕ) → 1 ≤ 2 ^ n
pow_positive zero = omega arith
pow_positive (suc n) = omega (arith, pow-succ' 2 n, pow_positive n)

delay_bounds : (n : ℕ) → (10000 ≤ delay (n + 1)) × (delay (n + 1) ≤ 60000)
unfolding delay
delay_bounds n = omega (arith, pow_step n, pow_positive n)

delay_grows : (n : ℕ) → delay n ≤ delay (n + 1)
unfolding delay
delay_grows n = omega (arith, pow_step n)

-- Failures one after the other, each at its time.
abbrev pub failures_at : List ℕ → Conn → Conn
failures_at [] c = c
failures_at (now ∷ rest) c = failures_at rest (connect_failed now c)

failures_at-handle : (times : List ℕ) (c : Conn) → (failures_at times c).handle ≡ c.handle
unfolding connect_failed
failures_at-handle [] c = refl
failures_at-handle (now ∷ rest) c = failures_at-handle rest (connect_failed now c)

-- However often a connection has failed: behind the next failure the timers leave the host alone
-- for ten seconds at least and a minute at most, longer each time or as long, and a forced poll goes
-- on at once.
pub connect_failed-polls :
    (c : Conn) (times : List ℕ) (now later : ℕ)
    → c.handle ≡ none
    → let before = failures_at times c in
      let failed = connect_failed now before in
      (now + 10000 ≤ failed.retry_at)
      × (failed.retry_at ≤ now + 60000)
      × (failed.retry_at ≤ (connect_failed now failed).retry_at)
      × ((polls false later (some failed) ≡ true) ↔ (failed.retry_at ≤ later))
      × (polls true later (some failed) ≡ true)
unfolding connect_failed polls
connect_failed-polls c times now later h =
    let before = failures_at times c in
    let bounds = delay_bounds before.failures in
    let open_handle : before.handle ≡ none = failures_at-handle times c ∙ h in
    let at = now + delay (before.failures + 1) in
    (
      omega (arith, bounds.0),
      omega (arith, bounds.1),
      omega (arith, delay_grows (before.failures + 1)),
      rw open_handle (not_ltb later at),
      refl,
    )
  where
    not_ltb : (a b : ℕ) → (not (ltb a b) ≡ true) ↔ (b ≤ a)
    not_ltb a b = ground arith
