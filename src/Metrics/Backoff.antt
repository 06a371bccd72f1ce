-- ===== src/Metrics/Backoff.antt =====
-- When server/internal/web/static/js/dashboard/metrics/controller.js connects again: `connectFailed`,
-- the guard of `poll`, and what a sample, new credentials or `sync` reset.
pub mod Delay
use connexia.Common.{
  ℕ, zero, suc, ◌+◌, ◌*◌, ◌^◌, min, Bool, true, false, not, ◌&&◌, ◌||◌, Option, none, some, List,
  [], ◌∷◌, Text, codes, same, starts_with, ltb, if◌then◌else◌,
}

-- The fields of a connection about its retries.
pub record Conn : Type 0 where
  pub handle : Option ℕ
  pub failures : ℕ
  pub retry_at : ℕ

abbrev pub new_conn : Conn
new_conn = record { handle = none; failures = 0; retry_at = 0 }

-- `Math.min(60000, 5000 * 2 ** failures)`
unfoldable pub delay : ℕ → ℕ
delay failures = min 60000 (5000 * 2 ^ failures)

unfoldable pub connect_failed : ℕ → Conn → Conn
connect_failed now c = record c {
  failures = c.failures + 1;
  retry_at = now + delay (c.failures + 1);
}

-- The credentials are asked for again.
pub wants_credentials : Text → Bool
wants_credentials message =
    starts_with (codes "Authentication failed") message
    || same message (codes "Authentication cancelled.")

-- A sample has arrived.
unfoldable pub sampled : Conn → Conn
sampled c = record c { failures = 0; retry_at = 0 }

-- `closeConn` and a reset: new credentials, or a host that is saved with other settings.
unfoldable pub reset : Conn → Conn
reset c = record c { handle = none; failures = 0; retry_at = 0 }

-- Whether `poll` goes on to `doPoll`, with no poll of the host running.
unfoldable pub polls : Bool → ℕ → Option Conn → Bool
polls force now none = true
polls force now (some c) =
    not (not force && (elim c.handle [ none ↦ true | some handle ↦ false ] && ltb now c.retry_at))
