-- ===== src/Metrics/Controller/Step/Samples.antt =====
-- Samples and policies keep what holds of the connections.
use connexia.Common.{
  ℕ, ◌≡◌, refl, sym, subst, arith, Bool, true, Option, none, some, List, ◌⊎◌, inl, inr, Text,
  Option-cases,
}
use connexia.Metrics.Rates.{Sample, finalize_rates}
use connexia.Metrics.Backoff.{sampled}
use connexia.Metrics.Inventory.{Service}
use connexia.Metrics.Pool.{change_client, close_client}
use connexia.Metrics.Pool.Held.{IsHeld}
use connexia.Metrics.Pool.Changes.{change_client-IsHeld, close_client-IsHeld, end_poll-IsHeld}
use connexia.Metrics.Controller.{Env, Controller, without, with_pool, fail}
use connexia.Metrics.Controller.Policies.{
  load_services, services_loaded, load_cron, cron_loaded, sample_arrived, sample_failed,
  with_handle_of, load_pending, after_sample, client_of, show_sample,
}
use connexia.Metrics.Controller.Step.Polls.{IsHeldBy, poll-IsHeldBy, do_poll-IsHeldBy}

with_handle_of-IsHeldBy :
    (env : Env) (id : Text) (c : Controller) → IsHeldBy c → IsHeldBy (with_handle_of env id c)
unfolding with_handle_of
with_handle_of-IsHeldBy env id c i = ground (arith, i, poll-IsHeldBy env id true c i)

-- A state with the same connections.
pub same_pool : (c d : Controller) → c.pool ≡ d.pool → IsHeldBy d → IsHeldBy c
unfolding IsHeldBy
same_pool c d e i = subst IsHeld (sym e) i

pub load_services-IsHeldBy :
    (env : Env) (id : Text) (c : Controller) → IsHeldBy c → IsHeldBy (load_services env id c)
unfolding load_services
load_services-IsHeldBy env id c i = with_handle_of-IsHeldBy env id _ (same_pool _ c refl i)

pub load_cron-IsHeldBy :
    (env : Env) (id : Text) (c : Controller) → IsHeldBy c → IsHeldBy (load_cron env id c)
unfolding load_cron
load_cron-IsHeldBy env id c i = with_handle_of-IsHeldBy env id _ (same_pool _ c refl i)

pub services_loaded-IsHeldBy :
    (id : Text) (answer : Option (Text ⊎ List Service)) (c : Controller)
    → IsHeldBy c
    → IsHeldBy (services_loaded id answer c)
unfolding services_loaded IsHeldBy
services_loaded-IsHeldBy id none c i = i
services_loaded-IsHeldBy id (some (inl message)) c i = i
services_loaded-IsHeldBy id (some (inr units)) c i = i

pub cron_loaded-IsHeldBy :
    (id : Text) (answer : Option (Text ⊎ Text)) (c : Controller)
    → IsHeldBy c
    → IsHeldBy (cron_loaded id answer c)
unfolding cron_loaded IsHeldBy
cron_loaded-IsHeldBy id none c i = i
cron_loaded-IsHeldBy id (some (inl message)) c i = i
cron_loaded-IsHeldBy id (some (inr units)) c i = i

load_pending-IsHeldBy :
    (env : Env) (id : Text) (c : Controller) → IsHeldBy c → IsHeldBy (load_pending env id c)
unfolding load_pending
load_pending-IsHeldBy env id c i =
    let taken = record c { cards_pending = without id c.cards_pending } in
    let held = same_pool taken c refl i in
    ground (
      arith,
      held,
      load_cron-IsHeldBy env id (load_services env id taken)
          (load_services-IsHeldBy env id taken held),
    )

pub sample_arrived-IsHeldBy :
    (env : Env) (ref : ℕ) (id : Text) (sample : Sample) (c : Controller)
    → IsHeldBy c
    → IsHeldBy (sample_arrived env ref id sample c)
unfolding sample_arrived IsHeldBy sampled
sample_arrived-IsHeldBy env ref id sample c i = elim (Option-cases (client_of id ref c.pool)) [
  | inl e ↦ rw (sample_arrived, e) (end_poll-IsHeld id c.pool i)
  | inr (k, e) ↦
      let finished = finalize_rates k.previous sample in
      let changed = with_pool (change_client id ref (after_sample finished.1)) c in
      let shown = show_sample id sample finished.0 changed in
      let held =
        change_client-IsHeld id ref (after_sample finished.1) c.pool (λ k. refl) (λ k. refl) i in
      rw (sample_arrived, e)
        (end_poll-IsHeld id (load_pending env id shown).pool
          (load_pending-IsHeldBy env id shown held))
]

pub sample_failed-IsHeldBy :
    (env : Env) (retried : Bool) (ref : ℕ) (id : Text) (timed_out : Bool) (c : Controller)
    → IsHeldBy c
    → IsHeldBy (sample_failed env retried ref id timed_out c)
unfolding sample_failed IsHeldBy fail
sample_failed-IsHeldBy env retried ref id timed_out c i =
    let held = close_client-IsHeld id ref c.pool i in
    ground (
      arith,
      do_poll-IsHeldBy env id true (with_pool (close_client id ref) c) held,
      end_poll-IsHeld id (close_client id ref c.pool) held,
    )
