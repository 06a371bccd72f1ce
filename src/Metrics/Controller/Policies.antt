-- ===== src/Metrics/Controller/Policies.antt =====
-- The services and the crontab of a host, and what the end of a poll starts: `loadServices`,
-- `serviceAction`, `loadCron`, `writeCron` and the rest of `doPoll`.
use connexia.Common.{
  ℕ, ◌⊎◌, ◌==◌, inl, inr, Bool, true, false, not, ◌&&◌, ◌||◌, Option, none, some, List, [], ◌∷◌,
  Text, codes, same, get, put, if◌then◌else◌,
}
use connexia.Metrics.Rates.{Sample, Previous, Rates, finalize_rates}
use connexia.Metrics.Backoff.{sampled}
use connexia.Metrics.Pool.{Client, Pool, change_client, close_client, end_poll}
use connexia.Metrics.Inventory.{Service}
use connexia.Metrics.Controller.{
  ok, Policy, no_policies, Env, Controller, has, without, or_default, set_state, fail, with_pool,
  poll, do_poll, is_some, link_of,
}

abbrev pub policy_of : Text → List (Text × Policy) → Policy
policy_of id m = or_default no_policies (get id m)

abbrev pub set_services : Text → Policy → Controller → Controller
set_services id policy c = record c { services = put id policy c.services }

abbrev pub set_crons : Text → Policy → Controller → Controller
set_crons id policy c = record c { crons = put id policy c.crons }

abbrev pub handle_of : Text → Pool → Option ℕ
handle_of id p = elim (link_of id p) [ none ↦ none | some link ↦ link.handle ]

-- `withHandle` up to its wait: a host without a connection is polled.
unfoldable pub with_handle_of : Env → Text → Controller → Controller
with_handle_of env id c = if is_some (handle_of id c.pool) then c else poll env id true c

-- `loadServices` up to its first wait.
unfoldable pub load_services : Env → Text → Controller → Controller
load_services env id c =
    let previous = policy_of id c.services in
    with_handle_of env id (
      set_services id
        (record no_policies {
          loading = true;
          units = previous.units;
          unsupported = previous.unsupported;
        })
        c)

abbrev pub offline : Policy
offline = record no_policies { error = some (codes "Host is offline") }

abbrev pub is_empty {ℓ} : {A : Type ℓ} → List A → Bool
is_empty [] = true
is_empty (x ∷ xs) = false

-- What is shown of the services: there is no connection, an error, or the units.
unfoldable pub services_loaded : Text → Option (Text ⊎ List Service) → Controller → Controller
services_loaded id none c = set_services id offline c
services_loaded id (some (inl message)) c =
    set_services id (record no_policies { error = some message }) c
services_loaded id (some (inr units)) c =
    set_services id (record no_policies { units = units; unsupported = is_empty units }) c

-- `loadCron` up to its first wait.
unfoldable pub load_cron : Env → Text → Controller → Controller
load_cron env id c =
    let previous = policy_of id c.crons in
    with_handle_of env id
      (set_crons id (record no_policies { loading = true; crontab = previous.crontab }) c)

unfoldable pub cron_loaded : Text → Option (Text ⊎ Text) → Controller → Controller
cron_loaded id none c = set_crons id offline c
cron_loaded id (some (inl message)) c = set_crons id (record no_policies { error = some message }) c
cron_loaded id (some (inr crontab)) c = set_crons id (record no_policies { crontab = crontab }) c

-- `serviceAction` up to its first wait: the answer when there is none.
unfoldable pub service_action : Text → Controller → Option Text × Controller
service_action id c = elim (handle_of id c.pool) [
  | none ↦ (some (codes "Host is offline"), c)
  | some h ↦ (none, set_services id (record (policy_of id c.services) { loading = true }) c)
]

-- `writeCron` up to its first wait.
unfoldable pub write_cron : Text → Controller → Option Text × Controller
write_cron id c = elim (handle_of id c.pool) [
  | none ↦ (some (codes "Host is offline"), c)
  | some h ↦ (none, set_crons id (record (policy_of id c.crons) { loading = true }) c)
]

-- The crontab is shown as written when there is no error.
unfoldable pub cron_written : Text → Text → Option Text → Controller → Controller
cron_written id body none c =
    set_crons id (record (policy_of id c.crons) { loading = false; crontab = body }) c
cron_written id body (some error) c =
    set_crons id (record (policy_of id c.crons) { loading = false }) c

abbrev pub gave_up : Option Policy → Bool
gave_up none = false
gave_up (some policy) =
    not policy.loading
    && (elim policy.error [ none ↦ false | some message ↦ same message (codes "Host is offline") ])

abbrev pub client_of : Text → ℕ → Pool → Option Client
client_of id ref p = elim (get id p.conns) [
  | none ↦ none
  | some k ↦ if k.ref == ref then some k else none
]

abbrev pub show_sample : Text → Sample → Rates → Controller → Controller
show_sample id sample rates = set_state id (λ s. record s {
  poll_state = ok;
  error = none;
  last = some rates;
  last_updated = some sample.ts;
})

-- The policies of a host are loaded with the first sample after it is selected, and again when they
-- could not be loaded because it was offline.
unfoldable pub load_pending : Env → Text → Controller → Controller
load_pending env id c =
    let taken = record c { cards_pending = without id c.cards_pending } in
    if has id c.cards_pending || (gave_up (get id c.services) || gave_up (get id c.crons))
    then load_cron env id (load_services env id taken)
    else taken

abbrev pub after_sample : Previous → Client → Client
after_sample previous k = record k { previous = previous; link = sampled k.link }

-- `collectSample` has answered with a sample.
unfoldable pub sample_arrived : Env → ℕ → Text → Sample → Controller → Controller
sample_arrived env ref id sample c = elim (client_of id ref c.pool) [
  | none ↦ with_pool (end_poll id) c
  | some k ↦
      let finished = finalize_rates k.previous sample in
      with_pool (end_poll id) (
        load_pending env id (
          show_sample id sample finished.0
            (with_pool (change_client id ref (after_sample finished.1)) c)))
]

abbrev pub lost : Bool → Text
lost timed_out = if timed_out then codes "Timed out" else codes "Lost connection"

-- `collectSample` has failed: once, the host is connected again.
unfoldable pub sample_failed : Env → Bool → ℕ → Text → Bool → Controller → Controller
sample_failed env retried ref id timed_out c =
    let closed = with_pool (close_client id ref) c in
    if not retried && not timed_out
    then do_poll env id true closed
    else with_pool (end_poll id) (fail id (lost timed_out) closed)
