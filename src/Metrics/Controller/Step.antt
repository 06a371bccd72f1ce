-- ===== src/Metrics/Controller/Step.antt =====
-- What the page does between two waits of the controller, and the states that it reaches from a new
-- controller.
pub mod Polls
pub mod Samples
pub mod Owned
pub mod Quiet
use connexia.Common.{ℕ, ◌⊎◌, ◌==◌, inl, inr, Bool, Option, none, some, List, [], ◌∷◌, Text, get}
use connexia.Ssh.Auth.{Auth}
use connexia.Metrics.Rates.{Sample}
use connexia.Metrics.Pool.{Stage, awaiting_auth, awaiting_client, awaiting_sample, handle_closed}
use connexia.Metrics.Inventory.{Service}
use connexia.Metrics.Controller.{
  Env, Controller, with_pool, poll, auth_resolved, connected, connect_rejected,
}
use connexia.Metrics.Controller.Policies.{
  load_services, services_loaded, load_cron, cron_loaded, service_action, write_cron, cron_written,
  sample_arrived, sample_failed,
}
use connexia.Metrics.Controller.Sync.{sync, select, provide_credentials}

pub data Event : Type 0 where
  synced : Event
  polled : Text → Bool → Event
  selected : Text → Event
  provided : Text → Text → Text → Event
  resolved : Text → Auth → Event
  opened : Text → ℕ → Event
  rejected : Text → Text → Event
  closed : Text → ℕ → ℕ → Event
  sampled : Text → Sample → Event
  failed_sample : Text → Bool → Event
  loads_services : Text → Event
  loaded_services : Text → Option (Text ⊎ List Service) → Event
  loads_cron : Text → Event
  loaded_cron : Text → Option (Text ⊎ Text) → Event
  acts : Text → Event
  writes : Text → Event
  wrote : Text → Text → Option Text → Event

-- An answer to `resolveAuth`, for a poll that waits for one.
abbrev pub on_auth : Text → Auth → Option Stage → Controller → Controller
on_auth id auth none c = c
on_auth id auth (some (awaiting_auth retried ref)) c = auth_resolved retried ref id auth c
on_auth id auth (some (awaiting_client retried ref)) c = c
on_auth id auth (some (awaiting_sample retried ref)) c = c

-- A connection for a poll that waits for one; nothing else opens one.
abbrev pub on_open : Env → Text → ℕ → Option Stage → Controller → Controller
on_open env id h none c = c
on_open env id h (some (awaiting_auth retried ref)) c = c
on_open env id h (some (awaiting_client retried ref)) c = connected env retried ref id h c
on_open env id h (some (awaiting_sample retried ref)) c = c

abbrev pub on_reject : Env → Text → Text → Option Stage → Controller → Controller
on_reject env id message none c = c
on_reject env id message (some (awaiting_auth retried ref)) c = c
on_reject env id message (some (awaiting_client retried ref)) c =
    connect_rejected env ref id message c
on_reject env id message (some (awaiting_sample retried ref)) c = c

abbrev pub on_sample : Env → Text → Sample → Option Stage → Controller → Controller
on_sample env id sample none c = c
on_sample env id sample (some (awaiting_auth retried ref)) c = c
on_sample env id sample (some (awaiting_client retried ref)) c = c
on_sample env id sample (some (awaiting_sample retried ref)) c = sample_arrived env ref id sample c

abbrev pub on_failure : Env → Text → Bool → Option Stage → Controller → Controller
on_failure env id timed_out none c = c
on_failure env id timed_out (some (awaiting_auth retried ref)) c = c
on_failure env id timed_out (some (awaiting_client retried ref)) c = c
on_failure env id timed_out (some (awaiting_sample retried ref)) c =
    sample_failed env retried ref id timed_out c

unfoldable pub step : Env → Event → Controller → Controller
step env synced c = sync env c
step env (polled id force) c = poll env id force c
step env (selected id) c = select env id c
step env (provided id username password) c = provide_credentials env id username password c
step env (resolved id auth) c = on_auth id auth (get id c.pool.polling) c
step env (opened id h) c = on_open env id h (get id c.pool.polling) c
step env (rejected id message) c = on_reject env id message (get id c.pool.polling) c
step env (closed id ref h) c = with_pool (handle_closed id ref h) c
step env (sampled id sample) c = on_sample env id sample (get id c.pool.polling) c
step env (failed_sample id timed_out) c = on_failure env id timed_out (get id c.pool.polling) c
step env (loads_services id) c = load_services env id c
step env (loaded_services id answer) c = services_loaded id answer c
step env (loads_cron id) c = load_cron env id c
step env (loaded_cron id answer) c = cron_loaded id answer c
step env (acts id) c = (service_action id c).1
step env (writes id) c = (write_cron id c).1
step env (wrote id body error) c = cron_written id body error c

abbrev pub new_controller : Controller
new_controller = record {
  states = [];
  services = [];
  crons = [];
  cards_pending = [];
  needs_credentials = [];
  typed = [];
  signatures = [];
  selected_id = none;
  known = [];
  pool = record { conns = []; polling = []; live = []; fresh = 0 };
}

-- Any events, the newest first, each with what the page has then.
unfoldable pub run : List (Env × Event) → Controller
run [] = new_controller
run ((env, event) ∷ events) = step env event (run events)
