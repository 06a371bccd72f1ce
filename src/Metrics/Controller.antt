-- ===== src/Metrics/Controller.antt =====
-- The polls of server/internal/web/static/js/dashboard/metrics/controller.js. A handler that waits
-- is a function for each stretch between two waits, and the stage of the poll says where it goes on.
-- What `collectSample` reads is taken with the fields of `finalizeRates`; the history of the samples,
-- the timers and the listeners are left out.
pub mod Policies
pub mod Sync
pub mod Step
use connexia.Common.{
  ℕ, zero, suc, Bool, true, false, not, ◌&&◌, ◌||◌, Option, none, some, List, [], ◌∷◌, Text, codes,
  same, any, filter, find, get, put, remove, if◌then◌else◌, starts_with,
}
use connexia.Ssh.Auth.{Auth, Group}
use connexia.Metrics.Rates.{Sample, Previous, Rates, finalize_rates}
use connexia.Metrics.Backoff.{Conn, connect_failed, wants_credentials, sampled, polls, reset}
use connexia.Metrics.Pool.{
  Client, Stage, awaiting_auth, awaiting_client, awaiting_sample, Pool, conn_for, change_client,
  is_client, close_client, close_and, drop_client, waits, end_poll, take_handle,
}
use connexia.Metrics.Inventory.{Service}

pub data PollState : Type 0 where
  idle connecting ok error : PollState

-- What is shown of a host.
pub record Shown : Type 0 where
  pub poll_state : PollState
  pub error : Option Text
  pub last : Option Rates
  pub last_updated : Option ℕ

abbrev pub idle_shown : Shown
idle_shown = record { poll_state = idle; error = none; last = none; last_updated = none }

pub record Policy : Type 0 where
  pub loading : Bool
  pub error : Option Text
  pub unsupported : Bool
  pub units : List Service
  pub crontab : Text

abbrev pub no_policies : Policy
no_policies = record {
  loading = false;
  error = none;
  unsupported = false;
  units = [];
  crontab = [];
}

pub record Host : Type 0 where
  pub id : Text
  pub address : Text
  pub port : Text
  pub sign_in : connexia.Ssh.Auth.Host

-- What the page has when a handler runs: the watchlist, the tables, `webSSH` and the clock.
pub record Env : Type 0 where
  pub watchlist : List Text
  pub hosts : List Host
  pub groups : List Group
  pub web_ssh : Bool
  pub now : ℕ

pub record Controller : Type 0 where
  pub states : List (Text × Shown)
  pub services : List (Text × Policy)
  pub crons : List (Text × Policy)
  pub cards_pending : List Text
  pub needs_credentials : List Text
  pub typed : List (Text × (Text × Text))
  pub signatures : List (Text × List (Option Text))
  pub selected_id : Option Text
  pub known : List Text
  pub pool : Pool

abbrev pub has : Text → List Text → Bool
has id = any (same id)

abbrev pub without : Text → List Text → List Text
without id = filter (λ x. not (same id x))

abbrev pub or_default {ℓ} : {A : Type ℓ} → A → Option A → A
or_default a none = a
or_default a (some b) = b

abbrev pub state_of : Text → Controller → Shown
state_of id c = or_default idle_shown (get id c.states)

abbrev pub set_state : Text → (Shown → Shown) → Controller → Controller
set_state id patch c = record c { states = put id (patch (state_of id c)) c.states }

unfoldable pub fail : Text → Text → Controller → Controller
fail id message = set_state id (λ s. record s { poll_state = error; error = some message })

abbrev pub find_host : Text → Env → Option Host
find_host id env = find (λ h. same h.id id) env.hosts

abbrev pub with_pool : (Pool → Pool) → Controller → Controller
with_pool f c = record c { pool = f c.pool }

-- The poll waits for `resolveAuth`, or for a sample when the host is connected.
abbrev pub stage_for : Bool → Client → Stage
stage_for retried k = elim k.link.handle [
  | none ↦ awaiting_auth retried k.ref
  | some h ↦ awaiting_sample retried k.ref
]

abbrev pub start_stage : Bool → Text → Pool → Pool
start_stage retried id p = let r = conn_for id p in waits id (stage_for retried r.0) r.1

abbrev pub ssh_is_off : Text
ssh_is_off =
    codes "Web SSH is turned off on this server. An admin can turn it on in the admin page."

abbrev pub is_ok : PollState → Bool
is_ok ok = true
is_ok idle = false
is_ok connecting = false
is_ok error = false

abbrev pub show_connecting : Text → Controller → Controller
show_connecting id c =
    if is_ok (state_of id c).poll_state
    then c
    else set_state id (λ s. record s { poll_state = connecting }) c

abbrev pub is_some {ℓ} : {A : Type ℓ} → Option A → Bool
is_some none = false
is_some (some a) = true

-- `doPoll` up to its first wait.
unfoldable pub do_poll : Env → Text → Bool → Controller → Controller
do_poll env id retried c =
    if not (is_some (find_host id env))
      || (not (has id env.watchlist) || has id c.needs_credentials)
    then with_pool (end_poll id) c
    else if not env.web_ssh
    then with_pool (end_poll id) (fail id ssh_is_off c)
    else with_pool (start_stage retried id) (show_connecting id c)

abbrev pub link_of : Text → Pool → Option Conn
link_of id p = elim (get id p.conns) [ none ↦ none | some k ↦ some k.link ]

-- `poll`: the running poll of a host is the answer when there is one.
unfoldable pub poll : Env → Text → Bool → Controller → Controller
poll env id force c =
    if is_some (get id c.pool.polling) || not (polls force env.now (link_of id c.pool))
    then c
    else do_poll env id false c

abbrev pub set_login : Text → Option Text → Client → Client
set_login username password k = record k { username = username; password = password }

abbrev pub connects : Bool → Text → ℕ → Text → Option Text → Controller → Controller
connects retried id ref username password = with_pool (λ p.
    waits id (awaiting_client retried ref) (change_client id ref (set_login username password) p))

abbrev pub note_need : Bool → Text → Controller → Controller
note_need fatal id c =
    if fatal then c else record c { needs_credentials = id ∷ c.needs_credentials }

-- `resolveAuth` has answered.
unfoldable pub auth_resolved : Bool → ℕ → Text → Auth → Controller → Controller
auth_resolved retried ref id auth c = elim auth.missing [
  | none ↦ connects retried id ref auth.username auth.password c
  | some what ↦ elim (get id c.typed) [
    | some (username, password) ↦ connects retried id ref username (some password) c
    | none ↦ with_pool (end_poll id) (fail id what (note_need auth.fatal id c))
  ]
]

abbrev pub short_message : Text → Text
short_message message =
    if starts_with (codes "Authentication failed") message
    then codes "Authentication failed"
    else message

abbrev pub ask_again : Text → Text → Controller → Controller
ask_again message id c =
    if wants_credentials message
    then record c { needs_credentials = id ∷ c.needs_credentials }
    else c

abbrev pub set_link : (Conn → Conn) → Client → Client
set_link f k = record k { link = f k.link }

-- `connectFailed`, when the object is still the host's, and the end of the poll.
unfoldable pub connect_rejected : Env → ℕ → Text → Text → Controller → Controller
connect_rejected env ref id message c = with_pool (end_poll id) (
    if is_client id ref c.pool
    then fail id (short_message message) (
        with_pool (change_client id ref (set_link (connect_failed env.now)))
          (ask_again message id c))
    else c)

-- `openClient` has answered with a connection, which is closed at once when the host is not tracked.
unfoldable pub connected : Env → Bool → ℕ → Text → ℕ → Controller → Controller
connected env retried ref id h c =
    if has id env.watchlist && is_client id ref c.pool
    then with_pool (λ p. waits id (awaiting_sample retried ref) (take_handle id ref h p)) c
    else connect_rejected env ref id (codes "No longer tracked") c

-- `hasConnections`
unfoldable pub has_connections : Controller → Bool
has_connections c = any (λ e. is_some e.1.link.handle) c.pool.conns
