-- ===== src/Ssh/Session.antt =====
-- One terminal session of server/internal/web/static/js/dashboard/ssh/sessions.js: its record, and
-- what each function does to it. Its terminal, its element and its resize timer are not modelled.
pub mod Sound
use connexia.Common.{
  ℕ, zero, suc, ◌+◌, ◌-◌, ◌≤◌, Bool, true, false, not, ◌&&◌, ◌||◌, Option, none, some, List, [],
  ◌∷◌, ◌++◌, Text, same, codes, ltb, leb, ◌==◌, if◌then◌else◌, filter, length, decimal, trim,
}

pub data Status : Type 0 where
  connecting verifying connected error disconnected : Status

-- What a connection is asked for.
pub record Request : Type 0 where
  pub display_name : Text
  pub address : Text
  pub port : ℕ
  pub os : Option Text

pub record PendingHostKey : Type 0 where
  pub key_type : Text
  pub fingerprint : Text

-- `ssh` is the handle of the open connection, `log_id` the open entry of the session log, and
-- `has_term` says that the terminal has been created. `closed_generation` is `none` for -1.
pub record Session : Type 0 where
  pub id : ℕ
  pub request : Request
  pub label : Text
  pub os : Option Text
  pub status : Status
  pub error : Option Text
  pub has_term : Bool
  pub ssh : Option ℕ
  pub generation : ℕ
  pub closed_generation : Option ℕ
  pub has_unseen_output : Bool
  pub auto_retry : Bool
  pub next_retry_at : Option ℕ
  pub retry_timer : Bool
  pub pending_host_key : Option PendingHostKey
  pub log_id : Option ℕ

abbrev pub is_some {ℓ} : {A : Type ℓ} → Option A → Bool
is_some none = false
is_some (some a) = true

-- The colour of the tab: `statusColor`.
pub status_color : Status → Text
status_color connected = codes "var(--success)"
status_color connecting = codes "var(--warning)"
status_color verifying = codes "var(--warning)"
status_color error = codes "var(--danger)"
status_color disconnected = codes "var(--danger)"

abbrev pub retry_delay : ℕ
retry_delay = 5000

unfoldable pub clear_retry : Session → Session
clear_retry s = record s { retry_timer = false; next_retry_at = none }

-- For a session that is open; `now` is `Date.now()`.
unfoldable pub schedule_retry : ℕ → Session → Session
schedule_retry now s = if s.retry_timer then s else record s {
  auto_retry = true;
  next_retry_at = some (now + retry_delay);
  retry_timer = true;
}

pub stop_auto_retry : Session → Session
unfolding clear_retry
stop_auto_retry s = record (clear_retry s) { auto_retry = false }

-- `connect` up to the `await` of the slot.
unfoldable pub begin_connect : Session → Session
unfolding clear_retry
begin_connect s = record (clear_retry s) {
  generation = s.generation + 1;
  status = connecting;
  error = none;
}

-- `logConnect` opens an entry unless one is open.
abbrev log_connect : ℕ → Option ℕ → Option ℕ
log_connect fresh none = some fresh
log_connect fresh (some id) = some id

-- `session.closedGeneration === generation`, for the current generation.
abbrev pub closed_already : Session → Bool
closed_already s = elim s.closed_generation [ none ↦ false | some g ↦ g == s.generation ]

-- `connect` behind `ssh.connect`, for the current generation: the connection may have closed in
-- the meantime.
unfoldable pub connect_done : ℕ → ℕ → ℕ → Session → Session
unfolding schedule_retry
connect_done now handle fresh s =
    if closed_already s
    then schedule_retry now (record s { ssh = none; status = disconnected })
    else record s {
      ssh = some handle;
      status = connected;
      auto_retry = false;
      log_id = log_connect fresh s.log_id;
    }

-- The `catch` of `connect`, for the current generation.
pub connect_failed : ℕ → Text → Session → Session
unfolding schedule_retry
connect_failed now message s =
    let failed = record s { status = error; error = some message } in
    if s.auto_retry then schedule_retry now failed else failed

-- `handleClosed`. A call for an older generation does nothing.
unfoldable pub handle_closed : ℕ → ℕ → Option Text → Session → Session
unfolding schedule_retry
handle_closed now generation reason s =
    if generation == s.generation
    then elim s.ssh [
      | none ↦ record s { closed_generation = some generation }
      | some handle ↦ schedule_retry now (record s {
        closed_generation = some generation;
        ssh = none;
        status = disconnected;
        error = reason;
        log_id = none;
      })
    ]
    else s

-- `reconnect`, up to its call of `connect`.
pub hang_up : Session → Session
hang_up s = record s { ssh = none; log_id = none; auto_retry = false }

-- `verifyHostKey` asks about an unknown key.
pub ask_host_key : PendingHostKey → Session → Session
ask_host_key pending s = record s { pending_host_key = some pending; status = verifying }

pub resolve_host_key : Bool → Session → Session
resolve_host_key accept s = elim s.pending_host_key [
  | none ↦ s
  | some pending ↦
      let answered = record s { pending_host_key = none } in
      if accept then record answered { status = connecting } else answered
]

-- `rename` keeps the old label where the new one is blank.
pub rename : Text → Session → Session
rename label s = elim (trim label) [ [] ↦ s | c ∷ cs ↦ record s { label = c ∷ cs } ]

-- `handleKey`'s zoom and `currentFontSize` stay outside. A new session is labelled by its host's
-- name, with a number where others are open to the same address and port.
unfoldable pub label_for : Request → List Session → Text
label_for r open_sessions =
    let duplicates =
      length (
        filter (λ s. same s.request.address r.address && s.request.port == r.port) open_sessions) in
    if ltb 0 duplicates
    then r.display_name ++ (codes " (" ++ (decimal (duplicates + 1) ++ codes ")"))
    else r.display_name

unfoldable pub new_session : ℕ → Request → List Session → Session
unfolding label_for
new_session id r open_sessions = record {
  id = id;
  request = r;
  label = label_for r open_sessions;
  os = r.os;
  status = connecting;
  error = none;
  has_term = false;
  ssh = none;
  generation = 0;
  closed_generation = none;
  has_unseen_output = false;
  auto_retry = false;
  next_retry_at = none;
  retry_timer = false;
  pending_host_key = none;
  log_id = none;
}
