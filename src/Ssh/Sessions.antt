-- ===== src/Ssh/Sessions.antt =====
-- The functions of server/internal/web/static/js/dashboard/ssh/sessions.js on the page, and an event
-- for each call of it, each answer of the connection and each timer. Handlers between two `await`s
-- run whole, so a run of the page is a list of events.
pub mod Cases
pub mod SlotsInUse
pub mod Handles
pub mod Active
use connexia.Common.{
  ℕ, zero, suc, ◌+◌, ◌-◌, Bool, true, false, not, ◌&&◌, ◌||◌, Option, none, some, List, [], ◌∷◌,
  ◌++◌, Text, ltb, ◌==◌, if◌then◌else◌, find, filter, map, get_elem?, leb,
}
use connexia.Ssh.Slots.{Task, Slots, acquire_slot, finish, dial}
use connexia.Ssh.Session.{
  Session, closed_already, Request, PendingHostKey, is_some, stop_auto_retry, clear_retry,
  begin_connect, connect_done, connect_failed, handle_closed, hang_up, ask_host_key,
  resolve_host_key, rename, new_session,
}
use connexia.Ssh.Page.{
  Effect, Page, has_id, session_of, update, change, perform, close_ssh, log_disconnect, index_of,
  neighbour, remove, empty_page, close_handle, answer_host_key, log_connected, log_disconnected,
}

-- `connect` up to its first `await`, for a session that is open.
unfoldable pub start_connect : ℕ → Session → Page → Page
start_connect limit s p =
    let started = begin_connect s in
    record (change s.id begin_connect p) {
      slots =
          acquire_slot limit
            (record { session = s.id; generation = started.generation; dialing = false }) p.slots;
    }

unfoldable pub connect : ℕ → ℕ → Page → Page
connect limit id p = elim (session_of id p) [ none ↦ p | some s ↦ start_connect limit s p ]

-- Whether the `closed` and `generation` of a task are still those of its session.
unfoldable pub current : Task → Page → Bool
current t p = elim (session_of t.session p) [ none ↦ false | some s ↦ t.generation == s.generation ]

abbrev pub end_task : ℕ → Page → Page
end_task i p = record p { slots = finish i p.slots }

-- The first check of `connect` behind its slot; a session without a terminal gets one.
unfoldable pub resume : ℕ → Task → Page → Page
resume i t p =
    if current t p
    then record (change t.session (λ s. record s { has_term = true }) p) { slots = dial i p.slots }
    else end_task i p

-- `logConnect` opens an entry where none is open.
abbrev pub opened_log : ℕ → Session → List Effect
opened_log fresh s =
    if closed_already s
    then []
    else elim s.log_id [ none ↦ log_connected fresh ∷ [] | some id ↦ [] ]

-- `ssh.connect` gives a handle: it is closed if the session has moved on. `detectOs`, which the code
-- starts behind the log entry and which sets the session's `os`, is not modelled.
unfoldable pub connected_to : ℕ → ℕ → ℕ → Task → Page → Page
connected_to now handle i t p = elim (session_of t.session p) [
  | none ↦ end_task i (perform (close_handle handle ∷ []) p)
  | some s ↦
      if t.generation == s.generation
      then end_task i (
          perform (opened_log p.fresh s)
            (record (change t.session (connect_done now handle p.fresh) p) { fresh = p.fresh + 1 }))
      else end_task i (perform (close_handle handle ∷ []) p)
]

-- A task that runs fails, in `createTerminal`, `loadSSH` or `ssh.connect`.
pub failed_with : ℕ → Text → ℕ → Task → Page → Page
failed_with now message i t p =
    if current t p
    then end_task i (change t.session (connect_failed now message) p)
    else end_task i p

-- `onClose` of a connection.
pub peer_closed : ℕ → ℕ → ℕ → Option Text → Page → Page
peer_closed now id generation reason p = elim (session_of id p) [
  | none ↦ p
  | some s ↦
      let logged = if generation == s.generation && is_some s.ssh then log_disconnect s else [] in
      perform logged (change id (handle_closed now generation reason) p)
]

-- The interval of `scheduleRetry`.
unfoldable pub tick : ℕ → ℕ → ℕ → Page → Page
tick limit now id p = elim (session_of id p) [
  | none ↦ p
  | some s ↦ elim s.next_retry_at [
    | none ↦ p
    | some at ↦
        if s.retry_timer && leb at now then connect limit id (change id clear_retry p) else p
  ]
]

pub reconnect : ℕ → ℕ → Page → Page
reconnect limit id p = elim (session_of id p) [
  | none ↦ p
  | some s ↦ connect limit id (perform (log_disconnect s ++ close_ssh s) (change id hang_up p))
]

unfoldable pub open_session : ℕ → Request → Page → Page
open_session limit r p =
    let s = new_session p.counter r p.sessions in
    start_connect limit s
      (record p { sessions = p.sessions ++ s ∷ []; active = some s.id; counter = p.counter + 1 })

abbrev pub answer_pending : Session → Bool → List Effect
answer_pending s accept = elim s.pending_host_key [
  | none ↦ []
  | some pending ↦ answer_host_key s.id accept ∷ []
]

unfoldable pub close_session : ℕ → Page → Page
close_session id p = elim (session_of id p) [
  | none ↦ p
  | some s ↦
      let rest = remove id p.sessions in
      perform (log_disconnect s ++ (close_ssh s ++ answer_pending s false)) (record p {
        sessions = rest;
        active = elim p.active [
          | none ↦ none
          | some a ↦ if a == id then neighbour (index_of id p.sessions) rest else some a
        ];
      })
]

pub answer_question : ℕ → Bool → Page → Page
answer_question id accept p = elim (session_of id p) [
  | none ↦ p
  | some s ↦ perform (answer_pending s accept) (change id (resolve_host_key accept) p)
]

-- `activeSession()` has its output seen.
abbrev pub see_active : Page → Page
see_active p = elim p.active [
  | none ↦ p
  | some id ↦ change id (λ s. record s { has_unseen_output = false }) p
]

pub set_active : ℕ → Page → Page
set_active id p = see_active (record p { active = some id })

pub set_visible : Bool → Page → Page
set_visible visible p =
    let shown = record p { visible = visible } in if visible then see_active shown else shown

-- `onData`: output of an older connection is dropped, and output on view is not marked.
pub output : ℕ → ℕ → Page → Page
output id generation p =
    let on_view = p.visible && elim p.active [ none ↦ false | some a ↦ a == id ] in
    change id
      (λ s.
        if not (generation == s.generation) || (s.has_unseen_output || on_view)
        then s
        else record s { has_unseen_output = true })
      p

pub data Event : Type 0 where
  open_event : Request → Event
  close_event : ℕ → Event
  reconnect_event : ℕ → Event
  stop_retry_event : ℕ → Event
  rename_event : ℕ → Text → Event
  activate_event : ℕ → Event
  visible_event : Bool → Event
  snippets_event : Event
  resume_event : ℕ → Event
  connected_event : ℕ → ℕ → Event
  failed_event : ℕ → Text → Event
  closed_event : ℕ → ℕ → Option Text → Event
  tick_event : ℕ → Event
  ask_event : ℕ → PendingHostKey → Event
  answer_event : ℕ → Bool → Event
  output_event : ℕ → ℕ → Event

-- An event of a running task, at its place, if the task has come as far as that event wants.
abbrev pub with_task : Bool → ℕ → (Task → Page → Page) → Page → Page
with_task dialing i f p = elim (get_elem? p.slots.running i) [
  | none ↦ p
  | some t ↦ if dialing then (if t.dialing then f t p else p) else (if t.dialing then p else f t p)
]

-- One event, at a time and under a limit of slots.
unfoldable pub step : ℕ → ℕ → Event → Page → Page
step limit now (open_event r) p = open_session limit r p
step limit now (close_event id) p = close_session id p
step limit now (reconnect_event id) p = reconnect limit id p
step limit now (stop_retry_event id) p = change id stop_auto_retry p
step limit now (rename_event id label) p = change id (rename label) p
step limit now (activate_event id) p = set_active id p
step limit now (visible_event v) p = set_visible v p
step limit now snippets_event p = record p { snippets_open = not p.snippets_open }
step limit now (resume_event i) p = with_task false i (resume i) p
step limit now (connected_event i handle) p = with_task true i (connected_to now handle i) p
step limit now (failed_event i message) p = with_task true i (failed_with now message i) p
step limit now (closed_event id generation reason) p = peer_closed now id generation reason p
step limit now (tick_event id) p = tick limit now id p
step limit now (ask_event id pending) p = change id (ask_host_key pending) p
step limit now (answer_event id accept) p = answer_question id accept p
step limit now (output_event id generation) p = output id generation p

-- A run of the page: each event with the limit of the settings, which `acquireSlot` reads each time,
-- and the time at which it happens.
unfoldable pub run : List (ℕ × ℕ × Event) → Page → Page
run [] p = p
run ((limit, now, e) ∷ es) p = run es (step limit now e p)
