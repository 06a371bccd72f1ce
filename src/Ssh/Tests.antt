-- ===== src/Ssh/Tests.antt =====
-- Runs of the sessions, and the theorems about them at concrete inputs.
use connexia.Common.{
  ℕ, ◌≡◌, refl, true, false, none, some, List, [], ◌∷◌, ◌++◌, length, map, codes, All, arith,
}
use connexia.Ssh.Slots.{
  Task, Slots, acquire_slot, finish, dial, remove_at, mark_dialing, release_slot,
}
use connexia.Ssh.Slots.Invariant.{IsValid, finishes, waiting-finishes}
use connexia.Ssh.Session.{
  Session, Request, connected, connecting, new_session, begin_connect, label_for, connect_done,
}
use connexia.Ssh.Session.Sound.{IsSound}
use connexia.Ssh.Page.{Page, empty_page, update, neighbour, index_of, remove}
use connexia.Ssh.Sessions.{
  Event, run, step, open_event, resume_event, connected_event, open_session, start_connect, resume,
  current, connected_to, close_session,
}
use connexia.Ssh.Sessions.SlotsInUse.{run-IsValid}
use connexia.Ssh.Sessions.Handles.{run-All-IsSound}
use connexia.Ssh.Sessions.Active.{HasActive, run-HasActive, close_session-active}

abbrev web : Request
web = record { display_name = codes "web"; address = codes "10.0.0.1"; port = 22; os = none }

-- With one slot the second session waits for the first.
abbrev history : List (ℕ × ℕ × Event)
history =
    (1, 0, open_event web)
    ∷ (1, 0, open_event web)
    ∷ (1, 1, resume_event 0)
    ∷ (1, 2, connected_event 0 7)
    ∷ []

history_runs :
    map (λ (s : Session). s.status) (run history empty_page).sessions ≡ connected ∷ connecting ∷ []
unfolding run step open_session start_connect update resume current connected_to new_session
    begin_connect label_for connect_done acquire_slot finish release_slot remove_at dial
    mark_dialing
history_runs = refl

history_waits : (run history empty_page).slots ≡ record {
  connecting = 1;
  waiting = [];
  running = record { session = 1; generation = 1; dialing = false } ∷ [];
}
unfolding run step open_session start_connect update resume current connected_to new_session
    begin_connect label_for connect_done acquire_slot finish release_slot remove_at dial
    mark_dialing
history_waits = refl

run-IsValid_example : IsValid 1 1 (run history empty_page).slots
run-IsValid_example = run-IsValid 1 1 history (omega arith)

run-All-IsSound_example : All IsSound (run history empty_page).sessions
run-All-IsSound_example = run-All-IsSound history

run-HasActive_example : HasActive (run history empty_page)
run-HasActive_example = run-HasActive history (tt, (tt, (tt, (tt, tt))))

abbrev first_task : Task
first_task = record { session = 0; generation = 1; dialing = true }

abbrev second_task : Task
second_task = record { session = 3; generation = 1; dialing = false }

abbrev two_tasks : Slots
two_tasks = record { connecting = 1; waiting = second_task ∷ []; running = first_task ∷ [] }

waiting-finishes_example :
    ((others : List Task) × ((finishes ([] ++ 0 ∷ []) two_tasks).running
        ≡ others ++ second_task ∷ []))
    × ((finishes ([] ++ 0 ∷ []) two_tasks).waiting ≡ [])
    × (length (finishes ([] ++ 0 ∷ []) two_tasks).running ≡ 1)
    × ((finishes ([] ++ 0 ∷ []) two_tasks).connecting ≡ 1)
waiting-finishes_example =
    waiting-finishes [] 0 [] [] second_task two_tasks refl refl (omega arith, tt)

-- A session that has begun a second attempt.
abbrev retried : Session
retried = record {
  id = 0;
  request = web;
  label = codes "web";
  os = none;
  status = connecting;
  error = none;
  has_term = true;
  ssh = none;
  generation = 2;
  closed_generation = some 1;
  has_unseen_output = false;
  auto_retry = false;
  next_retry_at = none;
  retry_timer = false;
  pending_host_key = none;
  log_id = none;
}

abbrev retried_page : Page
retried_page = record {
  sessions = retried ∷ [];
  active = some 0;
  visible = true;
  snippets_open = false;
  counter = 1;
  fresh = 0;
  slots = record { connecting = 1; waiting = []; running = first_task ∷ [] };
  effects = [];
}

close_session-active_example : (close_session 0 retried_page).sessions ≡ []
unfolding close_session neighbour index_of remove
close_session-active_example = close_session-active 0 retried_page refl (λ e. cc) refl
