-- ===== src/Sftp/Sides/Step.antt =====
-- Everything that happens to the panes, one event at a time.
pub mod Handles
pub mod Free
pub mod Accounted
use connexia.Common.{
  ℕ, zero, suc, Bool, true, false, Option, none, some, List, [], ◌∷◌, Text, codes, get_elem?,
  if◌then◌else◌,
}
use connexia.Ssh.Slots.{remove_at}
use connexia.Sftp.Sides.{
  Item, Which, left_side, right_side, Side, Attempt, Screen, side_of, with_side, blank,
  connect_remote, refuse, fail, client_opened, ready, drop_side, peer_close, start_list,
  receive_list, receive_error, navigate, remove_item,
}

-- The events of an attempt name its place among the attempts.
pub data Event : Type 0 where
  connect_event : Bool → Which → ℕ → Event
  refused_event : ℕ → Event
  failed_event : ℕ → Text → Event
  opened_event : ℕ → ℕ → Event
  ready_event : ℕ → ℕ → Event
  drop_event : Which → Event
  peer_event : Which → ℕ → Event
  refresh_event : Which → Event
  listed_event : Which → Text → List Item → Event
  list_failed_event : Which → Text → Text → Event
  navigate_event : Which → Text → Event
  removed_event : Which → Text → Event

-- The attempt at a place goes on with an answer, if it waits for that one: `openClient` answers an
-- attempt without a connection, and `sftp()` one with it.
abbrev pub with_attempt : (Option ℕ → Bool) → ℕ → (Attempt → Screen → Screen) → Screen → Screen
with_attempt test i f s = elim (get_elem? s.attempts i) [
  | none ↦ s
  | some a ↦ if test a.handle then f a (record s { attempts = remove_at i s.attempts }) else s
]

abbrev pub always : Option ℕ → Bool
always handle = true

abbrev pub opening : Option ℕ → Bool
opening none = true
opening (some handle) = false

abbrev pub waiting : Option ℕ → Bool
waiting none = false
waiting (some handle) = true

abbrev pub at_side : Which → (Side → Side) → Screen → Screen
at_side w f s = with_side w (f (side_of w s)) s

unfoldable pub step : (Text → Text → Bool) → Event → Screen → Screen
step leq (connect_event web_ssh w host) s = connect_remote web_ssh w host s
step leq (refused_event i) s = with_attempt opening i refuse s
step leq (failed_event i message) s = with_attempt always i (fail message) s
step leq (opened_event i handle) s = with_attempt opening i (client_opened handle) s
step leq (ready_event i sftp) s = with_attempt waiting i (ready sftp) s
step leq (drop_event w) s = drop_side w s
step leq (peer_event w handle) s = peer_close w handle s
step leq (refresh_event w) s = at_side w start_list s
step leq (listed_event w path entries) s = at_side w (receive_list leq path entries) s
step leq (list_failed_event w path message) s = at_side w (receive_error path message) s
step leq (navigate_event w path) s = at_side w (navigate path) s
step leq (removed_event w name) s = at_side w (remove_item name) s

unfoldable pub run : (Text → Text → Bool) → List Event → Screen → Screen
run leq [] s = s
run leq (e ∷ es) s = run leq es (step leq e s)

abbrev empty_side : Side
empty_side = record {
  host = none;
  handle = none;
  sftp = none;
  connecting = false;
  error = none;
  path = codes "/";
  items = [];
  loading = false;
  list_error = none;
  picker_open = false;
}

abbrev pub empty_screen : Screen
empty_screen = record {
  left = empty_side;
  right = empty_side;
  left_remote = false;
  left_picker = false;
  attempts = [];
  opened = [];
  closed = [];
  abandoned = [];
}
