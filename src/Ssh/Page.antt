-- ===== src/Ssh/Page.antt =====
-- The state of server/internal/web/static/js/dashboard/ssh/sessions.js, and the list of its sessions.
-- `sessions` holds the sessions that are not closed, since `closeSession` sets `closed` and takes
-- the session out in one step: a session that is not found is closed. The sequence number of an
-- identifier stands for the whole of it.
use connexia.Common.{
  ℕ, suc, ◌-◌, Bool, false, Option, none, some, List, [], ◌∷◌, ◌++◌, ◌==◌, if◌then◌else◌, find,
  get_elem?,
}
use connexia.Ssh.Slots.{Slots}
use connexia.Ssh.Session.{Session}

-- What the page does outside its own state: a connection is closed, a question is answered, a log
-- entry is opened or closed.
pub data Effect : Type 0 where
  close_handle : ℕ → Effect
  answer_host_key : ℕ → Bool → Effect
  log_connected : ℕ → Effect
  log_disconnected : ℕ → Effect

-- `effects` is the newest first. `fresh` numbers the log entries.
pub record Page : Type 0 where
  pub sessions : List Session
  pub active : Option ℕ
  pub visible : Bool
  pub snippets_open : Bool
  pub counter : ℕ
  pub fresh : ℕ
  pub slots : Slots
  pub effects : List Effect

abbrev pub has_id : ℕ → Session → Bool
has_id id s = s.id == id

-- The session object that a handler holds.
abbrev pub session_of : ℕ → Page → Option Session
session_of id p = find (has_id id) p.sessions

unfoldable pub update : ℕ → (Session → Session) → List Session → List Session
update id f [] = []
update id f (s ∷ ss) = (if has_id id s then f s else s) ∷ update id f ss

-- A change of one session; nothing if it is closed.
abbrev pub change : ℕ → (Session → Session) → Page → Page
change id f p = record p { sessions = update id f p.sessions }

abbrev pub perform : List Effect → Page → Page
perform es p = record p { effects = es ++ p.effects }

-- `session.ssh?.close()`
abbrev pub close_ssh : Session → List Effect
close_ssh s = elim s.ssh [ none ↦ [] | some handle ↦ close_handle handle ∷ [] ]

-- `logDisconnect`
abbrev pub log_disconnect : Session → List Effect
log_disconnect s = elim s.log_id [ none ↦ [] | some id ↦ log_disconnected id ∷ [] ]

-- The place of a session in the array: `indexOf`.
unfoldable pub index_of : ℕ → List Session → ℕ
index_of id [] = 0
index_of id (s ∷ ss) = let rest = suc (index_of id ss) in if has_id id s then 0 else rest

-- `(sessions[index] || sessions[index - 1])?.id ?? null`; there is no session at -1.
unfoldable pub neighbour : ℕ → List Session → Option ℕ
neighbour index ss = elim (get_elem? ss index) [
  | some s ↦ some s.id
  | none ↦
      if index == 0
      then none
      else elim (get_elem? ss (index - 1)) [ none ↦ none | some s ↦ some s.id ]
]

-- The first session of that identifier leaves the array: `splice`.
unfoldable pub remove : ℕ → List Session → List Session
remove id [] = []
remove id (s ∷ ss) = let rest = s ∷ remove id ss in if has_id id s then ss else rest

abbrev pub empty_page : Page
empty_page = record {
  sessions = [];
  active = none;
  visible = false;
  snippets_open = false;
  counter = 0;
  fresh = 0;
  slots = record { connecting = 0; waiting = []; running = [] };
  effects = [];
}
