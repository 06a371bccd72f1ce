-- ===== src/Metrics/Controller/Sync.antt =====
-- How the watchlist is followed: `signature`, `drop`, `sync`, `select` and `provideCredentials`.
use connexia.Common.{
  Bool, true, false, not, ◌&&◌, Option, none, some, List, [], ◌∷◌, ◌++◌, Text, same, filter, get,
  put, remove, map, if◌then◌else◌,
}
use connexia.Ssh.Auth.{Group, group_of, field_of}
use connexia.Metrics.Backoff.{Conn, reset}
use connexia.Metrics.Pool.{close_and, drop_client}
use connexia.Metrics.Controller.{Host, Env, Controller, has, without, with_pool, poll, find_host}

-- The texts that `signature` joins.
abbrev pub signature : List Group → Host → List (Option Text)
signature groups host =
    let h = host.sign_in in
    let group = group_of groups h in
    some host.address
    ∷ some host.port
    ∷ h.username
    ∷ h.auth_type
    ∷ h.encrypted_password
    ∷ h.key_id
    ∷ field_of (λ g. g.username) group
    ∷ field_of (λ g. g.auth_type) group
    ∷ field_of (λ g. g.encrypted_password) group
    ∷ field_of (λ g. g.key_id) group
    ∷ []

abbrev pub same_text : Option Text → Option Text → Bool
same_text none none = true
same_text none (some b) = false
same_text (some a) none = false
same_text (some a) (some b) = same a b

abbrev pub same_signature : List (Option Text) → List (Option Text) → Bool
same_signature [] [] = true
same_signature [] (b ∷ bs) = false
same_signature (a ∷ more) [] = false
same_signature (a ∷ more) (b ∷ bs) = same_text a b && same_signature more bs

-- `drop`
unfoldable pub drop_host : Text → Controller → Controller
drop_host id c = record c {
  states = remove id c.states;
  services = remove id c.services;
  crons = remove id c.crons;
  cards_pending = without id c.cards_pending;
  needs_credentials = without id c.needs_credentials;
  typed = remove id c.typed;
  signatures = remove id c.signatures;
  pool = drop_client id c.pool;
}

-- Both maps are gone through, and a host that is on the watchlist is left.
unfoldable pub drop_missing : List Text → List Text → Controller → Controller
drop_missing list [] c = c
drop_missing list (id ∷ ids) c =
    let kept = drop_missing list ids c in
    let dropped = drop_missing list ids (drop_host id c) in if has id list then kept else dropped

-- `conn.failures = 0; conn.retryAt = 0;` after `closeConn`.
abbrev pub fresh_link : Conn → Conn
fresh_link = reset

-- A host whose sign-in has changed is connected again.
unfoldable pub renew : Env → Text → Controller → Controller
renew env id c = poll env id true (
    with_pool (close_and fresh_link id)
      (record c { needs_credentials = without id c.needs_credentials; typed = remove id c.typed }))

abbrev pub has_changed : Option (List (Option Text)) → List (Option Text) → Bool
has_changed none next = false
has_changed (some previous) next = not (same_signature previous next)

unfoldable pub check_host : Env → Text → Controller → Controller
check_host env id c = elim (find_host id env) [
  | none ↦ c
  | some host ↦
      let next = signature env.groups host in
      let noted = record c { signatures = put id next c.signatures } in
      if has_changed (get id c.signatures) next then renew env id noted else noted
]

unfoldable pub check_hosts : Env → List Text → Controller → Controller
check_hosts env [] c = c
check_hosts env (id ∷ ids) c = check_hosts env ids (check_host env id c)

-- `poll(id)` for each, in order.
unfoldable pub poll_all : Env → List Text → Controller → Controller
poll_all env [] c = c
poll_all env (id ∷ ids) c = poll_all env ids (poll env id false c)

abbrev pub first {ℓ} : {A : Type ℓ} → List A → Option A
first [] = none
first (x ∷ xs) = some x

abbrev pub is_listed : Option Text → List Text → Bool
is_listed none list = false
is_listed (some id) list = has id list

-- The first host is selected when the selected one is not on the watchlist.
unfoldable pub select_listed : List Text → Controller → Controller
select_listed list c = if is_listed c.selected_id list then c else elim list [
  | [] ↦ record c { selected_id = none }
  | id ∷ ids ↦ record c { selected_id = some id; cards_pending = id ∷ c.cards_pending }
]

unfoldable pub sync : Env → Controller → Controller
sync env c =
    let list = env.watchlist in
    let kept = drop_missing list (map (λ e. e.0) c.pool.conns ++ map (λ e. e.0) c.states) c in
    let checked = check_hosts env list kept in
    poll_all env (filter (λ id. not (has id checked.known)) list)
      (select_listed list (record checked { known = list }))

unfoldable pub select : Env → Text → Controller → Controller
select env id c =
    poll env id true (record c { selected_id = some id; cards_pending = id ∷ c.cards_pending })

unfoldable pub provide_credentials : Env → Text → Text → Text → Controller → Controller
provide_credentials env id username password c = poll env id true (
    with_pool (close_and fresh_link id) (record c {
      typed = put id (username, password) c.typed;
      needs_credentials = without id c.needs_credentials;
      cards_pending = id ∷ c.cards_pending;
    }))
