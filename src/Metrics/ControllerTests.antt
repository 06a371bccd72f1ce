-- ===== src/Metrics/ControllerTests.antt =====
-- A run of the controller, and the theorems about it at concrete inputs.
use connexia.Common.{
  get, put, remove, same, starts_with, ◌≡◌, refl, true, false, ◌||◌, none, some, List, [], ◌∷◌,
  Text, codes, All,
}
use connexia.Ssh.Auth.{Auth, group_of}
use connexia.Metrics.Backoff.{polls}
use connexia.Metrics.Pool.{conn_for, change_client, take_handle, drop_client, close_live}
use connexia.Metrics.Controller.Sync.{
  sync, poll_all, check_hosts, check_host, drop_missing, select_listed, drop_host,
}
use connexia.Metrics.Pool.Held.{Owned}
use connexia.Metrics.Controller.{
  Host, Env, has_connections, poll, do_poll, auth_resolved, connected, connect_rejected, fail,
}
use connexia.Metrics.Controller.Policies.{is_empty}
use connexia.Metrics.Controller.Step.{Event, synced, resolved, opened, run, step}
use connexia.Metrics.Controller.Step.Quiet.{run-IsOwned}

abbrev ada : Host
ada = record {
  id = codes "a";
  address = codes "ada";
  port = codes "22";
  sign_in = record {
    group_id = none;
    username = some (codes "u");
    auth_type = none;
    key_id = none;
    encrypted_password = none;
  };
}

abbrev watching : List Text → Env
watching list = record {
  watchlist = list;
  hosts = ada ∷ [];
  groups = [];
  web_ssh = true;
  now = 1000;
}

abbrev login : Auth
login = record {
  username = codes "u";
  auth_type = codes "password";
  password = some (codes "p");
  private_key = none;
  passphrase = none;
  missing = none;
  fatal = false;
}

-- A host is watched, signed in to and connected.
abbrev connects_once : List (Env × Event)
connects_once =
    (watching (codes "a" ∷ []), opened (codes "a") 7)
    ∷ (watching (codes "a" ∷ []), resolved (codes "a") login)
    ∷ (watching (codes "a" ∷ []), synced)
    ∷ []

run_opens : (run connects_once).pool.live ≡ 7 ∷ []
unfolding run step sync poll_all check_hosts check_host drop_missing poll select_listed do_poll
    auth_resolved connected connect_rejected fail drop_host polls get put remove same conn_for
    change_client take_handle drop_client close_live group_of starts_with
run_opens = refl

-- A connection that comes when the host is not watched any more is not kept.
run_drops :
    (run (
      (watching [], opened (codes "a") 7)
      ∷ (watching [], synced)
      ∷ (watching (codes "a" ∷ []), resolved (codes "a") login)
      ∷ (watching (codes "a" ∷ []), synced)
      ∷ [])).pool.live
    ≡ []
unfolding run step sync poll_all check_hosts check_host drop_missing poll select_listed do_poll
    auth_resolved connected connect_rejected fail drop_host polls get put remove same conn_for
    change_client take_handle drop_client close_live group_of starts_with
run_drops = refl

run-IsOwned_example :
    All (Owned (run connects_once).pool.conns) (run connects_once).pool.live
    × ((is_empty (run connects_once).pool.live || has_connections (run connects_once)) ≡ true)
run-IsOwned_example = run-IsOwned connects_once
