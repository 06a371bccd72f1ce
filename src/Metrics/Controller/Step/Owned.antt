-- ===== src/Metrics/Controller/Step/Owned.antt =====
-- Which connections are open, whatever the page does and in whatever order.
use connexia.Common.{
  ℕ, ◌≡◌, refl, sym, ap, subst, arith, Bool, true, false, not, Option, none, some, List, [], ◌∷◌,
  ◌++◌, inl, inr, Text, get, put, filter, map, Option-cases, All,
}
use connexia.Ssh.Auth.{Auth}
use connexia.Metrics.Rates.{Sample}
use connexia.Metrics.Pool.{Stage, awaiting_auth, awaiting_client, awaiting_sample}
use connexia.Metrics.Pool.Held.{IsHeld, Owned, Unconnected, awaited}
use connexia.Metrics.Pool.Changes.{close_and-IsHeld, drop_client-IsHeld, handle_closed-IsHeld}
use connexia.Metrics.Controller.{Env, Controller, has, poll, find_host}
use connexia.Metrics.Controller.Policies.{service_action, write_cron, cron_written}
use connexia.Metrics.Controller.Sync.{
  sync, select, provide_credentials, drop_host, drop_missing, renew, check_host, check_hosts,
  poll_all, select_listed, fresh_link, signature,
}
use connexia.Metrics.Controller.Step.Polls.{
  IsHeldBy, poll-IsHeldBy, auth_resolved-IsHeldBy, connect_rejected-IsHeldBy, connected-IsHeldBy,
}
use connexia.Metrics.Controller.Step.Samples.{
  load_services-IsHeldBy, load_cron-IsHeldBy, services_loaded-IsHeldBy, cron_loaded-IsHeldBy,
  sample_arrived-IsHeldBy, sample_failed-IsHeldBy, same_pool,
}
use connexia.Metrics.Controller.Step.{
  Event, synced, polled, selected, provided, resolved, opened, rejected, closed, sampled,
  failed_sample, loads_services, loaded_services, loads_cron, loaded_cron, acts, writes, wrote,
  step, run, new_controller, on_auth, on_open, on_reject, on_sample, on_failure,
}

drop_host-IsHeldBy : (id : Text) (c : Controller) → IsHeldBy c → IsHeldBy (drop_host id c)
unfolding drop_host IsHeldBy
drop_host-IsHeldBy id c i = drop_client-IsHeld id c.pool i

drop_missing-IsHeldBy :
    (list ids : List Text) (c : Controller) → IsHeldBy c → IsHeldBy (drop_missing list ids c)
unfolding drop_missing
drop_missing-IsHeldBy list [] c i = i
drop_missing-IsHeldBy list (id ∷ ids) c i = ground (
  arith,
  drop_missing-IsHeldBy list ids c i,
  drop_missing-IsHeldBy list ids (drop_host id c) (drop_host-IsHeldBy id c i),
)

renew-IsHeldBy : (env : Env) (id : Text) (c : Controller) → IsHeldBy c → IsHeldBy (renew env id c)
unfolding renew IsHeldBy
renew-IsHeldBy env id c i = poll-IsHeldBy env id true _ (close_and-IsHeld fresh_link id c.pool i)

check_host-IsHeldBy :
    (env : Env) (id : Text) (c : Controller) → IsHeldBy c → IsHeldBy (check_host env id c)
unfolding check_host
check_host-IsHeldBy env id c i = elim (Option-cases (find_host id env)) [
  | inl e ↦ rw (check_host, e) i
  | inr (host, e) ↦
      let next = signature env.groups host in
      let noted = record c { signatures = put id next c.signatures } in
      let held = same_pool noted c refl i in
      rw (check_host, e) (ground (arith, held, renew-IsHeldBy env id noted held))
]

check_hosts-IsHeldBy :
    (env : Env) (ids : List Text) (c : Controller) → IsHeldBy c → IsHeldBy (check_hosts env ids c)
unfolding check_hosts
check_hosts-IsHeldBy env [] c i = i
check_hosts-IsHeldBy env (id ∷ ids) c i =
    check_hosts-IsHeldBy env ids (check_host env id c) (check_host-IsHeldBy env id c i)

poll_all-IsHeldBy :
    (env : Env) (ids : List Text) (c : Controller) → IsHeldBy c → IsHeldBy (poll_all env ids c)
unfolding poll_all
poll_all-IsHeldBy env [] c i = i
poll_all-IsHeldBy env (id ∷ ids) c i =
    poll_all-IsHeldBy env ids (poll env id false c) (poll-IsHeldBy env id false c i)

select_listed-pool : (list : List Text) (c : Controller) → (select_listed list c).pool ≡ c.pool
unfolding select_listed
select_listed-pool [] c = ground arith
select_listed-pool (id ∷ ids) c = ground arith

sync-IsHeldBy : (env : Env) (c : Controller) → IsHeldBy c → IsHeldBy (sync env c)
unfolding sync
sync-IsHeldBy env c i =
    let list = env.watchlist in
    let kept = drop_missing list (map (λ e. e.0) c.pool.conns ++ map (λ e. e.0) c.states) c in
    let checked = check_hosts env list kept in
    let known = record checked { known = list } in
    let held =
      check_hosts-IsHeldBy env list kept
        (drop_missing-IsHeldBy list (map (λ e. e.0) c.pool.conns ++ map (λ e. e.0) c.states) c i) in
    poll_all-IsHeldBy env (filter (λ id. not (has id checked.known)) list)
      (select_listed list known)
      (same_pool (select_listed list known) checked (select_listed-pool list known) held)

-- The host's poll is at the stage that the answer is for, or nothing is done.
on_auth-IsHeldBy :
    (id : Text) (auth : Auth) (o : Option Stage) (c : Controller)
    → get id c.pool.polling ≡ o
    → IsHeldBy c
    → IsHeldBy (on_auth id auth o c)
on_auth-IsHeldBy id auth none c e i = i
on_auth-IsHeldBy id auth (some (awaiting_auth retried ref)) c e i =
    auth_resolved-IsHeldBy id retried ref auth c e i
on_auth-IsHeldBy id auth (some (awaiting_client retried ref)) c e i = i
on_auth-IsHeldBy id auth (some (awaiting_sample retried ref)) c e i = i

on_open-IsHeldBy :
    (env : Env) (id : Text) (h : ℕ) (o : Option Stage) (c : Controller)
    → get id c.pool.polling ≡ o
    → IsHeldBy c
    → IsHeldBy (on_open env id h o c)
on_open-IsHeldBy env id h none c e i = i
on_open-IsHeldBy env id h (some (awaiting_auth retried ref)) c e i = i
on_open-IsHeldBy env id h (some (awaiting_client retried ref)) c e i =
    connected-IsHeldBy env id retried ref h c (ap awaited e) i
on_open-IsHeldBy env id h (some (awaiting_sample retried ref)) c e i = i

on_reject-IsHeldBy :
    (env : Env) (id message : Text) (o : Option Stage) (c : Controller)
    → IsHeldBy c
    → IsHeldBy (on_reject env id message o c)
on_reject-IsHeldBy env id message none c i = i
on_reject-IsHeldBy env id message (some (awaiting_auth retried ref)) c i = i
on_reject-IsHeldBy env id message (some (awaiting_client retried ref)) c i =
    connect_rejected-IsHeldBy env ref id message c i
on_reject-IsHeldBy env id message (some (awaiting_sample retried ref)) c i = i

on_sample-IsHeldBy :
    (env : Env) (id : Text) (sample : Sample) (o : Option Stage) (c : Controller)
    → IsHeldBy c
    → IsHeldBy (on_sample env id sample o c)
on_sample-IsHeldBy env id sample none c i = i
on_sample-IsHeldBy env id sample (some (awaiting_auth retried ref)) c i = i
on_sample-IsHeldBy env id sample (some (awaiting_client retried ref)) c i = i
on_sample-IsHeldBy env id sample (some (awaiting_sample retried ref)) c i =
    sample_arrived-IsHeldBy env ref id sample c i

on_failure-IsHeldBy :
    (env : Env) (id : Text) (timed_out : Bool) (o : Option Stage) (c : Controller)
    → IsHeldBy c
    → IsHeldBy (on_failure env id timed_out o c)
on_failure-IsHeldBy env id timed_out none c i = i
on_failure-IsHeldBy env id timed_out (some (awaiting_auth retried ref)) c i = i
on_failure-IsHeldBy env id timed_out (some (awaiting_client retried ref)) c i = i
on_failure-IsHeldBy env id timed_out (some (awaiting_sample retried ref)) c i =
    sample_failed-IsHeldBy env retried ref id timed_out c i

service_action-pool : (id : Text) (c : Controller) → (service_action id c).1.pool ≡ c.pool
unfolding service_action
service_action-pool id c = ground arith

write_cron-pool : (id : Text) (c : Controller) → (write_cron id c).1.pool ≡ c.pool
unfolding write_cron
write_cron-pool id c = ground arith

step-IsHeldBy :
    (env : Env) (event : Event) (c : Controller) → IsHeldBy c → IsHeldBy (step env event c)
unfolding step select provide_credentials IsHeldBy cron_written
step-IsHeldBy env synced c i = sync-IsHeldBy env c i
step-IsHeldBy env (polled id force) c i = poll-IsHeldBy env id force c i
step-IsHeldBy env (selected id) c i = poll-IsHeldBy env id true _ i
step-IsHeldBy env (provided id username password) c i =
    poll-IsHeldBy env id true _ (close_and-IsHeld fresh_link id c.pool i)
step-IsHeldBy env (resolved id auth) c i = on_auth-IsHeldBy id auth (get id c.pool.polling) c refl i
step-IsHeldBy env (opened id h) c i = on_open-IsHeldBy env id h (get id c.pool.polling) c refl i
step-IsHeldBy env (rejected id message) c i =
    on_reject-IsHeldBy env id message (get id c.pool.polling) c i
step-IsHeldBy env (closed id ref h) c i = handle_closed-IsHeld id ref h c.pool i
step-IsHeldBy env (sampled id sample) c i =
    on_sample-IsHeldBy env id sample (get id c.pool.polling) c i
step-IsHeldBy env (failed_sample id timed_out) c i =
    on_failure-IsHeldBy env id timed_out (get id c.pool.polling) c i
step-IsHeldBy env (loads_services id) c i = load_services-IsHeldBy env id c i
step-IsHeldBy env (loaded_services id answer) c i = services_loaded-IsHeldBy id answer c i
step-IsHeldBy env (loads_cron id) c i = load_cron-IsHeldBy env id c i
step-IsHeldBy env (loaded_cron id answer) c i = cron_loaded-IsHeldBy id answer c i
step-IsHeldBy env (acts id) c i = subst IsHeld (sym (service_action-pool id c)) i
step-IsHeldBy env (writes id) c i = subst IsHeld (sym (write_cron-pool id c)) i
step-IsHeldBy env (wrote id body none) c i = i
step-IsHeldBy env (wrote id body (some error)) c i = i

new_controller-IsHeldBy : IsHeldBy new_controller
unfolding IsHeldBy IsHeld Unconnected get
new_controller-IsHeldBy = (tt, λ id ref k w g s. ground (arith, w))

run-IsHeldBy : (events : List (Env × Event)) → IsHeldBy (run events)
unfolding run
run-IsHeldBy [] = new_controller-IsHeldBy
run-IsHeldBy ((env, event) ∷ events) = step-IsHeldBy env event (run events) (run-IsHeldBy events)

pub run-All-Owned :
    (events : List (Env × Event)) → All (Owned (run events).pool.conns) (run events).pool.live
unfolding IsHeldBy IsHeld
run-All-Owned events = (run-IsHeldBy events).0
