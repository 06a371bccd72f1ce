-- ===== src/Metrics/Controller/Step/Polls.antt =====
-- The stretches of a poll keep what holds of the connections.
use connexia.Common.{
  ℕ, ◌≡◌, refl, ap, subst, ◌∙◌, arith, Bool, false, ◌&&◌, none, some, inl, inr, Text, get,
  Bool-cases, Option-cases, get-put,
}
use connexia.Ssh.Auth.{Auth}
use connexia.Metrics.Backoff.{connect_failed}
use connexia.Metrics.Pool.{
  Client, awaiting_auth, awaiting_client, Pool, new_client, conn_for, change_client, is_client,
  waits,
}
use connexia.Metrics.Pool.Held.{IsHeld, Unconnected, awaited, same_client}
use connexia.Metrics.Pool.Changes.{
  conn_for-IsHeld, change_client-IsHeld, end_poll-IsHeld, waits-IsHeld, take_handle-IsHeld,
}
use connexia.Metrics.Controller.{
  Env, Controller, has, start_stage, stage_for, show_connecting, do_poll, poll, auth_resolved,
  connected, connect_rejected, set_login, set_link, fail,
}

unfoldable pub IsHeldBy : Controller → Type 0
IsHeldBy c = IsHeld c.pool

get-conn_for : (id : Text) (p : Pool) → get id (conn_for id p).1.conns ≡ some (conn_for id p).0
unfolding conn_for
get-conn_for id p = elim (Option-cases (get id p.conns)) [
  | inr (k, e) ↦ rw (e, conn_for) e
  | inl e ↦ rw (e, conn_for) (get-put id (new_client p.fresh) p.conns)
]

stage_for-awaited :
    (retried : Bool) (k : Client) (ref : ℕ)
    → awaited (some (stage_for retried k)) ≡ some ref
    → k.link.handle ≡ none
stage_for-awaited retried k ref w = elim (Option-cases k.link.handle) [
  | inl e ↦ e
  | inr (h, e) ↦ ground (arith, e, w)
]

start_stage-IsHeld :
    (retried : Bool) (id : Text) (p : Pool) → IsHeld p → IsHeld (start_stage retried id p)
start_stage-IsHeld retried id p i =
    let r = conn_for id p in
    waits-IsHeld id (stage_for retried r.0) r.1
      (λ ref k w g s.
        subst (λ m. m.link.handle ≡ none) (same_client id r.1.conns r.0 k (get-conn_for id p) g)
          (stage_for-awaited retried r.0 ref w))
      (conn_for-IsHeld id p i)

show_connecting-IsHeldBy :
    (id : Text) (c : Controller) → IsHeldBy c → IsHeldBy (show_connecting id c)
unfolding IsHeldBy
show_connecting-IsHeldBy id c i = ground (arith, i)

pub do_poll-IsHeldBy :
    (env : Env) (id : Text) (retried : Bool) (c : Controller)
    → IsHeldBy c
    → IsHeldBy (do_poll env id retried c)
unfolding do_poll IsHeldBy fail
do_poll-IsHeldBy env id retried c i = ground (
  arith,
  end_poll-IsHeld id c.pool i,
  start_stage-IsHeld retried id (show_connecting id c).pool (show_connecting-IsHeldBy id c i),
)

pub poll-IsHeldBy :
    (env : Env) (id : Text) (force : Bool) (c : Controller)
    → IsHeldBy c
    → IsHeldBy (poll env id force c)
unfolding poll
poll-IsHeldBy env id force c i = ground (arith, i, do_poll-IsHeldBy env id false c i)

polling-change_client :
    (id : Text) (ref : ℕ) (f : Client → Client) (p : Pool)
    → (change_client id ref f p).polling ≡ p.polling
unfolding change_client
polling-change_client id ref f p = ground arith

connects-IsHeld :
    (id : Text) (retried : Bool) (ref : ℕ) (f : Client → Client) (p : Pool)
    → ((k : Client) → (f k).ref ≡ k.ref)
    → ((k : Client) → (f k).link.handle ≡ k.link.handle)
    → get id p.polling ≡ some (awaiting_auth retried ref)
    → IsHeld p
    → IsHeld (waits id (awaiting_client retried ref) (change_client id ref f p))
unfolding IsHeld Unconnected
connects-IsHeld id retried ref f p r h at i =
    let changed = change_client id ref f p in
    let held = change_client-IsHeld id ref f p r h i in
    let same_stage =
      ap (λ m. awaited (get id m)) (polling-change_client id ref f p) ∙ ap awaited at in
    waits-IsHeld id (awaiting_client retried ref) changed
      (λ next k w g s. held.1 id next k (same_stage ∙ w) g s) held

pub auth_resolved-IsHeldBy :
    (id : Text) (retried : Bool) (ref : ℕ) (auth : Auth) (c : Controller)
    → get id c.pool.polling ≡ some (awaiting_auth retried ref)
    → IsHeldBy c
    → IsHeldBy (auth_resolved retried ref id auth c)
unfolding auth_resolved IsHeldBy fail
auth_resolved-IsHeldBy id retried ref auth c at i = elim (Option-cases auth.missing) [
  | inl e ↦
      rw (auth_resolved, e)
        (connects-IsHeld id retried ref (set_login auth.username auth.password) c.pool (λ k. refl)
          (λ k. refl) at i)
  | inr (what, e) ↦ elim (Option-cases (get id c.typed)) [
    | inl t ↦ rw (auth_resolved, e, t) (ground (arith, end_poll-IsHeld id c.pool i))
    | inr (entered, t) ↦
        rw (auth_resolved, e, t)
          (connects-IsHeld id retried ref (set_login entered.0 (some entered.1)) c.pool (λ k. refl)
            (λ k. refl) at i)
  ]
]

pub connect_rejected-IsHeldBy :
    (env : Env) (ref : ℕ) (id message : Text) (c : Controller)
    → IsHeldBy c
    → IsHeldBy (connect_rejected env ref id message c)
unfolding connect_rejected connect_failed IsHeldBy fail
connect_rejected-IsHeldBy env ref id message c i =
    let changed = change_client id ref (set_link (connect_failed env.now)) c.pool in
    ground (
      arith,
      end_poll-IsHeld id c.pool i,
      end_poll-IsHeld id changed (
          change_client-IsHeld id ref (set_link (connect_failed env.now)) c.pool (λ k. refl)
            (λ k. refl) i),
    )

pub connected-IsHeldBy :
    (env : Env) (id : Text) (retried : Bool) (ref h : ℕ) (c : Controller)
    → awaited (get id c.pool.polling) ≡ some ref
    → IsHeldBy c
    → IsHeldBy (connected env retried ref id h c)
unfolding connected IsHeldBy
connected-IsHeldBy env id retried ref h c w i =
    elim (Bool-cases (has id env.watchlist && is_client id ref c.pool)) [
      | inl e ↦
          rw (connected, e) (take_handle-IsHeld id retried ref h c.pool w (ground (arith, e)) i)
      | inr e ↦ rw (connected, e) (connect_rejected-IsHeldBy env ref id _ c i)
    ]
