-- ===== src/Store/Client/Outcomes.antt =====
-- How many requests a `mutate` sends.
use connexia.Common.{
  ℕ, zero, suc, ◌+◌, ◌*◌, ◌≤◌, ◌≡◌, refl, arith, inl, inr, Bool, true, false, Option, Text, ◌==◌,
  Bool-cases, Option-cases,
}
use connexia.Store.Payload.{Data, Payload}
use connexia.Store.Server.{Answer, success, refusal}
use connexia.Store.Client.{
  State, World, land, revision_of, Env, get_sync, post_sync, seal, refresh, next_payload,
  after_refusal, after_post, attempt, attempts, begin_write, mutate, max_conflict_retries,
}

module _ {Row : Type 0} (env : Env Row) where
  sent-get_sync : (w : World) → (get_sync env w).1.sent ≡ w.sent + 1
  unfolding get_sync
  sent-get_sync w = refl

  sent-post_sync :
      (revision : ℕ) (blob : Text) (w : World) → (post_sync env revision blob w).1.sent ≡ w.sent + 1
  unfolding post_sync
  sent-post_sync revision blob w = refl

  sent-refresh :
      (force : Bool) (s : State Row) (w : World) → (refresh env force s w).world.sent ≡ w.sent + 1
  unfolding refresh
  sent-refresh force s w = sent-get_sync w

  sent-after_post :
      (may_retry : Bool) (now blob : Text) (next : Payload Row) (s : State Row)
      (r : Answer (Option ℕ)) (w : World)
      → let t = after_post env may_retry now blob next s r w in
        (t.0.world.sent ≤ w.sent + 1) × (may_retry ≡ false → t.0.world.sent ≡ w.sent)
  unfolding after_post after_refusal
  sent-after_post may_retry now blob next s (success revision) w = (omega arith, λ _. refl)
  sent-after_post true now blob next s (refusal status message) w =
      elim (Bool-cases (status == 409)) [
        | inl e ↦ rw e (omega (arith, sent-refresh true s w), λ h. absurd (cc h))
        | inr e ↦ rw e (omega arith, λ _. refl)
      ]
  sent-after_post false now blob next s (refusal status message) w =
      elim (Bool-cases (status == 409)) [
        | inl e ↦ rw e (omega arith, λ _. refl)
        | inr e ↦ rw e (omega arith, λ _. refl)
      ]

  sent-attempt :
      (may_retry : Bool) (change : Data Row → Option (Data Row)) (s : State Row) (w : World)
      → let t = attempt env may_retry change s w in
        (t.0.world.sent ≤ w.sent + 2) × (may_retry ≡ false → t.0.world.sent ≤ w.sent + 1)
  unfolding attempt
  sent-attempt may_retry change s w = elim (Option-cases (change s.payload.content)) [
    | inl e ↦ rw (e, attempt) (omega arith, λ _. omega arith)
    | inr (d, e) ↦
        let blob = seal env w.sent (next_payload env w.sent d) in
        let t = land env w.sent s in
        let r = post_sync env (revision_of t.revision) blob w in
        let one = sent-post_sync (revision_of t.revision) blob w in
        let more =
          sent-after_post may_retry (env.now w.sent) blob (next_payload env w.sent d) t r.0 r.1 in
        rw (e, attempt) (omega (arith, more.0, one), λ h. omega (arith, more.1 h, one))
  ]

  sent-attempts :
      (left : ℕ) (change : Data Row → Option (Data Row)) (s : State Row) (w : World)
      → (attempts env left change s w).world.sent ≤ w.sent + (2 * left + 1)
  unfolding attempts
  sent-attempts zero change s w = omega (arith, (sent-attempt false change s w).1 refl)
  sent-attempts (suc left) change s w =
      let r = attempt env true change s w in
      elim (Bool-cases r.1) [
        | inl e ↦ rw e (
            omega (
              arith,
              sent-attempts left change r.0.state r.0.world,
              (sent-attempt true change s w).0,
            ))
        | inr e ↦ rw e (omega (arith, (sent-attempt true change s w).0))
      ]

  -- However the other clients and the network behave, a `mutate` ends after seven requests at most:
  -- four posts, and a reload after each of the first three.
  pub mutate-sent :
      (change : Data Row → Option (Data Row)) (s : State Row) (w : World)
      → (mutate env change s w).world.sent ≤ w.sent + 7
  unfolding mutate
  mutate-sent change s w = sent-attempts max_conflict_retries change (begin_write s) w
