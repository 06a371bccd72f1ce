-- ===== src/Store/Client/Applied.antt =====
-- What a `mutate` that succeeds has done to the server, among the writes of other clients.
use connexia.Common.{
  ℕ, zero, suc, ◌+◌, ◌≡◌, ◌≢◌, refl, ap, arith, inl, inr, Bool, true, false, ◌&&◌, Option, some, [],
  Text, ◌==◌, Bool-cases, Option-cases,
}
use connexia.Store.Payload.{Data, Payload}
use connexia.Store.Server.{Blob, Answer, success, refusal, stored, Later, Later-trans}
use connexia.Store.Client.{
  State, Outcome, done, garbled, revision_of, land, World, Result, is_done, Env, found, seal,
  refresh, saved, next_payload, after_refusal, after_post, attempt, attempts, begin_write,
  end_write, mutate, max_conflict_retries,
}
use connexia.Store.Client.Synced.{
  Lawful, Undisturbed, Follows, Applied, open_blob-content, open_blob-seal, IsSynced-Later,
  found-Later, after, posted, land-none, get_sync_cases, post_sync_cases, load_vault_key_cases,
  refresh-IsSynced,
}

module _ {Row : Type 0} (env : Env Row) where
  refresh-Later :
      (force : Bool) (s : State Row) (w : World)
      → (env.outside w.sent).fate ≢ garbled
      → Later w.server (refresh env force s w).world.server
  unfolding refresh
  refresh-Later force s w g =
      get_sync_cases env (λ r. Later w.server r.1.server) w g (found-Later env w)
        (λ status message. found-Later env w)

  -- Loaded again, the client is with the server and no round is over yet that did its write.
  abbrev Undone : World → Result Row × Bool → Type 0
  Undone w r =
      Follows env r.0.state r.0.world.server
      × Later w.server r.0.world.server
      × (r.1 ≡ false → r.0.outcome ≢ done)

  not_done : {o : Outcome} → is_done o ≡ false → o ≢ done
  not_done {o} h e = absurd (cc (h, ap is_done e))

  after_refusal-Undone :
      (u : Undisturbed env) (may_retry : Bool) (status : ℕ) (message : Text) (s : State Row)
      (w : World)
      → Follows env s w.server
      → Undone w (after_refusal env may_retry status message s w)
  unfolding after_refusal
  after_refusal-Undone u may_retry status message s w h =
      elim (Bool-cases (status == 409 && may_retry)) [
        | inl e ↦
            let g = u.readable w.sent in
            rw e (refresh-IsSynced env true s w g h, refresh-Later true s w g, not_done)
        | inr e ↦ rw e (h, inl refl, λ _. not_done refl)
      ]

  -- One round: the client stays with the server, and if the round is the last and is done, it has
  -- applied the change.
  abbrev Round : (Data Row → Option (Data Row)) → World → Result Row × Bool → Type 0
  Round change w r =
      Follows env r.0.state r.0.world.server
      × Later w.server r.0.world.server
      × (r.1 ≡ false → r.0.outcome ≡ done → Applied env change w.server r.0)

  Undone-Round :
      (change : Data Row → Option (Data Row)) (w w' : World) (r : Result Row × Bool)
      → Later w.server w'.server
      → Undone w' r
      → Round change w r
  Undone-Round change w w' r l u = (u.0, Later-trans l u.1, λ h e. absurd (u.2 h e))

  saved-content :
      (now blob : Text) (next : Payload Row) (revision : Option ℕ) (s : State Row)
      → ((saved env now blob next revision s).payload.content ≡ next.content)
        × ((saved env now blob next revision s).revision ≡ revision)
  unfolding saved
  saved-content now blob next revision s =
      load_vault_key_cases env (λ t. (t.payload.content ≡ next.content) × (t.revision ≡ revision)) _
        (refl, refl) (λ key b64. (refl, refl))

  accepted-Round :
      (lawful : Lawful env) (may_retry : Bool) (change : Data Row → Option (Data Row))
      (s : State Row) (w : World) (d : Data Row)
      → change s.payload.content ≡ some d
      → Follows env s (found env w)
      → revision_of s.revision ≡ (stored (found env w)).revision
      → let next = next_payload env w.sent d in
        let blob = seal env w.sent next in
        Round change w (
          after_post env may_retry
            (env.now w.sent)
            blob
            next
            s
            (success (some (revision_of s.revision + 1)))
            (after env (posted env (revision_of s.revision) blob w) w))
  unfolding after_post
  accepted-Round lawful may_retry change s w d e (inl older) same_revision = absurd (omega arith)
  accepted-Round lawful may_retry change s w d e (inr (at, holds)) same_revision =
      let next = next_payload env w.sent d in
      let blob = seal env w.sent next in
      let kept = saved-content (env.now w.sent) blob next (some (revision_of s.revision + 1)) s in
      let found_new =
        open_blob-content env [] (some blob) next (open_blob-seal env lawful [] w.sent next) in
      (
        inr (ap revision_of kept.1, rw kept.0 found_new),
        Later-trans (found-Later env w) (inr (omega arith)),
        λ _. λ _. record {
          before = found env w;
          is_later = found-Later env w;
          old_content = s.payload.content;
          new_content = d;
          was_old = holds;
          changed = e;
          is_new = found_new;
          is_next = omega arith;
          shown = kept.0;
        },
      )

  attempt-Round :
      (lawful : Lawful env) (u : Undisturbed env) (may_retry : Bool)
      (change : Data Row → Option (Data Row)) (s : State Row) (w : World)
      → Follows env s w.server
      → Round change w (attempt env may_retry change s w)
  unfolding attempt after_post
  attempt-Round lawful u may_retry change s w h = elim (Option-cases (change s.payload.content)) [
    | inl e ↦ rw (e, attempt) (h, inl refl, λ _. λ d. absurd (not_done refl d))
    | inr (d, e) ↦
        let next = next_payload env w.sent d in
        let blob = seal env w.sent next in
        let k =
          IsSynced-Later env (revision_of s.revision) s.payload.content h (found-Later env w) in
        rw (e, attempt, land-none env w.sent s (u.alone w.sent))
          (post_sync_cases env
            (λ r. Round change w (after_post env may_retry (env.now w.sent) blob next s r.0 r.1))
            (revision_of s.revision) blob w (u.readable w.sent)
            (λ status message.
              Undone-Round change w (after env (found env w) w) _ (found-Later env w)
                (after_refusal-Undone u may_retry status message s (after env (found env w) w) k))
            (accepted-Round lawful may_retry change s w d e k)
            (λ same_revision.
              Undone-Round change w (after env (posted env (revision_of s.revision) blob w) w) _
                (Later-trans (found-Later env w) (inr (omega arith)))
                (after_refusal-Undone u may_retry 0 _ s _ (inl (omega arith)))))
  ]

  -- The rounds together, whatever the last one ends with.
  abbrev Rounds : (Data Row → Option (Data Row)) → World → Result Row → Type 0
  Rounds change w r =
      Follows env r.state r.world.server × (r.outcome ≡ done → Applied env change w.server r)

  Applied-Later :
      (change : Data Row → Option (Data Row)) {a b : Option Blob} {r : Result Row}
      → Later a b
      → Applied env change b r
      → Applied env change a r
  Applied-Later change l x = record {
    before = x.before;
    is_later = Later-trans l x.is_later;
    old_content = x.old_content;
    new_content = x.new_content;
    was_old = x.was_old;
    changed = x.changed;
    is_new = x.is_new;
    is_next = x.is_next;
    shown = x.shown;
  }

  after_post-last :
      (now blob : Text) (next : Payload Row) (s : State Row) (r : Answer (Option ℕ)) (w : World)
      → (after_post env false now blob next s r w).1 ≡ false
  unfolding after_post after_refusal
  after_post-last now blob next s (success revision) w = refl
  after_post-last now blob next s (refusal status message) w = elim (Bool-cases (status == 409)) [
    | inl e ↦ rw e refl
    | inr e ↦ rw e refl
  ]

  -- Without a retry left no round ends with `continue`.
  attempt-last :
      (change : Data Row → Option (Data Row)) (s : State Row) (w : World)
      → (attempt env false change s w).1 ≡ false
  unfolding attempt
  attempt-last change s w = elim (Option-cases (change s.payload.content)) [
    | inl e ↦ rw (e, attempt) refl
    | inr (d, e) ↦ rw (e, attempt) (after_post-last _ _ _ (land env w.sent s) _ _)
  ]

  attempts-Rounds :
      (lawful : Lawful env) (u : Undisturbed env) (left : ℕ) (change : Data Row → Option (Data Row))
      (s : State Row) (w : World)
      → Follows env s w.server
      → Rounds change w (attempts env left change s w)
  unfolding attempts
  attempts-Rounds lawful u zero change s w h =
      let r = attempt-Round lawful u false change s w h in (r.0, r.2 (attempt-last change s w))
  attempts-Rounds lawful u (suc left) change s w h =
      let round = attempt-Round lawful u true change s w h in
      let r = attempt env true change s w in
      elim (Bool-cases r.1) [
        | inl e ↦
            let rest = attempts-Rounds lawful u left change r.0.state r.0.world round.0 in
            rw e (rest.0, λ d. Applied-Later change round.1 (rest.1 d))
        | inr e ↦ rw e (round.0, round.2 e)
      ]

  -- As long as the bodies of successful answers can be read, and no other request of the page is
  -- under way: after any `mutate`, however it ends, whatever requests and answers get lost or are
  -- denied and whatever other clients write, what the client has loaded is still what the server has
  -- at the client's revision, or the server has gone on.
  pub mutate-IsSynced :
      (lawful : Lawful env) (u : Undisturbed env) (change : Data Row → Option (Data Row))
      (s : State Row) (w : World)
      → Follows env s w.server
      → Follows env (mutate env change s w).state (mutate env change s w).world.server
  unfolding mutate begin_write end_write
  mutate-IsSynced lawful u change s w h =
      (attempts-Rounds lawful u max_conflict_retries change (begin_write s) w h).0

  -- As long as the bodies of successful answers can be read, and no other request of the page is
  -- under way: a `mutate` that succeeds has applied its change to the content that the server had
  -- just before it took the write, the writes of other clients included; the server has the result
  -- under the next revision, and the page shows it.
  pub mutate-Applied :
      (lawful : Lawful env) (u : Undisturbed env) (change : Data Row → Option (Data Row))
      (s : State Row) (w : World)
      → Follows env s w.server
      → (mutate env change s w).outcome ≡ done
      → Applied env change w.server (mutate env change s w)
  unfolding mutate begin_write end_write
  mutate-Applied lawful u change s w h d =
      let x = (attempts-Rounds lawful u max_conflict_retries change (begin_write s) w h).1 d in
      record {
        before = x.before;
        is_later = x.is_later;
        old_content = x.old_content;
        new_content = x.new_content;
        was_old = x.was_old;
        changed = x.changed;
        is_new = x.is_new;
        is_next = x.is_next;
        shown = x.shown;
      }
