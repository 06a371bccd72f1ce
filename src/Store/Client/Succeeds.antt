-- ===== src/Store/Client/Succeeds.antt =====
-- When `mutate` succeeds.
use connexia.Common.{
  ℕ, zero, suc, ◌+◌, ◌≤◌, ◌≡◌, refl, none, sym, ap, ◌∙◌, arith, Bool, true, false, Option, some, [],
  Text, codes, length, ltb, ◌==◌, Bool-cases, inl, inr, ==_iff,
}
use connexia.Store.Payload.{Data, Payload}
use connexia.Store.Server.{Blob, success, refusal, stored, decoded_len, handle_post, handle_posts}
use connexia.Store.Client.{
  State, done, answered, revision_of, World, Env, found, get_sync, post_sync, open_blob, seal,
  receive, refresh, next_payload, after_refusal, after_post, attempt, attempts, begin_write, mutate,
  is_done,
}
use connexia.Store.Client.Synced.{after, land-none, load_vault_key_cases}

module _ {Row : Type 0} (env : Env Row) where
  -- Every request is answered by the handlers, no other request of the page is under way, and from
  -- one on no other client writes.
  pub record IsCalm (from : ℕ) : Type 0 where
    pub answers : (n : ℕ) → (env.outside n).fate ≡ answered
    pub alone : (n : ℕ) → env.landed n ≡ none
    pub quiet : (n : ℕ) → from ≤ n → (env.outside n).posts ≡ []

  -- Sealed as the given request, the payload is not too large for the server.
  abbrev pub Fits : ℕ → Data Row → Type 0
  Fits n d = ltb env.blob_limit (decoded_len (length (seal env n (next_payload env n d)))) ≡ false

  post_sync-taken :
      (revision : ℕ) (blob : Text) (w : World)
      → (env.outside w.sent).fate ≡ answered
      → ltb env.blob_limit (decoded_len (length blob)) ≡ false
      → revision ≡ (stored (found env w)).revision
      → (post_sync env revision blob w).0 ≡ success (some ((stored (found env w)).revision + 1))
  unfolding post_sync handle_post
  post_sync-taken revision blob w a f e =
      rw (a, f, (==_iff revision (stored (found env w)).revision).1 e) refl

  post_sync-conflict :
      (revision : ℕ) (blob : Text) (w : World)
      → (env.outside w.sent).fate ≡ answered
      → ltb env.blob_limit (decoded_len (length blob)) ≡ false
      → (revision == (stored (found env w)).revision) ≡ false
      → (message : Text) × (post_sync env revision blob w
          ≡ (refusal 409 message, after env (found env w) w))
  unfolding post_sync handle_post
  post_sync-conflict revision blob w a f e = (codes "revision conflict", rw (a, f, e) refl)

  refresh-loads :
      (s : State Row) (v : World) (p : Payload Row)
      → (env.outside v.sent).fate ≡ answered
      → open_blob env (env.now v.sent) (stored (found env v)).blob ≡ some p
      → let r = refresh env true s v in
        (r.outcome ≡ done)
        × (r.state.revision ≡ some (stored (found env v)).revision)
        × (r.world ≡ after env (found env v) v)
        × (r.state.payload ≡ p)
  unfolding refresh receive get_sync
  refresh-loads s v p a o =
      rw (a, o)
        (
          refl,
          load_vault_key_cases env (λ t. t.revision ≡ some (stored (found env v)).revision) _ refl
              (λ key b64. refl),
          refl,
          load_vault_key_cases env (λ t. t.payload ≡ p) _ refl (λ key b64. refl),
        )

  found-quiet : (w : World) → (env.outside w.sent).posts ≡ [] → found env w ≡ w.server
  unfolding handle_posts
  found-quiet w q = rw q refl

  attempt-taken :
      (may_retry : Bool) (change : Data Row → Option (Data Row)) (s : State Row) (w : World)
      (d : Data Row)
      → change s.payload.content ≡ some d
      → (env.outside w.sent).fate ≡ answered
      → Fits w.sent d
      → env.landed w.sent ≡ none
      → revision_of s.revision ≡ (stored (found env w)).revision
      → let r = attempt env may_retry change s w in (r.1 ≡ false) × (r.0.outcome ≡ done)
  unfolding attempt after_post
  attempt-taken may_retry change s w d c a f n e =
      rw (c, attempt, land-none env w.sent s n)
        (rw (post_sync-taken (revision_of s.revision) _ w a f e) (refl, refl))

  attempt-conflict :
      (change : Data Row → Option (Data Row)) (s : State Row) (w : World) (d : Data Row)
      → change s.payload.content ≡ some d
      → (env.outside w.sent).fate ≡ answered
      → Fits w.sent d
      → env.landed w.sent ≡ none
      → (revision_of s.revision == (stored (found env w)).revision) ≡ false
      → let v = after env (found env w) w in
        attempt env true change s w ≡ (refresh env true s v, is_done (refresh env true s v).outcome)
  unfolding attempt after_post after_refusal
  attempt-conflict change s w d c a f n e =
      let r = post_sync-conflict (revision_of s.revision) _ w a f e in
      rw (c, attempt, land-none env w.sent s n) (rw r.1 refl)

  module _ (change : Data Row → Option (Data Row)) where
    -- The change does not throw on the data, and its result fits.
    abbrev pub Works : ℕ → Data Row → Type 0
    Works n d = (d' : Data Row) × (change d ≡ some d') × Fits n d'

    -- The data on the server can be read, and the change works on it.
    abbrev pub IsReadable : ℕ → Option Blob → Type 0
    IsReadable n server =
        (now : Text)
        → (p : Payload Row) × (open_blob env now (stored server).blob ≡ some p) × Works n p.content

    attempts-taken :
        (left : ℕ) (s : State Row) (w : World)
        → Works w.sent s.payload.content
        → (env.outside w.sent).fate ≡ answered
        → env.landed w.sent ≡ none
        → revision_of s.revision ≡ (stored (found env w)).revision
        → (attempts env left change s w).outcome ≡ done
    unfolding attempts
    attempts-taken zero s w c a n e = (attempt-taken false change s w c.0 c.1 a c.2 n e).1
    attempts-taken (suc left) s w c a n e =
        let t = attempt-taken true change s w c.0 c.1 a c.2 n e in rw t.0 t.1

    -- The next round is one that the server takes.
    abbrev Ready : State Row → World → Type 0
    Ready s w =
        (revision_of s.revision ≡ (stored (found env w)).revision)
        × ((env.outside w.sent).fate ≡ answered)
        × Works w.sent s.payload.content

    reload-Ready :
        (s : State Row) (v : World)
        → IsCalm v.sent
        → IsReadable (v.sent + 1) v.server
        → let r = refresh env true s v in (r.outcome ≡ done) × Ready r.state r.world
    reload-Ready s v calm readable =
        let at = found-quiet v (calm.quiet v.sent (omega arith)) in
        let p = readable (env.now v.sent) in
        let l = refresh-loads s v p.0 (calm.answers v.sent) (rw at p.1) in
        let next =
          found-quiet (after env (found env v) v) (calm.quiet (v.sent + 1) (omega arith)) in
        (
          l.0,
          (
            ap revision_of l.1
                ∙ ap (λ b. (stored b).revision) (sym next ∙ ap (found env) (sym l.2)),
            calm.answers _,
            rw (l.2, l.3) p.2,
          ),
        )

    attempts-succeeds :
        (left : ℕ) (s : State Row) (w : World)
        → Works w.sent s.payload.content
        → IsCalm (w.sent + 1)
        → IsReadable (w.sent + 1 + 1) (found env w)
        → (attempts env (suc left) change s w).outcome ≡ done
    unfolding attempts
    attempts-succeeds left s w c calm readable =
        elim (Bool-cases (revision_of s.revision == (stored (found env w)).revision)) [
          | inl e ↦
              attempts-taken (suc left) s w c (calm.answers w.sent) (calm.alone w.sent)
                ((==_iff (revision_of s.revision) (stored (found env w)).revision).0 e)
          | inr e ↦
              let v = after env (found env w) w in
              let loaded =
                reload-Ready s v
                  (record { answers = calm.answers; alone = calm.alone; quiet = calm.quiet })
                  readable in
              let r = refresh env true s v in
              rw
                (attempt-conflict change s w c.0 c.1 (calm.answers w.sent) c.2 (calm.alone w.sent)
                  e)
                (rw loaded.0 (
                  attempts-taken left r.state r.world loaded.1.2 loaded.1.1
                    (calm.alone r.world.sent) loaded.1.0))
        ]

    -- If every request is answered by the handlers, no other request of the page is under way, no
    -- other client writes after the first one, and the data on the server can be read, a `mutate`
    -- succeeds however old the data of the page is; its change must not throw, and its result must
    -- fit, on the data of the page and on that of the server.
    pub mutate-succeeds :
        (s : State Row) (w : World)
        → Works w.sent s.payload.content
        → IsCalm (w.sent + 1)
        → IsReadable (w.sent + 1 + 1) (found env w)
        → (mutate env change s w).outcome ≡ done
    unfolding mutate begin_write
    mutate-succeeds s w c calm readable = attempts-succeeds 2 (begin_write s) w c calm readable
