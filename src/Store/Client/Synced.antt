-- ===== src/Store/Client/Synced.antt =====
-- The client against the server: how what it has loaded, and what it seals, relate to what the
-- server has.
use connexia.Common.{
  ℕ, ◌+◌, ◌<◌, ◌≡◌, ◌≢◌, refl, ap, arith, ◌⊎◌, inl, inr, Bool, true, false, not, ◌&&◌, Option, none,
  some, [], ◌∷◌, Text, length, Bool-cases, Option-cases, ◌>>=◌,
}
use connexia.Crypto.Concat.{Bytes}
use connexia.Crypto.Platform.{Documented, IsBytes, begins_with_bom}
use connexia.Crypto.Base64.{encrypt_string, decrypt_string}
use connexia.Crypto.Base64.Laws.{decrypt_string-encrypt_string, encrypt_string-ne-nil}
use connexia.Store.Payload.{
  Data, Payload, JsonDocumented, normalize, empty_payload, normalize-raw_of,
}
use connexia.Store.Server.{
  Blob, Answer, success, refusal, Post, stored, Later, handle_post-Posted, handle_posts-Later,
  Posted, refused, accepted,
}
use connexia.Store.Client.{
  State, Fate, answered, request_lost, answer_lost, garbled, denied, told, revision_of,
  same_revision, World, Result, Env, unreachable, delivered, found, get_sync, post_sync, open_blob,
  seal, load_vault_key, same_key, master_key, receive, refresh, land,
}

-- The parameters do as documented: the browser, `JSON`, and 12 random bytes for a nonce.
pub record Lawful {Row : Type 0} (env : Env Row) : Type 0 where
  pub documented : Documented env.platform
  pub json_documented : JsonDocumented env.json
  pub stringify-well_formed :
      (p : Payload Row) → env.platform.is_well_formed (env.json.stringify p) ≡ true
  -- A text of JSON begins with a brace or the like.
  pub begins_with_bom-stringify : (p : Payload Row) → begins_with_bom (env.json.stringify p) ≡ false
  pub length-nonce : (n : ℕ) → length (env.nonce n) ≡ 12
  pub nonce-IsBytes : (n : ℕ) → IsBytes (env.nonce n)

-- The body of each successful answer can be read, and no other request of the page is under way
-- whose answer arrives between the clone of the data and the post.
pub record Undisturbed {Row : Type 0} (env : Env Row) : Type 0 where
  pub readable : (n : ℕ) → (env.outside n).fate ≢ garbled
  pub alone : (n : ℕ) → env.landed n ≡ none

module _ {Row : Type 0} (env : Env Row) where
  -- What a reader with the key finds on the server.
  abbrev pub content_of : Option Text → Option (Data Row)
  content_of blob = open_blob env [] blob >>= λ p. some p.content

  -- Loaded at a revision the server has left, or the same as the server's.
  abbrev pub IsSynced : ℕ → Data Row → Option Blob → Type 0
  IsSynced revision d server =
      (revision < (stored server).revision)
      ⊎ ((revision ≡ (stored server).revision) × (content_of (stored server).blob ≡ some d))

  pub open_blob-content :
      (now : Text) (blob : Option Text) (p : Payload Row)
      → open_blob env now blob ≡ some p
      → content_of blob ≡ some p.content
  unfolding open_blob empty_payload
  open_blob-content now none p h = cc (ap (λ o. o >>= λ q. some q.content) h)
  open_blob-content now (some []) p h = cc (ap (λ o. o >>= λ q. some q.content) h)
  open_blob-content now (some (c ∷ cs)) p h = rw h refl

  open_blob-text :
      (now blob : Text)
      → ((c : ℕ) × (cs : Text) × (blob ≡ c ∷ cs))
      → open_blob env now (some blob) ≡ (
          decrypt_string env.platform blob env.sync_key >>= λ text.
          env.json.parse text >>= λ raw. some (normalize raw))
  unfolding open_blob
  open_blob-text now blob (c, cs, e) = rw e refl

  pub open_blob-seal :
      (l : Lawful env) (now : Text) (n : ℕ) (p : Payload Row)
      → open_blob env now (some (seal env n p)) ≡ some p
  unfolding seal
  open_blob-seal l now n p =
      rw
        (
          open_blob-text now
              (encrypt_string env.platform (env.nonce n) (env.json.stringify p) env.sync_key)
              (encrypt_string-ne-nil env.platform l.documented (env.nonce n) env.sync_key
                (env.json.stringify p) (l.length-nonce n)),
          decrypt_string-encrypt_string env.platform l.documented (env.nonce n) env.sync_key
              (env.json.stringify p) (l.length-nonce n) (l.nonce-IsBytes n)
              (l.stringify-well_formed p) (l.begins_with_bom-stringify p),
          l.json_documented.parse-stringify p,
        )
        (ap some (normalize-raw_of p))

  pub IsSynced-Later :
      (r : ℕ) (d : Data Row) {a b : Option Blob} → IsSynced r d a → Later a b → IsSynced r d b
  IsSynced-Later r d {a} {b} s (inl e) = rw e s
  IsSynced-Later r d {a} {b} (inl h) (inr k) = inl (omega arith)
  IsSynced-Later r d {a} {b} (inr h) (inr k) = inl (omega (arith, h.0))

  pub found-Later : (w : World) → Later w.server (found env w)
  found-Later w = handle_posts-Later env.blob_limit (env.outside w.sent).posts w.server

  -- The world behind a request that leaves the server so.
  abbrev pub after : Option Blob → World → World
  after server w = record { server = server; sent = w.sent + 1 }

  delivered_cases {ℓ} :
      {A : Type 0} (P : Answer A × Option Blob → Type ℓ) (blank : A) (fate : Fate)
      (before : Option Blob) (r : Answer A × Option Blob)
      → fate ≢ garbled
      → P r
      → ((status : ℕ) (message : Text) → P (refusal status message, before))
      → P (unreachable, r.1)
      → P (delivered blank fate before r)
  delivered_cases P blank answered before r g h k l = h
  delivered_cases P blank request_lost before r g h k l = k 0 _
  delivered_cases P blank answer_lost before r g h k l = l
  delivered_cases P blank (denied status message) before r g h k l = k status message
  delivered_cases P blank garbled before r g h k l = absurd (g refl)

  -- The answer is that of the server, or a refusal.
  pub get_sync_cases {ℓ} :
      (P : Answer Blob × World → Type ℓ) (w : World)
      → (env.outside w.sent).fate ≢ garbled
      → P (success (stored (found env w)), after (found env w) w)
      → ((status : ℕ) (message : Text) → P (refusal status message, after (found env w) w))
      → P (get_sync env w)
  unfolding get_sync
  get_sync_cases P w g h k =
      delivered_cases (λ r. P (r.0, after r.1 w)) _ (env.outside w.sent).fate (found env w) _ g h k
        (k 0 _)

  pub land-none : (n : ℕ) (s : State Row) → env.landed n ≡ none → land env n s ≡ s
  unfolding land
  land-none n s h = rw (land, h) refl

  -- The server as a post with the right revision leaves it.
  abbrev pub posted : ℕ → Text → World → Option Blob
  posted revision blob w =
      some
        (record { revision = revision + 1; blob = some blob; updated_at = some (env.now w.sent) })

  pub post_sync_cases {ℓ} :
      (P : Answer (Option ℕ) × World → Type ℓ) (revision : ℕ) (blob : Text) (w : World)
      → (env.outside w.sent).fate ≢ garbled
      → ((status : ℕ) (message : Text) → P (refusal status message, after (found env w) w))
      → (revision ≡ (stored (found env w)).revision
          → P (success (some (revision + 1)), after (posted revision blob w) w))
      → (revision ≡ (stored (found env w)).revision
          → P (unreachable, after (posted revision blob w) w))
      → P (post_sync env revision blob w)
  unfolding post_sync
  post_sync_cases P revision blob w g h k l =
      let body : Post = record { revision = revision; blob = blob; at = env.now w.sent } in
      of_posted (handle_post-Posted env.blob_limit body (found env w))
    where
      of_posted :
          {r : Answer ℕ × Option Blob}
          → Posted env.blob_limit
              (record { revision = revision; blob = blob; at = env.now w.sent })
              (found env w)
              r
          → P (
            (delivered none (env.outside w.sent).fate (found env w) (told r)).0,
            after (delivered none (env.outside w.sent).fate (found env w) (told r)).1 w,
          )
      of_posted (refused status message) =
          delivered_cases (λ r. P (r.0, after r.1 w)) none (env.outside w.sent).fate (found env w) _
            g (h status message) h (h 0 _)
      of_posted (accepted e) =
          delivered_cases (λ r. P (r.0, after r.1 w)) none (env.outside w.sent).fate (found env w) _
            g (k e) h (l e)

  pub load_vault_key_cases {ℓ} :
      (P : State Row → Type ℓ) (s : State Row)
      → P s
      → ((key : Option Bytes) (b64 : Option Text)
          → P (record s { vault_key = key; vault_key_b64 = b64 }))
      → P (load_vault_key env s)
  unfolding load_vault_key
  load_vault_key_cases P s h k =
      elim (Bool-cases (same_key env (master_key env s.payload.content) s.vault_key_b64)) [
        | inl e ↦ rw e h
        | inr e ↦ rw e (k _ _)
      ]

  abbrev pub Follows : State Row → Option Blob → Type 0
  Follows s server = IsSynced (revision_of s.revision) s.payload.content server

  receive-IsSynced :
      (force : Bool) (now : Text) (remote : Blob) (s : State Row) (server : Option Blob)
      → remote ≡ stored server
      → Follows s server
      → Follows (receive env force now (success remote) s).1 server
  unfolding receive
  receive-IsSynced force now remote s server e h =
      elim (Bool-cases (not force && same_revision remote.revision s.revision)) [
        | inl same ↦ rw same h
        | inr other ↦ elim (Option-cases (open_blob env now remote.blob)) [
          | inl unreadable ↦ rw (other, unreadable) h
          | inr (p, readable) ↦
              rw (other, readable)
                (load_vault_key_cases (λ t. Follows t server) _ (loaded p readable)
                  (λ key b64. loaded p readable))
        ]
      ]
    where
      loaded :
          (p : Payload Row)
          → open_blob env now remote.blob ≡ some p
          → IsSynced remote.revision p.content server
      loaded p readable =
          inr (ap (λ b. b.revision) e, rw (← e) (open_blob-content now remote.blob p readable))

  -- Loading the data keeps the client with the server.
  pub refresh-IsSynced :
      (force : Bool) (s : State Row) (w : World)
      → (env.outside w.sent).fate ≢ garbled
      → Follows s w.server
      → Follows (refresh env force s w).state (refresh env force s w).world.server
  unfolding refresh receive
  refresh-IsSynced force s w g h =
      let k = IsSynced-Later (revision_of s.revision) s.payload.content h (found-Later w) in
      get_sync_cases (λ r. Follows (receive env force (env.now w.sent) r.0 s).1 r.1.server) w g
        (receive-IsSynced force (env.now w.sent) (stored (found env w)) s (found env w) refl k)
        (λ status message. k)

  -- A write that succeeds: `before` is what the server had when it took the write.
  pub record Applied (change : Data Row → Option (Data Row)) (start : Option Blob) (r : Result Row)
      : Type 0 where
    pub before : Option Blob
    pub is_later : Later start before
    pub old_content : Data Row
    pub new_content : Data Row
    pub was_old : content_of (stored before).blob ≡ some old_content
    pub changed : change old_content ≡ some new_content
    pub is_new : content_of (stored r.world.server).blob ≡ some new_content
    pub is_next : (stored r.world.server).revision ≡ (stored before).revision + 1
    pub shown : r.state.payload.content ≡ new_content
