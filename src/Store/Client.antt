-- ===== src/Store/Client.antt =====
-- The client of the synchronised data: the module state of
-- server/internal/web/static/js/dashboard/store.js, `refresh`, `mutate`, `loadVaultKey` and `vault`.
-- Writes are queued and run one at a time, so a call of `mutate` begins when no other is pending. What
-- happens outside of it is an argument, by the number of requests that the page has sent: what the
-- other clients send before a request, what becomes of the request and of its answer, and the answer
-- to a request of the poll or of `Sync now` that was under way and arrives between the clone of the
-- data and the post.
pub mod Synced
pub mod Applied
pub mod Outcomes
pub mod Succeeds
use connexia.Common.{
  ℕ, zero, suc, ◌+◌, ◌-◌, ◌*◌, ◌/◌, Bool, true, false, not, ◌&&◌, Option, none, some, List, [], ◌∷◌,
  Text, codes, same, length, ltb, ◌==◌, if◌then◌else◌, ◌>>=◌,
}
use connexia.Crypto.Concat.{Bytes}
use connexia.Crypto.Platform.{Platform}
use connexia.Crypto.Base64.{encrypt_string, decrypt_string, bytes_to_b64, b64_to_bytes}
use connexia.Store.Payload.{Data, Payload, Json, normalize, empty_payload, look_up}
use connexia.Store.Server.{
  Blob, Answer, success, refusal, Post, stored, handle_get, handle_post, handle_posts,
}

-- The state once `unlock` has loaded a payload.
pub record State (Row : Type 0) : Type 0 where
  pub payload : Payload Row
  -- `none` is `undefined`.
  pub revision : Option ℕ
  pub updated_at : Option Text
  pub blob_bytes : ℕ
  pub saving : Bool
  pub error : Option Text
  pub pending_writes : ℕ
  pub vault_key : Option Bytes
  pub vault_key_b64 : Option Text

-- How a call of `refresh` or of `mutate` ends: it throws an `ApiError`, or another error.
pub data Outcome : Type 0 where
  done : Outcome
  api_error : ℕ → Text → Outcome
  other_error : Text → Outcome

-- A request is answered, gets lost on its way there, or its answer gets lost on its way back; it is
-- denied with a status and a text before it comes to the handlers (401, 429, 400); or the body of a
-- successful answer cannot be read.
pub data Fate : Type 0 where
  answered request_lost answer_lost garbled : Fate
  denied : ℕ → Text → Fate

pub record Outside : Type 0 where
  pub posts : List Post
  pub fate : Fate

-- The blob of the server, and the number of requests that the page has sent.
pub record World : Type 0 where
  pub server : Option Blob
  pub sent : ℕ

pub record Result (Row : Type 0) : Type 0 where
  pub outcome : Outcome
  pub state : State Row
  pub world : World

abbrev pub is_done : Outcome → Bool
is_done done = true
is_done (api_error status message) = false
is_done (other_error message) = false

-- What the code gets from outside of it, by the number of requests sent: the nonces, the time and
-- what happens around a request. `import_key` is `importAesKey`.
pub record Env (Row : Type 0) : Type 0 where
  pub platform : Platform
  pub json : Json Row
  pub import_key : Bytes → Option Bytes
  pub sync_key : Bytes
  pub blob_limit : ℕ
  pub nonce : ℕ → Bytes
  pub now : ℕ → Text
  pub outside : ℕ → Outside
  -- Whether it is forced, and the answer.
  pub landed : ℕ → Option (Bool × Answer Blob)

abbrev pub unreachable {ℓ} : {A : Type ℓ} → Answer A
unreachable = refusal 0 (codes "Cannot reach the sync server")

-- The answer to a request that the server answers so. `request` takes a body that it cannot read for
-- `{}`; `blank` is what that is read as.
abbrev pub delivered {ℓ} :
    {A : Type ℓ} → A → Fate → Option Blob → Answer A × Option Blob → Answer A × Option Blob
delivered blank answered before (answer, after) = (answer, after)
delivered blank request_lost before (answer, after) = (unreachable, before)
delivered blank answer_lost before (answer, after) = (unreachable, after)
delivered blank (denied status message) before (answer, after) = (refusal status message, before)
delivered blank garbled before (success answer, after) = (success blank, after)
delivered blank garbled before (refusal status message, after) = (refusal status message, after)

-- `{ revision }` of the answer to a post.
abbrev pub told : Answer ℕ × Option Blob → Answer (Option ℕ) × Option Blob
told (success revision, after) = (success (some revision), after)
told (refusal status message, after) = (refusal status message, after)

-- What the server reads in a post: `JSON.stringify` leaves out `undefined`, and Go reads 0 then.
abbrev pub revision_of : Option ℕ → ℕ
revision_of none = 0
revision_of (some revision) = revision

abbrev pub same_revision : ℕ → Option ℕ → Bool
same_revision r none = false
same_revision r (some revision) = r == revision

-- The message that `state.error` keeps.
abbrev pub message_of : Outcome → Option Text → Option Text
message_of done kept = kept
message_of (api_error status message) kept = some message
message_of (other_error message) kept = some message

unfoldable pub begin_write : {Row : Type 0} → State Row → State Row
begin_write s = record s { pending_writes = s.pending_writes + 1; saving = true; error = none }

unfoldable pub end_write : {Row : Type 0} → Outcome → State Row → State Row
end_write outcome s = record s {
  error = message_of outcome s.error;
  pending_writes = s.pending_writes - 1;
  saving = ltb 0 (s.pending_writes - 1);
}

abbrev pub max_conflict_retries : ℕ
max_conflict_retries = 3

module _ {Row : Type 0} (env : Env Row) where
  -- The server as the next request finds it.
  abbrev pub found : World → Option Blob
  found w = handle_posts env.blob_limit (env.outside w.sent).posts w.server

  unfoldable pub get_sync : World → Answer Blob × World
  get_sync w =
      let r =
        delivered (stored none) (env.outside w.sent).fate (found w)
          (handle_get (found w), found w) in
      (r.0, record { server = r.1; sent = w.sent + 1 })

  unfoldable pub post_sync : ℕ → Text → World → Answer (Option ℕ) × World
  post_sync revision blob w =
      let body : Post = record { revision = revision; blob = blob; at = env.now w.sent } in
      let r =
        delivered none (env.outside w.sent).fate (found w)
          (told (handle_post env.blob_limit body (found w))) in
      (r.0, record { server = r.1; sent = w.sent + 1 })

  -- The payload in the blob of an answer, which is empty where there is no blob; `none` is an error of `decryptString` or `JSON.parse`.
  unfoldable pub open_blob : Text → Option Text → Option (Payload Row)
  open_blob now none = some (empty_payload now)
  open_blob now (some []) = some (empty_payload now)
  open_blob now (some (c ∷ cs)) = do
    text ← decrypt_string env.platform (c ∷ cs) env.sync_key
    raw ← env.json.parse text
    some (normalize raw)

  unfoldable pub seal : ℕ → Payload Row → Text
  seal n p = encrypt_string env.platform (env.nonce n) (env.json.stringify p) env.sync_key

  -- `null` for a missing key and for an empty one.
  abbrev pub master_key : Data Row → Option Text
  master_key d = elim (look_up (codes "vaultMasterKey") d.settings) [
    | none ↦ none
    | some b64 ↦ elim b64 [ [] ↦ none | c ∷ cs ↦ some (c ∷ cs) ]
  ]

  abbrev pub same_key : Option Text → Option Text → Bool
  same_key none none = true
  same_key (some a) (some b) = same a b
  same_key _ _ = false

  unfoldable pub load_vault_key : State Row → State Row
  load_vault_key s =
      let b64 = master_key s.payload.content in
      if same_key b64 s.vault_key_b64 then s else record s {
        vault_key_b64 = b64;
        vault_key = b64 >>= b64_to_bytes env.platform >>= env.import_key;
      }

  abbrev pub blob_bytes_of : Option Text → ℕ
  blob_bytes_of none = 0
  blob_bytes_of (some blob) = length blob * 3 / 4

  -- `refresh` behind the answer of the server.
  unfoldable pub receive : Bool → Text → Answer Blob → State Row → Outcome × State Row
  receive force now (refusal status message) s = (api_error status message, s)
  receive force now (success remote) s =
      if not force && same_revision remote.revision s.revision
      then (done, s)
      else elim (open_blob now remote.blob) [
        | none ↦ (other_error (codes "The data cannot be read"), s)
        | some payload ↦ (
          done,
          load_vault_key (record s {
            payload = payload;
            revision = some remote.revision;
            updated_at = remote.updated_at;
            blob_bytes = blob_bytes_of remote.blob;
          }),
        )
      ]

  unfoldable pub refresh : Bool → State Row → World → Result Row
  refresh force s w =
      let r = get_sync w in
      let t = receive force (env.now w.sent) r.0 s in
      record { outcome = t.0; state = t.1; world = r.1 }

  -- The state behind a post that the server has taken.
  unfoldable pub saved : Text → Text → Payload Row → Option ℕ → State Row → State Row
  saved now blob next revision s = load_vault_key (record s {
    payload = next;
    revision = revision;
    updated_at = some now;
    blob_bytes = blob_bytes_of (some blob);
  })

  abbrev pub next_payload : ℕ → Data Row → Payload Row
  next_payload n d = record { modified_at = env.now n; content = d }

  -- Behind a refused post: the data is loaded again after a conflict, if another attempt may follow.
  unfoldable pub after_refusal : Bool → ℕ → Text → State Row → World → Result Row × Bool
  after_refusal may_retry status message s w =
      if status == 409 && may_retry
      then (refresh true s w, is_done (refresh true s w).outcome)
      else (record { outcome = api_error status message; state = s; world = w }, false)

  -- Behind the answer to a post at a time, of a payload as a blob.
  unfoldable pub after_post :
      Bool → Text → Text → Payload Row → State Row → Answer (Option ℕ) → World → Result Row × Bool
  after_post may_retry now blob next s (success revision) w =
      (record { outcome = done; state = saved now blob next revision s; world = w }, false)
  after_post may_retry now blob next s (refusal status message) w =
      after_refusal may_retry status message s w

  -- The state behind an answer that arrives between the clone of the data and the post.
  unfoldable pub land : ℕ → State Row → State Row
  land n s = elim (env.landed n) [
    | none ↦ s
    | some (force, answer) ↦ (receive force (env.now n) answer s).1
  ]

  -- One round of the loop of `mutate`, and whether it ends with `continue`. `change` gives `none` if
  -- it throws.
  unfoldable pub attempt :
      Bool → (Data Row → Option (Data Row)) → State Row → World → Result Row × Bool
  attempt may_retry change s w = elim (change s.payload.content) [
    | none ↦
        (record { outcome = other_error (codes "The change failed"); state = s; world = w }, false)
    | some d ↦
        let next = next_payload w.sent d in
        let t = land w.sent s in
        let r = post_sync (revision_of t.revision) (seal w.sent next) w in
        after_post may_retry (env.now w.sent) (seal w.sent next) next t r.0 r.1
  ]

  -- The loop of `mutate`, by the number of conflicts that are still followed by another round:
  -- `MAX_CONFLICT_RETRIES - attempt`.
  unfoldable pub attempts : ℕ → (Data Row → Option (Data Row)) → State Row → World → Result Row
  attempts zero change s w = (attempt false change s w).0
  attempts (suc left) change s w =
      let r = attempt true change s w in
      let rest = attempts left change r.0.state r.0.world in if r.1 then rest else r.0

  -- A call that finds no other pending: one that is queued begins when the one before has ended.
  unfoldable pub mutate : (Data Row → Option (Data Row)) → State Row → World → Result Row
  mutate change s w =
      let r = attempts max_conflict_retries change (begin_write s) w in
      record { outcome = r.outcome; state = end_write r.outcome r.state; world = r.world }
