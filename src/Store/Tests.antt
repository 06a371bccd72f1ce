-- ===== src/Store/Tests.antt =====
-- Runs of `mutate` against the server, and the theorems about it at concrete inputs. Another client
-- writes just before the first request, so that request meets a conflict.
use connexia.Common.{
  ℕ, ◌≤◌, ◌≡◌, ◌≢◌, refl, inr, Bool, false, Option, none, some, List, [], ◌∷◌, codes, replicate,
  All, zero, suc, ◌<◌, arith,
}
use connexia.Crypto.Base64.{
  encrypt_string, decrypt_string, bytes_to_b64, b64_to_bytes, binary_of, binary_loop,
}
use connexia.Crypto.Toy.{toy, toy-Documented, small_begins, toy_btoa, toy_atob, toy_bytes}
use connexia.Store.Payload.{Data, empty_payload, normalize}
use connexia.Store.Server.{Answer, Blob, Post, stored, success, handle_post, handle_posts}
use connexia.Store.Toy.{
  put, get, put_items, get_items, put_list, get_list, put_pairs, get_pairs, put_lists,
  toy_stringify, toy_parse, toy_json, toy_json-Documented, small-toy_stringify,
}
use connexia.Store.Client.{
  found, State, done, answered, garbled, Outside, World, Env, open_blob, seal, mutate, attempts,
  attempt, land, after_post, after_refusal, post_sync, get_sync, refresh, receive, saved,
  load_vault_key, begin_write, end_write,
}
use connexia.Store.Client.Synced.{Lawful, Undisturbed, content_of, Follows, Applied}
use connexia.Store.Client.Applied.{mutate-Applied, mutate-IsSynced}
use connexia.Store.Client.Succeeds.{IsCalm, Works, IsReadable, mutate-succeeds}
use connexia.Store.Client.Outcomes.{mutate-sent}

abbrev quiet : ℕ → Outside
quiet n = record { posts = []; fate = answered }

abbrev env_of : (ℕ → Outside) → Env ℕ
env_of outside = record {
  platform = toy;
  json = toy_json;
  import_key = some;
  sync_key = [];
  blob_limit = 1000;
  nonce = λ n. replicate 12 7;
  now = λ n. codes "t";
  outside = outside;
  landed = λ n. none;
}

abbrev with_hosts : List ℕ → Data ℕ → Data ℕ
with_hosts hosts d = record d { hosts = hosts }

abbrev start : Data ℕ
start = (empty_payload []).content

-- The other client adds the host 5.
abbrev other_post : Post
other_post = record {
  revision = 0;
  blob = seal (env_of quiet) 0 (record { modified_at = []; content = with_hosts (5 ∷ []) start });
  at = [];
}

abbrev other_first : ℕ → Outside
other_first zero = record { posts = other_post ∷ []; fate = answered }
other_first (suc n) = quiet n

abbrev busy : Env ℕ
busy = env_of other_first

abbrev add_host : Data ℕ → Option (Data ℕ)
add_host d = some (with_hosts (8 ∷ d.hosts) d)

abbrev loaded : State ℕ
loaded = record {
  payload = empty_payload [];
  revision = some 0;
  updated_at = none;
  blob_bytes = 0;
  saving = false;
  error = none;
  pending_writes = 0;
  vault_key = none;
  vault_key_b64 = none;
}

abbrev begin : World
begin = record { server = none; sent = 0 }

sevens : (k : ℕ) → All (λ b. b < 256) (replicate k 7)
sevens zero = tt
sevens (suc k) = (omega arith, sevens k)

busy-Lawful : Lawful busy
busy-Lawful = record {
  documented = toy-Documented;
  json_documented = toy_json-Documented;
  stringify-well_formed = small-toy_stringify;
  begins_with_bom-stringify = λ p. small_begins (toy_stringify p) (small-toy_stringify p);
  length-nonce = λ n. refl;
  nonce-IsBytes = λ n. sevens 12;
}

busy-Undisturbed : Undisturbed busy
busy-Undisturbed = record { readable = readable; alone = λ n. refl }
  where
    readable : (n : ℕ) → (busy.outside n).fate ≢ garbled
    readable zero h = cc h
    readable (suc n) h = cc h

loaded-Follows : Follows busy loaded none
unfolding open_blob
loaded-Follows = inr (refl, refl)

mutate-done : (mutate busy add_host loaded begin).outcome ≡ done
unfolding mutate attempts attempt land after_post after_refusal post_sync get_sync refresh receive
    saved load_vault_key begin_write end_write open_blob seal handle_post handle_posts
    encrypt_string decrypt_string bytes_to_b64 b64_to_bytes binary_of binary_loop toy_btoa toy_atob
    toy_bytes put get put_items get_items put_list get_list put_pairs get_pairs put_lists
    toy_stringify toy_parse normalize empty_payload
mutate-done = refl

mutate-Applied_example : Applied busy add_host none (mutate busy add_host loaded begin)
mutate-Applied_example =
    mutate-Applied busy busy-Lawful busy-Undisturbed add_host loaded begin loaded-Follows
      mutate-done

mutate-IsSynced_example :
    Follows busy
      (mutate busy add_host loaded begin).state
      (mutate busy add_host loaded begin).world.server
mutate-IsSynced_example =
    mutate-IsSynced busy busy-Lawful busy-Undisturbed add_host loaded begin loaded-Follows

mutate-sent_example : (mutate busy add_host loaded begin).world.sent ≤ 7
mutate-sent_example = mutate-sent busy add_host loaded begin

-- The answer to a poll, with the host 5 of the other client, arrives before the first post.
abbrev poll_answer : ℕ → Option (Bool × Answer Blob)
poll_answer zero = some (false, success (stored (found busy begin)))
poll_answer (suc n) = none

abbrev raced : Env ℕ
raced = record (env_of quiet) { landed = poll_answer }

-- The stale clone is posted under the new revision: the host 5 is gone.
poll_answer_loses_a_host :
    let r = mutate raced add_host loaded (record begin { server = found busy begin }) in
    (r.outcome ≡ done)
    × (content_of raced (stored r.world.server).blob ≡ some (with_hosts (8 ∷ []) start))
unfolding mutate attempts attempt land after_post after_refusal post_sync get_sync refresh receive
    saved load_vault_key begin_write end_write open_blob seal handle_post handle_posts
    encrypt_string decrypt_string bytes_to_b64 b64_to_bytes binary_of binary_loop toy_btoa toy_atob
    toy_bytes put get put_items get_items put_list get_list put_pairs get_pairs put_lists
    toy_stringify toy_parse normalize empty_payload
poll_answer_loses_a_host = (refl, refl)

busy-IsCalm : IsCalm busy 1
busy-IsCalm = record { answers = answers; alone = λ n. refl; quiet = no_posts }
  where
    answers : (n : ℕ) → (busy.outside n).fate ≡ answered
    answers zero = refl
    answers (suc n) = refl

    no_posts : (n : ℕ) → 1 ≤ n → (busy.outside n).posts ≡ []
    no_posts zero h = absurd (omega arith)
    no_posts (suc n) h = refl

Works-first : Works busy add_host 0 start
unfolding mutate attempts attempt land after_post after_refusal post_sync get_sync refresh receive
    saved load_vault_key begin_write end_write open_blob seal handle_post handle_posts
    encrypt_string decrypt_string bytes_to_b64 b64_to_bytes binary_of binary_loop toy_btoa toy_atob
    toy_bytes put get put_items get_items put_list get_list put_pairs get_pairs put_lists
    toy_stringify toy_parse normalize empty_payload
Works-first = (with_hosts (8 ∷ []) start, refl, refl)

Works-again : Works busy add_host 2 (with_hosts (5 ∷ []) start)
unfolding mutate attempts attempt land after_post after_refusal post_sync get_sync refresh receive
    saved load_vault_key begin_write end_write open_blob seal handle_post handle_posts
    encrypt_string decrypt_string bytes_to_b64 b64_to_bytes binary_of binary_loop toy_btoa toy_atob
    toy_bytes put get put_items get_items put_list get_list put_pairs get_pairs put_lists
    toy_stringify toy_parse normalize empty_payload
Works-again = (with_hosts (8 ∷ 5 ∷ []) start, refl, refl)

other-IsReadable : IsReadable busy add_host 2 (found busy begin)
unfolding mutate attempts attempt land after_post after_refusal post_sync get_sync refresh receive
    saved load_vault_key begin_write end_write open_blob seal handle_post handle_posts
    encrypt_string decrypt_string bytes_to_b64 b64_to_bytes binary_of binary_loop toy_btoa toy_atob
    toy_bytes put get put_items get_items put_list get_list put_pairs get_pairs put_lists
    toy_stringify toy_parse normalize empty_payload
other-IsReadable now =
    (record { modified_at = []; content = with_hosts (5 ∷ []) start }, refl, Works-again)

mutate-succeeds_example : (mutate busy add_host loaded begin).outcome ≡ done
mutate-succeeds_example =
    mutate-succeeds busy add_host loaded begin Works-first busy-IsCalm other-IsReadable
