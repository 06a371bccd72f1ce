-- ===== src/Store/Server.antt =====
-- `HandleGet` and `HandlePost` of server/internal/syncapi/sync.go for one user, and what other
-- clients of that user send in the meantime. Authentication and the log are not modelled.
use connexia.Common.{
  ℕ, ◌+◌, ◌*◌, ◌/◌, ◌<◌, ◌≡◌, refl, arith, ◌⊎◌, inl, inr, not, Option, none, some, List, [], ◌∷◌,
  Text, codes, length, ltb, ◌==◌, if◌then◌else◌, Bool-cases, ==_iff,
}

pub record Blob : Type 0 where
  pub revision : ℕ
  pub blob : Option Text
  pub updated_at : Option Text

-- The answer to a request: what it asked for, or the status and text of an error. Status 0 means
-- that there was no answer.
pub data Answer {ℓ} (A : Type ℓ) : Type ℓ where
  success : A → Answer A
  refusal : ℕ → Text → Answer A

abbrev pub stored : Option Blob → Blob
stored none = record { revision = 0; blob = none; updated_at = none }
stored (some b) = b

abbrev pub handle_get : Option Blob → Answer Blob
handle_get current = success (stored current)

pub record Post : Type 0 where
  pub revision : ℕ
  pub blob : Text
  pub at : Text

-- `base64.StdEncoding.DecodedLen`
abbrev pub decoded_len : ℕ → ℕ
decoded_len n = n / 4 * 3

-- Behind the rate limit and the checks that the body is JSON with a revision that is not negative: a
-- request that those refuse changes nothing here.
unfoldable pub handle_post : ℕ → Post → Option Blob → Answer ℕ × Option Blob
handle_post blob_limit body current =
    if ltb blob_limit (decoded_len (length body.blob))
    then (refusal 413 (codes "blob too large"), current)
    else if not (body.revision == (stored current).revision)
    then (refusal 409 (codes "revision conflict"), current)
    else (
      success ((stored current).revision + 1),
      some (record {
        revision = (stored current).revision + 1;
        blob = some body.blob;
        updated_at = some body.at;
      }),
    )

-- The requests of the other clients, one after the other.
unfoldable pub handle_posts : ℕ → List Post → Option Blob → Option Blob
handle_posts blob_limit [] current = current
handle_posts blob_limit (body ∷ rest) current =
    handle_posts blob_limit rest (handle_post blob_limit body current).1

-- The server keeps what it has, or has gone to a later revision.
abbrev pub Later : Option Blob → Option Blob → Type 0
Later a b = (b ≡ a) ⊎ ((stored a).revision < (stored b).revision)

pub Later-trans : {a b c : Option Blob} → Later a b → Later b c → Later a c
Later-trans {a} {b} {c} (inl e) (inl f) = inl (cc (e, f))
Later-trans {a} {b} {c} (inl e) (inr h) = inr (rw (← e) h)
Later-trans {a} {b} {c} (inr h) (inl f) = inr (rw f h)
Later-trans {a} {b} {c} (inr h) (inr k) = inr (omega arith)

-- What a request does: it is refused and changes nothing, or it is the one that is based on the
-- server's revision, and the server has its text under the next revision.
pub data Posted (blob_limit : ℕ) (body : Post) (current : Option Blob)
    : Answer ℕ × Option Blob → Type 0 where
  refused :
      (status : ℕ) (message : Text)
      → Posted blob_limit body current (refusal status message, current)
  accepted :
      body.revision ≡ (stored current).revision
      → Posted blob_limit body current (
        success (body.revision + 1),
        some (record {
          revision = body.revision + 1;
          blob = some body.blob;
          updated_at = some body.at;
        }),
      )

pub handle_post-Posted :
    (blob_limit : ℕ) (body : Post) (current : Option Blob)
    → Posted blob_limit body current (handle_post blob_limit body current)
unfolding handle_post
handle_post-Posted blob_limit body current =
    elim (Bool-cases (ltb blob_limit (decoded_len (length body.blob)))) [
      | inl e ↦ rw e (refused 413 _)
      | inr e ↦ elim (Bool-cases (body.revision == (stored current).revision)) [
        | inr f ↦ rw (e, f) (refused 409 _)
        | inl f ↦
            let same_revision = (==_iff body.revision (stored current).revision).0 f in
            rw (e, f) (rw (← same_revision) (accepted same_revision))
      ]
    ]

pub Posted-Later :
    {blob_limit : ℕ} {body : Post} {current : Option Blob} {r : Answer ℕ × Option Blob}
    → Posted blob_limit body current r
    → Later current r.1
Posted-Later (refused status message) = inl refl
Posted-Later (accepted e) = inr (omega arith)

pub handle_posts-Later :
    (blob_limit : ℕ) (bodies : List Post) (current : Option Blob)
    → Later current (handle_posts blob_limit bodies current)
unfolding handle_posts
handle_posts-Later blob_limit [] current = inl refl
handle_posts-Later blob_limit (body ∷ rest) current =
    Later-trans (Posted-Later (handle_post-Posted blob_limit body current))
      (handle_posts-Later blob_limit rest _)
