-- ===== src/Ssh/Auth/Complete.antt =====
-- What a sign-in has that misses nothing.
use connexia.Common.{
  ◌≡◌, ◌≢◌, inl, inr, refl, false, Option, none, some, List, [], ◌∷◌, Text, codes, same, same_iff,
  find, Bool-cases, Option-cases,
}
use connexia.Ssh.Auth.{
  Host, Group, Identity, Auth, filled, or_else, bare, field_of, group_of, resolve_key,
  resolve_password, resolve_named, resolve_auth,
}

-- What the fields of a sign-in come from: a password or an identity of the tables, as `vault.decrypt`
-- gives them, which is `null` where that cannot read them.
pub record Signs (decrypt : Option Text → Option Text) (identities : List Identity)
    (password_text key_id : Option Text) (a : Auth) : Type 0 where
  pub named : a.username ≢ []
  pub by_key :
      a.auth_type ≡ codes "key"
      → (id : Text) × (i : Identity) × (filled key_id ≡ some id)
        × (find (λ j. same j.id id) identities ≡ some i)
        × (a.private_key ≡ decrypt i.encrypted_key_pem)
  pub by_password :
      a.auth_type ≢ codes "key"
      → (text : Text) × (filled password_text ≡ some text) × (a.password ≡ decrypt (some text))
  pub not_fatal : a.fatal ≡ false

resolve_key-Signs :
    (decrypt : Option Text → Option Text) (identities : List Identity)
    (encrypted key_id : Option Text) (username auth_type : Text)
    → username ≢ []
    → auth_type ≡ codes "key"
    → (resolve_key decrypt identities key_id (bare username auth_type)).missing ≡ none
    → Signs decrypt identities encrypted key_id
        (resolve_key decrypt identities key_id (bare username auth_type))
unfolding resolve_key
resolve_key-Signs decrypt identities encrypted key_id username auth_type n t h =
    elim (Option-cases (filled key_id)) [
      | inl e ↦ absurd (cc (rw (e, resolve_key) at h))
      | inr (id, e) ↦ elim (Option-cases (find (λ j. same j.id id) identities)) [
        | inl f ↦ absurd (cc (rw (e, resolve_key, f) at h))
        | inr (i, f) ↦
            rw (e, resolve_key)
              (rw f (record {
                named = n;
                by_key = λ _. (id, i, e, f, refl);
                by_password = λ k. absurd (k t);
                not_fatal = refl;
              }))
      ]
    ]

resolve_password-Signs :
    (decrypt : Option Text → Option Text) (identities : List Identity)
    (encrypted key_id : Option Text) (username auth_type : Text)
    → username ≢ []
    → auth_type ≢ codes "key"
    → (resolve_password decrypt encrypted (bare username auth_type)).missing ≡ none
    → Signs decrypt identities encrypted key_id
        (resolve_password decrypt encrypted (bare username auth_type))
unfolding resolve_password
resolve_password-Signs decrypt identities encrypted key_id username auth_type n t h =
    elim (Option-cases (filled encrypted)) [
      | inl e ↦ absurd (cc (rw (e, resolve_password) at h))
      | inr (text, e) ↦
          rw (e, resolve_password)
            (record {
              named = n;
              by_key = λ k. absurd (t k);
              by_password = λ _. (text, e, refl);
              not_fatal = refl;
            })
    ]

resolve_named-Signs :
    (decrypt : Option Text → Option Text) (identities : List Identity)
    (encrypted key_id : Option Text) (username auth_type : Text)
    → (resolve_named decrypt identities encrypted key_id username auth_type).missing ≡ none
    → Signs decrypt identities encrypted key_id
        (resolve_named decrypt identities encrypted key_id username auth_type)
unfolding resolve_named
resolve_named-Signs decrypt identities encrypted key_id [] auth_type h = absurd (cc h)
resolve_named-Signs decrypt identities encrypted key_id (c ∷ cs) auth_type h =
    elim (Bool-cases (same auth_type (codes "key"))) [
      | inl e ↦ rw e (
          resolve_key-Signs decrypt identities encrypted key_id (c ∷ cs) auth_type (λ k. cc k)
            ((same_iff auth_type (codes "key")).0 e) (rw e at h))
      | inr e ↦ rw e (
          resolve_password-Signs decrypt identities encrypted key_id (c ∷ cs) auth_type (λ k. cc k)
            (λ k. cc (e, (same_iff auth_type (codes "key")).1 k)) (rw e at h))
    ]

-- A sign-in that misses nothing has a user name, and its key or password is what `vault.decrypt`
-- makes of the saved one of the host, or else of its group: so it is `null`, and nothing is
-- reported as missing, where the vault cannot read it.
pub resolve_auth_complete :
    (decrypt : Option Text → Option Text) (groups : List Group) (identities : List Identity)
    (host : Host)
    → let group = group_of groups host in
      let auth = resolve_auth decrypt groups identities host in
      auth.missing ≡ none
      → Signs decrypt identities
          (or_else host.encrypted_password (field_of (λ g. g.encrypted_password) group))
          (or_else host.key_id (field_of (λ g. g.key_id) group))
          auth
unfolding resolve_auth
resolve_auth_complete decrypt groups identities host h =
    resolve_named-Signs decrypt identities _ _ _ _ h
