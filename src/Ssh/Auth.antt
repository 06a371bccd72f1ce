-- ===== src/Ssh/Auth.antt =====
-- `resolveAuth` of server/internal/web/static/js/dashboard/ssh/client.js: how a saved host signs
-- in, with `vault.decrypt` of store.js.
pub mod Complete
use connexia.Common.{
  ℕ, Bool, true, false, Option, none, some, List, [], ◌∷◌, Text, codes, same, find, if◌then◌else◌,
}
use connexia.Crypto.Concat.{Bytes}
use connexia.Crypto.Platform.{Platform}
use connexia.Crypto.Base64.{decrypt_string}

-- The fields of the tables that it reads. `none` is a field that is missing or `null`.
pub record Host : Type 0 where
  pub group_id : Option Text
  pub username : Option Text
  pub auth_type : Option Text
  pub key_id : Option Text
  pub encrypted_password : Option Text

pub record Group : Type 0 where
  pub id : Text
  pub username : Option Text
  pub auth_type : Option Text
  pub key_id : Option Text
  pub encrypted_password : Option Text

pub record Identity : Type 0 where
  pub id : Text
  pub encrypted_key_pem : Option Text
  pub encrypted_passphrase : Option Text

pub record Auth : Type 0 where
  pub username : Text
  pub auth_type : Text
  pub password : Option Text
  pub private_key : Option Text
  pub passphrase : Option Text
  pub missing : Option Text
  pub fatal : Bool

-- `text || null`: an empty text counts as none.
abbrev pub filled : Option Text → Option Text
filled none = none
filled (some []) = none
filled (some (c ∷ cs)) = some (c ∷ cs)

-- `a ?? b`
abbrev pub or_else {ℓ} : {A : Type ℓ} → Option A → Option A → Option A
or_else none b = b
or_else (some a) b = some a

-- `a || b || ""`
abbrev pub first_filled : Option Text → Option Text → Text
first_filled a b = elim (or_else (filled a) (filled b)) [ none ↦ [] | some text ↦ text ]

-- `group?.field`
abbrev pub field_of {ℓ} : {A : Type ℓ} → (Group → Option A) → Option Group → Option A
field_of field none = none
field_of field (some group) = field group

unfoldable pub group_of : List Group → Host → Option Group
group_of groups host = elim (filled host.group_id) [
  | none ↦ none
  | some id ↦ find (λ g. same g.id id) groups
]

-- `null` without a key or a text, and where the text cannot be decrypted.
unfoldable pub vault_decrypt : Platform → Option Bytes → Option Text → Option Text
vault_decrypt platform vault_key ciphertext = elim vault_key [
  | none ↦ none
  | some key ↦ elim (filled ciphertext) [
    | none ↦ none
    | some text ↦ decrypt_string platform text key
  ]
]

abbrev pub bare : Text → Text → Auth
bare username auth_type = record {
  username = username;
  auth_type = auth_type;
  password = none;
  private_key = none;
  passphrase = none;
  missing = none;
  fatal = false;
}

abbrev pub without : Text → Auth → Auth
without what auth = record auth { missing = some what }

-- The `catch` branches are not there, since `vault.decrypt` throws nothing.
unfoldable pub resolve_key : (Option Text → Option Text) → List Identity → Option Text → Auth → Auth
resolve_key decrypt identities key_id auth = elim (filled key_id) [
  | none ↦ without (codes "This host has no identity configured") auth
  | some id ↦ elim (find (λ i. same i.id id) identities) [
    | none ↦ record (without (codes "Identity not found") auth) { fatal = true }
    | some identity ↦ record auth {
      private_key = decrypt identity.encrypted_key_pem;
      passphrase = elim (filled identity.encrypted_passphrase) [
        | none ↦ none
        | some text ↦ decrypt (some text)
      ];
    }
  ]
]

unfoldable pub resolve_password : (Option Text → Option Text) → Option Text → Auth → Auth
resolve_password decrypt encrypted auth = elim (filled encrypted) [
  | none ↦ without (codes "No saved password for this host") auth
  | some text ↦ record auth { password = decrypt (some text) }
]

-- For a user name and a way to sign in, with the password and the identity to take.
unfoldable pub resolve_named :
    (Option Text → Option Text) → List Identity → Option Text → Option Text → Text → Text → Auth
resolve_named decrypt identities encrypted key_id [] auth_type =
    without (codes "No saved sign-in for this host") (bare [] auth_type)
resolve_named decrypt identities encrypted key_id (c ∷ cs) auth_type =
    if same auth_type (codes "key")
    then resolve_key decrypt identities key_id (bare (c ∷ cs) auth_type)
    else resolve_password decrypt encrypted (bare (c ∷ cs) auth_type)

unfoldable pub resolve_auth : (Option Text → Option Text) → List Group → List Identity → Host → Auth
resolve_auth decrypt groups identities host =
    let group = group_of groups host in
    resolve_named decrypt identities
      (or_else host.encrypted_password (field_of (λ g. g.encrypted_password) group))
      (or_else host.key_id (field_of (λ g. g.key_id) group))
      (first_filled host.username (field_of (λ g. g.username) group))
      (first_filled host.auth_type (field_of (λ g. g.auth_type) group))
