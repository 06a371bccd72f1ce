-- ===== src/Ssh/HostKeys.antt =====
-- The known hosts: `checkHostKey` and `trustHostKey` of
-- server/internal/web/static/js/dashboard/ssh/client.js, and `verifyHostKey` of sessions.js beside it.
pub mod Trust
use connexia.Common.{
  ℕ, Bool, true, false, ◌&&◌, ◌||◌, Option, none, some, List, [], ◌∷◌, ◌++◌, Text, codes, same,
  starts_with, decimal, find, if◌then◌else◌,
}

pub record KnownHost : Type 0 where
  pub host_key : Text
  pub key_type : Text
  pub fingerprint : Text
  pub first_seen : Text
  pub last_seen : Text

unfoldable pub is_rsa : Text → Bool
is_rsa key_type = same key_type (codes "ssh-rsa") || starts_with (codes "rsa-sha2") key_type

abbrev pub host_key_of : Text → ℕ → Text
host_key_of address port = address ++ (b':' ∷ decimal port)

-- The name under which a key's type is kept.
unfoldable pub key_type_of : Text → Text
key_type_of wire_type = if same wire_type (codes "ssh-rsa") then codes "rsa-sha2-512" else wire_type

pub data Check : Type 0 where
  unknown trusted : Text → Check
  changed : Text → Text → Check

unfoldable pub changed_message : Text → KnownHost → Text → Text → Text
changed_message host_key known key_type fingerprint =
    codes "Host key for "
    ++ (host_key
        ++ (codes " changed!\nExpected: "
            ++ (known.key_type
                ++ (32
                    ∷ (known.fingerprint
                        ++ (codes "\nReceived: " ++ (key_type ++ (32 ∷ fingerprint))))))))

-- A key for an entry of the table: of the same type, where the RSA types are one, and the same.
unfoldable pub matches : KnownHost → Text → Text → Bool
matches known key_type fingerprint =
    (same known.key_type key_type || (is_rsa known.key_type && is_rsa key_type))
    && same known.fingerprint fingerprint

abbrev pub is_for : Text → KnownHost → Bool
is_for host_key k = same k.host_key host_key

unfoldable pub check_host_key : List KnownHost → Text → ℕ → Text → Text → Check
check_host_key known_hosts address port wire_type fingerprint =
    elim (find (is_for (host_key_of address port)) known_hosts) [
      | none ↦ unknown (key_type_of wire_type)
      | some known ↦
          if matches known (key_type_of wire_type) fingerprint
          then trusted (key_type_of wire_type)
          else changed (key_type_of wire_type)
              (changed_message (host_key_of address port) known (key_type_of wire_type) fingerprint)
    ]

-- `Object.assign` of the new key to an entry.
abbrev pub renewed : Text → Text → Text → KnownHost → KnownHost
renewed now key_type fingerprint k = record k {
  key_type = key_type;
  fingerprint = fingerprint;
  last_seen = now;
}

abbrev pub new_entry : Text → Text → Text → Text → KnownHost
new_entry now host_key key_type fingerprint = record {
  host_key = host_key;
  key_type = key_type;
  fingerprint = fingerprint;
  first_seen = now;
  last_seen = now;
}

-- The first entry of the host is changed, or there is a new one at the end.
unfoldable pub trust : Text → Text → Text → Text → List KnownHost → List KnownHost
trust now host_key key_type fingerprint [] = new_entry now host_key key_type fingerprint ∷ []
trust now host_key key_type fingerprint (k ∷ ks) =
    let rest = trust now host_key key_type fingerprint ks in
    if is_for host_key k then renewed now key_type fingerprint k ∷ ks else k ∷ rest

unfoldable pub trust_host_key : Text → Text → ℕ → Text → Text → List KnownHost → List KnownHost
trust_host_key now address port key_type fingerprint known_hosts =
    trust now (host_key_of address port) key_type fingerprint known_hosts

-- The answer to the connection: `true`, or the message of a refusal.
pub data Verdict : Type 0 where
  allowed : Verdict
  refused : Text → Verdict

-- `verifyHostKey`, where `accepts` is what the user answers if he is asked. `trustHostKey` writes
-- the table of the store through `app.save`; `saved` says if that write succeeds. Its failure is
-- shown, and the connection is allowed all the same.
unfoldable pub verify_host_key :
    Bool → Bool → Bool → Text → Text → ℕ → Text → Text → List KnownHost → Verdict × List KnownHost
verify_host_key auto_accept accepts saved now address port wire_type fingerprint known_hosts =
    elim (check_host_key known_hosts address port wire_type fingerprint) [
      | trusted key_type ↦ (allowed, known_hosts)
      | changed key_type message ↦ (refused message, known_hosts)
      | unknown key_type ↦
          if auto_accept || accepts
          then (
            allowed,
            if saved
                then trust_host_key now address port key_type fingerprint known_hosts
                else known_hosts,
          )
          else (refused (codes "Connection cancelled: host key not trusted."), known_hosts)
    ]
