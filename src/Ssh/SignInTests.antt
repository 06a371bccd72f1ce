-- ===== src/Ssh/SignInTests.antt =====
-- Runs of the host-key checks and of `resolveAuth`, and the theorems about them at concrete inputs.
use connexia.Common.{
  ℕ, ◌≡◌, ◌≢◌, ◌⊎◌, refl, Option, none, some, List, [], ◌∷◌, Text, codes, same, starts_with,
  decimal,
}
use connexia.Ssh.HostKeys.{
  KnownHost, trusted, check_host_key, trust_host_key, key_type_of, matches, is_rsa, new_entry,
  host_key_of,
}
use connexia.Ssh.HostKeys.Trust.{check_host_key-trust_host_key}
use connexia.Ssh.Auth.{
  Host, field_of, group_of, or_else, resolve_auth, resolve_named, resolve_password,
}
use connexia.Ssh.Auth.Complete.{Signs, resolve_auth_complete}

-- An RSA key is the same key under the old name of its type.
abbrev known : List KnownHost
known =
    record (new_entry (codes "t") (host_key_of (codes "web") 22) (codes "ssh-rsa") (codes "f")) {
      last_seen = codes "u";
    }
    ∷ []

known_trusted :
    check_host_key known (codes "web") 22 (codes "ssh-rsa") (codes "f")
    ≡ trusted (codes "rsa-sha2-512")
unfolding check_host_key key_type_of matches is_rsa same starts_with decimal
known_trusted = refl

check_host_key-trust_host_key_example :
    let after =
      trust_host_key
        (codes "t")
        (codes "web")
        2222
        (key_type_of (codes "ssh-rsa"))
        (codes "g")
        known in
    (check_host_key after (codes "web") 2222 (codes "ssh-rsa") (codes "g")
      ≡ trusted (key_type_of (codes "ssh-rsa")))
    × ((address' : Text) (port' : ℕ) (wire_type' fingerprint' : Text)
        → ((codes "web" ≢ address') ⊎ (2222 ≢ port'))
        → check_host_key after address' port' wire_type' fingerprint'
          ≡ check_host_key known address' port' wire_type' fingerprint')
check_host_key-trust_host_key_example =
    check_host_key-trust_host_key (codes "t") (codes "web") 2222 (codes "ssh-rsa") (codes "g") known

abbrev host : Host
host = record {
  group_id = none;
  username = some (codes "root");
  auth_type = none;
  key_id = none;
  encrypted_password = some (codes "x");
}

-- A vault that cannot read the password.
abbrev locked : Option Text → Option Text
locked ciphertext = none

locked_misses_nothing : (resolve_auth locked [] [] host).missing ≡ none
unfolding resolve_auth resolve_named resolve_password group_of same
locked_misses_nothing = refl

locked_has_nothing : (resolve_auth locked [] [] host).password ≡ none
unfolding resolve_auth resolve_named resolve_password group_of same
locked_has_nothing = refl

resolve_auth_complete_example :
    Signs locked []
      (or_else host.encrypted_password (field_of (λ g. g.encrypted_password) (group_of [] host)))
      (or_else host.key_id (field_of (λ g. g.key_id) (group_of [] host)))
      (resolve_auth locked [] [] host)
resolve_auth_complete_example = resolve_auth_complete locked [] [] host locked_misses_nothing
