-- ===== src/Screens/Forms/Saved.antt =====
-- What the table of hosts holds after a form is saved.
use connexia.Common.{ℕ, ◌≡◌, true, false, Option, none, some, [], ◌∷◌, Text, same, codes, trim}
use connexia.Screens.Hosts.{Host}
use connexia.Screens.Forms.{HostForm, new_host}

-- The row that the fields are assigned to, for the one that is found.
abbrev pub row_of : Text → Option Host → Host
row_of id none = new_host id
row_of id (some host) = host

-- What the row of the form's host holds, and how the settings are left, by the row and the settings
-- before.
pub record Holds {Settings : Type 0} (encrypt : Text → Settings → Text × Settings) (f : HostForm)
    (before : Option Host) (settings : Settings) (row : Host) (left : Settings) : Type 0 where
  pub named : (c : ℕ) (cs : Text) → trim f.name ≡ c ∷ cs → row.name ≡ c ∷ cs
  pub unnamed : trim f.name ≡ [] → row.name ≡ trim f.address
  pub address : row.address ≡ trim f.address
  pub auth_type : row.auth_type ≡ some f.auth_type
  pub key : f.auth_type ≡ codes "key" → row.key_id ≡ f.key_id
  pub no_key : same f.auth_type (codes "key") ≡ false → row.key_id ≡ none
  pub new_password :
      (c : ℕ) (cs : Text)
      → f.auth_type ≡ codes "password"
      → f.save_password ≡ true
      → trim f.password ≡ c ∷ cs
      → (row.encrypted_password ≡ some (encrypt (c ∷ cs) settings).0)
        × (left ≡ (encrypt (c ∷ cs) settings).1)
  pub old_password :
      (host : Host)
      → f.auth_type ≡ codes "password"
      → f.save_password ≡ true
      → trim f.password ≡ []
      → before ≡ some host
      → (row.encrypted_password ≡ host.encrypted_password) × (left ≡ settings)
  pub unsaved_password : f.save_password ≡ false → row.encrypted_password ≡ none
  pub no_password :
      same f.auth_type (codes "password") ≡ false
      → (row.encrypted_password ≡ none) × (left ≡ settings)
  pub last_connected : row.last_connected ≡ (row_of f.id before).last_connected
