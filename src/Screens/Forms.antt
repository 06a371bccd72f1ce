-- ===== src/Screens/Forms.antt =====
-- The edits of server/internal/web/static/js/dashboard/screens/hosts.js: what it hands to `app.save`
-- for a host that is duplicated, deleted or saved, and for a group that is deleted. The identifier of
-- a new row is an argument, and so is `store.vault.encrypt`, which also writes the settings.
pub mod Saved
use connexia.Common.{
  ℕ, zero, suc, Bool, true, false, not, ◌&&◌, ◌||◌, Option, none, some, List, [], ◌∷◌, ◌++◌, map,
  Text, codes, same, any, filter, find, drop, if◌then◌else◌, Parsed, natural, negative,
  not_a_number, parse_int, trim,
}
use connexia.Screens.Hosts.{
  Host, Group, Tables, Screen, has, is_text, is_empty, or_empty, filled, is_host_key, is_group_key,
  open_folder, group_of,
}

-- `{ ...NEW_HOST, ...fields }`
abbrev pub new_host : Text → Host
new_host id = record {
  id = id;
  name = [];
  address = [];
  username = none;
  port = natural 22;
  auth_type = none;
  key_id = none;
  encrypted_password = none;
  group_id = none;
  tags = none;
  color = none;
  notes = some [];
  favorite = false;
  last_connected = none;
  os = none;
  workspace_id = none;
}

-- All but the favorite, the last connection, the system and the workspace is taken over.
abbrev pub copy_of : Text → Host → Host
copy_of id host = record host {
  id = id;
  name = host.name ++ codes " (copy)";
  favorite = false;
  last_connected = none;
  os = none;
  workspace_id = none;
}

pub duplicate_host : Text → Host → Tables → Tables
duplicate_host id host tables = record tables { hosts = tables.hosts ++ copy_of id host ∷ [] }

-- A host that is deleted after the question.
unfoldable pub delete_host : Text → Tables → Tables
delete_host id tables = record tables { hosts = filter (λ h. not (same h.id id)) tables.hosts }

pub data Choice : Type 0 where
  keep all : Choice

abbrev pub hosts_left : Choice → Text → List Host → List Host
hosts_left keep group_id hosts = hosts
hosts_left all group_id hosts = filter (λ h. not (is_text group_id h.group_id)) hosts

-- The change of the tables.
unfoldable pub delete_group : Choice → Text → Tables → Tables
delete_group choice group_id tables = record tables {
  hosts = hosts_left choice group_id tables.hosts;
  groups = filter (λ g. not (same g.id group_id)) tables.groups;
}

-- And then of the screen.
unfoldable pub after_delete_group : Text → Screen → Screen
after_delete_group group_id s = if is_text group_id s.open_group_id then open_folder none s else s

abbrev pub ids_of : (Text → Bool) → List Text → List Text
ids_of test multi = map (drop 2) (filter test multi)

unfoldable pub delete_selection : List Text → Tables → Tables
delete_selection multi tables = record tables {
  hosts = filter (λ h. not (has h.id (ids_of is_host_key multi))) tables.hosts;
  groups = filter (λ g. not (has g.id (ids_of is_group_key multi))) tables.groups;
}

unfoldable pub after_delete_selection : Screen → Screen
after_delete_selection s =
    let in_ids : Bool = elim s.open_group_id [
      | none ↦ false
      | some id ↦ has id (ids_of is_group_key s.multi)
    ] in
    record s { open_group_id = if in_ids then none else s.open_group_id; multi = [] }

-- The fields of the form of a host. `editing` says that it is opened for a host of the table.
pub record HostForm : Type 0 where
  pub id : Text
  pub auth_type : Text
  pub key_id : Option Text
  pub group_id : Option Text
  pub save_password : Bool
  pub name : Text
  pub address : Text
  pub port : Text
  pub username : Text
  pub password : Text
  pub tags : Text

abbrev pub or_else {ℓ} : {A : Type ℓ} → Option A → Option A → Option A
or_else none b = b
or_else (some a) b = some a

abbrev pub or_text : Text → Option Text → Text
or_text a none = a
or_text a (some b) = b

-- The texts that the fields show of a host; `show_port` is `String` of its port.
abbrev pub form_of : (Parsed → Text) → Host → Option Text → HostForm
form_of show_port host group_id = record {
  id = host.id;
  auth_type = or_text (codes "password") host.auth_type;
  key_id = host.key_id;
  group_id = or_else host.group_id group_id;
  save_password = true;
  name = host.name;
  address = host.address;
  port = show_port host.port;
  username = or_empty host.username;
  password = [];
  tags = or_empty host.tags;
}

-- A new host takes the sign-in of the group that it is opened in.
abbrev pub defaults_from : Group → HostForm → HostForm
defaults_from g f =
    let auth_type = or_text (codes "password") (filled g.auth_type) in
    record f {
      auth_type = auth_type;
      key_id = if same auth_type (codes "key") then g.key_id else f.key_id;
      username = or_empty g.username;
    }

unfoldable pub new_form : Text → Option Text → List Group → HostForm
new_form id group_id groups =
    let f : HostForm = record {
      id = id;
      auth_type = codes "password";
      key_id = none;
      group_id = group_id;
      save_password = true;
      name = [];
      address = [];
      port = codes "22";
      username = [];
      password = [];
      tags = [];
    } in
    elim (group_of group_id groups) [ none ↦ f | some g ↦ defaults_from g f ]

-- The password of the group is put into the form of a new host, if it can be decrypted by `decrypt`.
unfoldable pub fill_password : (Text → Option Text) → Group → HostForm → HostForm
fill_password decrypt g f =
    if same f.auth_type (codes "password")
    then elim (filled g.encrypted_password) [
      | none ↦ f
      | some text ↦ elim (decrypt text) [ none ↦ f | some value ↦ record f { password = value } ]
    ]
    else f

-- `parseInt(port, 10) || 22`
abbrev pub port_of : Text → Parsed
port_of text = elim (parse_int text) [
  | not_a_number ↦ natural 22
  | natural n ↦ elim n [ zero ↦ natural 22 | suc m ↦ natural (suc m) ]
  | negative n ↦ elim n [ zero ↦ natural 22 | suc m ↦ negative (suc m) ]
]

abbrev pub stored : Option Host → Option Text
stored none = none
stored (some host) = host.encrypted_password

-- The first row with the identifier gets the fields, or a row is added behind the others.
abbrev pub has_id : Text → Host → Bool
has_id id host = same host.id id

unfoldable pub assign_host : (Host → Host) → Text → List Host → List Host
assign_host fields id [] = fields (new_host id) ∷ []
assign_host fields id (host ∷ hosts) =
    let rest = assign_host fields id hosts in
    if has_id id host then fields host ∷ hosts else host ∷ rest

-- `existing?.encryptedPassword ?? null`
abbrev pub known_password : Option Host → Option Text
known_password none = none
known_password (some host) = host.encrypted_password

abbrev pub effective_name : HostForm → Text
effective_name f = or_text (trim f.address) (filled (some (trim f.name)))

-- The fields, with the password as `encryptedPassword`, over those of a row.
unfoldable pub host_fields : HostForm → Option Text → Host → Host
host_fields f password row = record row {
  id = f.id;
  name = effective_name f;
  address = trim f.address;
  port = port_of f.port;
  username = some (if is_empty f.auth_type then [] else trim f.username);
  auth_type = some f.auth_type;
  key_id = if same f.auth_type (codes "key") then f.key_id else none;
  encrypted_password =
      if same f.auth_type (codes "password") && f.save_password then password else none;
  group_id = f.group_id;
  tags = some (trim f.tags);
}

-- `store.vault.encrypt` writes its new key into the settings.
module _ {Settings : Type 0} (encrypt : Text → Settings → Text × Settings) where
  abbrev pub encrypted : Text → Settings → Option Text × Settings
  encrypted text settings = let r = encrypt text settings in (some r.0, r.1)

  unfoldable pub password_to_store : HostForm → Option Host → Settings → Option Text × Settings
  password_to_store f existing settings =
      if not (same f.auth_type (codes "password"))
      then (known_password existing, settings)
      else elim (trim f.password) [
        | c ∷ cs ↦ encrypted (c ∷ cs) settings
        | [] ↦ elim existing [
          | none ↦ if f.save_password then encrypted [] settings else (none, settings)
          | some host ↦ (host.encrypted_password, settings)
        ]
      ]

  -- `saveNow`: nothing without a name and an address.
  unfoldable pub save_host : HostForm → List Host → Settings → Option (List Host × Settings)
  save_host f hosts settings =
      let p = password_to_store f (find (has_id f.id) hosts) settings in
      if is_empty (effective_name f) && is_empty (trim f.address)
      then none
      else some (assign_host (host_fields f p.0) f.id hosts, p.1)
