-- ===== src/Screens/Tunnels.antt =====
-- What server/internal/web/static/js/dashboard/screens/tunnels.js shows and saves: the text of a rule,
-- the filter, the selection and the form. `toLowerCase`, `localeCompare` and `store.vault.encrypt` are
-- arguments. A tunnel itself runs in the native application only.
use connexia.Common.{
  ℕ, zero, suc, ◌≡◌, refl, Bool, true, false, not, ◌&&◌, ◌||◌, Option, none, some, List, [], ◌∷◌,
  ◌++◌, Text, codes, same, any, filter, find, if◌then◌else◌, includes, sort_by, Parsed, natural,
  negative, not_a_number, parse_int, trim, decimal,
}
use connexia.Screens.Hosts.{has, is_empty, or_empty, filled, without}

-- A port that is `null` is `not_a_number`.
pub record Tunnel : Type 0 where
  pub id : Text
  pub name : Text
  pub host_id : Option Text
  pub type : Text
  pub address : Option Text
  pub port : Parsed
  pub username : Option Text
  pub auth_type : Option Text
  pub key_id : Option Text
  pub encrypted_password : Option Text
  pub bind_address : Text
  pub bind_port : Parsed
  pub target_host : Option Text
  pub target_port : Parsed
  pub auto_start : Bool
  pub color : Option ℕ
  pub notes : Text
  pub created_at : Text

-- `String(n)`, and the text for `null`.
abbrev pub show_number : Text → Parsed → Text
show_number missing not_a_number = missing
show_number missing (natural n) = decimal n
show_number missing (negative zero) = codes "0"
show_number missing (negative (suc n)) = codes "-" ++ decimal (suc n)

unfoldable pub port_label : Tunnel → Text
port_label t = show_number (codes "auto") t.bind_port

abbrev pub target_text : Option Text → Text
target_text target = elim (filled target) [
  | none ↦ []
  | some host ↦
      if same host (codes "localhost") || same host (codes "127.0.0.1")
      then []
      else host ++ codes ":"
]

-- `address:port`
abbrev pub bound : Tunnel → Text
bound t = t.bind_address ++ (codes ":" ++ port_label t)

unfoldable pub rule_text : Tunnel → Text
rule_text t =
    if same t.type (codes "local")
    then bound t
      ++ (codes " → " ++ (target_text t.target_host ++ show_number (codes "0") t.target_port))
    else if same t.type (codes "dynamic")
    then codes "SOCKS5 " ++ bound t
    else if same t.type (codes "remote")
    then codes "remote " ++ bound t
    else t.type

-- The text that is copied, when the port is known.
unfoldable pub copy_endpoint : Tunnel → Option Text
copy_endpoint t = elim t.bind_port [
  | not_a_number ↦ none
  | natural n ↦ some (bound t)
  | negative n ↦ some (bound t)
]

-- The tunnels that are listed: `before a b` says that `a.localeCompare(b)` is not above 0.
unfoldable pub listed : (Text → Text) → (Text → Text → Bool) → Text → List Tunnel → List Tunnel
listed lower before query tunnels =
    let q = lower (trim query) in
    sort_by (λ a b. before (lower a.name) (lower b.name))
      (filter
        (λ t. is_empty q || any (λ v. includes (lower v) q) (t.name ∷ t.type ∷ t.bind_address ∷ []))
        tunnels)

-- The keys that are selected after a click, and whether the editor opens.
unfoldable pub on_click : Bool → Text → Bool → List Text → List Text × Bool
on_click is_touch id mod_key multi =
    if mod_key
    then (if has id multi then without id multi else multi ++ id ∷ [], false)
    else ([], is_empty multi && is_touch)

unfoldable pub delete_tunnels : List Text → List Tunnel → List Tunnel
delete_tunnels ids = filter (λ t. not (has t.id ids))

-- The fields of the form.
pub record TunnelForm : Type 0 where
  pub type : Text
  pub host_id : Option Text
  pub auth_type : Text
  pub key_id : Option Text
  pub name : Text
  pub auto_start : Bool
  pub server_address : Text
  pub server_port : Text
  pub username : Text
  pub password : Text
  pub bind_address : Text
  pub bind_port : Text
  pub target_host : Text
  pub target_port : Text
  pub notes : Text

-- `authField` is set: another sign-in than by a key takes no key.
unfoldable pub set_auth : Option Text → TunnelForm → TunnelForm
set_auth value f =
    let auth_type = or_empty value in
    record f {
      auth_type = auth_type;
      key_id = if same auth_type (codes "key") then f.key_id else none;
    }

abbrev pub or_port : Parsed → Parsed
or_port not_a_number = natural 22
or_port (natural n) = natural n
or_port (negative n) = negative n

abbrev pub when {ℓ} : {A : Type ℓ} → Bool → Option A → Option A
when b o = if b then o else none

abbrev pub or_default {ℓ} : {A : Type ℓ} → A → Option A → A
or_default a none = a
or_default a (some b) = b

module _ (encrypt : Text → Text) where
  abbrev pub tunnel_password : TunnelForm → Option Tunnel → Option Text
  tunnel_password f existing = when (same f.auth_type (codes "password")) (elim f.password [
    | c ∷ cs ↦ some (encrypt (c ∷ cs))
    | [] ↦ elim existing [ none ↦ none | some t ↦ t.encrypted_password ]
  ])

  -- The fields for a tunnel with its identifier, where `now` is the time of creation of a new one.
  unfoldable pub tunnel_fields : TunnelForm → Text → Text → Option Tunnel → Tunnel
  tunnel_fields f id now existing =
      let alone = elim f.host_id as (λ o. Bool) [ none ↦ true | some host ↦ false ] in
      record {
        id = id;
        name = trim f.name;
        host_id = f.host_id;
        type = f.type;
        address = when alone (filled (some (trim f.server_address)));
        port = (if alone then or_port (parse_int (trim f.server_port)) else natural 22);
        username = when alone (filled (some (trim f.username)));
        auth_type = when alone (filled (some f.auth_type));
        key_id = when alone f.key_id;
        encrypted_password = when alone (tunnel_password f existing);
        bind_address = or_default (codes "127.0.0.1") (filled (some (trim f.bind_address)));
        bind_port = parse_int (trim f.bind_port);
        target_host = filled (some (trim f.target_host));
        target_port = parse_int (trim f.target_port);
        auto_start = f.auto_start;
        color = elim existing [ none ↦ none | some t ↦ t.color ];
        notes = f.notes;
        created_at = elim existing [ none ↦ now | some t ↦ t.created_at ];
      }

  unfoldable pub assign_tunnel : Tunnel → List Tunnel → List Tunnel
  assign_tunnel fields [] = fields ∷ []
  assign_tunnel fields (t ∷ ts) =
      let rest = assign_tunnel fields ts in if same t.id fields.id then fields ∷ ts else t ∷ rest

  -- `save`: nothing without a name.
  unfoldable pub save_tunnel : TunnelForm → Text → Text → List Tunnel → Option (List Tunnel)
  save_tunnel f id now tunnels =
      if is_empty (trim f.name)
      then none
      else some (assign_tunnel (tunnel_fields f id now (find (λ t. same t.id id) tunnels)) tunnels)

  -- A tunnel of a saved host has no sign-in of its own.
  tunnel_fields-inherits :
      (f : TunnelForm) (id now host : Text) (existing : Option Tunnel)
      → f.host_id ≡ some host
      → let t = tunnel_fields f id now existing in
        (t.username ≡ none) × (t.key_id ≡ none) × (t.encrypted_password ≡ none)
  unfolding tunnel_fields
  tunnel_fields-inherits f id now host existing e = rw e (refl, refl, refl)
