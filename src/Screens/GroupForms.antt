-- ===== src/Screens/GroupForms.antt =====
-- The form of a group of server/internal/web/static/js/dashboard/screens/hosts.js. The identifier of a
-- new group is an argument, and so is `store.vault.encrypt`.
use connexia.Common.{
  Bool, true, false, ◌&&◌, ◌||◌, Option, none, some, List, [], ◌∷◌, Text, codes, same, find,
  if◌then◌else◌, trim,
}
use connexia.Screens.Hosts.{Group, is_empty, filled}

abbrev pub new_group : Text → Group
new_group id = record {
  id = id;
  name = [];
  username = none;
  auth_type = none;
  key_id = none;
  encrypted_password = none;
  parent_id = none;
  color = none;
  sort_order = 0;
  workspace_id = none;
}

pub record GroupForm : Type 0 where
  pub auth_type : Text
  pub key_id : Option Text
  pub name : Text
  pub username : Text
  pub password : Text

unfoldable pub assign_group : (Group → Group) → Text → List Group → List Group
assign_group fields id [] = fields (new_group id) ∷ []
assign_group fields id (group ∷ groups) =
    let rest = assign_group fields id groups in
    if same group.id id then fields group ∷ groups else group ∷ rest

abbrev pub group_password : (Text → Text) → GroupForm → Option Group → Option Text
group_password encrypt f existing =
    if same f.auth_type (codes "password")
    then elim (trim f.password) [
      | c ∷ cs ↦ some (encrypt (c ∷ cs))
      | [] ↦ elim existing [ none ↦ none | some group ↦ filled group.encrypted_password ]
    ]
    else none

abbrev pub group_fields : (Text → Text) → GroupForm → Text → Option Group → Group → Group
group_fields encrypt f id existing row = record row {
  id = id;
  name = trim f.name;
  username = filled (some (trim f.username));
  auth_type = some f.auth_type;
  key_id = if same f.auth_type (codes "key") then f.key_id else none;
  encrypted_password = group_password encrypt f existing;
}

-- Which fields are marked: there is no name, there is no key.
abbrev pub group_errors : GroupForm → Bool × Bool
group_errors f = (
  is_empty (trim f.name),
  same f.auth_type (codes "key") && (elim (filled f.key_id) [ none ↦ true | some key ↦ false ]),
)

-- `save`: nothing while a field is marked.
unfoldable pub save_group : (Text → Text) → GroupForm → Text → List Group → Option (List Group)
save_group encrypt f id groups =
    if (group_errors f).0 || (group_errors f).1
    then none
    else some (assign_group (group_fields encrypt f id (find (λ g. same g.id id) groups)) id groups)
