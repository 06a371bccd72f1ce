-- ===== src/Screens/Hosts.antt =====
-- What server/internal/web/static/js/dashboard/screens/hosts.js keeps and lists: the order of the
-- hosts, the search, the selection and the edits that it hands to `app.save`. `toDate` and
-- `toLowerCase` are arguments.
pub mod Order
use connexia.Common.{
  ℕ, zero, suc, ◌+◌, Bool, true, false, not, ◌&&◌, ◌||◌, Option, none, some, List, [], ◌∷◌, ◌++◌,
  map, Text, codes, same, any, filter, find, drop, length, ltb, leb, ◌==◌, if◌then◌else◌,
  starts_with, includes, sort_by, Parsed, trim,
}

pub record Host : Type 0 where
  pub id : Text
  pub name : Text
  pub address : Text
  pub username : Option Text
  pub port : Parsed
  pub auth_type : Option Text
  pub key_id : Option Text
  pub encrypted_password : Option Text
  pub group_id : Option Text
  pub tags : Option Text
  pub color : Option ℕ
  pub notes : Option Text
  pub favorite : Bool
  pub last_connected : Option Text
  pub os : Option Text
  pub workspace_id : Option Text

pub record Group : Type 0 where
  pub id : Text
  pub name : Text
  pub username : Option Text
  pub auth_type : Option Text
  pub key_id : Option Text
  pub encrypted_password : Option Text
  pub parent_id : Option Text
  pub color : Option ℕ
  pub sort_order : ℕ
  pub workspace_id : Option Text

pub record Tables : Type 0 where
  pub hosts : List Host
  pub groups : List Group

abbrev pub has : Text → List Text → Bool
has id = any (same id)

abbrev pub is_text : Text → Option Text → Bool
is_text a none = false
is_text a (some b) = same a b

abbrev pub is_empty {ℓ} : {A : Type ℓ} → List A → Bool
is_empty [] = true
is_empty (x ∷ xs) = false

-- A text that is not there counts as the empty one: `value || ""`.
abbrev pub or_empty : Option Text → Text
or_empty none = []
or_empty (some a) = a

-- An empty text counts as none.
abbrev pub filled : Option Text → Option Text
filled none = none
filled (some []) = none
filled (some (c ∷ cs)) = some (c ∷ cs)

-- A host and its place in the table.
abbrev pub Entry : Type 0
Entry = Host × ℕ

abbrev pub number_from : ℕ → List Host → List Entry
number_from i [] = []
number_from i (host ∷ hosts) = (host, i) ∷ number_from (suc i) hosts

-- `time(b) - time(a)` is not above 0, where `none` is `-Infinity`.
abbrev pub is_later : Option ℕ → Option ℕ → Bool
is_later a none = true
is_later none (some b) = false
is_later (some a) (some b) = leb b a

abbrev pub same_time : Option ℕ → Option ℕ → Bool
same_time a b = is_later a b && is_later b a

-- `time` gives what `toDate` and `getTime` give, in milliseconds from the first moment of a date.
module _ (time : Option Text → Option ℕ) where
  abbrev pub comes_first : Entry → Entry → Bool
  comes_first (a, i) (b, j) =
      let ta = time a.last_connected in
      let tb = time b.last_connected in if same_time ta tb then leb i j else is_later ta tb

  unfoldable pub sorted_hosts : List Host → List Host
  sorted_hosts hosts = map (λ e. e.0) (sort_by comes_first (number_from 0 hosts))

-- The keys of the cards.
abbrev pub host_key : Text → Text
host_key id = codes "h:" ++ id

abbrev pub group_key : Text → Text
group_key id = codes "g:" ++ id

abbrev pub is_host_key : Text → Bool
is_host_key key = starts_with (codes "h:") key

abbrev pub is_group_key : Text → Bool
is_group_key key = starts_with (codes "g:") key

pub record Screen : Type 0 where
  pub query : Text
  pub selected_id : Option Text
  pub open_group_id : Option Text
  pub visible : Bool
  pub multi : List Text

abbrev pub is_card_selected : Text → Screen → Bool
is_card_selected key s = has key s.multi || is_empty s.multi && is_text (drop 2 key) s.selected_id

abbrev pub host_ids_of : List Host → Text → List Text
host_ids_of hosts key =
    if is_host_key key
    then drop 2 key ∷ []
    else map (λ h. h.id) (filter (λ h. is_text (drop 2 key) h.group_id) hosts)

-- The set of identifiers as a list, in which one may come twice.
unfoldable pub selected_host_ids : List Host → List Text → List Text
selected_host_ids hosts [] = []
selected_host_ids hosts (key ∷ keys) = host_ids_of hosts key ++ selected_host_ids hosts keys

-- The hosts that are connected, in order.
unfoldable pub connect_selection : List Host → List Text → List Host
connect_selection hosts multi =
    let ids = selected_host_ids hosts multi in filter (λ h. has h.id ids) hosts

-- The bar, when it is shown: how many cards, and whether they can be connected.
pub selection_bar : List Host → Screen → Option (ℕ × Bool)
selection_bar hosts s =
    if not s.visible || is_empty s.multi
    then none
    else some (length s.multi, not (is_empty (selected_host_ids hosts s.multi)))

abbrev pub without : Text → List Text → List Text
without key = filter (λ k. not (same key k))

-- The flag that is given back says that the editor opens.
unfoldable pub on_tap : Bool → Text → Bool → Bool → Screen → Screen × Bool
on_tap is_touch key mod_key opens s =
    if mod_key
    then (
      record s { multi = if has key s.multi then without key s.multi else s.multi ++ key ∷ [] },
      false,
    )
    else if not (is_empty s.multi)
    then (record s { multi = []; selected_id = some (drop 2 key) }, false)
    else (record s { selected_id = some (drop 2 key) }, is_touch && opens)

pub open_folder : Option Text → Screen → Screen
open_folder group_id s = record s { open_group_id = group_id; selected_id = none; multi = [] }

pub hide : Screen → Screen
hide s = record s { visible = false; multi = [] }

-- What stands below the toolbar.
pub data Notice : Type 0 where
  no_notice no_results group_is_empty no_hosts : Notice

pub record Listing : Type 0 where
  pub groups : List (Group × ℕ)
  pub hosts : List Host
  pub notice : Notice

abbrev pub group_of : Option Text → List Group → Option Group
group_of id groups = elim (filled id) [
  | none ↦ none
  | some g ↦ find (λ group. same group.id g) groups
]

abbrev pub counted : List Host → Group → Group × ℕ
counted hosts g = (g, length (filter (λ h. is_text g.id (filled h.group_id)) hosts))

abbrev pub in_group : Option Group → Host → Bool
in_group none host = true
in_group (some g) host = is_text g.id host.group_id

-- `value.toLowerCase()` is `lower`.
module _ (time : Option Text → Option ℕ) (lower : Text → Text) where
  abbrev pub matches : Text → Host → Bool
  matches q host =
      any (λ value. includes (lower value) q)
        (host.name ∷ host.address ∷ or_empty host.username ∷ or_empty host.tags ∷ [])

  abbrev pub list_hosts : Text → Option Group → List Host → List Host
  list_hosts q open_group hosts =
      filter (λ h. in_group open_group h && (is_empty q || matches q h)) (sorted_hosts time hosts)

  abbrev pub list_all : Text → Tables → List Host → Listing
  list_all q tables filtered =
      if is_empty q
      then record {
        groups = map (counted tables.hosts) tables.groups;
        hosts = filtered;
        notice =
            if is_empty filtered && (is_empty tables.groups && is_empty tables.hosts)
            then no_hosts
            else no_notice;
      }
      else (let groups =
            filter (λ g. any (λ h. is_text g.id (filled h.group_id)) filtered) tables.groups in
          record {
            groups = map (counted tables.hosts) groups;
            hosts = filtered;
            notice = if is_empty groups && is_empty filtered then no_results else no_notice;
          })

  abbrev pub list_group : Text → List Host → Listing
  list_group q filtered = record {
    groups = [];
    hosts = filtered;
    notice =
        if not (is_empty filtered)
        then no_notice
        else if is_empty q
        then group_is_empty
        else no_results;
  }

  -- `render`: the screen, which is out of a group that is gone, and what it lists.
  unfoldable pub render : Tables → Screen → Screen × Listing
  render tables s =
      let q = lower (trim s.query) in
      let open_group = group_of s.open_group_id tables.groups in
      let filtered = list_hosts q open_group tables.hosts in
      elim open_group [
        | none ↦ (record s { open_group_id = none }, list_all q tables filtered)
        | some g ↦ (s, list_group q filtered)
      ]
