-- ===== src/Sftp/Sides.antt =====
-- The two panes of server/internal/web/static/js/dashboard/screens/sftp.js and their connections: `resetSide`,
-- `connectRemote`, `dropSide`, `list` and `navigate`. A call of `connectRemote` that has not ended is an
-- attempt; what `resolveAuth`, `openClient` and `sftp()` answer to it are events. `opened` and
-- `abandoned` are kept for the theorems only.
pub mod Step
use connexia.Common.{
  ℕ, zero, suc, Bool, true, false, not, ◌&&◌, ◌||◌, Option, none, some, List, [], ◌∷◌, ◌++◌, Text,
  codes, same, ◌==◌, if◌then◌else◌, filter, leb, sort_by,
}
use connexia.Sftp.Paths.{normalize_path}

pub record Item : Type 0 where
  pub name : Text
  pub is_dir : Bool
  pub size : Option ℕ

pub data Which : Type 0 where
  left_side right_side : Which

pub record Side : Type 0 where
  pub host : Option ℕ
  pub handle : Option ℕ
  pub sftp : Option ℕ
  pub connecting : Bool
  pub error : Option Text
  pub path : Text
  pub items : List Item
  pub loading : Bool
  pub list_error : Option Text
  pub picker_open : Bool

-- `handle` is there once `openClient` has answered.
pub record Attempt : Type 0 where
  pub which : Which
  pub host : ℕ
  pub handle : Option ℕ

-- `left_picker` is the picker of the left pane, `picker_open` of a side that of the right one.
pub record Screen : Type 0 where
  pub left : Side
  pub right : Side
  pub left_remote : Bool
  pub left_picker : Bool
  pub attempts : List Attempt
  pub opened : List ℕ
  pub closed : List ℕ
  pub abandoned : List ℕ

abbrev pub side_of : Which → Screen → Side
side_of left_side s = s.left
side_of right_side s = s.right

abbrev pub with_side : Which → Side → Screen → Screen
with_side left_side t s = record s { left = t }
with_side right_side t s = record s { right = t }

abbrev pub blank : Side → Side
blank t = record {
  host = none;
  handle = none;
  sftp = none;
  connecting = false;
  error = none;
  path = codes "/";
  items = [];
  loading = false;
  list_error = none;
  picker_open = t.picker_open;
}

abbrev pub to_list {ℓ} : {A : Type ℓ} → Option A → List A
to_list none = []
to_list (some a) = a ∷ []

-- `handle.close()`
abbrev pub close : Option ℕ → Screen → Screen
close handle s = record s { closed = to_list handle ++ s.closed }

unfoldable pub reset_side : Which → Screen → Screen
reset_side w s = close (side_of w s).handle (with_side w (blank (side_of w s)) s)

-- What the panes show while and after a side has a host, for the left one.
abbrev pub show_left : Which → Bool → Bool → Screen → Screen
show_left left_side remote picker s = record s { left_remote = remote; left_picker = picker }
show_left right_side remote picker s = s

-- `connectRemote` up to its first `await`.
unfoldable pub begin_connect : Which → ℕ → Screen → Screen
begin_connect w host s =
    let cleared = reset_side w s in
    let waiting =
      with_side w (record (side_of w cleared) { host = some host; connecting = true; error = none })
        cleared in
    let shown = show_left w true false waiting in
    record shown {
      attempts = shown.attempts ++ record { which = w; host = host; handle = none } ∷ [];
    }

unfoldable pub connect_remote : Bool → Which → ℕ → Screen → Screen
connect_remote web_ssh w host s = if web_ssh then begin_connect w host s else s

abbrev pub is_host : ℕ → Option ℕ → Bool
is_host host none = false
is_host host (some h) = h == host

-- `side.host === host && side.connecting`
abbrev pub still_wanted : Attempt → Screen → Bool
still_wanted a s = is_host a.host (side_of a.which s).host && (side_of a.which s).connecting

abbrev pub picker_again : Which → Screen → Screen
picker_again left_side s = show_left left_side false true s
picker_again right_side s = record s { right = record s.right { picker_open = true } }

-- The user enters no credentials.
unfoldable pub refuse : Attempt → Screen → Screen
refuse a s = if still_wanted a s then picker_again a.which (reset_side a.which s) else s

-- The `catch` of `connectRemote`.
unfoldable pub fail : Text → Attempt → Screen → Screen
fail message a s =
    let lost = record s { abandoned = to_list a.handle ++ s.abandoned } in
    if still_wanted a s
    then with_side a.which
        (record (side_of a.which lost) { connecting = false; error = some message }) lost
    else lost

-- `openClient` has answered: the attempt goes on to `sftp()`.
unfoldable pub client_opened : ℕ → Attempt → Screen → Screen
client_opened handle a s =
    let seen = record s { opened = handle ∷ s.opened } in
    if still_wanted a s
    then record seen { attempts = seen.attempts ++ record a { handle = some handle } ∷ [] }
    else close (some handle) seen

-- `sftp()` has answered.
unfoldable pub ready : ℕ → Attempt → Screen → Screen
ready sftp a s =
    if still_wanted a s
    then with_side a.which
        (record (side_of a.which s) {
          handle = a.handle;
          sftp = some sftp;
          connecting = false;
          path = codes "/";
          items = [];
          list_error = none;
        })
        s
    else close a.handle s

unfoldable pub drop_side : Which → Screen → Screen
drop_side w s = show_left w false false (reset_side w s)

-- `onClose` of the connection of a side.
unfoldable pub peer_close : Which → ℕ → Screen → Screen
peer_close w handle s = if is_host handle (side_of w s).handle then drop_side w s else s

-- Directories come first, and then the order of the names: `leq` stands for `localeCompare`.
pub by_name : (Text → Text → Bool) → Item → Item → Bool
by_name leq a b =
    if a.is_dir && not b.is_dir
    then true
    else if b.is_dir && not a.is_dir
    then false
    else leq a.name b.name

-- `list` up to its `await`.
unfoldable pub start_list : Side → Side
start_list t = elim t.sftp [ none ↦ t | some sftp ↦ record t { loading = true; list_error = none } ]

-- The answer to the listing of a path; one for another path than the side's is dropped.
unfoldable pub receive_list : (Text → Text → Bool) → Text → List Item → Side → Side
receive_list leq path entries t =
    if same t.path path
    then record t { items = sort_by (by_name leq) entries; loading = false }
    else t

unfoldable pub receive_error : Text → Text → Side → Side
receive_error path message t =
    if same t.path path
    then record t { list_error = some (codes "Failed to list: " ++ message); loading = false }
    else t

pub navigate : Text → Side → Side
unfolding start_list
navigate path t = start_list (record t { path = normalize_path path; items = [] })

-- A file of a listing is gone.
pub remove_item : Text → Side → Side
remove_item name t = record t { items = filter (λ i. not (same i.name name)) t.items }
