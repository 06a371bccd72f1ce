-- ===== src/Store/Rows.antt =====
-- `upsert` of server/internal/web/static/js/dashboard/store.js on the rows of a table. A row is a list
-- of its fields, whose values are texts.
pub mod Upsert
use connexia.Common.{
  Bool, true, false, Option, none, some, List, [], ◌∷◌, Text, same, if◌then◌else◌,
}
use connexia.Store.Payload.{look_up}

abbrev pub Row : Type 0
Row = List (Text × Text)

-- `row[field] = value`
unfoldable pub set_field : Text → Text → Row → Row
set_field field value [] = (field, value) ∷ []
set_field field value ((f, v) ∷ rest) =
    let more = (f, v) ∷ set_field field value rest in
    if same f field then (f, value) ∷ rest else more

-- `Object.assign(existing, row)`
unfoldable pub assign : Row → Row → Row
assign existing [] = existing
assign existing ((f, v) ∷ rest) = set_field f v (assign existing rest)

-- `a === b` for fields, where `none` is `undefined`.
unfoldable pub same_field : Option Text → Option Text → Bool
same_field none none = true
same_field (some a) (some b) = same a b
same_field none (some b) = false
same_field (some a) none = false

abbrev pub has_key : Text → Option Text → Row → Bool
has_key key value r = same_field (look_up key r) value

-- The first row with the same key takes the fields; without one the row comes last.
unfoldable pub upsert : Text → Row → List Row → List Row
upsert key row [] = row ∷ []
upsert key row (r ∷ rs) =
    let rest = upsert key row rs in
    if has_key key (look_up key row) r then assign r row ∷ rs else r ∷ rest
