-- ===== src/Store/RowTests.antt =====
-- A run of `upsert`, and the theorem about it at concrete rows.
use connexia.Common.{◌≡◌, refl, false, Option, List, [], ◌∷◌, Text, codes, same, find}
use connexia.Store.Payload.{look_up}
use connexia.Store.Rows.{Row, set_field, assign, same_field, has_key, upsert}
use connexia.Store.Rows.Upsert.{Holds, upsert_lem}

abbrev row_of : Text → Text → Row
row_of id name = (codes "id", id) ∷ (codes "name", name) ∷ []

abbrev snippets : List Row
snippets = row_of (codes "a") (codes "list") ∷ row_of (codes "b") (codes "top") ∷ []

upsert_runs :
    upsert (codes "id") (row_of (codes "b") (codes "htop")) snippets
    ≡ row_of (codes "a") (codes "list") ∷ row_of (codes "b") (codes "htop") ∷ []
unfolding upsert assign set_field same_field same
upsert_runs = refl

upsert_lem_example :
    let row = row_of (codes "b") (codes "htop") in
    Holds (codes "id") row (upsert (codes "id") row snippets)
    × ((other : Option Text)
        → same_field (look_up (codes "id") row) other ≡ false
        → find (has_key (codes "id") other) (upsert (codes "id") row snippets)
          ≡ find (has_key (codes "id") other) snippets)
upsert_lem_example = upsert_lem (codes "id") (row_of (codes "b") (codes "htop")) snippets
