-- ===== src/Store/Rows/Upsert.antt =====
-- What `upsert` does to the fields of a row, and to the other rows.
use connexia.Common.{
  ◌≡◌, refl, sym, ap, ◌∙◌, Bool, true, false, Option, none, some, List, [], ◌∷◌, Text, same,
  same_iff, same_self, find, if◌then◌else◌, Bool-cases, inl, inr, ◌⊎◌,
}
use connexia.Store.Payload.{look_up}
use connexia.Store.Rows.{Row, set_field, assign, same_field, has_key, upsert}

-- `a`, and `b` where that is missing.
abbrev pub first_of : Option Text → Option Text → Option Text
first_of none b = b
first_of (some a) b = some a

look_up-set_field :
    (f field value : Text) (r : Row)
    → look_up f (set_field field value r) ≡ (if same field f then some value else look_up f r)
unfolding set_field
look_up-set_field f field value [] = refl
look_up-set_field f field value ((g, v) ∷ rest) = elim (Bool-cases (same g field)) [
  | inl e ↦
      let is_field = (same_iff g field).0 e in
      rw e (rw is_field (twice (same field f) (some value) (some v) (look_up f rest)))
  | inr e ↦ rw e (
      rw (look_up-set_field f field value rest)
        (swapped (Bool-cases (same g f)) (Bool-cases (same field f)) e))
]
  where
    twice :
        (b : Bool) (x y z : Option Text)
        → (if b then x else z) ≡ (if b then x else (if b then y else z))
    twice true x y z = refl
    twice false x y z = refl

    swapped :
        ((same g f ≡ true) ⊎ (same g f ≡ false))
        → ((same field f ≡ true) ⊎ (same field f ≡ false))
        → same g field ≡ false
        → (if same g f then some v else (if same field f then some value else look_up f rest))
          ≡ (if same field f then some value else (if same g f then some v else look_up f rest))
    swapped (inl a) (inl b) e =
        absurd (cc (e, (same_iff g field).1 ((same_iff g f).0 a ∙ sym ((same_iff field f).0 b))))
    swapped (inl a) (inr b) e = rw (a, b) refl
    swapped (inr a) b e = rw a refl

look_up-assign :
    (f : Text) (existing row : Row)
    → look_up f (assign existing row) ≡ first_of (look_up f row) (look_up f existing)
unfolding assign
look_up-assign f existing [] = refl
look_up-assign f existing ((g, v) ∷ rest) =
    rw (look_up-set_field f g v (assign existing rest)) (elim (Bool-cases (same g f)) [
      | inl e ↦ rw e refl
      | inr e ↦ rw e (look_up-assign f existing rest)
    ])

same_field→eq : (a b : Option Text) → same_field a b ≡ true → a ≡ b
unfolding same_field
same_field→eq none none h = refl
same_field→eq none (some b) h = absurd (cc h)
same_field→eq (some a) none h = absurd (cc h)
same_field→eq (some a) (some b) h = ap some ((same_iff a b).0 h)

same_field_self : (a : Option Text) → same_field a a ≡ true
unfolding same_field
same_field_self none = refl
same_field_self (some a) = same_self a

first_of_self : (a : Option Text) → first_of a a ≡ a
first_of_self none = refl
first_of_self (some a) = refl

-- A row keeps its key when it takes the fields of one with that key.
key-assign :
    (key : Text) (r row : Row)
    → has_key key (look_up key row) r ≡ true
    → look_up key (assign r row) ≡ look_up key row
key-assign key r row h =
    let e = same_field→eq (look_up key r) (look_up key row) h in
    look_up-assign key r row ∙ ap (first_of (look_up key row)) e ∙ first_of_self (look_up key row)

-- The row of a key has all the fields of a given row.
abbrev pub Holds : Text → Row → List Row → Type 0
Holds key row rs =
    (r : Row) × (find (has_key key (look_up key row)) rs ≡ some r)
    × ((f v : Text) → look_up f row ≡ some v → look_up f r ≡ some v)

Holds-upsert : (key : Text) (row : Row) (rs : List Row) → Holds key row (upsert key row rs)
unfolding upsert
Holds-upsert key row [] = (row, rw (same_field_self (look_up key row)) refl, λ f v h. h)
Holds-upsert key row (r ∷ rs) = elim (Bool-cases (has_key key (look_up key row) r)) [
  | inl e ↦ rw e (
    assign r row,
    rw (key-assign key r row e, same_field_self (look_up key row)) refl,
    λ f v h. look_up-assign f r row ∙ ap (λ o. first_of o (look_up f r)) h,
  )
  | inr e ↦ rw e (rw e (Holds-upsert key row rs))
]

find-upsert_other :
    (key : Text) (row : Row) (rs : List Row) (other : Option Text)
    → same_field (look_up key row) other ≡ false
    → find (has_key key other) (upsert key row rs) ≡ find (has_key key other) rs
unfolding upsert
find-upsert_other key row [] other h = rw h refl
find-upsert_other key row (r ∷ rs) other h = elim (Bool-cases (has_key key (look_up key row) r)) [
  | inl e ↦
      rw e (rw (key-assign key r row e, same_field→eq (look_up key r) (look_up key row) e, h) refl)
  | inr e ↦
      rw e
        (ap (λ o. if has_key key other r then some r else o) (find-upsert_other key row rs other h))
]

-- The row that has the key of the given one holds all its fields from then on, and the row of every
-- other key is the one it was.
pub upsert_lem :
    (key : Text) (row : Row) (rs : List Row)
    → Holds key row (upsert key row rs)
      × ((other : Option Text)
          → same_field (look_up key row) other ≡ false
          → find (has_key key other) (upsert key row rs) ≡ find (has_key key other) rs)
upsert_lem key row rs = (Holds-upsert key row rs, λ other h. find-upsert_other key row rs other h)
