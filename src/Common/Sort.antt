-- ===== src/Common/Sort.antt =====
-- `xs.sort(compare)`, which is stable, for `leq a b` where `compare(a, b) <= 0`.
use mathlib.Core.Path.{◌≡◌, refl, ap, ◌∙◌}
use mathlib.Core.Logic.{inl, inr}
use mathlib.Core.Bool.{Bool, true, false}
use mathlib.Core.List.{List, [], ◌∷◌}
use connexia.Common.Tests.{if◌then◌else◌, Bool-cases}
use connexia.Common.Lists.{All, filter}

module _ {ℓ} {A : Type ℓ} (leq : A → A → Bool) where
  unfoldable pub insert_by : A → List A → List A
  insert_by x [] = x ∷ []
  insert_by x (y ∷ ys) = let rest = insert_by x ys in if leq x y then x ∷ y ∷ ys else y ∷ rest

  unfoldable pub sort_by : List A → List A
  sort_by [] = []
  sort_by (x ∷ xs) = insert_by x (sort_by xs)

  -- Each element is in order with all behind it.
  abbrev pub IsSorted : List A → Type 0
  IsSorted [] = Unit
  IsSorted (x ∷ xs) = All (λ y. leq x y ≡ true) xs × IsSorted xs

  All-insert_by {κ} :
      (P : A → Type κ) (x : A) (ys : List A) → P x → All P ys → All P (insert_by x ys)
  unfolding insert_by
  All-insert_by P x [] p h = (p, tt)
  All-insert_by P x (y ∷ ys) p h = elim (Bool-cases (leq x y)) [
    | inl e ↦ rw e (p, h)
    | inr e ↦ rw e (h.0, All-insert_by P x ys p h.1)
  ]

  pub All-sort_by {κ} : (P : A → Type κ) (xs : List A) → All P xs → All P (sort_by xs)
  unfolding sort_by
  All-sort_by P [] h = tt
  All-sort_by P (x ∷ xs) h = All-insert_by P x (sort_by xs) h.0 (All-sort_by P xs h.1)

  All-trans :
      (trans : (a b c : A) → leq a b ≡ true → leq b c ≡ true → leq a c ≡ true) (x y : A)
      (ys : List A)
      → leq x y ≡ true
      → All (λ z. leq y z ≡ true) ys
      → All (λ z. leq x z ≡ true) ys
  All-trans trans x y [] e h = tt
  All-trans trans x y (z ∷ zs) e h = (trans x y z e h.0, All-trans trans x y zs e h.1)

  insert_by-IsSorted :
      (total : (a b : A) → leq a b ≡ false → leq b a ≡ true)
      (trans : (a b c : A) → leq a b ≡ true → leq b c ≡ true → leq a c ≡ true) (x : A) (ys : List A)
      → IsSorted ys
      → IsSorted (insert_by x ys)
  unfolding insert_by
  insert_by-IsSorted total trans x [] h = (tt, tt)
  insert_by-IsSorted total trans x (y ∷ ys) h = elim (Bool-cases (leq x y)) [
    | inl e ↦ rw e ((e, All-trans trans x y ys e h.0), h)
    | inr e ↦ rw e (
      All-insert_by (λ z. leq y z ≡ true) x ys (total x y e) h.0,
      insert_by-IsSorted total trans x ys h.1,
    )
  ]

  pub sort_by-IsSorted :
      (total : (a b : A) → leq a b ≡ false → leq b a ≡ true)
      → (trans : (a b c : A) → leq a b ≡ true → leq b c ≡ true → leq a c ≡ true) → (xs : List A)
      → IsSorted (sort_by xs)
  unfolding sort_by
  sort_by-IsSorted total trans [] = tt
  sort_by-IsSorted total trans (x ∷ xs) =
      insert_by-IsSorted total trans x (sort_by xs) (sort_by-IsSorted total trans xs)

  -- A class of elements that are in order with each other keeps its own order.
  abbrev pub IsClass : (A → Bool) → Type ℓ
  IsClass test = (a b : A) → test a ≡ true → test b ≡ true → leq a b ≡ true

  filter-insert_by :
      (test : A → Bool) (x : A) (ys : List A)
      → IsClass test
      → filter test (insert_by x ys) ≡ filter test (x ∷ ys)
  unfolding insert_by
  filter-insert_by test x [] c = refl
  filter-insert_by test x (y ∷ ys) c = elim (Bool-cases (leq x y)) [
    | inl e ↦ rw e refl
    | inr e ↦ elim (Bool-cases (test x)) [
      | inr f ↦ rw e (rw (filter-insert_by test x ys c) (rw f refl))
      | inl f ↦ elim (Bool-cases (test y)) [
        | inl g ↦ absurd (cc (e, c x y f g))
        | inr g ↦ rw e (rw (filter-insert_by test x ys c) (rw (f, g) refl))
      ]
    ]
  ]

  pub filter-sort_by :
      (test : A → Bool) (xs : List A) → IsClass test → filter test (sort_by xs) ≡ filter test xs
  unfolding sort_by
  filter-sort_by test [] c = refl
  filter-sort_by test (x ∷ xs) c =
      filter-insert_by test x (sort_by xs) c
      ∙ ap (λ r. if test x then x ∷ r else r) (filter-sort_by test xs c)

  -- A class of elements that stand in order already keeps its own order.
  abbrev pub Stands : (A → Bool) → List A → Type 0
  Stands test [] = Unit
  Stands test (x ∷ xs) =
      All (λ y. test x ≡ true → test y ≡ true → leq x y ≡ true) xs × Stands test xs

  filter-insert_by_first :
      (test : A → Bool) (x : A) (ys : List A)
      → All (λ y. test x ≡ true → test y ≡ true → leq x y ≡ true) ys
      → filter test (insert_by x ys) ≡ filter test (x ∷ ys)
  unfolding insert_by
  filter-insert_by_first test x [] c = refl
  filter-insert_by_first test x (y ∷ ys) c = elim (Bool-cases (leq x y)) [
    | inl e ↦ rw e refl
    | inr e ↦ elim (Bool-cases (test x)) [
      | inr f ↦ rw e (rw (filter-insert_by_first test x ys c.1) (rw f refl))
      | inl f ↦ elim (Bool-cases (test y)) [
        | inl g ↦ absurd (cc (e, c.0 f g))
        | inr g ↦ rw e (rw (filter-insert_by_first test x ys c.1) (rw (f, g) refl))
      ]
    ]
  ]

  pub filter-sort_by_standing :
      (test : A → Bool) (xs : List A) → Stands test xs → filter test (sort_by xs) ≡ filter test xs
  unfolding sort_by
  filter-sort_by_standing test [] c = refl
  filter-sort_by_standing test (x ∷ xs) c =
      filter-insert_by_first test x (sort_by xs)
        (All-sort_by (λ y. test x ≡ true → test y ≡ true → leq x y ≡ true) xs c.0)
      ∙ ap (λ r. if test x then x ∷ r else r) (filter-sort_by_standing test xs c.1)
