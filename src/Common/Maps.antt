-- ===== src/Common/Maps.antt =====
-- A `Map` or a `Set` by a text: the first entry of a key counts.
use mathlib.Core.Path.{◌≡◌, refl, subst}
use mathlib.Core.Logic.{inl, inr}
use mathlib.Core.Bool.{false}
use mathlib.Core.Option.{Option, none, some}
use mathlib.Core.List.{List, [], ◌∷◌}
use connexia.Common.Tests.{if◌then◌else◌, Bool-cases}
use connexia.Common.Texts.{Text, same, same_iff, same_self}

module _ {ℓ} {A : Type ℓ} where
  -- `map.get(key)`
  unfoldable pub get : Text → List (Text × A) → Option A
  get k [] = none
  get k ((at, a) ∷ m) = let rest = get k m in if same k at then some a else rest

  -- `map.delete(key)`
  unfoldable pub remove : Text → List (Text × A) → List (Text × A)
  remove k [] = []
  remove k ((at, a) ∷ m) = let rest = remove k m in if same k at then rest else (at, a) ∷ rest

  -- `map.set(key, value)`
  unfoldable pub put : Text → A → List (Text × A) → List (Text × A)
  put k a m = (k, a) ∷ remove k m

  pub get-remove : (k : Text) (m : List (Text × A)) → get k (remove k m) ≡ none
  unfolding get remove
  get-remove k [] = refl
  get-remove k ((at, a) ∷ m) = elim (Bool-cases (same k at)) [
    | inl e ↦ rw e (get-remove k m)
    | inr e ↦ rw (e, e) (get-remove k m)
  ]

  pub get-remove_other :
      (j k : Text) (m : List (Text × A)) → same j k ≡ false → get j (remove k m) ≡ get j m
  unfolding get remove
  get-remove_other j k [] h = refl
  get-remove_other j k ((at, a) ∷ m) h = elim (Bool-cases (same k at)) [
    | inl e ↦
        rw (e, subst (λ x. same j x ≡ false) ((same_iff k at).0 e) h) (get-remove_other j k m h)
    | inr e ↦ rw e (elim (Bool-cases (same j at)) [
      | inl f ↦ rw f refl
      | inr f ↦ rw f (get-remove_other j k m h)
    ])
  ]

  pub get-put : (k : Text) (a : A) (m : List (Text × A)) → get k (put k a m) ≡ some a
  unfolding get put
  get-put k a m = rw (same_self k) refl

  pub get-put_other :
      (j k : Text) (a : A) (m : List (Text × A)) → same j k ≡ false → get j (put k a m) ≡ get j m
  unfolding get put
  get-put_other j k a m h = rw h (get-remove_other j k m h)
