-- ===== src/Metrics/Reports/Listening.antt =====
-- The listening ports of a report, one for each protocol, port and process.
use connexia.Common.{
  ◌≡◌, refl, ◌∙◌, arith, false, not, ◌&&◌, List, [], ◌∷◌, Text, codes, same, same_iff, same_self,
  any, map, split, Bool-cases, inl, inr,
}
use connexia.Metrics.Sections.{Sections, body_of}
use connexia.Metrics.Reports.{unique_by, collect, port_of, port_key, ports_of}

-- No text of the list comes again behind itself.
pub IsDistinct : List Text → Type 0
IsDistinct [] = Unit
IsDistinct (k ∷ ks) = (any (same k) ks ≡ false) × IsDistinct ks

module _ {ℓ} {A : Type ℓ} (key : A → Text) where
  -- A key is kept when it is not among the seen ones.
  any-unique_by :
      (k : Text) (seen : List Text) (xs : List A)
      → any (same k) (map key (unique_by key seen xs))
        ≡ (not (any (same k) seen) && any (same k) (map key xs))
  unfolding unique_by
  any-unique_by k seen [] = ground arith
  any-unique_by k seen (x ∷ xs) = elim (Bool-cases (any (same (key x)) seen)) [
    | inl e ↦ rw e (
        any-unique_by k seen xs ∙ elim (Bool-cases (same k (key x))) [
          | inl f ↦ rw (f, (same_iff k (key x)).0 f, e) refl
          | inr f ↦ rw f refl
        ])
    | inr e ↦
        rw (e, any-unique_by k (key x ∷ seen) xs)
          (elim (Bool-cases (same k (key x))) [
            | inl f ↦ rw (f, (same_iff k (key x)).0 f, e) refl
            | inr f ↦ rw f refl
          ])
  ]

  unique_by-IsDistinct :
      (seen : List Text) (xs : List A) → IsDistinct (map key (unique_by key seen xs))
  unfolding unique_by IsDistinct
  unique_by-IsDistinct seen [] = tt
  unique_by-IsDistinct seen (x ∷ xs) = elim (Bool-cases (any (same (key x)) seen)) [
    | inl e ↦ rw e (unique_by-IsDistinct seen xs)
    | inr e ↦ rw e (
      rw (any-unique_by (key x) (key x ∷ seen) xs, same_self (key x)) refl,
      unique_by-IsDistinct (key x ∷ seen) xs,
    )
  ]

-- No two of the ports of a report have the same key, and a key is among them exactly when a line of
-- the report has a port with it.
pub ports_of-IsDistinct :
    (sections : Sections) (k : Text)
    → IsDistinct (map port_key (ports_of sections))
      × (any (same k) (map port_key (ports_of sections))
          ≡ any
              (same k)
              (map port_key (collect port_of (split 10 (body_of (codes "PRT") sections)))))
unfolding ports_of
ports_of-IsDistinct sections k =
    let ports = collect port_of (split 10 (body_of (codes "PRT") sections)) in
    (unique_by-IsDistinct port_key [] ports, any-unique_by port_key k [] ports)
