-- ===== src/Metrics/Pool/Held.antt =====
-- What holds of the connections between two steps.
use connexia.Common.{
  ℕ, ◌≡◌, ◌≢◌, sym, ap, subst, ◌∙◌, arith, Option, none, some, List, Text, same, same_iff, get, put,
  remove, Bool-cases, inl, inr, get-put, get-put_other, get-remove, get-remove_other, All,
}
use connexia.Metrics.Pool.{Client, Stage, awaiting_auth, awaiting_client, awaiting_sample, Pool}

-- The connection is the one of a host's connection object.
unfoldable pub Owned : List (Text × Client) → ℕ → Type 0
Owned conns h = (id : Text) × (k : Client) × (get id conns ≡ some k) × (k.link.handle ≡ some h)

-- The connection object that a poll is about to connect.
abbrev pub awaited : Option Stage → Option ℕ
awaited none = none
awaited (some (awaiting_auth retried ref)) = some ref
awaited (some (awaiting_client retried ref)) = some ref
awaited (some (awaiting_sample retried ref)) = none

-- No connection object has one while a poll is about to connect it.
unfoldable pub Unconnected : List (Text × Client) → List (Text × Stage) → Type 0
Unconnected conns polling =
    (id : Text) (ref : ℕ) (k : Client)
    → awaited (get id polling) ≡ some ref
    → get id conns ≡ some k
    → k.ref ≡ ref
    → k.link.handle ≡ none

unfoldable pub IsHeld : Pool → Type 0
IsHeld p = All (Owned p.conns) p.live × Unconnected p.conns p.polling

from_some : Client → Option Client → Client
from_some k none = k
from_some k (some m) = m

pub same_client :
    (id : Text) (conns : List (Text × Client)) (k m : Client)
    → get id conns ≡ some k
    → get id conns ≡ some m
    → k ≡ m
unfolding from_some
same_client id conns k m e f = ap (from_some k) (sym e ∙ f)

-- A new value of an entry: what holds of each connection that it does not lose.
pub Owned-put :
    (id : Text) (k k' : Client) (conns : List (Text × Client)) (h : ℕ)
    → get id conns ≡ some k
    → (k.link.handle ≡ some h → k'.link.handle ≡ some h)
    → Owned conns h
    → Owned (put id k' conns) h
unfolding Owned
Owned-put id k k' conns h e keep (j, m, g, held) = elim (Bool-cases (same j id)) [
  | inl f ↦
      let at_id = subst (λ i. get i conns ≡ some m) ((same_iff j id).0 f) g in
      (
        id,
        k',
        get-put id k' conns,
        keep (subst (λ x. x.link.handle ≡ some h) (sym (same_client id conns k m e at_id)) held),
      )
  | inr f ↦ (j, m, get-put_other j id k' conns f ∙ g, held)
]

pub Owned-put_new :
    (id : Text) (k' : Client) (conns : List (Text × Client)) (h : ℕ)
    → get id conns ≡ none
    → Owned conns h
    → Owned (put id k' conns) h
unfolding Owned
Owned-put_new id k' conns h e (j, m, g, held) = elim (Bool-cases (same j id)) [
  | inl f ↦
      let at_id = subst (λ i. get i conns ≡ some m) ((same_iff j id).0 f) g in
      ground (arith, sym e ∙ at_id)
  | inr f ↦ (j, m, get-put_other j id k' conns f ∙ g, held)
]

pub Owned-remove :
    (id : Text) (k : Client) (conns : List (Text × Client)) (h : ℕ)
    → get id conns ≡ some k
    → k.link.handle ≢ some h
    → Owned conns h
    → Owned (remove id conns) h
unfolding Owned
Owned-remove id k conns h e other (j, m, g, held) = elim (Bool-cases (same j id)) [
  | inl f ↦
      let at_id = subst (λ i. get i conns ≡ some m) ((same_iff j id).0 f) g in
      elim (other
        (subst (λ x. x.link.handle ≡ some h) (sym (same_client id conns k m e at_id)) held)) [ ]
  | inr f ↦ (j, m, get-remove_other j id conns f ∙ g, held)
]

pub Unconnected-put :
    (id : Text) (k' : Client) (conns : List (Text × Client)) (polling : List (Text × Stage))
    → ((ref : ℕ) → awaited (get id polling) ≡ some ref → k'.ref ≡ ref → k'.link.handle ≡ none)
    → Unconnected conns polling
    → Unconnected (put id k' conns) polling
unfolding Unconnected
Unconnected-put id k' conns polling new u j ref m w g r = elim (Bool-cases (same j id)) [
  | inl f ↦
      let same_id = (same_iff j id).0 f in
      let is_new =
        same_client id (put id k' conns) k' m (get-put id k' conns)
          (subst (λ i. get i (put id k' conns) ≡ some m) same_id g) in
      subst (λ x. x.link.handle ≡ none) is_new
        (new ref (subst (λ i. awaited (get i polling) ≡ some ref) same_id w)
          (ap (λ x. x.ref) is_new ∙ r))
  | inr f ↦ u j ref m w (sym (get-put_other j id k' conns f) ∙ g) r
]

pub Unconnected-remove :
    (id : Text) (conns : List (Text × Client)) (polling : List (Text × Stage))
    → Unconnected conns polling
    → Unconnected (remove id conns) polling
unfolding Unconnected
Unconnected-remove id conns polling u j ref m w g r = elim (Bool-cases (same j id)) [
  | inl f ↦
      let removed = subst (λ i. get i (remove id conns) ≡ some m) ((same_iff j id).0 f) g in
      ground (arith, sym (get-remove id conns) ∙ removed)
  | inr f ↦ u j ref m w (sym (get-remove_other j id conns f) ∙ g) r
]

pub Unconnected-waits :
    (id : Text) (stage : Stage) (conns : List (Text × Client)) (polling : List (Text × Stage))
    → ((ref : ℕ) (k : Client)
        → awaited (some stage) ≡ some ref
        → get id conns ≡ some k
        → k.ref ≡ ref
        → k.link.handle ≡ none)
    → Unconnected conns polling
    → Unconnected conns (put id stage polling)
unfolding Unconnected
Unconnected-waits id stage conns polling new u j ref m w g r = elim (Bool-cases (same j id)) [
  | inl f ↦
      let same_id = (same_iff j id).0 f in
      new ref m
        (ap awaited (sym (get-put id stage polling))
          ∙ subst (λ i. awaited (get i (put id stage polling)) ≡ some ref) same_id w)
        (subst (λ i. get i conns ≡ some m) same_id g) r
  | inr f ↦ u j ref m (ap awaited (sym (get-put_other j id stage polling f)) ∙ w) g r
]

pub Unconnected-end_poll :
    (id : Text) (conns : List (Text × Client)) (polling : List (Text × Stage))
    → Unconnected conns polling
    → Unconnected conns (remove id polling)
unfolding Unconnected
Unconnected-end_poll id conns polling u j ref m w g r = elim (Bool-cases (same j id)) [
  | inl f ↦
      let removed =
        subst (λ i. awaited (get i (remove id polling)) ≡ some ref) ((same_iff j id).0 f) w in
      ground (arith, ap awaited (sym (get-remove id polling)) ∙ removed)
  | inr f ↦ u j ref m (ap awaited (sym (get-remove_other j id polling f)) ∙ w) g r
]
