-- ===== src/Metrics/Pool/Changes.antt =====
-- The operations on the connections keep what holds of them.
use connexia.Common.{
  ℕ, ◌≡◌, ◌≢◌, refl, sym, ap, subst, ◌∙◌, arith, Bool, true, false, ◌&&◌, Option, none, some, List,
  [], ◌∷◌, ◌==◌, ==_iff, Text, get, put, Bool-cases, Option-cases, inl, inr, get-put, All,
}
use connexia.Metrics.Backoff.{Conn}
use connexia.Metrics.Pool.{
  Client, Stage, awaiting_sample, Pool, new_client, conn_for, close_live, change_client,
  closed_client, close_and, is_client, close_client, drop_client, handle_closed, waits, end_poll,
  with_handle, take_handle,
}
use connexia.Metrics.Pool.Held.{
  Owned, awaited, Unconnected, IsHeld, Owned-put, Owned-put_new, Owned-remove, Unconnected-put,
  Unconnected-remove, Unconnected-waits, Unconnected-end_poll,
}

All-weaken : {P Q : ℕ → Type 0} (live : List ℕ) → All P live → ((h : ℕ) → P h → Q h) → All Q live
All-weaken [] a f = tt
All-weaken (h ∷ hs) a f = (f h a.0, All-weaken hs a.1 f)

All-close_live :
    {P Q : ℕ → Type 0} (o : Option ℕ) (live : List ℕ)
    → All P live
    → ((h : ℕ) → P h → o ≢ some h → Q h)
    → All Q (close_live o live)
unfolding close_live
All-close_live none live a f = All-weaken live a (λ h p. f h p (λ e. ground (arith, e)))
All-close_live (some x) [] a f = tt
All-close_live (some x) (h ∷ hs) a f = elim (Bool-cases (h == x)) [
  | inl e ↦ rw e (All-close_live (some x) hs a.1 f)
  | inr e ↦ rw e (f h a.0 (λ s. ground (arith, s, e)), All-close_live (some x) hs a.1 f)
]

pub conn_for-IsHeld : (id : Text) (p : Pool) → IsHeld p → IsHeld (conn_for id p).1
unfolding IsHeld conn_for
conn_for-IsHeld id p i = elim (Option-cases (get id p.conns)) [
  | inr (k, e) ↦ rw (e, conn_for) i
  | inl e ↦
      let k = new_client p.fresh in
      rw (e, conn_for)
        (
          All-weaken p.live i.0 (λ h. Owned-put_new id k p.conns h e),
          Unconnected-put id k p.conns p.polling (λ ref w r. refl) i.1,
        )
]

pub change_client-IsHeld :
    (id : Text) (ref : ℕ) (f : Client → Client) (p : Pool)
    → ((k : Client) → (f k).ref ≡ k.ref)
    → ((k : Client) → (f k).link.handle ≡ k.link.handle)
    → IsHeld p
    → IsHeld (change_client id ref f p)
unfolding IsHeld change_client Unconnected
change_client-IsHeld id ref f p keeps_ref keeps_handle i = elim (Option-cases (get id p.conns)) [
  | inl e ↦ rw (e, change_client) i
  | inr (k, e) ↦ elim (Bool-cases (k.ref == ref)) [
    | inr b ↦ rw (e, change_client, b) i
    | inl b ↦
        rw (e, change_client, b)
          (
            All-weaken p.live i.0
                (λ h. Owned-put id k (f k) p.conns h e (λ held. keeps_handle k ∙ held)),
            Unconnected-put id (f k) p.conns p.polling
                (λ r w same_ref. keeps_handle k ∙ i.1 id r k w e (sym (keeps_ref k) ∙ same_ref))
                i.1,
          )
  ]
]

pub close_and-IsHeld :
    (f : Conn → Conn) (id : Text) (p : Pool) → IsHeld p → IsHeld (close_and f id p)
unfolding IsHeld close_and
close_and-IsHeld f id p i = elim (Option-cases (get id p.conns)) [
  | inl e ↦ rw (e, close_and) i
  | inr (k, e) ↦
      rw (e, close_and)
        (
          All-close_live k.link.handle p.live i.0 (λ h o other.
              Owned-put id k (closed_client f k) p.conns h e (λ held. ground (arith, other held))
                o),
          Unconnected-put id (closed_client f k) p.conns p.polling (λ r w s. refl) i.1,
        )
]

pub close_client-IsHeld :
    (id : Text) (ref : ℕ) (p : Pool) → IsHeld p → IsHeld (close_client id ref p)
unfolding close_client
close_client-IsHeld id ref p i = elim (Bool-cases (is_client id ref p)) [
  | inl e ↦ rw e (close_and-IsHeld (λ c. c) id p i)
  | inr e ↦ rw e i
]

pub drop_client-IsHeld : (id : Text) (p : Pool) → IsHeld p → IsHeld (drop_client id p)
unfolding IsHeld drop_client
drop_client-IsHeld id p i = elim (Option-cases (get id p.conns)) [
  | inl e ↦ rw (e, drop_client) i
  | inr (k, e) ↦
      rw (e, drop_client)
        (
          All-close_live k.link.handle p.live i.0
              (λ h o other. Owned-remove id k p.conns h e other o),
          Unconnected-remove id p.conns p.polling i.1,
        )
]

pub end_poll-IsHeld : (id : Text) (p : Pool) → IsHeld p → IsHeld (end_poll id p)
unfolding IsHeld
end_poll-IsHeld id p i = (i.0, Unconnected-end_poll id p.conns p.polling i.1)

pub handle_closed-IsHeld :
    (id : Text) (ref h : ℕ) (p : Pool) → IsHeld p → IsHeld (handle_closed id ref h p)
unfolding IsHeld handle_closed
handle_closed-IsHeld id ref h p i = elim (Option-cases (get id p.conns)) [
  | inl e ↦ rw (e, handle_closed) (gone, i.1)
  | inr (k, e) ↦
      elim (Bool-cases
        ((k.ref == ref) && (elim k.link.handle [ none ↦ false | some x ↦ x == h ]))) [
          | inr b ↦ rw (e, handle_closed, b) (gone, i.1)
          | inl b ↦
              rw (e, handle_closed, b)
                (
                  All-close_live (some h) p.live i.0 (λ x o other.
                      Owned-put id k (closed_client (λ c. c) k) p.conns x e
                        (λ held. ground (arith, b, held, other)) o),
                  Unconnected-put id (closed_client (λ c. c) k) p.conns p.polling (λ r w s. refl)
                      i.1,
                )
        ]
]
  where
    gone : All (Owned p.conns) (close_live (some h) p.live)
    gone = All-close_live (some h) p.live i.0 (λ x o other. o)

-- A poll goes on with a connection object that has no connection, or collects.
pub waits-IsHeld :
    (id : Text) (stage : Stage) (p : Pool)
    → ((ref : ℕ) (k : Client)
        → awaited (some stage) ≡ some ref
        → get id p.conns ≡ some k
        → k.ref ≡ ref
        → k.link.handle ≡ none)
    → IsHeld p
    → IsHeld (waits id stage p)
unfolding IsHeld
waits-IsHeld id stage p new i = (i.0, Unconnected-waits id stage p.conns p.polling new i.1)

change_client_known :
    (id : Text) (ref : ℕ) (f : Client → Client) (p : Pool) (k : Client)
    → get id p.conns ≡ some k
    → (k.ref == ref) ≡ true
    → change_client id ref f p ≡ record p { conns = put id (f k) p.conns }
unfolding change_client
change_client_known id ref f p k e r = rw (e, change_client, r) refl

take_handle_known :
    (id : Text) (ref h : ℕ) (p : Pool) (k : Client)
    → get id p.conns ≡ some k
    → (k.ref == ref) ≡ true
    → take_handle id ref h p
      ≡ record p { conns = put id (with_handle h k) p.conns; live = h ∷ p.live }
unfolding take_handle
take_handle_known id ref h p k =
    change_client_known id ref (with_handle h) (record p { live = h ∷ p.live }) k

-- The poll that was about to connect the host's object gives it a connection and collects.
pub take_handle-IsHeld :
    (id : Text) (retried : Bool) (ref h : ℕ) (p : Pool)
    → awaited (get id p.polling) ≡ some ref
    → is_client id ref p ≡ true
    → IsHeld p
    → IsHeld (waits id (awaiting_sample retried ref) (take_handle id ref h p))
unfolding IsHeld Unconnected Owned
take_handle-IsHeld id retried ref h p w is i = elim (Option-cases (get id p.conns)) [
  | inl e ↦ ground (arith, is, e)
  | inr (k, e) ↦
      let is_ref = subst (λ o. (elim o [ none ↦ false | some k ↦ k.ref == ref ]) ≡ true) e is in
      let free = i.1 id ref k w e ((==_iff k.ref ref).0 is_ref) in
      let next = awaiting_sample retried ref in
      rw (take_handle_known id ref h p k e is_ref) (
        (
          (id, with_handle h k, get-put id (with_handle h k) p.conns, refl),
          All-weaken p.live i.0 (λ x.
              Owned-put id k (with_handle h k) p.conns x e (λ held. ground (arith, free, held))),
        ),
        Unconnected-put id (with_handle h k) p.conns (put id next p.polling)
            (λ r v s. ground (arith, ap awaited (sym (get-put id next p.polling)) ∙ v))
            (Unconnected-waits id next p.conns p.polling (λ r m v g s. ground (arith, v)) i.1),
      )
]
