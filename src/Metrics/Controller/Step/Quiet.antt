-- ===== src/Metrics/Controller/Step/Quiet.antt =====
-- What the page is told about open connections.
use connexia.Common.{
  ℕ, ◌≡◌, refl, subst, if◌then◌else◌, ap, arith, Bool, true, ◌||◌, some, List, [], ◌∷◌, Text, get,
  same, any, Bool-cases, inl, inr, All,
}
use connexia.Metrics.Pool.Held.{Owned}
use connexia.Metrics.Controller.{Env, Controller, has_connections, is_some}
use connexia.Metrics.Controller.Policies.{is_empty}
use connexia.Metrics.Controller.Step.{Event, run}
use connexia.Metrics.Controller.Step.Owned.{run-All-Owned}

-- A key's value is one of the values.
any-get :
    {A : Type 0} (test : A → Bool) (k : Text) (a : A) (m : List (Text × A))
    → get k m ≡ some a
    → test a ≡ true
    → any (λ e. test e.1) m ≡ true
unfolding get
any-get test k a [] g t = ground (arith, g)
any-get test k a ((at, b) ∷ m) g t = elim (Bool-cases (same k at)) [
  | inl e ↦
      let found : some b ≡ some a = subst (λ x. (if x then some b else get k m) ≡ some a) e g in
      ground (arith, found, t)
  | inr e ↦
      let later = subst (λ x. (if x then some b else get k m) ≡ some a) e g in
      ground (arith, any-get test k a m later t)
]

is_some-Owned : (c : Controller) (h : ℕ) → Owned c.pool.conns h → has_connections c ≡ true
unfolding has_connections Owned
is_some-Owned c h (id, k, g, held) =
    any-get (λ k. is_some k.link.handle) id k c.pool.conns g (ap is_some held)

quiet_of :
    (c : Controller) (live : List ℕ)
    → All (Owned c.pool.conns) live
    → (is_empty live || has_connections c) ≡ true
quiet_of c [] a = refl
quiet_of c (h ∷ hs) a = is_some-Owned c h a.0

-- After any events, in any order, each connection that is open is the one of the connection object
-- of a host, by which it can be closed, and `hasConnections` is true if there is one.
pub run-IsOwned :
    (events : List (Env × Event))
    → All (Owned (run events).pool.conns) (run events).pool.live
      × ((is_empty (run events).pool.live || has_connections (run events)) ≡ true)
run-IsOwned events =
    let owned = run-All-Owned events in (owned, quiet_of (run events) (run events).pool.live owned)
