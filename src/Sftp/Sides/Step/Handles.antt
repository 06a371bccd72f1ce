-- ===== src/Sftp/Sides/Step/Handles.antt =====
-- Where the connections of the panes are.
use connexia.Common.{
  ℕ, zero, suc, ◌≡◌, arith, Bool, true, ◌||◌, Option, none, some, List, [], ◌∷◌, ◌++◌, Text, any,
  get_elem?, ◌==◌,
}
use connexia.Ssh.Slots.{remove_at}
use connexia.Sftp.Sides.{
  Which, left_side, right_side, Side, Attempt, Screen, begin_connect, refuse, fail, client_opened,
  ready, drop_side, reset_side, is_host,
}

abbrev pub holds : ℕ → Attempt → Bool
holds h a = is_host h a.handle

abbrev pub has : ℕ → List ℕ → Bool
has h hs = any (λ g. g == h) hs

-- Closed, or of a side, or of an attempt, or of an attempt whose `sftp()` has failed.
abbrev pub known : ℕ → Screen → Bool
known h s =
    has h s.closed
    || (is_host h s.left.handle
        || (is_host h s.right.handle || (any (holds h) s.attempts || has h s.abandoned)))

-- A side that connects has no connection yet.
abbrev pub IsFree : Side → Type 0
IsFree t = t.connecting ≡ true → t.handle ≡ none

any-push :
    (h : ℕ) (as' : List Attempt) (a : Attempt)
    → any (holds h) (as' ++ a ∷ []) ≡ (any (holds h) as' || holds h a)
any-push h [] a = ground arith
any-push h (b ∷ bs) a = ground (arith, any-push h bs a)

pub any-remove_at :
    (h i : ℕ) (as' : List Attempt) (a : Attempt)
    → get_elem? as' i ≡ some a
    → any (holds h) as' ≡ true
    → (any (holds h) (remove_at i as') || holds h a) ≡ true
unfolding remove_at
any-remove_at h i [] a e k = absurd (cc e)
any-remove_at h zero (b ∷ bs) a e k = ground arith
any-remove_at h (suc i) (b ∷ bs) a e k = ground (arith, any-remove_at h i bs a e)

pub known-reset_side :
    (h : ℕ) (w : Which) (s : Screen) → known h s ≡ true → known h (reset_side w s) ≡ true
unfolding reset_side
known-reset_side h left_side s k = ground arith
known-reset_side h right_side s k = ground arith

-- What is known stays known while an attempt goes on.
abbrev pub Goes : ℕ → Attempt → Screen → Screen → Type 0
Goes h a before after = (known h before || holds h a) ≡ true → known h after ≡ true

pub known-ready :
    (h sftp : ℕ) (w : Which) (host : ℕ) (handle : Option ℕ) (s : Screen)
    → IsFree s.left
    → IsFree s.right
    → let a : Attempt = record { which = w; host = host; handle = handle } in
      Goes h a s (ready sftp a s)
unfolding ready
known-ready h sftp left_side host handle s l r k = grind arith
known-ready h sftp right_side host handle s l r k = grind arith

pub known-refuse :
    (h : ℕ) (w : Which) (host : ℕ) (s : Screen)
    → let a : Attempt = record { which = w; host = host; handle = none } in Goes h a s (refuse a s)
unfolding refuse reset_side
known-refuse h left_side host s k = ground arith
known-refuse h right_side host s k = ground arith

pub known-fail :
    (h : ℕ) (message : Text) (w : Which) (host : ℕ) (handle : Option ℕ) (s : Screen)
    → let a : Attempt = record { which = w; host = host; handle = handle } in
      Goes h a s (fail message a s)
unfolding fail
known-fail h message left_side host handle s k = ground arith
known-fail h message right_side host handle s k = ground arith

pub known-client_opened :
    (h handle : ℕ) (w : Which) (host : ℕ) (s : Screen)
    → let a : Attempt = record { which = w; host = host; handle = none } in
      Goes h a s (client_opened handle a s)
unfolding client_opened
known-client_opened h handle left_side host s k =
    ground (
      arith,
      any-push h s.attempts (record { which = left_side; host = host; handle = some handle }),
    )
known-client_opened h handle right_side host s k = ground (
  arith,
  any-push h s.attempts (record { which = right_side; host = host; handle = some handle }),
)

pub known-new :
    (handle : ℕ) (w : Which) (host : ℕ) (s : Screen)
    → let a : Attempt = record { which = w; host = host; handle = none } in
      known handle (client_opened handle a s) ≡ true
unfolding client_opened
known-new handle left_side host s = ground (
  arith,
  any-push handle s.attempts (record { which = left_side; host = host; handle = some handle }),
)
known-new handle right_side host s = ground (
  arith,
  any-push handle s.attempts (record { which = right_side; host = host; handle = some handle }),
)

pub known-begin_connect :
    (h : ℕ) (w : Which) (host : ℕ) (s : Screen)
    → known h s ≡ true
    → known h (begin_connect w host s) ≡ true
unfolding begin_connect reset_side
known-begin_connect h left_side host s k =
    ground (arith, any-push h s.attempts (record { which = left_side; host = host; handle = none }))
known-begin_connect h right_side host s k =
    ground
      (arith, any-push h s.attempts (record { which = right_side; host = host; handle = none }))

pub known-drop_side :
    (h : ℕ) (w : Which) (s : Screen) → known h s ≡ true → known h (drop_side w s) ≡ true
unfolding drop_side
known-drop_side h left_side s k = known-reset_side h left_side s k
known-drop_side h right_side s k = known-reset_side h right_side s k
