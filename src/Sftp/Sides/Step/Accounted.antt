-- ===== src/Sftp/Sides/Step/Accounted.antt =====
-- The connections of the panes, over whole runs.
use connexia.Common.{
  ℕ, ◌≡◌, refl, arith, Bool, true, false, ◌||◌, Option, none, some, List, [], ◌∷◌, Text, All,
  get_elem?, Bool-cases, Option-cases, inl, inr,
}
use connexia.Ssh.Slots.{remove_at}
use connexia.Sftp.Sides.{
  Which, left_side, right_side, Side, Attempt, Screen, side_of, begin_connect, connect_remote,
  refuse, fail, client_opened, ready, drop_side, peer_close, reset_side, is_host, start_list,
  receive_list, receive_error, navigate, remove_item,
}
use connexia.Sftp.Sides.Step.Handles.{
  known, holds, Goes, any-remove_at, known-reset_side, known-ready, known-refuse, known-fail,
  known-client_opened, known-new, known-begin_connect,
}
use connexia.Sftp.Sides.Step.Free.{
  AreFree, AreFree-reset_side, AreFree-begin_connect, AreFree-refuse, AreFree-fail,
  AreFree-client_opened, AreFree-ready, opened-refuse, opened-fail, opened-ready,
  opened-client_opened,
}
use connexia.Sftp.Sides.Step.{
  Event, step, run, empty_screen, with_attempt, always, opening, waiting, at_side, connect_event,
  refused_event, failed_event, opened_event, ready_event, drop_event, peer_event, refresh_event,
  listed_event, list_failed_event, navigate_event, removed_event,
}

abbrev pub IsAccounted : Screen → Type 0
IsAccounted s = AreFree s × All (λ h. known h s ≡ true) s.opened

All-known :
    (hs : List ℕ) (s t : Screen)
    → ((h : ℕ) → known h s ≡ true → known h t ≡ true)
    → All (λ h. known h s ≡ true) hs
    → All (λ h. known h t ≡ true) hs
All-known [] s t f k = tt
All-known (h ∷ hs) s t f k = (f h k.0, All-known hs s t f k.1)

IsAccounted-keep :
    (s t : Screen)
    → t.opened ≡ s.opened
    → AreFree t
    → ((h : ℕ) → known h s ≡ true → known h t ≡ true)
    → IsAccounted s
    → IsAccounted t
IsAccounted-keep s t e f k v = (f, rw e (All-known s.opened s t k v.1))

-- An attempt that waits at a place goes on.
IsAccounted-with_attempt :
    (test : Option ℕ → Bool) (i : ℕ) (f : Attempt → Screen → Screen) (s : Screen)
    → ((a : Attempt) (t : Screen)
        → test a.handle ≡ true
        → AreFree t
        → All (λ h. (known h t || holds h a) ≡ true) t.opened
        → IsAccounted (f a t))
    → IsAccounted s
    → IsAccounted (with_attempt test i f s)
IsAccounted-with_attempt test i f s k v = elim (Option-cases (get_elem? s.attempts i)) [
  | inl e ↦ rw (e, with_attempt) v
  | inr (a, e) ↦ elim (Bool-cases (test a.handle)) [
    | inr n ↦ rw (e, with_attempt) (rw n v)
    | inl y ↦
        rw (e, with_attempt)
          (rw y
            (k a (record s { attempts = remove_at i s.attempts }) y v.0 (moved a e s.opened v.1)))
  ]
]
  where
    moved :
        (a : Attempt)
        → get_elem? s.attempts i ≡ some a
        → (hs : List ℕ) → All (λ h. known h s ≡ true) hs
        → All
            (λ h. (known h (record s { attempts = remove_at i s.attempts }) || holds h a) ≡ true)
            hs
    moved a e [] k = tt
    moved a e (h ∷ hs) k = (grind (arith, any-remove_at h i s.attempts a e), moved a e hs k.1)

All-Goes :
    (hs : List ℕ) (a : Attempt) (s t : Screen)
    → ((h : ℕ) → Goes h a s t)
    → All (λ h. (known h s || holds h a) ≡ true) hs
    → All (λ h. known h t ≡ true) hs
All-Goes [] a s t f k = tt
All-Goes (h ∷ hs) a s t f k = (f h k.0, All-Goes hs a s t f k.1)

refuse-IsAccounted :
    (w : Which) (host : ℕ) (handle : Option ℕ) (t : Screen)
    → opening handle ≡ true
    → AreFree t
    → All
        (λ h. (known h t || holds h (record { which = w; host = host; handle = handle })) ≡ true)
        t.opened
    → IsAccounted (refuse (record { which = w; host = host; handle = handle }) t)
refuse-IsAccounted w host none t o f k = (
  AreFree-refuse w host none t f,
  rw (opened-refuse w host none t) (
      All-Goes t.opened (record { which = w; host = host; handle = none }) t
        (refuse (record { which = w; host = host; handle = none }) t) (λ h. known-refuse h w host t)
        k),
)
refuse-IsAccounted w host (some g) t o f k = absurd (cc o)

fail-IsAccounted :
    (message : Text) (w : Which) (host : ℕ) (handle : Option ℕ) (t : Screen)
    → always handle ≡ true
    → AreFree t
    → All
        (λ h. (known h t || holds h (record { which = w; host = host; handle = handle })) ≡ true)
        t.opened
    → IsAccounted (fail message (record { which = w; host = host; handle = handle }) t)
fail-IsAccounted message w host handle t o f k = (
  AreFree-fail message w host handle t f,
  rw (opened-fail message w host handle t) (
      All-Goes t.opened (record { which = w; host = host; handle = handle }) t
        (fail message (record { which = w; host = host; handle = handle }) t)
        (λ h. known-fail h message w host handle t) k),
)

ready-IsAccounted :
    (sftp : ℕ) (w : Which) (host : ℕ) (handle : Option ℕ) (t : Screen)
    → waiting handle ≡ true
    → AreFree t
    → All
        (λ h. (known h t || holds h (record { which = w; host = host; handle = handle })) ≡ true)
        t.opened
    → IsAccounted (ready sftp (record { which = w; host = host; handle = handle }) t)
ready-IsAccounted sftp w host handle t o f k = (
  AreFree-ready sftp w host handle t f,
  rw (opened-ready sftp w host handle t) (
      All-Goes t.opened (record { which = w; host = host; handle = handle }) t
        (ready sftp (record { which = w; host = host; handle = handle }) t)
        (λ h. known-ready h sftp w host handle t f.0 f.1) k),
)

client_opened-IsAccounted :
    (g : ℕ) (w : Which) (host : ℕ) (handle : Option ℕ) (t : Screen)
    → opening handle ≡ true
    → AreFree t
    → All
        (λ h. (known h t || holds h (record { which = w; host = host; handle = handle })) ≡ true)
        t.opened
    → IsAccounted (client_opened g (record { which = w; host = host; handle = handle }) t)
client_opened-IsAccounted g w host none t o f k = (
  AreFree-client_opened g w host none t f,
  rw (opened-client_opened g w host none t) (
    known-new g w host t,
    All-Goes t.opened (record { which = w; host = host; handle = none }) t
        (client_opened g (record { which = w; host = host; handle = none }) t)
        (λ h. known-client_opened h g w host t) k,
  ),
)
client_opened-IsAccounted g w host (some h) t o f k = absurd (cc o)

-- A change of one pane that leaves its connection and whether it connects.
at_side-IsAccounted :
    (w : Which) (f : Side → Side) (s : Screen)
    → ((t : Side) → (f t).handle ≡ t.handle)
    → ((t : Side) → (f t).connecting ≡ t.connecting)
    → IsAccounted s
    → IsAccounted (at_side w f s)
at_side-IsAccounted left_side f s k l v =
    IsAccounted-keep s (at_side left_side f s) refl ((rw (k s.left, l s.left) v.0.0), v.0.1)
      (λ h. rw (k s.left) (λ x. x)) v
at_side-IsAccounted right_side f s k l v =
    IsAccounted-keep s (at_side right_side f s) refl (v.0.0, rw (k s.right, l s.right) v.0.1)
      (λ h. rw (k s.right) (λ x. x)) v

reset_side-IsAccounted : (w : Which) (s : Screen) → IsAccounted s → IsAccounted (reset_side w s)
unfolding reset_side
reset_side-IsAccounted left_side s v =
    IsAccounted-keep s (reset_side left_side s) refl (AreFree-reset_side left_side s v.0)
      (λ h. known-reset_side h left_side s) v
reset_side-IsAccounted right_side s v =
    IsAccounted-keep s (reset_side right_side s) refl (AreFree-reset_side right_side s v.0)
      (λ h. known-reset_side h right_side s) v

drop_side-IsAccounted : (w : Which) (s : Screen) → IsAccounted s → IsAccounted (drop_side w s)
unfolding drop_side
drop_side-IsAccounted left_side s v = reset_side-IsAccounted left_side s v
drop_side-IsAccounted right_side s v = reset_side-IsAccounted right_side s v

begin_connect-IsAccounted :
    (w : Which) (host : ℕ) (s : Screen) → IsAccounted s → IsAccounted (begin_connect w host s)
unfolding begin_connect reset_side
begin_connect-IsAccounted left_side host s v =
    IsAccounted-keep s (begin_connect left_side host s) refl
      (AreFree-begin_connect left_side host s v.0) (λ h. known-begin_connect h left_side host s) v
begin_connect-IsAccounted right_side host s v =
    IsAccounted-keep s (begin_connect right_side host s) refl
      (AreFree-begin_connect right_side host s v.0) (λ h. known-begin_connect h right_side host s) v

connect_remote-IsAccounted :
    (web_ssh : Bool) (w : Which) (host : ℕ) (s : Screen)
    → IsAccounted s
    → IsAccounted (connect_remote web_ssh w host s)
unfolding connect_remote
connect_remote-IsAccounted true w host s v = begin_connect-IsAccounted w host s v
connect_remote-IsAccounted false w host s v = v

peer_close-IsAccounted :
    (w : Which) (g : ℕ) (s : Screen) → IsAccounted s → IsAccounted (peer_close w g s)
unfolding peer_close
peer_close-IsAccounted w g s v = elim (Bool-cases (is_host g (side_of w s).handle)) [
  | inl e ↦ rw e (drop_side-IsAccounted w s v)
  | inr e ↦ rw e v
]

step-IsAccounted :
    (leq : Text → Text → Bool) (e : Event) (s : Screen) → IsAccounted s → IsAccounted (step leq e s)
unfolding step start_list receive_list receive_error navigate remove_item
step-IsAccounted leq (connect_event web_ssh w host) s v =
    connect_remote-IsAccounted web_ssh w host s v
step-IsAccounted leq (refused_event i) s v =
    IsAccounted-with_attempt opening i refuse s (λ a. refuse-IsAccounted a.which a.host a.handle) v
step-IsAccounted leq (failed_event i message) s v =
    IsAccounted-with_attempt always i (fail message) s
      (λ a. fail-IsAccounted message a.which a.host a.handle) v
step-IsAccounted leq (opened_event i handle) s v =
    IsAccounted-with_attempt opening i (client_opened handle) s
      (λ a. client_opened-IsAccounted handle a.which a.host a.handle) v
step-IsAccounted leq (ready_event i sftp) s v =
    IsAccounted-with_attempt waiting i (ready sftp) s
      (λ a. ready-IsAccounted sftp a.which a.host a.handle) v
step-IsAccounted leq (drop_event w) s v = drop_side-IsAccounted w s v
step-IsAccounted leq (peer_event w handle) s v = peer_close-IsAccounted w handle s v
step-IsAccounted leq (refresh_event w) s v =
    at_side-IsAccounted w start_list s (λ t. ground arith) (λ t. ground arith) v
step-IsAccounted leq (listed_event w path entries) s v =
    at_side-IsAccounted w (receive_list leq path entries) s (λ t. ground arith) (λ t. ground arith)
      v
step-IsAccounted leq (list_failed_event w path message) s v =
    at_side-IsAccounted w (receive_error path message) s (λ t. ground arith) (λ t. ground arith) v
step-IsAccounted leq (navigate_event w path) s v =
    at_side-IsAccounted w (navigate path) s (λ t. ground arith) (λ t. ground arith) v
step-IsAccounted leq (removed_event w name) s v =
    at_side-IsAccounted w (remove_item name) s (λ t. refl) (λ t. refl) v

run-IsAccounted_from :
    (leq : Text → Text → Bool) (es : List Event) (s : Screen)
    → IsAccounted s
    → IsAccounted (run leq es s)
unfolding run
run-IsAccounted_from leq [] s v = v
run-IsAccounted_from leq (e ∷ es) s v =
    run-IsAccounted_from leq es (step leq e s) (step-IsAccounted leq e s v)

-- Whatever happens to the panes, in whatever order: a pane that connects has no connection yet, and
-- each connection that was opened is closed, or of a pane, or of an attempt that still waits for
-- its `sftp()`, or of one whose `sftp()` has failed.
pub run-IsAccounted :
    (leq : Text → Text → Bool) (es : List Event) → IsAccounted (run leq es empty_screen)
run-IsAccounted leq es = run-IsAccounted_from leq es empty_screen ((λ _. refl, λ _. refl), tt)
