-- ===== src/Ssh/Sessions/Active.antt =====
-- The active session of a page.
use native.Mathlib.Numerals.{sub-one}
use connexia.Common.{
  ℕ, zero, suc, ◌-◌, ◌≤◌, ◌<◌, ◌≡◌, ◌≢◌, refl, ◌∙◌, true, false, Option, none, some, List, [], ◌∷◌,
  ◌++◌, arith, if◌then◌else◌, ◌==◌, Bool-cases, ==_iff, inl, inr, any, get_elem?, length,
  Option-cases,
}
use connexia.Ssh.Session.{Session}
use connexia.Ssh.Session.Sound.{
  id-clear_retry, id-stop_auto_retry, id-begin_connect, id-connect_done, id-connect_failed,
  id-handle_closed, id-hang_up, id-ask_host_key, id-resolve_host_key, id-rename,
}
use connexia.Ssh.Page.{Page, has_id, update, remove, neighbour, index_of, empty_page}
use connexia.Ssh.Sessions.{
  Event, start_connect, connect, resume, connected_to, failed_with, set_active, set_visible, output,
  open_session, close_session, step, run, open_event, close_event, reconnect_event,
  stop_retry_event, rename_event, activate_event, visible_event, snippets_event, resume_event,
  connected_event, failed_event, closed_event, tick_event, ask_event, answer_event, output_event,
}
use connexia.Ssh.Sessions.Cases.{
  connect_cases, reconnect_cases, tick_cases, resume_cases, connected_to_cases, failed_with_cases,
  peer_closed_cases, close_session_cases, answer_question_cases, with_task_cases, see_active_cases,
  if_cases,
}

-- The active session, if there is one, is open.
abbrev pub IsOpen : Option ℕ → List Session → Type 0
IsOpen none ss = Unit
IsOpen (some a) ss = any (has_id a) ss ≡ true

abbrev pub HasActive : Page → Type 0
HasActive p = IsOpen p.active p.sessions

any-update :
    (a id : ℕ) (f : Session → Session)
    → ((s : Session) → (f s).id ≡ s.id)
    → (ss : List Session) → any (has_id a) (update id f ss) ≡ any (has_id a) ss
unfolding update
any-update a id f k [] = refl
any-update a id f k (s ∷ ss) = ground (arith, k s, any-update a id f k ss)

IsOpen-update :
    (o : Option ℕ) (id : ℕ) (f : Session → Session)
    → ((s : Session) → (f s).id ≡ s.id)
    → (ss : List Session) → IsOpen o ss
    → IsOpen o (update id f ss)
IsOpen-update none id f k ss h = tt
IsOpen-update (some a) id f k ss h = any-update a id f k ss ∙ h

any-remove :
    (a id : ℕ) (ss : List Session)
    → (a == id) ≡ false
    → any (has_id a) ss ≡ true
    → any (has_id a) (remove id ss) ≡ true
unfolding remove
any-remove a id [] n h = h
any-remove a id (s ∷ ss) n h = ground (arith, any-remove a id ss n)

any_of_get_elem? :
    (i : ℕ) (ss : List Session) (s : Session)
    → get_elem? ss i ≡ some s
    → any (has_id s.id) ss ≡ true
any_of_get_elem? i [] s h = absurd (cc)
any_of_get_elem? zero (x ∷ ss) s h = ground arith
any_of_get_elem? (suc i) (x ∷ ss) s h = ground (arith, any_of_get_elem? i ss s h)

IsOpen-neighbour : (i : ℕ) (ss : List Session) → IsOpen (neighbour i ss) ss
unfolding neighbour
IsOpen-neighbour i ss = elim (Option-cases (get_elem? ss i)) [
  | inr (s, e) ↦ rw (e, neighbour) (any_of_get_elem? i ss s e)
  | inl e ↦
      rw (e, neighbour)
        (if_cases (λ o. IsOpen o ss) (i == 0) _ _ (λ _. tt)
          (λ _. elim (Option-cases (get_elem? ss (i - 1))) [
            | inl e' ↦ rw e' tt
            | inr (s, e') ↦ rw e' (any_of_get_elem? (i - 1) ss s e')
          ]))
]

IsOpen-close :
    (o : Option ℕ) (id i : ℕ) (ss : List Session)
    → IsOpen o ss
    → IsOpen
        (elim o [ none ↦ none | some a ↦ if a == id then neighbour i (remove id ss) else some a ])
        (remove id ss)
IsOpen-close none id i ss h = tt
IsOpen-close (some a) id i ss h =
    if_cases (λ o. IsOpen o (remove id ss)) (a == id) _ _ (λ _. IsOpen-neighbour i (remove id ss))
      (λ n. any-remove a id ss n h)

any-append :
    (a : ℕ) (s : Session) (ss : List Session) → s.id ≡ a → any (has_id a) (ss ++ s ∷ []) ≡ true
any-append a s [] h = ground arith
any-append a s (x ∷ ss) h = ground (arith, any-append a s ss h)

start_connect-HasActive :
    (limit : ℕ) (s : Session) (p : Page) → HasActive p → HasActive (start_connect limit s p)
unfolding start_connect
start_connect-HasActive limit s p h = IsOpen-update p.active s.id _ id-begin_connect p.sessions h

connect-HasActive : (limit id : ℕ) (p : Page) → HasActive p → HasActive (connect limit id p)
connect-HasActive limit id p h =
    connect_cases HasActive p limit id h (λ s _. start_connect-HasActive limit s p h)

-- The page offers to activate the sessions that are open.
abbrev pub IsOffered : Event → Page → Type 0
IsOffered (activate_event id) p = any (has_id id) p.sessions ≡ true
IsOffered (open_event r) p = Unit
IsOffered _ p = Unit

step-HasActive :
    (limit now : ℕ) (e : Event) (p : Page)
    → IsOffered e p
    → HasActive p
    → HasActive (step limit now e p)
unfolding step set_active set_visible output open_session
step-HasActive limit now (open_event r) p o h =
    start_connect-HasActive limit _ _ (any-append _ _ p.sessions refl)
step-HasActive limit now (close_event id) p o h =
    close_session_cases HasActive p id h
      (λ _ _. IsOpen-close p.active id (index_of id p.sessions) p.sessions h)
step-HasActive limit now (reconnect_event id) p o h =
    reconnect_cases HasActive p limit id h
      (λ s _. connect-HasActive limit id _ (IsOpen-update p.active id _ id-hang_up p.sessions h))
step-HasActive limit now (stop_retry_event id) p o h =
    IsOpen-update p.active id _ id-stop_auto_retry p.sessions h
step-HasActive limit now (rename_event id label) p o h =
    IsOpen-update p.active id _ (id-rename label) p.sessions h
step-HasActive limit now (activate_event id) p o h =
    IsOpen-update (some id) id _ (λ _. refl) p.sessions o
step-HasActive limit now (visible_event shown) p o h =
    if_cases HasActive shown _ _
      (λ _.
        see_active_cases HasActive _ h (λ id. IsOpen-update p.active id _ (λ _. refl) p.sessions h))
      (λ _. h)
step-HasActive limit now snippets_event p o h = h
step-HasActive limit now (resume_event i) p o h =
    with_task_cases HasActive p false i (resume i) h λ t _ _.
      resume_cases HasActive p i t (IsOpen-update p.active t.session _ (λ _. refl) p.sessions h) h
step-HasActive limit now (connected_event i handle) p o h =
    with_task_cases HasActive p true i (connected_to now handle i) h λ t _ _.
      connected_to_cases HasActive p now handle i t h (λ _ _.
        IsOpen-update p.active t.session _ (id-connect_done now handle p.fresh) p.sessions h)
step-HasActive limit now (failed_event i message) p o h =
    with_task_cases HasActive p true i (failed_with now message i) h λ t _ _.
      failed_with_cases HasActive p now message i t h
        (IsOpen-update p.active t.session _ (id-connect_failed now message) p.sessions h)
step-HasActive limit now (closed_event id generation reason) p o h =
    peer_closed_cases HasActive p now id generation reason h
      (λ _. IsOpen-update p.active id _ (id-handle_closed now generation reason) p.sessions h)
step-HasActive limit now (tick_event id) p o h =
    tick_cases HasActive p limit now id h
      (connect-HasActive limit id _ (IsOpen-update p.active id _ id-clear_retry p.sessions h))
step-HasActive limit now (ask_event id pending) p o h =
    IsOpen-update p.active id _ (id-ask_host_key pending) p.sessions h
step-HasActive limit now (answer_event id accept) p o h =
    answer_question_cases HasActive p id accept h
      (λ _. IsOpen-update p.active id _ (id-resolve_host_key accept) p.sessions h)
step-HasActive limit now (output_event id generation) p o h =
    IsOpen-update p.active id _
      (λ s. if_cases (λ (s' : Session). s'.id ≡ s.id) _ _ _ (λ _. refl) (λ _. refl)) p.sessions h

-- Each event of a run is offered when it happens.
abbrev pub AllOffered : List (ℕ × ℕ × Event) → Page → Type 0
AllOffered [] p = Unit
AllOffered ((limit, now, e) ∷ es) p = IsOffered e p × AllOffered es (step limit now e p)

run-HasActive_from :
    (es : List (ℕ × ℕ × Event)) (p : Page) → AllOffered es p → HasActive p → HasActive (run es p)
unfolding run
run-HasActive_from [] p o h = h
run-HasActive_from ((limit, now, e) ∷ es) p o h =
    run-HasActive_from es _ o.1 (step-HasActive limit now e p o.0 h)

-- As long as only open sessions are activated by hand: after any run of the page the active
-- session is open, or there is none.
pub run-HasActive :
    (es : List (ℕ × ℕ × Event)) → AllOffered es empty_page → HasActive (run es empty_page)
run-HasActive es o = run-HasActive_from es empty_page o tt

get_elem?-lt :
    (i : ℕ) (ss : List Session) → i < length ss → (s : Session) × (get_elem? ss i ≡ some s)
get_elem?-lt i [] h = absurd (omega arith)
get_elem?-lt zero (s ∷ ss) h = (s, refl)
get_elem?-lt (suc i) (s ∷ ss) h = get_elem?-lt i ss (omega arith)

neighbour-at :
    (i : ℕ) (ss : List Session) (s : Session) → get_elem? ss i ≡ some s → neighbour i ss ≡ some s.id
unfolding neighbour
neighbour-at i ss s e = rw (e, neighbour)

neighbour-before :
    (i : ℕ) (ss : List Session) (s : Session)
    → get_elem? ss (suc i) ≡ none
    → get_elem? ss i ≡ some s
    → neighbour (suc i) ss ≡ some s.id
unfolding neighbour
neighbour-before i ss s e e' = rw (e, neighbour) (ground (arith, sub-one i))

-- The place of a session that left has another there or before it, if any is left.
neighbour-none : (i : ℕ) (ss : List Session) → i ≤ length ss → neighbour i ss ≡ none → ss ≡ []
neighbour-none i [] b e = refl
neighbour-none zero (s ∷ ss) b e = absurd (cc (neighbour-at 0 (s ∷ ss) s refl))
neighbour-none (suc i) (s ∷ ss) b e =
    let (s', found) = get_elem?-lt i (s ∷ ss) (omega arith) in
    elim (Option-cases (get_elem? ss i)) [
      | inr (x, e') ↦ absurd (cc (neighbour-at (suc i) (s ∷ ss) x e'))
      | inl e' ↦ absurd (cc (neighbour-before i (s ∷ ss) s' e' found))
    ]

index_of-le :
    (id : ℕ) (ss : List Session)
    → any (has_id id) ss ≡ true
    → index_of id ss ≤ length (remove id ss)
unfolding index_of remove
index_of-le id [] h = absurd (cc)
index_of-le id (s ∷ ss) h = ground (arith, index_of-le id ss)

close-none :
    (o : Option ℕ) (id : ℕ) (ss : List Session)
    → IsOpen o ss
    → o ≢ none
    → elim o [
      | none ↦ none
      | some a ↦ if a == id then neighbour (index_of id ss) (remove id ss) else some a
    ]
      ≡ none
    → remove id ss ≡ []
close-none none id ss h n e = absurd (n refl)
close-none (some a) id ss h n e = elim (Bool-cases (a == id)) [
  | inl hit ↦
      neighbour-none (index_of id ss) (remove id ss)
        (index_of-le id ss (rw ((==_iff a id).0 hit) at h)) (rw hit at e)
  | inr miss ↦ absurd (cc (rw miss at e))
]

-- Closing a session leaves no session active only if none was, or none is left.
pub close_session-active :
    (id : ℕ) (p : Page)
    → HasActive p
    → p.active ≢ none
    → (close_session id p).active ≡ none
    → (close_session id p).sessions ≡ []
close_session-active id p h n =
    close_session_cases (λ q. q.active ≡ none → q.sessions ≡ []) p id (λ e. absurd (n e))
      (λ s _ e. close-none p.active id p.sessions h n e)
