-- ===== src/Ssh/Sessions/Handles.antt =====
-- The sessions of a page, over whole runs.
use connexia.Common.{
  ℕ, ◌≡◌, Bool, true, false, some, List, [], ◌∷◌, arith, All, All-append, Bool-cases, inl, inr,
  find,
}
use connexia.Ssh.Session.Sound.{
  IsSound, clear_retry-IsSound, stop_auto_retry-IsSound, begin_connect-IsSound,
  connect_done-IsSound, connect_failed-IsSound, handle_closed-IsSound, resolve_host_key-IsSound,
  rename-IsSound, ask_host_key-IsSound, begin_connect-hang_up-IsSound, new_session-IsSound,
  id-hang_up,
}
use connexia.Ssh.Session.{Session, Request, begin_connect, hang_up}
use connexia.Ssh.Page.{Page, has_id, update, remove, empty_page}
use connexia.Ssh.Sessions.{
  Event, start_connect, connect, resume, connected_to, failed_with, set_active, set_visible, output,
  open_session, step, run, open_event, close_event, reconnect_event, stop_retry_event, rename_event,
  activate_event, visible_event, snippets_event, resume_event, connected_event, failed_event,
  closed_event, tick_event, ask_event, answer_event, output_event, reconnect,
}
use connexia.Ssh.Sessions.Cases.{
  connect_cases, reconnect_cases, tick_cases, resume_cases, connected_to_cases, failed_with_cases,
  peer_closed_cases, close_session_cases, answer_question_cases, with_task_cases, see_active_cases,
  if_cases,
}

abbrev Sound : Page → Type 0
Sound p = All IsSound p.sessions

update-Sound :
    (id : ℕ) (f : Session → Session)
    → ((s : Session) → IsSound s → IsSound (f s))
    → (ss : List Session) → All IsSound ss
    → All IsSound (update id f ss)
unfolding update
update-Sound id f k [] h = tt
update-Sound id f k (s ∷ ss) h =
    (if_cases IsSound (has_id id s) (f s) s (λ _. k s h.0) (λ _. h.0), update-Sound id f k ss h.1)

remove-Sound : (id : ℕ) (ss : List Session) → All IsSound ss → All IsSound (remove id ss)
unfolding remove
remove-Sound id [] h = tt
remove-Sound id (s ∷ ss) h =
    if_cases (All IsSound) (has_id id s) ss (s ∷ remove id ss) (λ _. h.1)
      (λ _. (h.0, remove-Sound id ss h.1))

start_connect-Sound :
    (limit : ℕ) (s : Session) (p : Page) → Sound p → Sound (start_connect limit s p)
unfolding start_connect
start_connect-Sound limit s p h = update-Sound s.id begin_connect begin_connect-IsSound p.sessions h

connect-Sound : (limit id : ℕ) (p : Page) → Sound p → Sound (connect limit id p)
connect-Sound limit id p h =
    connect_cases Sound p limit id h (λ s _. start_connect-Sound limit s p h)

-- Hanging up alone would leave a session connected without a connection; `connect` follows.
update-hang_up-Sound :
    (id : ℕ) (ss : List Session)
    → All IsSound ss
    → All IsSound (update id begin_connect (update id hang_up ss))
unfolding update
update-hang_up-Sound id [] h = tt
update-hang_up-Sound id (s ∷ ss) h = elim (Bool-cases (has_id id s)) [
  | inl e ↦
      rw (e, update)
        (
          if_cases IsSound (has_id id (hang_up s)) _ _ (λ _. begin_connect-hang_up-IsSound s h.0)
              (λ ne. absurd (ground (arith, id-hang_up s))),
          update-hang_up-Sound id ss h.1,
        )
  | inr e ↦ rw (e, update) (rw e (h.0, update-hang_up-Sound id ss h.1))
]

id_of_find : (id : ℕ) (ss : List Session) (s : Session) → find (has_id id) ss ≡ some s → s.id ≡ id
id_of_find id [] s h = absurd (cc)
id_of_find id (x ∷ ss) s h = ground (arith, id_of_find id ss s)

-- The session that `reconnect` hangs up is found again by `connect`.
find-update-hang_up :
    (id : ℕ) (ss : List Session) (s : Session)
    → find (has_id id) ss ≡ some s
    → find (has_id id) (update id hang_up ss) ≡ some (hang_up s)
unfolding update
find-update-hang_up id [] s h = absurd (cc)
find-update-hang_up id (x ∷ ss) s h = elim (Bool-cases (has_id id x)) [
  | inl e ↦ rw (e, update) (ground (arith, id-hang_up x, rw e at h))
  | inr e ↦ rw (e, update) (rw e (find-update-hang_up id ss s (rw e at h)))
]

reconnect-Sound : (limit id : ℕ) (p : Page) → Sound p → Sound (reconnect limit id p)
unfolding connect start_connect
reconnect-Sound limit id p h = reconnect_cases Sound p limit id h λ s e.
    rw (find-update-hang_up id p.sessions s e, connect)
      (rw (id-hang_up s, id_of_find id p.sessions s e) (update-hang_up-Sound id p.sessions h))

open_session-Sound : (limit : ℕ) (r : Request) (p : Page) → Sound p → Sound (open_session limit r p)
unfolding open_session
open_session-Sound limit r p h =
    start_connect-Sound limit _ _
      (All-append IsSound p.sessions _ h (new_session-IsSound p.counter r p.sessions, tt))

-- `has_term` and `has_unseen_output` are not among the fields that are related.
unseen-IsSound :
    (seen : Bool) (s : Session) → IsSound s → IsSound (record s { has_unseen_output = seen })
unseen-IsSound seen s v = ground arith

term-IsSound : (s : Session) → IsSound s → IsSound (record s { has_term = true })
term-IsSound s v = ground arith

step-Sound : (limit now : ℕ) (e : Event) (p : Page) → Sound p → Sound (step limit now e p)
unfolding step set_active set_visible output
step-Sound limit now (open_event r) p h = open_session-Sound limit r p h
step-Sound limit now (close_event id) p h =
    close_session_cases Sound p id h (λ _ _. remove-Sound id p.sessions h)
step-Sound limit now (reconnect_event id) p h = reconnect-Sound limit id p h
step-Sound limit now (stop_retry_event id) p h =
    update-Sound id _ stop_auto_retry-IsSound p.sessions h
step-Sound limit now (rename_event id label) p h =
    update-Sound id _ (rename-IsSound label) p.sessions h
step-Sound limit now (activate_event id) p h = update-Sound id _ (unseen-IsSound false) p.sessions h
step-Sound limit now (visible_event shown) p h =
    if_cases Sound shown _ _
      (λ _.
        see_active_cases Sound _ h (λ id. update-Sound id _ (unseen-IsSound false) p.sessions h))
      (λ _. h)
step-Sound limit now snippets_event p h = h
step-Sound limit now (resume_event i) p h =
    with_task_cases Sound p false i (resume i) h
      λ t _ _. resume_cases Sound p i t (update-Sound t.session _ term-IsSound p.sessions h) h
step-Sound limit now (connected_event i handle) p h =
    with_task_cases Sound p true i (connected_to now handle i) h λ t _ _.
      connected_to_cases Sound p now handle i t h
        (λ _ _. update-Sound t.session _ (connect_done-IsSound now handle p.fresh) p.sessions h)
step-Sound limit now (failed_event i message) p h =
    with_task_cases Sound p true i (failed_with now message i) h λ t _ _.
      failed_with_cases Sound p now message i t h
        (update-Sound t.session _ (connect_failed-IsSound now message) p.sessions h)
step-Sound limit now (closed_event id generation reason) p h =
    peer_closed_cases Sound p now id generation reason h
      (λ _. update-Sound id _ (handle_closed-IsSound now generation reason) p.sessions h)
step-Sound limit now (tick_event id) p h =
    tick_cases Sound p limit now id h
      (connect-Sound limit id _ (update-Sound id _ clear_retry-IsSound p.sessions h))
step-Sound limit now (ask_event id pending) p h =
    update-Sound id _ (ask_host_key-IsSound pending) p.sessions h
step-Sound limit now (answer_event id accept) p h =
    answer_question_cases Sound p id accept h
      (λ _. update-Sound id _ (resolve_host_key-IsSound accept) p.sessions h)
step-Sound limit now (output_event id generation) p h =
    update-Sound id _ (λ s v. if_cases IsSound _ _ _ (λ _. v) (λ _. unseen-IsSound true s v))
      p.sessions h

run-Sound : (es : List (ℕ × ℕ × Event)) (p : Page) → Sound p → Sound (run es p)
unfolding run
run-Sound [] p h = h
run-Sound ((limit, now, e) ∷ es) p h = run-Sound es _ (step-Sound limit now e p h)

-- Whatever happens to the page, in whatever order: each open session with a connection has an open
-- log entry, each that shows as connected has a connection, and a retry timer runs exactly in those
-- that have a time for the retry.
pub run-All-IsSound : (es : List (ℕ × ℕ × Event)) → All IsSound (run es empty_page).sessions
run-All-IsSound es = run-Sound es empty_page tt
