-- ===== src/Ssh/Sessions/Cases.antt =====
-- The branches of the events of a page, each a rule for any predicate of pages: what has to be
-- shown of each branch, with what the branch's tests say.
use connexia.Common.{
  ℕ, zero, suc, ◌+◌, ◌<◌, ◌≡◌, refl, Bool, true, false, ◌&&◌, Option, none, some, List, [], ◌∷◌,
  ◌++◌, length, get_elem?, ◌==◌, inl, inr, arith, Text, Option-cases, if◌then◌else◌, leb,
}
use connexia.Ssh.Slots.{Task, dial}
use connexia.Ssh.Session.{
  Session, clear_retry, hang_up, connect_done, connect_failed, handle_closed, resolve_host_key,
}
use connexia.Ssh.Page.{
  Page, Effect, close_handle, session_of, change, perform, close_ssh, log_disconnect, remove,
  neighbour, index_of,
}
use connexia.Ssh.Sessions.{
  answer_pending, opened_log, end_task, start_connect, connect, current, resume, connected_to,
  failed_with, peer_closed, tick, reconnect, close_session, answer_question, with_task, see_active,
}

lt-length_of_get_elem? {ℓ} :
    {A : Type ℓ} (xs : List A) (i : ℕ) {x : A} → get_elem? xs i ≡ some x → i < length xs
lt-length_of_get_elem? [] i h = cc
lt-length_of_get_elem? (x ∷ xs) zero h = omega arith
lt-length_of_get_elem? (x ∷ xs) (suc i) h = omega (arith, lt-length_of_get_elem? xs i h)

pub if_cases {ℓ κ} :
    {A : Type ℓ} (P : A → Type κ) (b : Bool) (x y : A)
    → (b ≡ true → P x)
    → (b ≡ false → P y)
    → P (if b then x else y)
if_cases P true x y h k = h refl
if_cases P false x y h k = k refl

module _ {ℓ} (P : Page → Type ℓ) (p : Page) where
  pub connect_cases :
      (limit id : ℕ)
      → P p
      → ((s : Session) → session_of id p ≡ some s → P (start_connect limit s p))
      → P (connect limit id p)
  unfolding connect
  connect_cases limit id h k = elim (Option-cases (session_of id p)) [
    | inl e ↦ rw (e, connect) h
    | inr (s, e) ↦ rw (e, connect) (k s e)
  ]

  pub reconnect_cases :
      (limit id : ℕ)
      → P p
      → ((s : Session)
          → session_of id p ≡ some s
          → P (connect limit id (perform (log_disconnect s ++ close_ssh s) (change id hang_up p))))
      → P (reconnect limit id p)
  unfolding reconnect
  reconnect_cases limit id h k = elim (Option-cases (session_of id p)) [
    | inl e ↦ rw (e, reconnect) h
    | inr (s, e) ↦ rw (e, reconnect) (k s e)
  ]

  tick_at :
      (limit now id : ℕ) (s : Session)
      → P p
      → P (connect limit id (change id clear_retry p))
      → (o : Option ℕ)
      → P (elim o [
        | none ↦ p
        | some at ↦
            if s.retry_timer && leb at now then connect limit id (change id clear_retry p) else p
      ])
  tick_at limit now id s h k none = h
  tick_at limit now id s h k (some at) = if_cases P _ _ _ (λ _. k) (λ _. h)

  pub tick_cases :
      (limit now id : ℕ)
      → P p
      → P (connect limit id (change id clear_retry p))
      → P (tick limit now id p)
  unfolding tick
  tick_cases limit now id h k = elim (Option-cases (session_of id p)) [
    | inl e ↦ rw (e, tick) h
    | inr (s, e) ↦ rw (e, tick) (tick_at limit now id s h k s.next_retry_at)
  ]

  pub resume_cases :
      (i : ℕ) (t : Task)
      → P (record (change t.session (λ s. record s { has_term = true }) p) {
        slots = dial i p.slots;
      })
      → P (end_task i p)
      → P (resume i t p)
  unfolding resume
  resume_cases i t h k = if_cases P (current t p) _ _ (λ _. h) (λ _. k)

  pub connected_to_cases :
      (now handle i : ℕ) (t : Task)
      → P (end_task i (perform (close_handle handle ∷ []) p))
      → ((s : Session)
          → session_of t.session p ≡ some s
          → P (
              end_task i (
                perform
                  (opened_log p.fresh s)
                  (record (change t.session (connect_done now handle p.fresh) p) {
                    fresh = p.fresh + 1;
                  }))))
      → P (connected_to now handle i t p)
  unfolding connected_to
  connected_to_cases now handle i t h k = elim (Option-cases (session_of t.session p)) [
    | inl e ↦ rw (e, connected_to) h
    | inr (s, e) ↦
        rw (e, connected_to) (if_cases P (t.generation == s.generation) _ _ (λ _. k s e) (λ _. h))
  ]

  pub failed_with_cases :
      (now : ℕ) (message : Text) (i : ℕ) (t : Task)
      → P (end_task i p)
      → P (end_task i (change t.session (connect_failed now message) p))
      → P (failed_with now message i t p)
  unfolding failed_with
  failed_with_cases now message i t h k = if_cases P (current t p) _ _ (λ _. k) (λ _. h)

  pub peer_closed_cases :
      (now id generation : ℕ) (reason : Option Text)
      → P p
      → ((es : List Effect) → P (perform es (change id (handle_closed now generation reason) p)))
      → P (peer_closed now id generation reason p)
  unfolding peer_closed
  peer_closed_cases now id generation reason h k = elim (Option-cases (session_of id p)) [
    | inl e ↦ rw (e, peer_closed) h
    | inr (s, e) ↦ rw (e, peer_closed) (k _)
  ]

  pub close_session_cases :
      (id : ℕ)
      → P p
      → ((s : Session)
          → session_of id p ≡ some s
          → P (
              perform (log_disconnect s ++ (close_ssh s ++ answer_pending s false)) (record p {
                sessions = remove id p.sessions;
                active = elim p.active [
                  | none ↦ none
                  | some a ↦
                      if a == id
                      then neighbour (index_of id p.sessions) (remove id p.sessions)
                      else some a
                ];
              })))
      → P (close_session id p)
  unfolding close_session
  close_session_cases id h k = elim (Option-cases (session_of id p)) [
    | inl e ↦ rw (e, close_session) h
    | inr (s, e) ↦ rw (e, close_session) (k s e)
  ]

  pub answer_question_cases :
      (id : ℕ) (accept : Bool)
      → P p
      → ((es : List Effect) → P (perform es (change id (resolve_host_key accept) p)))
      → P (answer_question id accept p)
  unfolding answer_question
  answer_question_cases id accept h k = elim (Option-cases (session_of id p)) [
    | inl e ↦ rw (e, answer_question) h
    | inr (s, e) ↦ rw (e, answer_question) (k _)
  ]

  -- A running task is one of those that run.
  pub with_task_cases :
      (dialing : Bool) (i : ℕ) (f : Task → Page → Page)
      → P p
      → ((t : Task) → i < length p.slots.running → get_elem? p.slots.running i ≡ some t → P (f t p))
      → P (with_task dialing i f p)
  with_task_cases dialing i f h k = elim (Option-cases (get_elem? p.slots.running i)) [
    | inl e ↦ rw (e, with_task) h
    | inr (t, e) ↦
        let go = k t (lt-length_of_get_elem? p.slots.running i e) e in
        rw (e, with_task)
          (if_cases P dialing _ _ (λ _. if_cases P t.dialing _ _ (λ _. go) (λ _. h))
            (λ _. if_cases P t.dialing _ _ (λ _. h) (λ _. go)))
  ]

  see_active_at :
      (o : Option ℕ)
      → P p
      → ((id : ℕ) → P (change id (λ s. record s { has_unseen_output = false }) p))
      → P (elim o [
        | none ↦ p
        | some id ↦ change id (λ s. record s { has_unseen_output = false }) p
      ])
  see_active_at none h k = h
  see_active_at (some id) h k = k id

  pub see_active_cases :
      P p
      → ((id : ℕ) → P (change id (λ s. record s { has_unseen_output = false }) p))
      → P (see_active p)
  see_active_cases h k = see_active_at p.active h k
