-- ===== src/Ssh/Sessions/SlotsInUse.antt =====
-- The slots, over whole runs of the page.
use connexia.Common.{ℕ, All, true, false, List, [], ◌∷◌, ◌≤◌, arith}
use connexia.Ssh.Slots.Invariant.{IsValid, acquire_slot-IsValid, finish-IsValid, dial-IsValid}
use connexia.Ssh.Session.{Session}
use connexia.Ssh.Page.{Page, empty_page}
use connexia.Ssh.Sessions.{
  Event, start_connect, connect, resume, connected_to, failed_with, set_active, set_visible, output,
  open_session, step, run, open_event, close_event, reconnect_event, stop_retry_event, rename_event,
  activate_event, visible_event, snippets_event, resume_event, connected_event, failed_event,
  closed_event, tick_event, ask_event, answer_event, output_event,
}
use connexia.Ssh.Sessions.Cases.{
  connect_cases, reconnect_cases, tick_cases, resume_cases, connected_to_cases, failed_with_cases,
  peer_closed_cases, close_session_cases, answer_question_cases, with_task_cases, see_active_cases,
  if_cases,
}

module _ (low high : ℕ) where
  -- The slots of a page are valid.
  abbrev Valid : Page → Type 0
  Valid p = IsValid low high p.slots

  -- The limit at an event.
  abbrev pub Within : ℕ × ℕ × Event → Type 0
  Within (limit, now, e) = (low ≤ limit) × (limit ≤ high)

  start_connect-Valid :
      (limit : ℕ) (s : Session) (p : Page)
      → low ≤ limit
      → limit ≤ high
      → Valid p
      → Valid (start_connect limit s p)
  unfolding start_connect
  start_connect-Valid limit s p b c v = acquire_slot-IsValid low high limit _ p.slots b c v

  connect-Valid :
      (limit id : ℕ) (p : Page) → low ≤ limit → limit ≤ high → Valid p → Valid (connect limit id p)
  connect-Valid limit id p b c v =
      connect_cases Valid p limit id v (λ s _. start_connect-Valid limit s p b c v)

  step-Valid :
      (limit now : ℕ) (e : Event) (p : Page)
      → low ≤ limit
      → limit ≤ high
      → Valid p
      → Valid (step limit now e p)
  unfolding step open_session set_active set_visible output
  step-Valid limit now (open_event r) p b c v = start_connect-Valid limit _ _ b c v
  step-Valid limit now (close_event id) p b c v = close_session_cases Valid p id v (λ _ _. v)
  step-Valid limit now (reconnect_event id) p b c v =
      reconnect_cases Valid p limit id v (λ s _. connect-Valid limit id _ b c v)
  step-Valid limit now (stop_retry_event id) p b c v = v
  step-Valid limit now (rename_event id label) p b c v = v
  step-Valid limit now (activate_event id) p b c v = v
  step-Valid limit now (visible_event shown) p b c v =
      if_cases Valid shown _ _ (λ _. see_active_cases Valid _ v (λ _. v)) (λ _. v)
  step-Valid limit now snippets_event p b c v = v
  step-Valid limit now (resume_event i) p b c v =
      with_task_cases Valid p false i (resume i) v λ t h _.
        resume_cases Valid p i t (dial-IsValid low high i p.slots v)
          (finish-IsValid low high i p.slots h v)
  step-Valid limit now (connected_event i handle) p b c v =
      with_task_cases Valid p true i (connected_to now handle i) v λ t h _.
        connected_to_cases Valid p now handle i t (finish-IsValid low high i p.slots h v)
          (λ _ _. finish-IsValid low high i p.slots h v)
  step-Valid limit now (failed_event i message) p b c v =
      with_task_cases Valid p true i (failed_with now message i) v λ t h _.
        failed_with_cases Valid p now message i t (finish-IsValid low high i p.slots h v)
          (finish-IsValid low high i p.slots h v)
  step-Valid limit now (closed_event id generation reason) p b c v =
      peer_closed_cases Valid p now id generation reason v (λ _. v)
  step-Valid limit now (tick_event id) p b c v =
      tick_cases Valid p limit now id v (connect-Valid limit id _ b c v)
  step-Valid limit now (ask_event id pending) p b c v = v
  step-Valid limit now (answer_event id accept) p b c v =
      answer_question_cases Valid p id accept v (λ _. v)
  step-Valid limit now (output_event id generation) p b c v = v

  run-Valid : (es : List (ℕ × ℕ × Event)) (p : Page) → All Within es → Valid p → Valid (run es p)
  unfolding run
  run-Valid [] p w v = v
  run-Valid ((limit, now, e) ∷ es) p w v =
      run-Valid es _ w.1 (step-Valid limit now e p w.0.0 w.0.1 v)

-- Whatever happens to the page, in whatever order, as long as the settings give a limit between
-- `low` and `high` at each event: the count of slots in use is the number of connect calls that run,
-- it stays within the highest limit, and a call waits only while at least the lowest number of slots
-- is in use.
pub run-IsValid :
    (low high : ℕ) (es : List (ℕ × ℕ × Event))
    → All (Within low high) es
    → IsValid low high (run es empty_page).slots
run-IsValid low high es w = run-Valid low high es empty_page w (omega arith)
