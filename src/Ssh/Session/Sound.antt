-- ===== src/Ssh/Session/Sound.antt =====
-- What the fields of an open session say about each other, kept by each function on a session.
use connexia.Common.{ℕ, ◌≡◌, refl, Bool, true, Option, List, arith, Text}
use connexia.Ssh.Session.{
  Session, connected, Request, PendingHostKey, is_some, clear_retry, stop_auto_retry, begin_connect,
  connect_done, connect_failed, handle_closed, hang_up, ask_host_key, resolve_host_key, rename,
  new_session,
}

-- A session with a connection has an open log entry; a session that shows as connected has a
-- connection; and the retry timer runs exactly while a time for the retry is set.
pub record IsSound (s : Session) : Type 0 where
  pub logged : is_some s.ssh ≡ true → is_some s.log_id ≡ true
  pub live : s.status ≡ connected → is_some s.ssh ≡ true
  pub timed : is_some s.next_retry_at ≡ s.retry_timer

pub clear_retry-IsSound : (s : Session) → IsSound s → IsSound (clear_retry s)
unfolding clear_retry
clear_retry-IsSound s v = ground arith

pub stop_auto_retry-IsSound : (s : Session) → IsSound s → IsSound (stop_auto_retry s)
unfolding stop_auto_retry
stop_auto_retry-IsSound s v = ground arith

pub begin_connect-IsSound : (s : Session) → IsSound s → IsSound (begin_connect s)
unfolding begin_connect
begin_connect-IsSound s v = ground arith

pub connect_done-IsSound :
    (now handle fresh : ℕ) (s : Session) → IsSound s → IsSound (connect_done now handle fresh s)
unfolding connect_done
connect_done-IsSound now handle fresh s v = ground arith

pub connect_failed-IsSound :
    (now : ℕ) (message : Text) (s : Session) → IsSound s → IsSound (connect_failed now message s)
unfolding connect_failed
connect_failed-IsSound now message s v = ground arith

pub handle_closed-IsSound :
    (now generation : ℕ) (reason : Option Text) (s : Session)
    → IsSound s
    → IsSound (handle_closed now generation reason s)
unfolding handle_closed
handle_closed-IsSound now generation reason s v = ground arith

pub resolve_host_key-IsSound :
    (accept : Bool) (s : Session) → IsSound s → IsSound (resolve_host_key accept s)
unfolding resolve_host_key
resolve_host_key-IsSound accept s v = ground arith

pub rename-IsSound : (label : Text) (s : Session) → IsSound s → IsSound (rename label s)
unfolding rename
rename-IsSound label s v = ground arith

pub ask_host_key-IsSound :
    (pending : PendingHostKey) (s : Session) → IsSound s → IsSound (ask_host_key pending s)
unfolding ask_host_key
ask_host_key-IsSound pending s v = ground arith

-- `reconnect` hangs up and connects at once.
pub begin_connect-hang_up-IsSound : (s : Session) → IsSound s → IsSound (begin_connect (hang_up s))
unfolding begin_connect hang_up
begin_connect-hang_up-IsSound s v = ground arith

pub new_session-IsSound : (id : ℕ) (r : Request) (ss : List Session) → IsSound (new_session id r ss)
unfolding new_session
new_session-IsSound id r ss = ground arith

pub id-begin_connect : (s : Session) → (begin_connect s).id ≡ s.id
unfolding begin_connect
id-begin_connect s = refl

pub id-hang_up : (s : Session) → (hang_up s).id ≡ s.id
unfolding hang_up
id-hang_up s = refl

-- No function changes a session's identifier.
pub id-clear_retry : (s : Session) → (clear_retry s).id ≡ s.id
unfolding clear_retry
id-clear_retry s = ground arith

pub id-stop_auto_retry : (s : Session) → (stop_auto_retry s).id ≡ s.id
unfolding stop_auto_retry
id-stop_auto_retry s = ground arith

pub id-connect_done :
    (now handle fresh : ℕ) (s : Session) → (connect_done now handle fresh s).id ≡ s.id
unfolding connect_done
id-connect_done now handle fresh s = ground arith

pub id-connect_failed :
    (now : ℕ) (message : Text) (s : Session) → (connect_failed now message s).id ≡ s.id
unfolding connect_failed
id-connect_failed now message s = ground arith

pub id-handle_closed :
    (now generation : ℕ) (reason : Option Text) (s : Session)
    → (handle_closed now generation reason s).id ≡ s.id
unfolding handle_closed
id-handle_closed now generation reason s = ground arith

pub id-ask_host_key : (pending : PendingHostKey) (s : Session) → (ask_host_key pending s).id ≡ s.id
unfolding ask_host_key
id-ask_host_key pending s = ground arith

pub id-resolve_host_key : (accept : Bool) (s : Session) → (resolve_host_key accept s).id ≡ s.id
unfolding resolve_host_key
id-resolve_host_key accept s = ground arith

pub id-rename : (label : Text) (s : Session) → (rename label s).id ≡ s.id
unfolding rename
id-rename label s = ground arith

pub id-new_session : (id : ℕ) (r : Request) (ss : List Session) → (new_session id r ss).id ≡ id
unfolding new_session
id-new_session id r ss = refl
