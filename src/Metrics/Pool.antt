-- ===== src/Metrics/Pool.antt =====
-- The connections of server/internal/web/static/js/dashboard/metrics/controller.js: `connFor`,
-- `closeConn`, the part of `drop` about them, and where each running poll waits. `live` has the
-- connections that are open on the page, a number for each.
pub mod Held
pub mod Changes
use connexia.Common.{
  ℕ, zero, suc, ◌+◌, Bool, true, false, not, ◌&&◌, Option, none, some, List, [], ◌∷◌, ◌==◌, Text,
  get, put, remove, filter, if◌then◌else◌,
}
use connexia.Metrics.Rates.{Previous}
use connexia.Metrics.Backoff.{Conn, new_conn, reset}

-- A connection object. `ref` tells two objects of the same host apart.
pub record Client : Type 0 where
  pub ref : ℕ
  pub username : Text
  pub password : Option Text
  pub previous : Previous
  pub link : Conn

-- What a running poll waits for: `resolveAuth`, `openClient` or `collectSample`, with its
-- connection object and the flag `retried`.
pub data Stage : Type 0 where
  awaiting_auth awaiting_client awaiting_sample : Bool → ℕ → Stage

pub record Pool : Type 0 where
  pub conns : List (Text × Client)
  pub polling : List (Text × Stage)
  pub live : List ℕ
  pub fresh : ℕ

abbrev pub new_client : ℕ → Client
new_client ref = record {
  ref = ref;
  username = [];
  password = none;
  previous = record { cpu = none; traffic = none };
  link = new_conn;
}

-- The connection of a host, which is made when there is none.
unfoldable pub conn_for : Text → Pool → Client × Pool
conn_for id p = elim (get id p.conns) [
  | some k ↦ (k, p)
  | none ↦ (
    new_client p.fresh,
    record p { conns = put id (new_client p.fresh) p.conns; fresh = suc p.fresh },
  )
]

-- `handle?.close()`
unfoldable pub close_live : Option ℕ → List ℕ → List ℕ
close_live none live = live
close_live (some h) live = filter (λ x. not (x == h)) live

-- A new value of the fields of a connection object that is still the host's one. An object that is
-- not has no connection any more, and what is written to it is not read.
unfoldable pub change_client : Text → ℕ → (Client → Client) → Pool → Pool
change_client id ref f p = elim (get id p.conns) [
  | none ↦ p
  | some k ↦ if k.ref == ref then record p { conns = put id (f k) p.conns } else p
]

-- `closeConn` of a host's connection, and new values of its fields about retries.
abbrev pub closed_client : (Conn → Conn) → Client → Client
closed_client f k = record k { link = record (f k.link) { handle = none } }

unfoldable pub close_and : (Conn → Conn) → Text → Pool → Pool
close_and f id p = elim (get id p.conns) [
  | none ↦ p
  | some k ↦ record p {
    conns = put id (closed_client f k) p.conns;
    live = close_live k.link.handle p.live;
  }
]

abbrev pub is_client : Text → ℕ → Pool → Bool
is_client id ref p = elim (get id p.conns) [ none ↦ false | some k ↦ k.ref == ref ]

-- `closeConn` of a connection object.
unfoldable pub close_client : Text → ℕ → Pool → Pool
close_client id ref p = if is_client id ref p then close_and (λ c. c) id p else p

-- `closeConn` and `conns.delete`
unfoldable pub drop_client : Text → Pool → Pool
drop_client id p = elim (get id p.conns) [
  | none ↦ p
  | some k ↦ record p { conns = remove id p.conns; live = close_live k.link.handle p.live }
]

-- `onClose` of a connection: the object forgets it, if it still has it.
unfoldable pub handle_closed : Text → ℕ → ℕ → Pool → Pool
handle_closed id ref h p =
    let gone = record p { live = close_live (some h) p.live } in
    elim (get id p.conns) [
      | none ↦ gone
      | some k ↦
          if (k.ref == ref) && (elim k.link.handle [ none ↦ false | some x ↦ x == h ])
          then record gone { conns = put id (closed_client (λ c. c) k) p.conns }
          else gone
    ]

abbrev pub waits : Text → Stage → Pool → Pool
waits id stage p = record p { polling = put id stage p.polling }

-- `polling.delete(id)`
abbrev pub end_poll : Text → Pool → Pool
end_poll id p = record p { polling = remove id p.polling }

-- A connection is open and is the host's now, with no CPU sample to compare with.
abbrev pub with_handle : ℕ → Client → Client
with_handle h k = record k {
  previous = record k.previous { cpu = none };
  link = record k.link { handle = some h };
}

unfoldable pub take_handle : Text → ℕ → ℕ → Pool → Pool
take_handle id ref h p = change_client id ref (with_handle h) (record p { live = h ∷ p.live })
