-- ===== src/EventLoop.antt =====
-- `EventLoop` of src/cpp/server/event_loop.cpp: one round of its loop. What the system calls do, and the command
-- handler with its exceptions, are arguments.
pub mod Service
pub mod Safety
pub mod Rounds
pub mod Server
use chrono_cache.Shared.{
  ℕ, zero, suc, ◌+◌, ◌≤◌, Bool, true, false, not, ◌&&◌, ◌||◌, Option, none, some, List, [], ◌∷◌,
  ◌++◌, length, replicate, set, get_elem?, leb, if◌then◌else◌,
}
use chrono_cache.Shared.Run.{Run, ok, err, exception, aborted, undefined, out_of_fuel, ◌>>=◌}
use chrono_cache.Shared.Text.{Bytes, codes}
use chrono_cache.Resp.Value.{RespValue}
use chrono_cache.Resp.Parser.{parse}
use chrono_cache.Resp.Serializer
use chrono_cache.Connection.{
  Connection, ReadResponse, ReadResult, WriteResult, handle_read, handle_write, enqueue_response,
  handle_accept,
}

-- `command_handler.execute`, and the state that is left where it throws.
pub record Handler {μ} (State : Type μ) : Type μ where
  pub execute : RespValue → State → Run (Bytes × State)
  pub after_throw : State → State

-- What `poll`, `read` and `write` do for one client: the events that are ready, and the results of the calls.
pub record Ready : Type 0 where
  pub ready_fd : ℕ
  pub pollin : Bool
  pub pollout : Bool
  pub pollerr_or_hup : Bool
  pub read_result : ReadResult
  pub write_result : WriteResult

-- The events that a connection asks `poll` for, `POLLIN` and `POLLOUT`.
abbrev pub events : Connection → Bool × Bool
events conn = (conn.want_read, conn.want_write)

-- `poll_args` behind the server's entry
unfoldable pub poll_args : List (Option Connection) → List (ℕ × (Bool × Bool))
poll_args [] = []
poll_args (none ∷ fd2conn) = poll_args fd2conn
poll_args (some conn ∷ fd2conn) = (conn.fd, events conn) ∷ poll_args fd2conn

-- `fd2conn.resize(n)`, where it grows
abbrev pub grown : ℕ → List (Option Connection) → List (Option Connection)
grown zero fd2conn = fd2conn
grown (suc n) [] = none ∷ grown n []
grown (suc n) (c ∷ fd2conn) = c ∷ grown n fd2conn

-- A connection that `accept` has returned is put in its place.
unfoldable pub accept_client : Option ℕ → List (Option Connection) → List (Option Connection)
unfolding handle_accept
accept_client none fd2conn = fd2conn
accept_client (some connfd) fd2conn =
    set (grown (suc connfd) fd2conn) connfd (some (handle_accept connfd))

-- The part for `POLLOUT`
unfoldable pub client_out : Ready → Connection → Run Connection
unfolding handle_write
client_out ready conn =
    if not conn.want_close && ready.pollout
    then (if conn.want_write then handle_write ready.write_result conn else err aborted)
    else ok conn

-- What `fd2conn` holds behind the part for a client: a closed one leaves its place.
abbrev pub put_client :
    List (Option Connection) → ℕ → Connection → Option Connection → List (Option Connection)
put_client fd2conn fd conn none = set fd2conn conn.fd none
put_client fd2conn fd conn (some conn') = set fd2conn fd (some conn')

module _ {μ} {State : Type μ} (handler : Handler State) where
  -- The `catch` around `execute`
  abbrev pub caught : State → Run (Bytes × State) → Run (Bytes × State)
  caught state (ok r) = ok r
  caught state (err (exception what)) =
      ok (Serializer.error (codes "ERR " ++ codes what), handler.after_throw state)
  caught state (err aborted) = err aborted
  caught state (err undefined) = err undefined
  caught state (err out_of_fuel) = err out_of_fuel

  -- The reply to a message, which the parser has found to be whole or not.
  abbrev pub reply_to_command : State → Option RespValue → Run (Bytes × State)
  reply_to_command state none = ok (Serializer.error (codes "ERR invalid RESP message"), state)
  reply_to_command state (some command) = caught state (handler.execute command state)

  unfoldable pub reply_to : Bytes → State → Run (Bytes × State)
  unfolding parse
  reply_to request_data state = do command ← parse request_data; reply_to_command state command

  -- The loop over the requests that were read.
  unfoldable pub serve : List ReadResponse → Connection → State → Run (Connection × State)
  unfolding reply_to enqueue_response
  serve [] conn state = ok (conn, state)
  serve (request ∷ requests) conn state =
      let skipped = serve requests conn state in
      if not request.success then skipped else (elim request.request_data [
        | none ↦ skipped
        | some request_data ↦ do
          r ← reply_to request_data state
          serve requests (enqueue_response r.0 conn) r.1
      ])

  -- The part for `POLLIN`
  unfoldable pub client_in : Ready → Connection → State → Run (Connection × State)
  unfolding handle_read serve
  client_in ready conn state =
      if ready.pollin
      then (if conn.want_read
          then (do r ← handle_read ready.read_result conn; serve r.0 r.1 state)
          else err aborted)
      else ok (conn, state)

  -- One client; none stands for a connection that was closed and deleted.
  unfoldable pub handle_client : Ready → Connection → State → Run (Option Connection × State)
  unfolding client_in client_out
  handle_client ready conn state = do
    r ← client_in ready conn state
    conn' ← client_out ready r.0
    ok ((if ready.pollerr_or_hup || conn'.want_close then none else some conn'), r.1)

  -- The client that stands at the place of the descriptor
  abbrev pub at_client :
      List (Option Connection)
      → State
      → Ready
      → Option (Option Connection)
      → Run (List (Option Connection) × State)
  at_client fd2conn state ready none = err undefined
  at_client fd2conn state ready (some none) = err undefined
  at_client fd2conn state ready (some (some conn)) = do
    r ← handle_client ready conn state
    ok (put_client fd2conn ready.ready_fd conn r.0, r.1)

  unfoldable pub handle_clients :
      List Ready → List (Option Connection) → State → Run (List (Option Connection) × State)
  unfolding handle_client
  handle_clients [] fd2conn state = ok (fd2conn, state)
  handle_clients (ready ∷ others) fd2conn state = do
    r ←
        (if not ready.pollin && not ready.pollout && not ready.pollerr_or_hup
          then ok (fd2conn, state)
          else at_client fd2conn state ready (get_elem? fd2conn ready.ready_fd))
    handle_clients others r.0 r.1

  -- One round of the loop behind `poll`: `accepted` is what `accept` returns, if the server's socket is ready.
  unfoldable pub round :
      Option ℕ
      → List Ready
      → List (Option Connection)
      → State
      → Run (List (Option Connection) × State)
  unfolding accept_client handle_clients
  round accepted clients fd2conn state =
      handle_clients clients (accept_client accepted fd2conn) state
