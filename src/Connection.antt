-- ===== src/Connection.antt =====
-- `Connection` of src/cpp/server/connection.h. What `read` and `write` do is an argument; buffers are lists
-- of bytes.
pub mod Framing
pub mod Pieces
pub mod Reads
use chrono_cache.Shared.{
  ℕ, zero, suc, ◌+◌, ◌*◌, ◌/◌, ◌%◌, ◌^◌, Bool, true, false, not, ◌||◌, Option, none, some, List, [],
  ◌∷◌, ◌++◌, length, take, drop, ltb, ◌==◌, if◌then◌else◌,
}
use chrono_cache.Shared.Run.{Run, ok, err, aborted, out_of_fuel, ◌>>=◌}
use chrono_cache.Shared.Text.{Bytes}

-- `k_max_msg`, `32 << 20`
abbrev pub k_max_msg : ℕ
k_max_msg = 32 * 2 ^ 20

pub record ReadResponse : Type 0 where
  pub success : Bool
  -- `data`
  pub request_data : Option Bytes

pub record Connection : Type 0 where
  pub fd : ℕ
  pub want_read : Bool
  pub want_write : Bool
  pub want_close : Bool
  pub incoming : Bytes
  pub outgoing : Bytes

-- What a call of `read` or `write` may do: it would block, the other side has closed, it fails, or it moves
-- bytes.
pub data ReadResult : Type 0 where
  read_would_block read_end read_failed : ReadResult
  received : Bytes → ReadResult

pub data WriteResult : Type 0 where
  write_would_block write_failed : WriteResult
  written : ℕ → WriteResult

-- `buf_append`
abbrev pub buf_append : Bytes → Bytes → Bytes
buf_append buf bytes = buf ++ bytes

-- `buf_consume`
abbrev pub buf_consume : Bytes → ℕ → Bytes
buf_consume buf n = drop n buf

-- The first four bytes as `ntohl` reads them, the highest first.
unfoldable pub ntohl : Bytes → ℕ
ntohl [] = 0
ntohl (a ∷ []) = 0
ntohl (a ∷ b ∷ []) = 0
ntohl (a ∷ b ∷ c ∷ []) = 0
ntohl (a ∷ b ∷ c ∷ d ∷ buf) = ((a * 256 + b) * 256 + c) * 256 + d

-- The four bytes of a `uint32_t` as `htonl` lays them out.
unfoldable pub htonl : ℕ → Bytes
htonl n = (n / (256 * 256 * 256)) % 256 ∷ (n / (256 * 256)) % 256 ∷ (n / 256) % 256 ∷ n % 256 ∷ []

abbrev pub no_request : ReadResponse
no_request = record { success = false; request_data = none }

-- Of an empty message at the buffer's end the code takes the address of the byte behind the buffer, which it
-- does not read; the model has no bytes there.
unfoldable pub try_one_request : Connection → ReadResponse × Connection
unfolding ntohl
try_one_request conn =
    let len = ntohl conn.incoming in
    if ltb (length conn.incoming) 4
    then (no_request, conn)
    else if ltb k_max_msg len
    then (no_request, record conn { want_close = true })
    else if ltb (length conn.incoming) (4 + len)
    then (no_request, conn)
    else (
      record { success = true; request_data = some (take len (drop 4 conn.incoming)) },
      record conn { incoming = buf_consume conn.incoming (4 + len) },
    )

abbrev is_none : Option Bytes → Bool
is_none none = true
is_none (some bytes) = false

-- The loop of `handle_read`, for `fuel` requests at most.
unfoldable pub drain : ℕ → Connection → Run (List ReadResponse × Connection)
unfolding try_one_request
drain zero conn = err out_of_fuel
drain (suc fuel) conn =
    let r = try_one_request conn in
    let rest = drain fuel r.1 in
    if not r.0.success || is_none r.0.request_data
    then ok ([], r.1)
    else (do more ← rest; ok (r.0 ∷ more.0, more.1))

-- A request takes four bytes at least.
unfoldable pub handle_read : ReadResult → Connection → Run (List ReadResponse × Connection)
unfolding drain
handle_read read_would_block conn = ok ([], conn)
handle_read read_end conn = ok ([], record conn { want_close = true })
handle_read read_failed conn = ok ([], record conn { want_close = true })
handle_read (received buf) conn =
    let incoming = buf_append conn.incoming buf in
    drain (suc (length incoming)) (record conn { incoming = incoming })

abbrev pub write_done : Connection → Connection
write_done conn =
    if length conn.outgoing == 0 then record conn { want_read = true; want_write = false } else conn

unfoldable pub handle_write : WriteResult → Connection → Run Connection
handle_write result conn =
    if length conn.outgoing == 0
    then err aborted
    else ok (elim result [
      | write_would_block ↦ conn
      | write_failed ↦ record conn { want_close = true }
      | written n ↦ write_done (record conn { outgoing = buf_consume conn.outgoing n })
    ])

unfoldable pub enqueue_response : Bytes → Connection → Connection
unfolding htonl
enqueue_response response conn = record conn {
  outgoing = buf_append (buf_append conn.outgoing (htonl (length response % 2 ^ 32))) response;
  want_read = false;
  want_write = true;
}

-- `handle_accept` on the descriptor that `accept` returns
unfoldable pub handle_accept : ℕ → Connection
handle_accept connfd = record {
  fd = connfd;
  want_read = true;
  want_write = false;
  want_close = false;
  incoming = [];
  outgoing = [];
}
