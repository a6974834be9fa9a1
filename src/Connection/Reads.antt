-- ===== src/Connection/Reads.antt =====
-- `handle_read` of src/cpp/server/connection.h on any bytes.
use chrono_cache.Shared.{
  ℕ, zero, suc, ◌+◌, ◌<◌, ◌≡◌, refl, ap, ◌∙◌, true, List, [], ◌∷◌, ◌++◌, map, length, take, drop,
  ltb, arith, Bool-cases, inl, inr, ◌⊎◌, ltb→lt,
}
use chrono_cache.Shared.Run.{Returns}
use chrono_cache.Shared.Text.{Bytes, length-drop}
use chrono_cache.Connection.{
  Connection, ReadResponse, ReadResult, received, read_would_block, read_end, read_failed,
  handle_read, drain, try_one_request, ntohl, k_max_msg, no_request,
}
use chrono_cache.Connection.Framing.{request_of, IsPartial}

-- Two connections that differ in what was read only.
pub record Kept (conn conn' : Connection) : Type 0 where
  pub fd : conn'.fd ≡ conn.fd
  pub want_read : conn'.want_read ≡ conn.want_read
  pub want_write : conn'.want_write ≡ conn.want_write
  pub outgoing : conn'.outgoing ≡ conn.outgoing

kept : (conn : Connection) → Kept conn conn
kept conn = record { fd = refl; want_read = refl; want_write = refl; outgoing = refl }

keep_twice : {a b c : Connection} → Kept a b → Kept b c → Kept a c
keep_twice h g = record {
  fd = g.fd ∙ h.fd;
  want_read = g.want_read ∙ h.want_read;
  want_write = g.want_write ∙ h.want_write;
  outgoing = g.outgoing ∙ h.outgoing;
}

closed : (conn : Connection) → Kept conn (record conn { want_close = true })
closed conn = record { fd = refl; want_read = refl; want_write = refl; outgoing = refl }

filled_keeps :
    (conn : Connection) (buf : Bytes) → Kept conn (record conn { incoming = conn.incoming ++ buf })
filled_keeps conn buf = record { fd = refl; want_read = refl; want_write = refl; outgoing = refl }

-- Nothing whole is left behind, unless the connection is to be closed.
abbrev pub IsDrained : Connection → Type 0
IsDrained conn = (conn.want_close ≡ true) ⊎ IsPartial conn.incoming

-- What one attempt to find a request does.
data Attempt (conn : Connection) : Type 0 where
  stopped :
      (conn' : Connection)
      → try_one_request conn ≡ (no_request, conn')
      → Kept conn conn'
      → IsDrained conn'
      → Attempt conn
  found :
      (message : Bytes) (conn' : Connection)
      → try_one_request conn ≡ (request_of message, conn')
      → Kept conn conn'
      → length conn'.incoming < length conn.incoming
      → Attempt conn

attempt : (conn : Connection) → Attempt conn
unfolding try_one_request
attempt conn =
    let len = ntohl conn.incoming in
    elim (Bool-cases (ltb (length conn.incoming) 4)) [
      | inl h ↦ stopped conn (rw h refl) (kept conn) (inr (inl (ltb→lt (length conn.incoming) 4 h)))
      | inr h ↦ elim (Bool-cases (ltb k_max_msg len)) [
        | inl large ↦
            stopped (record conn { want_close = true }) (rw (h, large) refl)
              (record { fd = refl; want_read = refl; want_write = refl; outgoing = refl })
              (inl refl)
        | inr fits ↦ elim (Bool-cases (ltb (length conn.incoming) (4 + len))) [
          | inl short ↦
              stopped conn (rw (h, fits, short) refl) (kept conn)
                (inr (inr (ground (arith, fits), ltb→lt (length conn.incoming) (4 + len) short)))
          | inr whole ↦
              found (take len (drop 4 conn.incoming))
                (record conn { incoming = drop (4 + len) conn.incoming }) (rw (h, fits, whole) refl)
                (record { fd = refl; want_read = refl; want_write = refl; outgoing = refl })
                (omega (arith, length-drop (4 + len) conn.incoming (ground (arith, whole))))
        ]
      ]
    ]

-- The result of a loop over what was read.
abbrev pub IsRead : Connection → List ReadResponse × Connection → Type 0
IsRead conn r =
    (messages : List Bytes) × (r.0 ≡ map request_of messages) × Kept conn r.1 × IsDrained r.1

drain-Returns :
    (fuel : ℕ) (conn : Connection)
    → length conn.incoming < fuel
    → Returns (drain fuel conn) (IsRead conn)
unfolding drain
drain-Returns zero conn enough = absurd (omega arith)
drain-Returns (suc fuel) conn enough = elim (attempt conn) [
  | stopped conn' e keep drained ↦ (([], conn'), rw e refl, ([], refl, keep, drained))
  | found message conn' e keep shorter ↦
      let (r, run, (messages, all, more, drained)) = drain-Returns fuel conn' (omega arith) in
      (
        (request_of message ∷ r.0, r.1),
        rw (e, run) refl,
        (message ∷ messages, ap (λ rs. request_of message ∷ rs) all, keep_twice keep more, drained),
      )
]

-- Whatever `read` does and whatever bytes it gives, on a connection that holds no whole request
-- or is to be closed, `handle_read` returns: its answers are requests that were read whole, it
-- changes neither the descriptor, nor what is wanted of `poll`, nor the buffer to be written, and
-- it leaves no whole request behind unless the connection is to be closed.
pub handle_read-Returns :
    (result : ReadResult) (conn : Connection)
    → IsDrained conn
    → Returns (handle_read result conn) (IsRead conn)
unfolding handle_read
handle_read-Returns read_would_block conn drained =
    (([], conn), refl, ([], refl, kept conn, drained))
handle_read-Returns read_end conn drained =
    (([], record conn { want_close = true }), refl, ([], refl, closed conn, inl refl))
handle_read-Returns read_failed conn drained =
    (([], record conn { want_close = true }), refl, ([], refl, closed conn, inl refl))
handle_read-Returns (received buf) conn drained =
    let filled = record conn { incoming = conn.incoming ++ buf } in
    let (r, run, (messages, all, keep, left)) =
      drain-Returns (suc (length filled.incoming)) filled (omega arith) in
    (r, run, (messages, all, keep_twice (filled_keeps conn buf) keep, left))
