-- ===== src/Connection/Framing.antt =====
-- The requests that src/cpp/server/connection.h finds in what it has read.
use chrono_cache.Shared.{
  ℕ, zero, suc, ◌+◌, ◌^◌, ◌≤◌, ◌<◌, ◌≡◌, refl, sym, ap, ◌∙◌, subst, true, false, some, List, [],
  ◌∷◌, ◌++◌, map, append_assoc, length, drop, ltb, arith, Bool-cases, inl, inr, ◌⊎◌, lt→ltb,
  length-append,
}
use chrono_cache.Shared.Run.{ok}
use chrono_cache.Shared.Text.{Bytes, take-append, drop-append}
use chrono_cache.Connection.{
  Connection, ReadResponse, received, handle_read, drain, try_one_request, ntohl, htonl, k_max_msg,
  no_request,
}

-- A message behind its length.
abbrev pub frame : Bytes → Bytes
frame message = htonl (length message) ++ message

-- Messages one behind the other.
abbrev pub frames : List Bytes → Bytes
frames [] = []
frames (message ∷ messages) = frame message ++ frames messages

abbrev pub request_of : Bytes → ReadResponse
request_of message = record { success = true; request_data = some message }

-- No message is larger than the server takes.
abbrev pub AreAllowed : List Bytes → Type 0
AreAllowed [] = Unit
AreAllowed (message ∷ messages) = (length message ≤ k_max_msg) × AreAllowed messages

-- The beginning of a message that is not too large: its length is cut off, or its bytes are.
abbrev pub IsPartial : Bytes → Type 0
IsPartial rest = (length rest < 4) ⊎ ((ntohl rest ≤ k_max_msg) × (length rest < 4 + ntohl rest))

pub ntohl-htonl : (n : ℕ) (rest : Bytes) → n < 2 ^ 32 → ntohl (htonl n ++ rest) ≡ n
unfolding ntohl htonl
ntohl-htonl n rest small = omega arith

length-htonl : (n : ℕ) (rest : Bytes) → length (htonl n ++ rest) ≡ 4 + length rest
unfolding htonl
length-htonl n rest = omega arith

drop-htonl : (n : ℕ) (rest : Bytes) → drop 4 (htonl n ++ rest) ≡ rest
unfolding htonl
drop-htonl n rest = refl

pub length-frame :
    (message rest : Bytes) → length (frame message ++ rest) ≡ 4 + length message + length rest
length-frame message rest =
    ap length (append_assoc (htonl (length message)) message rest)
    ∙ length-htonl (length message) (message ++ rest)
    ∙ omega (arith, length-append message rest)

drop_nil : (n : ℕ) → drop {A = ℕ} n [] ≡ []
drop_nil zero = refl
drop_nil (suc n) = refl

drop_more : (n m : ℕ) (s : Bytes) → drop n (drop m s) ≡ drop (m + n) s
drop_more n zero s = ap (λ k. drop k s) (omega arith)
drop_more n (suc m) [] = drop_nil n ∙ sym (drop_nil (suc m + n))
drop_more n (suc m) (x ∷ s) =
    let step : suc (m + n) ≡ suc m + n = omega arith in
    drop_more n m s ∙ ap (λ k. drop k (x ∷ s)) step

-- A whole message in front is taken off.
try_one_request-frame :
    (conn : Connection) (message rest : Bytes)
    → length message ≤ k_max_msg
    → conn.incoming ≡ frame message ++ rest
    → try_one_request conn ≡ (request_of message, record conn { incoming = rest })
unfolding try_one_request
try_one_request-frame conn message rest allowed e =
    let split : conn.incoming ≡ htonl (length message) ++ (message ++ rest) =
      e ∙ append_assoc (htonl (length message)) message rest in
    let len : ntohl conn.incoming ≡ length message =
      ap ntohl split ∙ ntohl-htonl (length message) (message ++ rest) (omega arith) in
    let size : length conn.incoming ≡ 4 + length message + length rest =
      ap length split
      ∙ length-htonl (length message) (message ++ rest)
      ∙ omega (arith, length-append message rest) in
    let behind : drop 4 conn.incoming ≡ message ++ rest =
      ap (drop 4) split ∙ drop-htonl (length message) (message ++ rest) in
    let after : drop (4 + length message) conn.incoming ≡ rest =
      sym (drop_more (length message) 4 conn.incoming)
      ∙ ap (drop (length message)) behind
      ∙ drop-append message rest in
    let long : ltb (length conn.incoming) 4 ≡ false = ground (arith, size) in
    let fits : ltb k_max_msg (length message) ≡ false = ground arith in
    let whole : ltb (length conn.incoming) (4 + length message) ≡ false = ground (arith, size) in
    rw (len, long, fits, whole, behind, after, take-append message rest) refl

-- Where the next message is not whole, nothing changes.
try_one_request-partial :
    (conn : Connection) → IsPartial conn.incoming → try_one_request conn ≡ (no_request, conn)
unfolding try_one_request
try_one_request-partial conn (inl short) = rw (lt→ltb (length conn.incoming) 4 short) refl
try_one_request-partial conn (inr (allowed, short)) =
    let fits : ltb k_max_msg (ntohl conn.incoming) ≡ false = ground arith in
    elim (Bool-cases (ltb (length conn.incoming) 4)) [
      | inl h ↦ rw h refl
      | inr h ↦ rw (h, fits, lt→ltb (length conn.incoming) (4 + ntohl conn.incoming) short) refl
    ]

-- The loop takes off the whole messages in front, and stops at what is not whole.
drain-frames :
    (fuel : ℕ) (messages : List Bytes) (rest : Bytes) (conn : Connection)
    → length conn.incoming < fuel
    → AreAllowed messages
    → IsPartial rest
    → conn.incoming ≡ frames messages ++ rest
    → drain fuel conn ≡ ok (map request_of messages, record conn { incoming = rest })
unfolding drain
drain-frames zero messages rest conn enough allowed partial e = absurd (omega arith)
drain-frames (suc fuel) [] rest conn enough allowed partial e =
    rw (try_one_request-partial conn (subst IsPartial (sym e) partial))
      (ap (λ i. ok ([], record conn { incoming = i })) e)
drain-frames (suc fuel) (message ∷ messages) rest conn enough (fits, allowed) partial e =
    let split : conn.incoming ≡ frame message ++ (frames messages ++ rest) =
      e ∙ append_assoc (frame message) (frames messages) rest in
    let shorter : length (frames messages ++ rest) < length conn.incoming =
      subst (λ n. length (frames messages ++ rest) < n) (sym (ap length split))
        (omega (arith, length-frame message (frames messages ++ rest))) in
    rw
      (
        try_one_request-frame conn message (frames messages ++ rest) fits split,
        drain-frames fuel messages rest (record conn { incoming = frames messages ++ rest })
            (omega arith) allowed partial refl,
      )
      refl

-- Whatever was read before, what is read is answered with the whole messages in front, in their order, and the
-- rest stays.
pub handle_read-frames :
    (buf : Bytes) (messages : List Bytes) (rest : Bytes) (conn : Connection)
    → AreAllowed messages
    → IsPartial rest
    → conn.incoming ++ buf ≡ frames messages ++ rest
    → handle_read (received buf) conn
      ≡ ok (map request_of messages, record conn { incoming = rest })
unfolding handle_read
handle_read-frames buf messages rest conn allowed partial e =
    drain-frames (suc (length (conn.incoming ++ buf))) messages rest
      (record conn { incoming = conn.incoming ++ buf }) (omega arith) allowed partial e
