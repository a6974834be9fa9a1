-- ===== src/Connection/Pieces.antt =====
-- A stream of requests that `read` gives in pieces (src/cpp/server/connection.h).
use chrono_cache.Shared.{
  ◌+◌, ◌≤◌, ◌<◌, ◌≡◌, refl, sym, ap, ◌∙◌, subst, List, [], ◌∷◌, ◌++◌, map, append-nil, append_assoc,
  length, drop, arith, inl, inr, le_or_lt, length-append,
}
use chrono_cache.Shared.Run.{Run, ok, ◌>>=◌}
use chrono_cache.Shared.Text.{Bytes}
use chrono_cache.Connection.{
  Connection, ReadResponse, received, handle_read, ntohl, htonl, k_max_msg,
}
use chrono_cache.Connection.Framing.{
  frame, frames, request_of, AreAllowed, IsPartial, ntohl-htonl, length-frame, handle_read-frames,
}

-- Reading the pieces one after the other; the requests of each are kept in order.
abbrev pub read_all : List Bytes → Connection → Run (List ReadResponse × Connection)
read_all [] conn = ok ([], conn)
read_all (buf ∷ bufs) conn = do
  r ← handle_read (received buf) conn
  more ← read_all bufs r.1
  ok (r.0 ++ more.0, more.1)

abbrev pub join : List Bytes → Bytes
join [] = []
join (buf ∷ bufs) = buf ++ join bufs

ntohl-append : (s t : Bytes) → 4 ≤ length s → ntohl (s ++ t) ≡ ntohl s
unfolding ntohl
ntohl-append [] t h = absurd (omega arith)
ntohl-append (a ∷ []) t h = absurd (omega arith)
ntohl-append (a ∷ b ∷ []) t h = absurd (omega arith)
ntohl-append (a ∷ b ∷ c ∷ []) t h = absurd (omega arith)
ntohl-append (a ∷ b ∷ c ∷ d ∷ s) t h = refl

-- The front of a message that is not whole is not whole.
front-IsPartial : (s t : Bytes) → IsPartial (s ++ t) → IsPartial s
front-IsPartial s t (inl short) = inl (omega (arith, length-append s t))
front-IsPartial s t (inr (allowed, short)) = elim (le_or_lt 4 (length s)) [
  | inl long ↦
      let same = ntohl-append s t long in
      inr (
        subst (λ n. n ≤ k_max_msg) same allowed,
        omega (arith, length-append s t, subst (λ n. length (s ++ t) < 4 + n) same short),
      )
  | inr short ↦ inl short
]

-- A part of a message is not whole.
frame-IsPartial :
    (s t message rest : Bytes)
    → length message ≤ k_max_msg
    → s ++ t ≡ frame message ++ rest
    → length s < 4 + length message
    → IsPartial s
frame-IsPartial s t message rest allowed e short = elim (le_or_lt 4 (length s)) [
  | inl long ↦
      let len : ntohl s ≡ length message =
        sym (ntohl-append s t long)
        ∙ ap ntohl (e ∙ append_assoc (htonl (length message)) message rest)
        ∙ ntohl-htonl (length message) (message ++ rest) (omega arith) in
      inr (omega (arith, len), omega (arith, len))
  | inr cut ↦ inl cut
]

-- A whole message is no part of one.
frame_whole :
    (message rest : Bytes) → length message ≤ k_max_msg → IsPartial (frame message ++ rest) → ⊥
frame_whole message rest allowed (inl short) = omega (arith, length-frame message rest)
frame_whole message rest allowed (inr (small, short)) =
    let len : ntohl (frame message ++ rest) ≡ length message =
      ap ntohl (append_assoc (htonl (length message)) message rest)
      ∙ ntohl-htonl (length message) (message ++ rest) (omega arith) in
    omega (arith, len, length-frame message rest)

-- What stands behind `a` in a text that starts with it.
behind_front :
    (a s t b : Bytes)
    → s ++ t ≡ a ++ b
    → length a ≤ length s
    → (s ≡ a ++ drop (length a) s) × (drop (length a) s ++ t ≡ b)
behind_front [] s t b e h = (refl, e)
behind_front (x ∷ a) [] t b e h = absurd (omega arith)
behind_front (x ∷ a) (y ∷ s) t b e h =
    let (front, behind) = behind_front a s t b (cc e) (omega arith) in (cc (e, front), behind)

-- How the first piece of a stream cuts the messages.
pub record Cut (s t : Bytes) (messages : List Bytes) (rest : Bytes) : Type 0 where
  before : List Bytes
  after : List Bytes
  part : Bytes
  all : messages ≡ before ++ after
  front : s ≡ frames before ++ part
  partial : IsPartial part
  behind : part ++ t ≡ frames after ++ rest
  before_allowed : AreAllowed before
  after_allowed : AreAllowed after

split_stream :
    (messages : List Bytes) (s t rest : Bytes)
    → AreAllowed messages
    → IsPartial rest
    → s ++ t ≡ frames messages ++ rest
    → Cut s t messages rest
split_stream [] s t rest allowed partial e = record {
  before = [];
  after = [];
  part = s;
  all = refl;
  front = refl;
  partial = front-IsPartial s t (subst IsPartial (sym e) partial);
  behind = e;
  before_allowed = tt;
  after_allowed = tt;
}
split_stream (message ∷ messages) s t rest (fits, allowed) partial e =
    let split : s ++ t ≡ frame message ++ (frames messages ++ rest) =
      e ∙ append_assoc (frame message) (frames messages) rest in
    elim (le_or_lt (4 + length message) (length s)) [
      | inl long ↦
          let (front, behind) =
            behind_front (frame message) s t (frames messages ++ rest) split
              (omega (arith, length-frame message [], ap length (append-nil (frame message)))) in
          let c =
            split_stream messages (drop (length (frame message)) s) t rest allowed partial behind in
          record {
            before = message ∷ c.before;
            after = c.after;
            part = c.part;
            all = ap (λ ms. message ∷ ms) c.all;
            front =
                front
                ∙ ap (λ u. frame message ++ u) c.front
                ∙ sym (append_assoc (frame message) (frames c.before) c.part);
            partial = c.partial;
            behind = c.behind;
            before_allowed = (fits, c.before_allowed);
            after_allowed = c.after_allowed;
          }
      | inr short ↦ record {
        before = [];
        after = message ∷ messages;
        part = s;
        all = refl;
        front = refl;
        partial = frame-IsPartial s t message (frames messages ++ rest) fits split short;
        behind = e;
        before_allowed = tt;
        after_allowed = (fits, allowed);
      }
    ]

map-append :
    (ms ns : List Bytes) → map request_of (ms ++ ns) ≡ map request_of ms ++ map request_of ns
map-append [] ns = refl
map-append (m ∷ ms) ns = ap (λ rs. request_of m ∷ rs) (map-append ms ns)

-- However a stream of framed messages, none larger than 32 MiB, with the beginning of a further
-- message behind them, is cut into the pieces that `read` gives to a connection that holds the
-- beginning of a message, the requests that are found are exactly the messages in their order,
-- and the beginning of the further message is kept.
pub read_all-frames :
    (bufs : List Bytes) (messages : List Bytes) (rest : Bytes) (conn : Connection)
    → AreAllowed messages
    → IsPartial rest
    → IsPartial conn.incoming
    → conn.incoming ++ join bufs ≡ frames messages ++ rest
    → read_all bufs conn ≡ ok (map request_of messages, record conn { incoming = rest })
read_all-frames [] [] rest conn allowed partial waiting e =
    ap (λ i. ok ([], record conn { incoming = i })) (sym (append-nil conn.incoming) ∙ e)
read_all-frames [] (message ∷ messages) rest conn (fits, allowed) partial waiting e =
    let split : conn.incoming ≡ frame message ++ (frames messages ++ rest) =
      sym (append-nil conn.incoming) ∙ e ∙ append_assoc (frame message) (frames messages) rest in
    absurd (frame_whole message (frames messages ++ rest) fits (subst IsPartial split waiting))
read_all-frames (buf ∷ bufs) messages rest conn allowed partial waiting e =
    let c =
      split_stream messages (conn.incoming ++ buf) (join bufs) rest allowed partial
        (append_assoc conn.incoming buf (join bufs) ∙ e) in
    rw
      (
        handle_read-frames buf c.before c.part conn c.before_allowed c.partial c.front,
        read_all-frames bufs c.after rest (record conn { incoming = c.part }) c.after_allowed
            partial c.partial c.behind,
      )
      (ap (λ rs. ok (rs, record conn { incoming = rest }))
        (sym (map-append c.before c.after) ∙ ap (map request_of) (sym c.all)))
