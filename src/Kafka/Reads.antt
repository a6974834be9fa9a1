-- ===== src/Kafka/Reads.antt =====
-- What the consumer of src/cpp/cache/kafka_logging/consumer.cpp reads.
use chrono_cache.Shared.{
  ℕ, ◌+◌, ◌<◌, ◌≡◌, refl, sym, ap, ◌∙◌, List, [], ◌∷◌, ◌++◌, append-nil, append_assoc, arith,
}
use chrono_cache.Shared.Run.{Run, ok, ◌>>=◌}
use chrono_cache.Shared.Text.{Bytes}
use chrono_cache.Kafka.{
  CacheEvent, Json, Message, no_error, partition_eof, timed_out, other_error, num_partitions,
  read_event, consume_events, consume_all_events,
}
use chrono_cache.Kafka.Loop.{
  ends, timeouts, AreSilent, IsCaught, kept, push_event-kept, read_event-IsCaught,
  consume_events_done, consume_events-no_error, consume_events-partition_eof,
  consume_events-other_error, consume_events-timed_out,
}

-- No stretch of timeouts and other errors has three timeouts.
abbrev pub IsCalm : List Message → Type 0
IsCalm ms =
    (front middle back : List Message)
    → ms ≡ front ++ middle ++ back
    → AreSilent middle
    → timeouts middle < 3

-- The same for a stretch at the front, behind `t` timeouts.
abbrev StartsCalm : ℕ → List Message → Type 0
StartsCalm t ms =
    (middle back : List Message) → ms ≡ middle ++ back → AreSilent middle → t + timeouts middle < 3

IsCalm-tail : (m : Message) (ms : List Message) → IsCalm (m ∷ ms) → IsCalm ms
IsCalm-tail m ms calm front middle back e = calm (m ∷ front) middle back (ap (λ xs. m ∷ xs) e)

IsCalm-StartsCalm : (ms : List Message) → IsCalm ms → StartsCalm 0 ms
IsCalm-StartsCalm ms calm middle back e silent =
    let few : timeouts middle < 3 = calm [] middle back e silent in omega arith

StartsCalm-timed_out :
    (t : ℕ) (ms : List Message) → StartsCalm t (timed_out ∷ ms) → StartsCalm (t + 1) ms
StartsCalm-timed_out t ms calm middle back e silent =
    let few : t + (1 + timeouts middle) < 3 =
      calm (timed_out ∷ middle) back (ap (λ xs. timed_out ∷ xs) e) silent in
    omega arith

StartsCalm-other_error :
    (t : ℕ) (ms : List Message) → StartsCalm t (other_error ∷ ms) → StartsCalm t ms
StartsCalm-other_error t ms calm middle back e silent =
    calm (other_error ∷ middle) back (ap (λ xs. other_error ∷ xs) e) silent

StartsCalm-next : (t : ℕ) (ms : List Message) → StartsCalm t (timed_out ∷ ms) → t + 1 < 3
StartsCalm-next t ms calm = calm (timed_out ∷ []) ms refl tt

-- The events of the messages that can be read, in their order.
module _ (parse_json : Bytes → Run Json) where
  abbrev pub events_in : List Message → List CacheEvent
  events_in [] = []
  events_in (no_error payload ∷ ms) = kept (read_event parse_json payload) ++ events_in ms
  events_in (partition_eof ∷ ms) = events_in ms
  events_in (timed_out ∷ ms) = events_in ms
  events_in (other_error ∷ ms) = events_in ms

module _ (parse_json : Bytes → Run Json)
    (caught : (text : Bytes) → IsCaught (parse_json text)) where
  consume_events-reads :
      (ms rest : List Message) (n t : ℕ) (events : List CacheEvent)
      → IsCalm ms
      → StartsCalm t ms
      → n + ends ms + 1 ≡ num_partitions
      → consume_events parse_json (ms ++ partition_eof ∷ rest) n t events
        ≡ ok (events ++ events_in parse_json ms)
  consume_events-reads [] rest n t events calm starts few =
      consume_events-partition_eof parse_json n (omega arith) rest t events
      ∙ consume_events_done parse_json rest (n + 1) 0 events (omega arith)
      ∙ ap ok (sym (append-nil events))
  consume_events-reads (no_error payload ∷ ms) rest n t events calm starts few =
      let call = read_event parse_json payload in
      let quiet : IsCalm ms = IsCalm-tail (no_error payload) ms calm in
      consume_events-no_error parse_json n (omega arith) (ms ++ partition_eof ∷ rest) t events
        payload
      ∙ ap
          (λ (r : Run (List CacheEvent)).
            r >>= consume_events parse_json (ms ++ partition_eof ∷ rest) n 0)
          (push_event-kept call events (read_event-IsCaught parse_json caught payload))
      ∙ consume_events-reads ms rest n 0 (events ++ kept call) quiet (IsCalm-StartsCalm ms quiet)
          few
      ∙ ap ok (append_assoc events (kept call) (events_in parse_json ms))
  consume_events-reads (partition_eof ∷ ms) rest n t events calm starts few =
      let quiet : IsCalm ms = IsCalm-tail partition_eof ms calm in
      consume_events-partition_eof parse_json n (omega arith) (ms ++ partition_eof ∷ rest) t events
      ∙ consume_events-reads ms rest (n + 1) 0 events quiet (IsCalm-StartsCalm ms quiet)
          (omega arith)
  consume_events-reads (timed_out ∷ ms) rest n t events calm starts few =
      consume_events-timed_out parse_json n (omega arith) (ms ++ partition_eof ∷ rest) t events
        (StartsCalm-next t ms starts)
      ∙ consume_events-reads ms rest n (t + 1) events (IsCalm-tail timed_out ms calm)
          (StartsCalm-timed_out t ms starts) few
  consume_events-reads (other_error ∷ ms) rest n t events calm starts few =
      consume_events-other_error parse_json n (omega arith) (ms ++ partition_eof ∷ rest) t events
      ∙ consume_events-reads ms rest n t events (IsCalm-tail other_error ms calm)
          (StartsCalm-other_error t ms starts) few

  -- Where reading the JSON of a payload throws nothing but exceptions: if no stretch of timeouts
  -- and other errors has three timeouts, the consumer stops at the fourth end of a partition,
  -- whatever follows, and returns the events of the payloads that can be read, in their order;
  -- the other payloads are skipped.
  pub consume_all_events-reads :
      (ms rest : List Message)
      → IsCalm ms
      → ends ms + 1 ≡ num_partitions
      → consume_all_events parse_json (ms ++ partition_eof ∷ rest) ≡ ok (events_in parse_json ms)
  unfolding consume_all_events
  consume_all_events-reads ms rest calm few =
      consume_events-reads ms rest 0 0 [] calm (IsCalm-StartsCalm ms calm) (omega arith)
