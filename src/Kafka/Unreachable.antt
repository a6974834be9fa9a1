-- ===== src/Kafka/Unreachable.antt =====
-- When the consumer of src/cpp/cache/kafka_logging/consumer.cpp gives up.
use chrono_cache.Shared.{
  ℕ, ◌+◌, ◌≤◌, ◌<◌, ◌≡◌, ap, ◌∙◌, List, [], ◌∷◌, ◌++◌, inl, inr, le_or_lt, arith,
}
use Prim.Native.String.{String}
use chrono_cache.Shared.Run.{Run, err, exception, ◌>>=◌}
use chrono_cache.Shared.Text.{Bytes}
use chrono_cache.Kafka.{
  CacheEvent, Json, Message, no_error, partition_eof, timed_out, other_error, num_partitions,
  read_event, consume_events, consume_all_events,
}
use chrono_cache.Kafka.Loop.{
  ends, timeouts, AreSilent, IsCaught, kept, push_event-kept, read_event-IsCaught,
  consume_events-no_error, consume_events-partition_eof, consume_events-other_error,
  consume_events-timed_out, consume_events-unreachable,
}

-- The call throws a `std::runtime_error`.
abbrev pub Throws {ℓ} : {A : Type ℓ} → Run A → Type ℓ
Throws call = (what : String) × (call ≡ err (exception what))

module _ (parse_json : Bytes → Run Json)
    (caught : (text : Bytes) → IsCaught (parse_json text)) where
  gives_up_late :
      (silent rest : List Message) (n t : ℕ) (events : List CacheEvent)
      → AreSilent silent
      → n < num_partitions
      → t < 3
      → 3 ≤ t + timeouts silent
      → Throws (consume_events parse_json (silent ++ rest) n t events)
  gives_up_late [] rest n t events quiet more early late = absurd (omega arith)
  gives_up_late (no_error payload ∷ ms) rest n t events quiet more early late = absurd quiet
  gives_up_late (partition_eof ∷ ms) rest n t events quiet more early late = absurd quiet
  gives_up_late (timed_out ∷ ms) rest n t events quiet more early late = elim (le_or_lt 3 (t + 1)) [
    | inl last ↦ (_, consume_events-unreachable parse_json n more (ms ++ rest) t events last)
    | inr sooner ↦
        let (what, e) = gives_up_late ms rest n (t + 1) events quiet more sooner (omega arith) in
        (what, consume_events-timed_out parse_json n more (ms ++ rest) t events sooner ∙ e)
  ]
  gives_up_late (other_error ∷ ms) rest n t events quiet more early late =
      let (what, e) = gives_up_late ms rest n t events quiet more early late in
      (what, consume_events-other_error parse_json n more (ms ++ rest) t events ∙ e)

  gives_up :
      (ms silent rest : List Message) (n t : ℕ) (events : List CacheEvent)
      → AreSilent silent
      → n + ends ms < num_partitions
      → t < 3
      → 3 ≤ timeouts silent
      → Throws (consume_events parse_json (ms ++ silent ++ rest) n t events)
  gives_up [] silent rest n t events quiet more early late =
      gives_up_late silent rest n t events quiet (omega arith) early (omega arith)
  gives_up (no_error payload ∷ ms) silent rest n t events quiet more early late =
      let call = read_event parse_json payload in
      let (what, e) =
        gives_up ms silent rest n 0 (events ++ kept call) quiet more (omega arith) late in
      (
        what,
        consume_events-no_error parse_json n (omega arith) (ms ++ silent ++ rest) t events payload
            ∙ ap
                (λ (r : Run (List CacheEvent)).
                  r >>= consume_events parse_json (ms ++ silent ++ rest) n 0)
                (push_event-kept call events (read_event-IsCaught parse_json caught payload))
            ∙ e,
      )
  gives_up (partition_eof ∷ ms) silent rest n t events quiet more early late =
      let (what, e) =
        gives_up ms silent rest (n + 1) 0 events quiet (omega arith) (omega arith) late in
      (
        what,
        consume_events-partition_eof parse_json n (omega arith) (ms ++ silent ++ rest) t events ∙ e,
      )
  gives_up (timed_out ∷ ms) silent rest n t events quiet more early late =
      elim (le_or_lt 3 (t + 1)) [
        | inl last ↦ (
          _,
          consume_events-unreachable parse_json n (omega arith) (ms ++ silent ++ rest) t events
              last,
        )
        | inr sooner ↦
            let (what, e) = gives_up ms silent rest n (t + 1) events quiet more sooner late in
            (
              what,
              consume_events-timed_out parse_json n (omega arith) (ms ++ silent ++ rest) t events
                    sooner
                  ∙ e,
            )
      ]
  gives_up (other_error ∷ ms) silent rest n t events quiet more early late =
      let (what, e) = gives_up ms silent rest n t events quiet more early late in
      (
        what,
        consume_events-other_error parse_json n (omega arith) (ms ++ silent ++ rest) t events ∙ e,
      )

  -- Where reading the JSON of a payload throws nothing but exceptions: if a stretch of timeouts
  -- and other errors with three timeouts at least comes before the end of the fourth partition,
  -- the consumer throws.
  pub consume_all_events_unreachable :
      (ms silent rest : List Message)
      → ends ms < num_partitions
      → AreSilent silent
      → 3 ≤ timeouts silent
      → Throws (consume_all_events parse_json (ms ++ silent ++ rest))
  unfolding consume_all_events
  consume_all_events_unreachable ms silent rest more quiet late =
      gives_up ms silent rest 0 0 [] quiet (omega arith) (omega arith) late
