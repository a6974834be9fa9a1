-- ===== src/Kafka/RoundTrip.antt =====
-- Events that the producer of src/cpp/cache/kafka_logging/producer.cpp sends and the consumer of
-- consumer.cpp reads.
use chrono_cache.Shared.{
  ◌+◌, ◌≡◌, refl, sym, ap, ◌∙◌, true, List, [], ◌∷◌, ◌++◌, append-nil, append_assoc, inl, inr, ◌⊎◌,
}
use chrono_cache.Shared.Run.{Run, ok, err, Error, ◌>>=◌}
use chrono_cache.Shared.Text.{Bytes}
use chrono_cache.Kafka.{
  CacheEvent, Json, json_of, Message, no_error, partition_eof, timed_out, other_error,
  produce_cache_event, num_partitions, read_event, consume_all_events,
}
use chrono_cache.Kafka.Loop.{ends, IsCaught, kept, read_type}
use chrono_cache.Kafka.Reads.{IsCalm, events_in, consume_all_events-reads}

-- The producer is given the events one after the other, and the client takes every payload.
abbrev pub produce_all : (Json → Run Bytes) → List CacheEvent → List Bytes → Run (List Bytes)
produce_all dump [] taken = ok taken
produce_all dump (event ∷ events) taken =
    produce_cache_event dump (λ payload. true) event taken >>= produce_all dump events

abbrev pub payloads : List Message → List Bytes
payloads [] = []
payloads (no_error payload ∷ ms) = payload ∷ payloads ms
payloads (partition_eof ∷ ms) = payloads ms
payloads (timed_out ∷ ms) = payloads ms
payloads (other_error ∷ ms) = payloads ms

Run-cases {ℓ} :
    {A : Type ℓ} (call : Run A)
    → ((value : A) × (call ≡ ok value)) ⊎ ((problem : Error) × (call ≡ err problem))
Run-cases (ok value) = inl (value, refl)
Run-cases (err problem) = inr (problem, refl)

-- What `dump` writes is what `json::parse` reads.
module _ (dump : Json → Run Bytes) (parse_json : Bytes → Run Json)
    (reads : (j : Json) (text : Bytes) → dump j ≡ ok text → parse_json text ≡ ok j) where
  abbrev events_of : List Bytes → List CacheEvent
  events_of [] = []
  events_of (text ∷ texts) = kept (read_event parse_json text) ++ events_of texts

  events_in-payloads : (ms : List Message) → events_in parse_json ms ≡ events_of (payloads ms)
  events_in-payloads [] = refl
  events_in-payloads (no_error payload ∷ ms) =
      ap (λ xs. kept (read_event parse_json payload) ++ xs) (events_in-payloads ms)
  events_in-payloads (partition_eof ∷ ms) = events_in-payloads ms
  events_in-payloads (timed_out ∷ ms) = events_in-payloads ms
  events_in-payloads (other_error ∷ ms) = events_in-payloads ms

  read_event-dump :
      (event : CacheEvent) (text : Bytes)
      → dump (json_of event) ≡ ok text
      → read_event parse_json text ≡ ok event
  unfolding read_event
  read_event-dump event text e = rw (reads (json_of event) text e, read_type event.type) refl

  -- The payloads that are added are those of the events.
  record Sent (events : List CacheEvent) (taken sent : List Bytes) : Type 0 where
    texts : List Bytes
    added : sent ≡ taken ++ texts
    read : events_of texts ≡ events

  produce_all-Sent :
      (events : List CacheEvent) (taken sent : List Bytes)
      → produce_all dump events taken ≡ ok sent
      → Sent events taken sent
  unfolding produce_cache_event
  produce_all-Sent [] taken sent e = record {
    texts = [];
    added = cc e ∙ sym (append-nil taken);
    read = refl;
  }
  produce_all-Sent (event ∷ events) taken sent e =
      let after : Run Bytes → Run (List Bytes) =
        λ call. call >>= (λ text. ok (taken ++ text ∷ [])) >>= produce_all dump events in
      elim (Run-cases (dump (json_of event))) [
        | inl (text, written) ↦
            let later : produce_all dump events (taken ++ text ∷ []) ≡ ok sent =
              sym (ap after written) ∙ e in
            let rest = produce_all-Sent events (taken ++ text ∷ []) sent later in
            record {
              texts = text ∷ rest.texts;
              added = rest.added ∙ append_assoc taken (text ∷ []) rest.texts;
              read =
                  ap (λ r. kept r ++ events_of rest.texts) (read_event-dump event text written)
                  ∙ ap (λ xs. event ∷ xs) rest.read;
            }
        | inr (problem, refused) ↦ absurd (cc (sym (ap after refused) ∙ e))
      ]

  -- Where reading the JSON of a payload throws nothing but exceptions, and where the JSON library
  -- reads back what it writes: if the producer is given events one after the other and the client
  -- takes each payload, and the consumer then sees those payloads in that order, with other
  -- messages in between, never three timeouts in a stretch of timeouts and other errors, and at
  -- last the end of the fourth partition, then it returns exactly the events.
  pub consume_all_events-produce :
      ((text : Bytes) → IsCaught (parse_json text))
      → (events : List CacheEvent) (ms rest : List Message)
      → produce_all dump events [] ≡ ok (payloads ms)
      → IsCalm ms
      → ends ms + 1 ≡ num_partitions
      → consume_all_events parse_json (ms ++ partition_eof ∷ rest) ≡ ok events
  consume_all_events-produce caught events ms rest e calm few =
      let sent = produce_all-Sent events [] (payloads ms) e in
      consume_all_events-reads parse_json caught ms rest calm few
      ∙ ap ok (events_in-payloads ms ∙ ap events_of sent.added ∙ sent.read)
