-- ===== src/Kafka/Loop.antt =====
-- The steps of the loop of src/cpp/cache/kafka_logging/consumer.cpp, and what reading an event throws.
use chrono_cache.Shared.{
  ℕ, ◌+◌, ◌≤◌, ◌<◌, ◌≡◌, refl, sym, ap, Bool, true, false, List, [], ◌∷◌, ◌++◌, append-nil, ltb,
  leb, if◌then◌else◌, lt→ltb, le→leb, arith,
}
use chrono_cache.Shared.Run.{Run, ok, err, exception, aborted, undefined, out_of_fuel, ◌>>=◌}
use chrono_cache.Shared.Text.{Bytes, codes, same_bytes}
use chrono_cache.Events.{EventType, set_event, delete_event, expire_event, persist_event}
use chrono_cache.Kafka.{
  CacheEvent, event_type_name, event_type_from_string, Json, Message, no_error, partition_eof,
  timed_out, other_error, num_partitions, push_event, read_event, consume_events,
}

-- The partitions whose end is reported.
abbrev pub ends : List Message → ℕ
ends [] = 0
ends (no_error payload ∷ ms) = ends ms
ends (partition_eof ∷ ms) = 1 + ends ms
ends (timed_out ∷ ms) = ends ms
ends (other_error ∷ ms) = ends ms

abbrev pub timeouts : List Message → ℕ
timeouts [] = 0
timeouts (no_error payload ∷ ms) = timeouts ms
timeouts (partition_eof ∷ ms) = timeouts ms
timeouts (timed_out ∷ ms) = 1 + timeouts ms
timeouts (other_error ∷ ms) = timeouts ms

-- Only timeouts and other errors.
abbrev pub AreSilent : List Message → Type 0
AreSilent [] = Unit
AreSilent (no_error payload ∷ ms) = ⊥
AreSilent (partition_eof ∷ ms) = ⊥
AreSilent (timed_out ∷ ms) = AreSilent ms
AreSilent (other_error ∷ ms) = AreSilent ms

-- The call returns or throws an exception.
abbrev pub IsCaught {ℓ} : {A : Type ℓ} → Run A → Type 0
IsCaught (ok value) = Unit
IsCaught (err (exception what)) = Unit
IsCaught (err aborted) = ⊥
IsCaught (err undefined) = ⊥
IsCaught (err out_of_fuel) = ⊥

abbrev pub kept : Run CacheEvent → List CacheEvent
kept (ok event) = event ∷ []
kept (err problem) = []

pub push_event-kept :
    (call : Run CacheEvent) (events : List CacheEvent)
    → IsCaught call
    → push_event call events ≡ ok (events ++ kept call)
push_event-kept (ok event) events caught = refl
push_event-kept (err (exception what)) events caught = ap ok (sym (append-nil events))
push_event-kept (err aborted) events caught = absurd caught
push_event-kept (err undefined) events caught = absurd caught
push_event-kept (err out_of_fuel) events caught = absurd caught

IsCaught-if :
    (b : Bool) (x y : Run EventType) → IsCaught x → IsCaught y → IsCaught (if b then x else y)
IsCaught-if true x y caught other = caught
IsCaught-if false x y other caught = caught

event_type_from_string-IsCaught : (s : Bytes) → IsCaught (event_type_from_string s)
unfolding event_type_from_string
event_type_from_string-IsCaught s = IsCaught-if (same_bytes s (codes "SET")) _ _ tt (
    IsCaught-if (same_bytes s (codes "DELETE")) _ _ tt (
      IsCaught-if (same_bytes s (codes "EXPIRE")) _ _ tt
        (IsCaught-if (same_bytes s (codes "PERSIST")) _ _ tt tt)))

IsCaught-bind {ℓ κ} :
    {A : Type ℓ} {B : Type κ} (call : Run A) (rest : A → Run B)
    → IsCaught call
    → ((value : A) → IsCaught (rest value))
    → IsCaught (call >>= rest)
IsCaught-bind (ok value) rest caught later = later value
IsCaught-bind (err (exception what)) rest caught later = tt
IsCaught-bind (err aborted) rest caught later = caught
IsCaught-bind (err undefined) rest caught later = caught
IsCaught-bind (err out_of_fuel) rest caught later = caught

pub read_type : (type : EventType) → event_type_from_string (event_type_name type) ≡ ok type
unfolding event_type_from_string same_bytes
read_type set_event = refl
read_type delete_event = refl
read_type expire_event = refl
read_type persist_event = refl

-- `json::parse` and `get` report what they cannot read by an exception.
module _ (parse_json : Bytes → Run Json)
    (caught : (text : Bytes) → IsCaught (parse_json text)) where
  pub read_event-IsCaught : (text : Bytes) → IsCaught (read_event parse_json text)
  unfolding read_event
  read_event-IsCaught text = IsCaught-bind (parse_json text) _ (caught text) (λ j.
      IsCaught-bind (event_type_from_string j.type) _ (event_type_from_string-IsCaught j.type)
        λ type. tt)

not_below : (n : ℕ) → num_partitions ≤ n → ltb n num_partitions ≡ false
not_below n enough = ground arith

pub consume_events_done :
    (parse_json : Bytes → Run Json) (ms : List Message) (n t : ℕ) (events : List CacheEvent)
    → num_partitions ≤ n
    → consume_events parse_json ms n t events ≡ ok events
unfolding consume_events
consume_events_done parse_json [] n t events enough = rw (not_below n enough) refl
consume_events_done parse_json (no_error payload ∷ ms) n t events enough =
    rw (not_below n enough) refl
consume_events_done parse_json (partition_eof ∷ ms) n t events enough = rw (not_below n enough) refl
consume_events_done parse_json (timed_out ∷ ms) n t events enough = rw (not_below n enough) refl
consume_events_done parse_json (other_error ∷ ms) n t events enough = rw (not_below n enough) refl

-- The steps of the loop, while an end of a partition is missing.
module _ (parse_json : Bytes → Run Json) (n : ℕ) (more : n < num_partitions) where
  below : ltb n num_partitions ≡ true
  below = lt→ltb n num_partitions more

  module _ (ms : List Message) (t : ℕ) (events : List CacheEvent) where
    pub consume_events-no_error :
        (payload : Bytes)
        → consume_events parse_json (no_error payload ∷ ms) n t events
          ≡ (push_event (read_event parse_json payload) events >>= consume_events parse_json ms n 0)
    unfolding consume_events
    consume_events-no_error payload = rw below refl

    pub consume_events-partition_eof :
        consume_events parse_json (partition_eof ∷ ms) n t events
        ≡ consume_events parse_json ms (n + 1) 0 events
    unfolding consume_events
    consume_events-partition_eof = rw below refl

    pub consume_events-other_error :
        consume_events parse_json (other_error ∷ ms) n t events
        ≡ consume_events parse_json ms n t events
    unfolding consume_events
    consume_events-other_error = rw below refl

    pub consume_events-timed_out :
        t + 1 < 3
        → consume_events parse_json (timed_out ∷ ms) n t events
          ≡ consume_events parse_json ms n (t + 1) events
    unfolding consume_events
    consume_events-timed_out few =
        let early : leb 3 (t + 1) ≡ false = ground arith in rw (below, early) refl

    pub consume_events-unreachable :
        3 ≤ t + 1
        → consume_events parse_json (timed_out ∷ ms) n t events
          ≡ err (exception "Kafka broker unreachable: timed out after 3 consecutive timeouts")
    unfolding consume_events
    consume_events-unreachable late = rw (below, le→leb 3 (t + 1) late) refl
