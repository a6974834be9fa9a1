-- ===== src/Kafka.antt =====
-- How events travel: their names (src/cpp/cache/cache_event.h), `CacheEventsKafkaProducer::produce_cache_event`
-- (kafka_logging/producer.cpp) and the loop of `CacheEventsKafkaConsumer::consume_all_events`
-- (kafka_logging/consumer.cpp). The JSON library and what the Kafka client hands out are parameters.
pub mod Loop
pub mod Reads
pub mod Unreachable
pub mod RoundTrip
use chrono_cache.Shared.{ℕ, ◌+◌, Bool, true, false, List, [], ◌∷◌, ◌++◌, ltb, leb, if◌then◌else◌}
use chrono_cache.Shared.Int.{ℤ}
use chrono_cache.Shared.Run.{Run, ok, err, exception, aborted, undefined, out_of_fuel, ◌>>=◌}
use chrono_cache.Shared.Text.{Bytes, codes, same_bytes}
use chrono_cache.Events.{EventType, set_event, delete_event, expire_event, persist_event, Event}

-- `CacheEvent`, on strings
abbrev pub CacheEvent : Type 0
CacheEvent = Event Bytes Bytes

abbrev pub event_type_name : EventType → Bytes
event_type_name set_event = codes "SET"
event_type_name delete_event = codes "DELETE"
event_type_name expire_event = codes "EXPIRE"
event_type_name persist_event = codes "PERSIST"

-- The text of the exception is without the name that it ends in.
unfoldable pub event_type_from_string : Bytes → Run EventType
event_type_from_string s =
    if same_bytes s (codes "SET")
    then ok set_event
    else if same_bytes s (codes "DELETE")
    then ok delete_event
    else if same_bytes s (codes "EXPIRE")
    then ok expire_event
    else if same_bytes s (codes "PERSIST")
    then ok persist_event
    else err (exception "Unknown EventType: ")

-- The JSON object of an event.
pub record Json : Type 0 where
  pub type : Bytes
  pub key : Bytes
  pub value : Bytes
  pub ttl_ms : ℤ
  pub seq : ℕ
  pub timestamp : ℤ

abbrev pub json_of : CacheEvent → Json
json_of event = record {
  type = event_type_name event.type;
  key = event.key;
  value = event.value;
  ttl_ms = event.ttl_ms;
  seq = event.seq;
  timestamp = event.timestamp;
}

-- What `consume` reports.
pub data Message : Type 0 where
  no_error : Bytes → Message
  partition_eof : Message
  timed_out : Message
  other_error : Message

-- `producer->produce`, which takes the payload or reports an error, and the payloads that it took
module _ (dump : Json → Run Bytes) (takes : Bytes → Bool) where
  unfoldable pub produce_cache_event : CacheEvent → List Bytes → Run (List Bytes)
  produce_cache_event event taken = do
    payload ← dump (json_of event)
    ok (if takes payload then taken ++ payload ∷ [] else taken)

abbrev pub num_partitions : ℕ
num_partitions = 4

abbrev pub max_consecutive_timeouts : ℕ
max_consecutive_timeouts = 3

-- `events.push_back(std::move(event))`, with the `catch` of what reading the event threw
abbrev pub push_event : Run CacheEvent → List CacheEvent → Run (List CacheEvent)
push_event (ok event) events = ok (events ++ event ∷ [])
push_event (err (exception what)) events = ok events
push_event (err aborted) events = err aborted
push_event (err undefined) events = err undefined
push_event (err out_of_fuel) events = err out_of_fuel

-- `json::parse` and the `get` of its fields
module _ (parse_json : Bytes → Run Json) where
  unfoldable pub read_event : Bytes → Run CacheEvent
  unfolding event_type_from_string
  read_event json_str = do
    j ← parse_json json_str
    type ← event_type_from_string j.type
    ok (record {
      type = type;
      key = j.key;
      value = j.value;
      ttl_ms = j.ttl_ms;
      seq = j.seq;
      timestamp = j.timestamp;
    })

  -- The loop, on the messages that `consume` hands out: where they end before the loop does, the
  -- fuel ends.
  unfoldable pub consume_events : List Message → ℕ → ℕ → List CacheEvent → Run (List CacheEvent)
  unfolding read_event
  consume_events [] count_reached_eof consecutive_timeouts events =
      if ltb count_reached_eof num_partitions then err out_of_fuel else ok events
  consume_events (no_error json_str ∷ later) count_reached_eof consecutive_timeouts events =
      if ltb count_reached_eof num_partitions
      then (push_event (read_event json_str) events >>= consume_events later count_reached_eof 0)
      else ok events
  consume_events (partition_eof ∷ later) count_reached_eof consecutive_timeouts events =
      let rest = consume_events later (count_reached_eof + 1) 0 events in
      if ltb count_reached_eof num_partitions then rest else ok events
  consume_events (timed_out ∷ later) count_reached_eof consecutive_timeouts events =
      let rest = consume_events later count_reached_eof (consecutive_timeouts + 1) events in
      if ltb count_reached_eof num_partitions
      then (if leb max_consecutive_timeouts (consecutive_timeouts + 1)
          then err (exception "Kafka broker unreachable: timed out after 3 consecutive timeouts")
          else rest)
      else ok events
  consume_events (other_error ∷ later) count_reached_eof consecutive_timeouts events =
      let rest = consume_events later count_reached_eof consecutive_timeouts events in
      if ltb count_reached_eof num_partitions then rest else ok events

  unfoldable pub consume_all_events : List Message → Run (List CacheEvent)
  unfolding consume_events
  consume_all_events messages = consume_events messages 0 0 []
