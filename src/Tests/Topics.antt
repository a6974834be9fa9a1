-- ===== src/Tests/Topics.antt =====
-- Events on their way through src/cpp/cache/kafka_logging, with a small text form in place of JSON: three
-- lengths and five numbers in front of the three texts.
use chrono_cache.Shared.{
  ℕ, ◌+◌, ◌<◌, ◌≡◌, refl, ap, ◌∙◌, subst, List, [], ◌∷◌, ◌++◌, length, take, drop, get_or,
  if◌then◌else◌, ◌==◌, arith,
}
use chrono_cache.Shared.Int.{ℤ, pos, negsuc}
use chrono_cache.Shared.Run.{Run, ok, err, exception}
use chrono_cache.Shared.Text.{Bytes, codes, take-append, drop-append, same_bytes}
use chrono_cache.Events.{set_event, delete_event}
use chrono_cache.Kafka.{
  CacheEvent, Json, json_of, Message, no_error, partition_eof, timed_out, other_error,
  produce_cache_event, consume_all_events, read_event, event_type_from_string,
}
use chrono_cache.Kafka.Loop.{timeouts, IsCaught}
use chrono_cache.Kafka.Reads.{IsCalm, events_in, consume_all_events-reads}
use chrono_cache.Kafka.RoundTrip.{consume_all_events-produce}
use chrono_cache.Kafka.Unreachable.{Throws, consume_all_events_unreachable}

abbrev sign : ℤ → ℕ
sign (pos n) = 0
sign (negsuc n) = 1

abbrev size : ℤ → ℕ
size (pos n) = n
size (negsuc n) = n

abbrev signed : ℕ → ℕ → ℤ
signed s n = if s == 0 then pos n else negsuc n

signed-size : (z : ℤ) → signed (sign z) (size z) ≡ z
signed-size (pos n) = refl
signed-size (negsuc n) = refl

abbrev write : Json → Bytes
write j =
    length j.type
      ∷ length j.key
      ∷ length j.value
      ∷ sign j.ttl_ms
      ∷ size j.ttl_ms
      ∷ j.seq
      ∷ sign j.timestamp
      ∷ size j.timestamp
      ∷ j.type
    ++ (j.key ++ (j.value ++ []))

abbrev dump : Json → Run Bytes
dump j = ok (write j)

abbrev parse_json : Bytes → Run Json
parse_json [] = err (exception "parse error")
parse_json (n ∷ text) =
    let body : Bytes = drop 7 text in
    let k : ℕ = get_or text 0 0 in
    ok (record {
      type = take n body;
      key = take k (drop n body);
      value = take (get_or text 1 0) (drop k (drop n body));
      ttl_ms = signed (get_or text 2 0) (get_or text 3 0);
      seq = get_or text 4 0;
      timestamp = signed (get_or text 5 0) (get_or text 6 0);
    })

parse_json-write : (j : Json) → parse_json (write j) ≡ ok j
parse_json-write j =
    rw
      (
        take-append j.type (j.key ++ (j.value ++ [])),
        drop-append j.type (j.key ++ (j.value ++ [])),
        take-append j.key (j.value ++ []),
        drop-append j.key (j.value ++ []),
        take-append j.value [],
        signed-size j.ttl_ms,
        signed-size j.timestamp,
      )
      refl

parse_json-dump : (j : Json) (text : Bytes) → dump j ≡ ok text → parse_json text ≡ ok j
parse_json-dump j text e =
    let same : write j ≡ text = cc e in subst (λ t. parse_json t ≡ ok j) same (parse_json-write j)

parse_json-IsCaught : (text : Bytes) → IsCaught (parse_json text)
parse_json-IsCaught [] = tt
parse_json-IsCaught (n ∷ text) = tt

timeouts-append :
    (front back : List Message) → timeouts (front ++ back) ≡ timeouts front + timeouts back
timeouts-append [] back = ground arith
timeouts-append (no_error payload ∷ ms) back = timeouts-append ms back
timeouts-append (partition_eof ∷ ms) back = timeouts-append ms back
timeouts-append (timed_out ∷ ms) back = let rest = timeouts-append ms back in omega arith
timeouts-append (other_error ∷ ms) back = timeouts-append ms back

few-IsCalm : (ms : List Message) → timeouts ms < 3 → IsCalm ms
few-IsCalm ms few front middle back e silent =
    let all = ap timeouts e ∙ timeouts-append (front ++ middle) back in
    let rest = timeouts-append front middle in omega arith

abbrev stored : CacheEvent
stored = record {
  type = set_event;
  key = codes "k";
  value = codes "v";
  ttl_ms = pos 500;
  seq = 1;
  timestamp = pos 7;
}

abbrev deleted : CacheEvent
deleted = record stored { type = delete_event; value = []; ttl_ms = negsuc 0; seq = 2 }

-- What is sent of an event.
abbrev text_of : CacheEvent → Bytes
text_of event = elim (dump (json_of event)) [ ok text ↦ text | err problem ↦ [] ]

-- Two events, an unreadable payload, and a timeout, while three partitions end.
abbrev some_unreadable : List Message
some_unreadable =
    no_error (text_of stored)
    ∷ timed_out
    ∷ partition_eof
    ∷ no_error []
    ∷ partition_eof
    ∷ no_error (text_of deleted)
    ∷ partition_eof
    ∷ []

abbrev all_readable : List Message
all_readable =
    partition_eof
    ∷ no_error (text_of stored)
    ∷ timed_out
    ∷ other_error
    ∷ partition_eof
    ∷ no_error (text_of deleted)
    ∷ partition_eof
    ∷ []

consume_all_events-reads_example :
    consume_all_events parse_json (some_unreadable ++ partition_eof ∷ [])
    ≡ ok (events_in parse_json some_unreadable)
consume_all_events-reads_example =
    consume_all_events-reads parse_json parse_json-IsCaught some_unreadable []
      (few-IsCalm some_unreadable (omega arith)) refl

reads_two : events_in parse_json some_unreadable ≡ stored ∷ deleted ∷ []
unfolding read_event event_type_from_string same_bytes
reads_two = refl

consume_all_events-produce_example :
    consume_all_events parse_json (all_readable ++ partition_eof ∷ timed_out ∷ [])
    ≡ ok (stored ∷ deleted ∷ [])
unfolding produce_cache_event
consume_all_events-produce_example =
    consume_all_events-produce dump parse_json parse_json-dump parse_json-IsCaught
      (stored ∷ deleted ∷ []) all_readable (timed_out ∷ []) refl
      (few-IsCalm all_readable (omega arith)) refl

consume_all_events_unreachable_example : Throws (
    consume_all_events parse_json
      (some_unreadable ++ (timed_out ∷ timed_out ∷ other_error ∷ timed_out ∷ []) ++ []))
consume_all_events_unreachable_example =
    consume_all_events_unreachable parse_json parse_json-IsCaught some_unreadable
      (timed_out ∷ timed_out ∷ other_error ∷ timed_out ∷ []) [] (omega arith) tt (omega arith)
