-- ===== src/Tests/Caches.antt =====
-- The cache of src/cpp/cache/chrono_cache.cpp on numbers, with a clock that moves on by a second at
-- each reading and a producer that accepts every event.
use chrono_cache.Shared.{
  if◌then◌else◌, ℕ, ◌*◌, ◌^◌, ◌<◌, ◌≡◌, ◌↔◌, refl, ap, true, false, none, some, [], ◌∷◌, arith,
}
use chrono_cache.Shared.Int.{ℤ, pos, negsuc}
use chrono_cache.Shared.Run.{Run, ok, Returns}
use chrono_cache.KvStore.Key.{◌≈◌}
use chrono_cache.KvStore.Store.{Store, new_store}
use chrono_cache.KvStore.Store.Invariant.{IsValid, view}
use chrono_cache.KvStore.Store.Methods.{Writes, is_some, set_value-Writes}
use chrono_cache.KvStore.Store.Blank.{new_store-IsValid}
use chrono_cache.HashMap.Laws.{Stored}
use chrono_cache.Events.{set_event, delete_event, Event, Logger}
use chrono_cache.Events.Laws.{Logged}
use chrono_cache.Cache.{
  Entry, ready, uninitialized, Cache, is_accepting_ops, set, get, del, expire, pttl, persist,
}
use chrono_cache.Cache.Laws.{swept, value_at, get-Reads}
use chrono_cache.Cache.Deadlines.{
  with_deadline, has_deadline, reading, expire-Writes, persist-Writes,
}
use chrono_cache.Cache.Logging.{set-Logged, del-Logged}
use chrono_cache.Replay.{seq_of, replay_events, init}
use chrono_cache.Replay.Laws.{replay_events_duplicate, init-ready}
use chrono_cache.Replay.Revival.{stored_event, expiry_event, replay_events_revives}
use chrono_cache.Cache.Expiry.{moved}
use chrono_cache.Tests.Stores.{
  nat_key, three_quarters, two-is_power_of_2, blank_store, blank_store-IsValid,
}

abbrev time : ℕ → ℕ
time n = n * 1000000000

abbrev clock : ℕ → ℤ
clock n = pos (time n)

abbrev produce : Event ℕ ℕ → Run (Unit {0})
produce e = ok tt

program : Unit {0}
unfolding new_store set get del expire pttl persist init
program = tt

abbrev no_entries : Store ℕ (Entry ℕ)
no_entries = (new_store-IsValid 2 three_quarters two-is_power_of_2 (omega arith)).0

no_entries-IsValid : IsValid no_entries
no_entries-IsValid = (new_store-IsValid 2 three_quarters two-is_power_of_2 (omega arith)).2.0

-- The key 5 has a value until half a second.
abbrev entries : Store ℕ (Entry ℕ)
entries =
    (set_value-Writes no_entries-IsValid 5
      (record { value = 50; expires_at = some (pos 500000000) })).0

entries-Writes :
    Writes no_entries 5 (some (record { value = 50; expires_at = some (pos 500000000) })) entries
entries-Writes =
    (set_value-Writes no_entries-IsValid 5
      (record { value = 50; expires_at = some (pos 500000000) })).2

entries_narrow : entries.capacity < 2 ^ 30
entries_narrow = omega (
  arith,
  entries-Writes.capacity,
  (new_store-IsValid {V = Entry ℕ} ⦃key = nat_key⦄ 2 three_quarters two-is_power_of_2
      (omega arith)).2.2,
)

abbrev quiet : Cache ℕ ℕ
quiet = record {
  state = ready;
  hash_map = entries;
  disable_event_logging = true;
  world = record { ticks = 0; cache_event_logger = none };
}

abbrev fresh_logger : Logger ℕ ℕ
fresh_logger = record { seq_counters = blank_store; produced = [] }

abbrev logging : Cache ℕ ℕ
logging = record {
  state = ready;
  hash_map = entries;
  disable_event_logging = false;
  world = record { ticks = 0; cache_event_logger = some fresh_logger };
}

roomy : blank_store.capacity < 2 ^ 30
roomy = omega (
  arith,
  (new_store-IsValid {V = ℕ} ⦃key = nat_key⦄ 2 three_quarters two-is_power_of_2 (omega arith)).2.2,
)

ready_accepts : is_accepting_ops ready ≡ true
unfolding is_accepting_ops
ready_accepts = refl

get-Reads_example : Returns (get clock produce 5 quiet) λ r.
    (r.0 ≡ value_at (swept (clock 0) (view entries 5)))
    × Writes entries 5 (swept (clock 0) (view entries 5)) r.1.hash_map
    × (r.1.world.cache_event_logger ≡ none)
get-Reads_example = get-Reads clock produce quiet entries-Writes.valid 5 ready_accepts

expire-Writes_example : Returns (expire (λ i. pos (time i)) produce 5 (pos 10) quiet) λ r.
    (r.0 ≡ is_some (swept (pos (time 0)) (view entries 5)))
    × Writes entries 5
        (with_deadline
          (some (moved (time (reading 0 (view entries 5))) (pos 10)))
          (swept (pos (time 0)) (view entries 5)))
        r.1.hash_map
expire-Writes_example =
    expire-Writes time produce (pos 10) quiet entries-Writes.valid 5 ready_accepts refl refl
      (rw (entries-Writes.reads 5) (omega arith))

persist-Writes_example : Returns (persist clock produce 5 quiet) λ r.
    (r.0 ≡ has_deadline (swept (clock 0) (view entries 5)))
    × Writes entries 5 (with_deadline none (swept (clock 0) (view entries 5))) r.1.hash_map
persist-Writes_example =
    persist-Writes clock produce quiet entries-Writes.valid 5 ready_accepts refl

set-Logged_example : Returns (set (λ i. pos (time i)) produce 7 70 (some (pos 10)) logging) λ r.
    Stored entries 7 (record { value = 70; expires_at = some (pos 10000000) }) r.1.hash_map
    × Logged fresh_logger 7 (λ i. pos (time i)) set_event 70 (pos 10) 1 r.1.world
set-Logged_example =
    set-Logged time produce logging entries-Writes.valid fresh_logger blank_store-IsValid roomy
      (λ e. refl) 7 refl refl refl 70 (some (pos 10)) (omega arith) entries_narrow

del-Logged_example : Returns (del clock produce 0 5 logging) λ r.
    (r.0 ≡ true)
    × Writes entries 5 none r.1.hash_map
    × Logged fresh_logger 5 clock delete_event 0 (negsuc 0) 0 r.1.world
del-Logged_example =
    del-Logged clock produce logging entries-Writes.valid fresh_logger blank_store-IsValid roomy
      (λ e. refl) 5 refl refl refl 0 (ap is_some (entries-Writes.reads 5))

-- A key with one second to live, logged at the time 1.
abbrev expiring : Event ℕ ℕ
expiring = record {
  type = set_event;
  key = 5;
  value = 51;
  ttl_ms = pos 1000;
  seq = 2;
  timestamp = pos 1;
}

replay_events_duplicate_example :
    replay_events clock produce 0 (pos 500) (expiring ∷ expiring ∷ []) [] quiet
    ≡ replay_events clock produce 0 (pos 500) (expiring ∷ []) [] quiet
replay_events_duplicate_example =
    replay_events_duplicate clock produce 0 (pos 500) expiring [] [] quiet

-- The key 5 is stored, and its deadline passes at 11 milliseconds.
replay_events_revives_example :
    Returns
      (replay_events clock produce 0
        (pos 500)
        (stored_event 5 51 1 (pos 0) ∷ expiry_event 5 51 2 1 10 ∷ [])
        []
        quiet)
      λ r.
        IsValid r.1.hash_map
        × ((q : ℕ)
            → view r.1.hash_map q
              ≡ (if 5 ≈ q then some (record { value = 51; expires_at = none }) else view entries q))
unfolding seq_of
replay_events_revives_example =
    replay_events_revives clock produce 0 5 51 quiet entries-Writes.valid ready_accepts refl 500 1 2
      1 10 (pos 0) [] entries_narrow (omega arith) (omega arith) (omega arith) (omega arith)

init-ready_example :
    ((init clock produce true 0 fresh_logger
        (ok (expiring ∷ []))
        (record quiet { state = uninitialized })).0
      ≡ ok true)
    ↔ ((init clock produce true 0 fresh_logger
          (ok (expiring ∷ []))
          (record quiet { state = uninitialized })).1.state
        ≡ ready)
init-ready_example =
    init-ready clock produce 0 true fresh_logger (ok (expiring ∷ []))
      (record quiet { state = uninitialized })
