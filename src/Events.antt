-- ===== src/Events.antt =====
-- The events of src/cpp/cache/cache_event.h and the logger that numbers them, `CacheEventLogger` of
-- src/cpp/cache/kafka_logging/event_logger.cpp. The clock gives the time of each reading in nanoseconds;
-- `produce` stands for the Kafka producer, which serialises an event and may throw.
pub mod Laws
use chrono_cache.Shared.{ℕ, ◌+◌, ◌%◌, ◌^◌, Option, none, some, List, [], ◌∷◌, ◌++◌}
use chrono_cache.Shared.Int.{ℤ, quot_ℤ}
use chrono_cache.Shared.Run.{Run, ok, err, ◌>>=◌}
use chrono_cache.KvStore.Key.{Key}
use chrono_cache.KvStore.Store.{Store, write_ptr}
use chrono_cache.HashMap.{get_or_add_growing}

-- `EventType`: SET, DELETE, EXPIRE, PERSIST
pub data EventType : Type 0 where
  set_event delete_event expire_event persist_event : EventType

-- `CacheEvent`
pub record Event {ℓ κ} (K : Type ℓ) (V : Type κ) : Type (ℓ ⊔ κ) where
  pub type : EventType
  pub key : K
  pub value : V
  pub ttl_ms : ℤ
  pub seq : ℕ
  pub timestamp : ℤ

-- `CacheEventLogger`, with the events that it has handed to the producer
pub record Logger {ℓ κ} (K : Type ℓ) (V : Type κ) : Type (ℓ ⊔ κ) where
  pub seq_counters : Store K ℕ
  pub produced : List (Event K V)

-- What the callbacks of the map act on: how often the clock was read, and the logger.
pub record World {ℓ κ} (K : Type ℓ) (V : Type κ) : Type (ℓ ⊔ κ) where
  pub ticks : ℕ
  pub cache_event_logger : Option (Logger K V)

-- Nanoseconds in a millisecond.
abbrev pub nanos : ℕ
nanos = 1000000

module _ {ℓ κ} {K : Type ℓ} {V : Type κ} ⦃key : Key K⦄ where
  -- `return ++(*seq_counters.get_or_add(key))`, on `uint64_t`
  unfoldable pub next_seq : K → Logger K V → Run (ℕ × Logger K V)
  unfolding get_or_add_growing write_ptr
  next_seq k logger = do
    r ← get_or_add_growing logger.seq_counters k 0
    let seq = (r.0.value + 1) % 2 ^ 64
    counters ← write_ptr r.1 k r.0.addr seq
    ok (seq, record logger { seq_counters = counters })

  -- `log_set`, `log_del`, `log_expire` and `log_persist`, which differ in the fields they are given
  unfoldable pub log_event :
      (ℕ → ℤ)
      → (Event K V → Run (Unit {0}))
      → EventType
      → K
      → V
      → ℤ
      → ℕ
      → Logger K V
      → Run (World K V)
  unfolding next_seq
  log_event clock produce type k v ttl_ms ticks logger = do
    r ← next_seq k logger
    let event : Event K V = record {
      type = type;
      key = k;
      value = v;
      ttl_ms = ttl_ms;
      seq = r.0;
      timestamp = quot_ℤ (clock ticks) nanos;
    }
    _ ← produce event
    ok (record {
      ticks = ticks + 1;
      cache_event_logger = some (record r.1 { produced = r.1.produced ++ event ∷ [] });
    })
