-- ===== src/ChronoCache.antt =====
-- `ChronoCache` of src/cpp/cache/chrono_cache.h and chrono_cache.cpp on strings, with its sorted sets: the
-- constructor and the four operations that hand a call on to `SortedSetsAPI`.
use chrono_cache.Shared.{ℕ, Bool, Option, none}
use chrono_cache.Shared.Run.{Run, ok, ◌>>=◌}
use chrono_cache.Shared.Text.{Bytes}
use chrono_cache.SortedList.{Order}
use chrono_cache.KvStore.Key.{Key}
use chrono_cache.KvStore.Store.{Store, new_store}
use chrono_cache.SortedSets
use chrono_cache.SortedSets.{Score, SortedSet, default_threshold, initial_capacity}
use chrono_cache.Cache.{Cache, uninitialized, check_accepting_ops}

-- `ChronoCache`: the part that `Cache` models, and `sorted_sets`
pub record ChronoCache {μ} (S : Type μ) : Type μ where
  pub cache : Cache Bytes Bytes
  pub sorted_sets : Store Bytes (SortedSet Bytes S)

-- `CHRONO_CACHE_INITIAL_CAPACITY`
abbrev pub chrono_cache_initial_capacity : ℕ
chrono_cache_initial_capacity = 16

module _ {μ} {S : Type μ} where
  -- `ChronoCache(config)`
  unfoldable pub new_chrono_cache : Bool → Run (ChronoCache S)
  new_chrono_cache disable_event_logging = do
    hash_map ← new_store chrono_cache_initial_capacity default_threshold
    sorted_set_store ← new_store initial_capacity default_threshold
    ok (record {
      cache = record {
        state = uninitialized;
        hash_map = hash_map;
        disable_event_logging = disable_event_logging;
        world = record { ticks = 0; cache_event_logger = none };
      };
      sorted_sets = sorted_set_store;
    })

module _ {μ} {S : Type μ} ⦃key : Key Bytes⦄ ⦃members : Order Bytes⦄ ⦃scores : Score S⦄ where
  unfoldable pub zadd : Bytes → S → Bytes → ChronoCache S → Run (Bool × ChronoCache S)
  unfolding check_accepting_ops SortedSets.zadd
  zadd k score member c = do
    _ ← check_accepting_ops c.cache.state
    r ← SortedSets.zadd k score member c.sorted_sets
    ok (r.0, record c { sorted_sets = r.1 })

  unfoldable pub zscore : Bytes → Bytes → ChronoCache S → Run (Option S)
  unfolding check_accepting_ops SortedSets.zscore
  zscore k member c = do
    _ ← check_accepting_ops c.cache.state
    SortedSets.zscore k member c.sorted_sets

  unfoldable pub zrem : Bytes → Bytes → ChronoCache S → Run (Bool × ChronoCache S)
  unfolding check_accepting_ops SortedSets.zrem
  zrem k member c = do
    _ ← check_accepting_ops c.cache.state
    r ← SortedSets.zrem k member c.sorted_sets
    ok (r.0, record c { sorted_sets = r.1 })

  unfoldable pub zrank : Bytes → Bytes → ChronoCache S → Run (Option ℕ)
  unfolding check_accepting_ops SortedSets.zrank
  zrank k member c = do
    _ ← check_accepting_ops c.cache.state
    SortedSets.zrank k member c.sorted_sets
