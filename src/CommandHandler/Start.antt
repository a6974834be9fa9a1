-- ===== src/CommandHandler/Start.antt =====
-- A new `ChronoCache` (src/cpp/cache/chrono_cache.cpp) and the command INIT
-- (src/cpp/server/request_handler/command_handler.cpp).
use chrono_cache.Shared.{◌≡◌, refl, true, none, [], ◌∷◌, arith}
use chrono_cache.Shared.Run.{ok, Returns}
use chrono_cache.Shared.Text.{Bytes, codes, same_bytes}
use chrono_cache.SortedList.{Order}
use chrono_cache.KvStore.Key.{Key}
use chrono_cache.SortedSets.{Score}
use chrono_cache.ChronoCache.{ChronoCache}
use chrono_cache.Resp.Number.{to_upper}
use chrono_cache.Resp.Serializer
use chrono_cache.KvStore.Store.Invariant.{view}
use chrono_cache.Cache.{is_accepting_ops, Entry}
use chrono_cache.Resp.Number.{to_upper_char}
use chrono_cache.CommandHandler.{dispatch, execute}
use chrono_cache.CommandHandler.Keys.{Library}
use chrono_cache.CommandHandler.Sessions.{request}
use chrono_cache.KvStore.Store.{is_power_of_2}
use chrono_cache.KvStore.Store.Blank.{new_store-IsValid}
use chrono_cache.SortedSets.{default_threshold, SortedSet}
use chrono_cache.Cache.{Entry, uninitialized, ready, is_accepting_ops}
use chrono_cache.Replay.{init, init_from, init_uninitialized}
use chrono_cache.ChronoCache.{new_chrono_cache}
use chrono_cache.Resp.Serializer
use chrono_cache.CommandHandler.Keys.{cmd_init, init_cache, Library}
use chrono_cache.CommandHandler.Sessions.{request}
use chrono_cache.CommandHandler.Deletions.{IsUp}
use chrono_cache.CommandHandler.{execute, dispatch}

sixteen : is_power_of_2 16 ≡ true
unfolding is_power_of_2
sixteen = refl

module _ {μ} {S : Type μ} ⦃key : Key Bytes⦄ ⦃members : Order Bytes⦄ ⦃scores : Score S⦄
    (lib : Library S) where
  init_reply :
      (c : ChronoCache S)
      → c.cache.state ≡ uninitialized
      → c.cache.disable_event_logging ≡ true
      → execute lib (request (codes "INIT" ∷ [])) c
        ≡ ok (Serializer.ok, record c { cache = record c.cache { state = ready } })
  unfolding execute dispatch cmd_init init_cache init init_from init_uninitialized to_upper
      to_upper_char same_bytes
  init_reply c fresh off = rw (fresh, off) refl

  -- With logging off, a new cache, once it is sent INIT, answers OK and takes commands: it is
  -- valid, with 16 buckets and no key.
  pub start-IsUp : Returns (new_chrono_cache true) λ c.
      Returns (execute lib (request (codes "INIT" ∷ [])) c) λ r.
        (r.0 ≡ Serializer.ok)
        × IsUp lib r.1
        × (r.1.cache.hash_map.capacity ≡ 16)
        × ((q : Bytes) → view r.1.cache.hash_map q ≡ none)
  unfolding new_chrono_cache is_accepting_ops
  start-IsUp =
      let (m, made, (valid, empty, size, threshold)) =
        new_store-IsValid {V = Entry Bytes} 16 default_threshold sixteen (omega arith) in
      let (z, made', others) =
        new_store-IsValid {V = SortedSet Bytes S} 16 default_threshold sixteen (omega arith) in
      let c : ChronoCache S = record {
        cache = record {
          state = uninitialized;
          hash_map = m;
          disable_event_logging = true;
          world = record { ticks = 0; cache_event_logger = none };
        };
        sorted_sets = z;
      } in
      (
        c,
        rw (made, made') refl,
        (
          (Serializer.ok, record c { cache = record c.cache { state = ready } }),
          init_reply c refl refl,
          (refl, record { valid = valid; accepting = refl; off = refl }, size, empty),
        ),
      )
