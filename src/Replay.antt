-- ===== src/Replay.antt =====
-- `replay` and `init` of src/cpp/cache/chrono_cache.cpp. The events that the Kafka consumer has read are
-- a parameter, and so is the logger that `init` makes. An `unordered_map` is a list of pairs, in the
-- order in which its keys came in.
pub mod Laws
pub mod Revival
use chrono_cache.Shared.{
  ℕ, ◌+◌, Bool, true, false, Option, none, some, List, [], ◌∷◌, leb, if◌then◌else◌,
}
use chrono_cache.Shared.Int.{ℤ, pos, negsuc, leb_ℤ, ltb_ℤ, add_ℤ, neg_ℤ, quot_ℤ}
use chrono_cache.Shared.Run.{Run, ok, err, exception, aborted, undefined, out_of_fuel, ◌>>=◌, int64}
use chrono_cache.KvStore.Key.{Key, ◌≈◌}
use chrono_cache.KvStore.Store.{Store}
use chrono_cache.HashMap.{set_with}
use chrono_cache.Events.{
  EventType, set_event, delete_event, expire_event, persist_event, Event, Logger, World, nanos,
}
use chrono_cache.Cache.{
  CacheState, uninitialized, replaying, replay_failed, replay_success, ready, Cache, tick, set, del,
}

abbrev pub not_fresh : Run Bool
not_fresh = err (exception "ChronoCache::init() requires UNINITIALIZED state")

-- `std::unordered_map<std::string, uint64_t>`
abbrev pub Seqs {ℓ} : Type ℓ → Type ℓ
Seqs K = List (K × ℕ)

module _ {ℓ} {K : Type ℓ} ⦃key : Key K⦄ where
  -- `m[k]`, which reads 0 for a missing key (the key that it then inserts has the number 0)
  unfoldable pub seq_of : K → Seqs K → ℕ
  seq_of k [] = 0
  seq_of k ((q, n) ∷ m) = if q ≈ k then n else seq_of k m

  -- `m[k] = n`
  unfoldable pub put_seq : K → ℕ → Seqs K → Seqs K
  put_seq k n [] = (k, n) ∷ []
  put_seq k n ((q, m) ∷ rest) =
      let later = (q, m) ∷ put_seq k n rest in if q ≈ k then (q, n) ∷ rest else later

module _ {ℓ κ} {K : Type ℓ} {V : Type κ} ⦃key : Key K⦄ where
  -- `set_seq_counters`
  unfoldable pub set_seq_counters : Seqs K → Logger K V → Run (Logger K V)
  unfolding set_with
  set_seq_counters [] logger = ok logger
  set_seq_counters ((k, n) ∷ m) logger = do
    r ← set_with (λ (w : Unit {0}). ok w) k n logger.seq_counters tt
    set_seq_counters m (record logger { seq_counters = r.0 })

module _ {ℓ κ} {K : Type ℓ} {V : Type κ} ⦃key : Key K⦄ (clock : ℕ → ℤ)
    (produce : Event K V → Run (Unit {0})) where
  -- `this->set(key, value, remaining)`, unless the deadline passed before the replay
  unfoldable pub set_remaining : ℤ → Event K V → Cache K V → Run (Cache K V)
  unfolding set
  set_remaining now_ms e c = int64 (add_ℤ e.timestamp e.ttl_ms) >>= λ expires_at_ms.
      if leb_ℤ expires_at_ms now_ms then ok c else (do
        remaining_ms ← int64 (add_ℤ expires_at_ms (neg_ℤ now_ms))
        r ← set clock produce e.key e.value (some remaining_ms) c
        ok r.1)

  unfoldable pub set_forever : Event K V → Cache K V → Run (Cache K V)
  unfolding set
  set_forever e c = do r ← set clock produce e.key e.value none c; ok r.1

  -- the `switch` of `replay`; `del` logs an empty value
  unfoldable pub apply_event : V → ℤ → Event K V → Cache K V → Run (Cache K V)
  unfolding set_remaining set_forever del
  apply_event empty_value now_ms e c = elim e.type [
    | set_event ↦ if ltb_ℤ (pos 0) e.ttl_ms then set_remaining now_ms e c else set_forever e c
    | delete_event ↦ (do r ← del clock produce empty_value e.key c; ok r.1)
    | expire_event ↦ set_remaining now_ms e c
    | persist_event ↦ set_forever e c
  ]

  -- the loop of `replay`: an event that is not newer than the last one of its key is skipped
  unfoldable pub replay_events :
      V → ℤ → List (Event K V) → Seqs K → Cache K V → Run (Seqs K × Cache K V)
  unfolding seq_of put_seq apply_event
  replay_events empty_value now_ms [] last_applied_seq c = ok (last_applied_seq, c)
  replay_events empty_value now_ms (e ∷ events) last_applied_seq c =
      let next = put_seq e.key e.seq last_applied_seq in
      let skip =
        replay_events empty_value now_ms events
          (put_seq e.key (seq_of e.key last_applied_seq) last_applied_seq) c in
      if leb e.seq (seq_of e.key last_applied_seq)
      then skip
      else (apply_event empty_value now_ms e c >>= λ c'.
          replay_events empty_value now_ms events next c')

  unfoldable pub give_counters : Seqs K → World K V → Run (World K V)
  unfolding set_seq_counters
  give_counters last_applied_seq w = elim w.cache_event_logger [
    | none ↦ ok w
    | some logger ↦ do
      logger' ← set_seq_counters last_applied_seq logger
      ok (record w { cache_event_logger = some logger' })
  ]

  unfoldable pub replay : V → List (Event K V) → Cache K V → Run (Cache K V)
  unfolding replay_events give_counters tick
  replay empty_value events c = do
    r ←
        replay_events empty_value (quot_ℤ (clock c.world.ticks) nanos) events []
          (record c { world = tick c.world })
    w ← give_counters r.0 r.1.world
    ok (record r.1 { world = w })

  -- The end of `init`: a failed replay throws again and leaves a state that accepts nothing. What it
  -- had stored by then is not kept here, as no operation reads it.
  unfoldable pub finish_replay : Cache K V → Run (Cache K V) → Run Bool × Cache K V
  finish_replay c (ok c') = (ok true, record c' { state = ready })
  finish_replay c (err (exception what)) =
      (err (exception what), record c { state = replay_failed })
  finish_replay c (err aborted) = (err aborted, record c { state = replaying })
  finish_replay c (err undefined) = (err undefined, record c { state = replaying })
  finish_replay c (err out_of_fuel) = (err out_of_fuel, record c { state = replaying })

  unfoldable pub init_uninitialized :
      Bool → V → Logger K V → Run (List (Event K V)) → Cache K V → Run Bool × Cache K V
  unfolding replay finish_replay
  init_uninitialized with_replay empty_value logger consumed c =
      let logging =
        if c.disable_event_logging
        then c
        else record c { world = record c.world { cache_event_logger = some logger } } in
      if with_replay
      then finish_replay logging
          (consumed >>= λ events. replay empty_value events (record logging { state = replaying }))
      else (ok true, record logging { state = ready })

  unfoldable pub init_from :
      CacheState → Bool → V → Logger K V → Run (List (Event K V)) → Cache K V → Run Bool × Cache K V
  unfolding init_uninitialized
  init_from ready with_replay empty_value logger consumed c = (ok true, c)
  init_from uninitialized with_replay empty_value logger consumed c =
      init_uninitialized with_replay empty_value logger consumed c
  init_from replaying with_replay empty_value logger consumed c = (not_fresh, c)
  init_from replay_failed with_replay empty_value logger consumed c = (not_fresh, c)
  init_from replay_success with_replay empty_value logger consumed c = (not_fresh, c)

  -- `init`: what it returns or throws, and the cache that it leaves
  unfoldable pub init :
      Bool → V → Logger K V → Run (List (Event K V)) → Cache K V → Run Bool × Cache K V
  unfolding init_from
  init with_replay empty_value logger consumed c =
      init_from c.state with_replay empty_value logger consumed c
