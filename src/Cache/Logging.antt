-- ===== src/Cache/Logging.antt =====
-- What the operations of src/cpp/cache/chrono_cache.cpp log in a ready cache, and the states in
-- which they are refused.
use chrono_cache.Shared.{ℕ, ◌^◌, ◌<◌, ◌≡◌, refl, ◌∙◌, true, false, Option, none, some}
use chrono_cache.Shared.Int.{ℤ, pos, negsuc}
use chrono_cache.Shared.Run.{Run, ok, err, exception, Returns}
use chrono_cache.KvStore.Key.{Key}
use chrono_cache.KvStore.Store.Invariant.{IsValid, view}
use chrono_cache.KvStore.Store.Methods.{Writes, is_some}
use chrono_cache.HashMap.Laws.{Stored, set_with-Stored, remove_with-Writes}
use chrono_cache.Events.{EventType, set_event, delete_event, Event, Logger, World, log_event}
use chrono_cache.Events.Laws.{Logged, log_event-Logged}
use chrono_cache.Cache.{
  ready, Cache, is_accepting_ops, check_accepting_ops, check_logging_allowed, is_ready,
  log_if_allowed, ttl_count, set, get, del, expire, pttl, persist,
}
use chrono_cache.Cache.Expiry.{expiry, FitsIfSome, behind, new_entry-expiry}

module _ {ℓ κ} {K : Type ℓ} {V : Type κ} ⦃key : Key K⦄ (clock : ℕ → ℤ)
    (produce : Event K V → Run (Unit {0})) where
  -- What a refused operation gives.
  abbrev refusal {μ} : {A : Type μ} → Run A
  refusal = err (exception "ChronoCache is not ready to accept operations")

  -- In a state that accepts no operations, set, get, del, expire, pttl and persist all throw the
  -- same error.
  pub refuses :
      (c : Cache K V) (k : K) (v empty_value : V) (some_ttl : Option ℤ) (ttl : ℤ)
      → is_accepting_ops c.state ≡ false
      → (set clock produce k v some_ttl c ≡ refusal)
        × (get clock produce k c ≡ refusal)
        × (del clock produce empty_value k c ≡ refusal)
        × (expire clock produce k ttl c ≡ refusal)
        × (pttl clock produce k c ≡ refusal)
        × (persist clock produce k c ≡ refusal)
  unfolding set get del expire pttl persist check_accepting_ops
  refuses c k v empty_value some_ttl ttl e = (rw e, rw e, rw e, rw e, rw e, rw e)

  -- The callback in a ready cache with a logger is the logger's.
  pub log_on :
      (type : EventType) (k : K) (v : V) (ttl : ℤ) (w : World K V) (logger : Logger K V)
      → w.cache_event_logger ≡ some logger
      → log_if_allowed clock produce ready false type k v ttl w
        ≡ log_event clock produce type k v ttl w.ticks logger
  unfolding log_if_allowed check_logging_allowed is_ready
  log_on type k v ttl w logger e = rw e

  module _ (c : Cache K V) (valid : IsValid c.hash_map) (logger : Logger K V)
      (counting : IsValid logger.seq_counters) (roomy : logger.seq_counters.capacity < 2 ^ 30)
      (accepted : (e : Event K V) → produce e ≡ ok tt) (k : K) (is_up : c.state ≡ ready)
      (on : c.disable_event_logging ≡ false) (has : c.world.cache_event_logger ≡ some logger) where
    -- In a ready cache with logging on, a valid map, a logger whose counters are valid and of
    -- fewer than 2 ^ 30 buckets, and a producer that accepts every event, `del` of a stored key
    -- returns true, removes it, keeps every other key, and hands the producer exactly one DELETE
    -- event with the key's next sequence number; the other keys keep their sequence numbers.
    pub del-Logged :
        (empty_value : V)
        → is_some (view c.hash_map k) ≡ true
        → Returns (del clock produce empty_value k c) λ r.
          (r.0 ≡ true)
          × Writes c.hash_map k none r.1.hash_map
          × Logged logger k clock delete_event empty_value (negsuc 0) c.world.ticks r.1.world
    unfolding del check_accepting_ops is_accepting_ops
    del-Logged empty_value stored =
        let (w, logs, l) =
          log_event-Logged counting k roomy clock produce accepted delete_event empty_value
            (negsuc 0) c.world.ticks in
        let (r, run, (found, writes, e)) =
          remove_with-Writes valid k
            (log_if_allowed clock produce ready false delete_event k empty_value (negsuc 0)) c.world
            w (λ _. log_on delete_event k empty_value (negsuc 0) c.world logger has ∙ logs)
            (λ h. absurd (cc (h, stored))) in
        (
          (r.0, record c { hash_map = r.1; world = r.2 }),
          rw (is_up, on, run),
          (found ∙ stored, writes, rw e l),
        )

-- The ttl that an event carries: -1 where there is none.
abbrev pub event_ttl : Option ℤ → ℤ
event_ttl none = negsuc 0
event_ttl (some ms) = ms

ttl_count-event_ttl : (ttl : Option ℤ) → ttl_count ttl ≡ event_ttl ttl
ttl_count-event_ttl none = refl
ttl_count-event_ttl (some ms) = refl

behind_keeps {ℓ κ} :
    {K : Type ℓ} {V : Type κ} (time : ℕ → ℕ) (ttl : Option ℤ) (w : World K V)
    → (behind time ttl w).cache_event_logger ≡ w.cache_event_logger
behind_keeps time none w = refl
behind_keeps time (some ms) w = refl

module _ {ℓ κ} {K : Type ℓ} {V : Type κ} ⦃key : Key K⦄ (time : ℕ → ℕ)
    (produce : Event K V → Run (Unit {0})) (c : Cache K V) (valid : IsValid c.hash_map)
    (logger : Logger K V) (counting : IsValid logger.seq_counters)
    (roomy : logger.seq_counters.capacity < 2 ^ 30) (accepted : (e : Event K V) → produce e ≡ ok tt)
    (k : K) (is_up : c.state ≡ ready) (on : c.disable_event_logging ≡ false)
    (has : c.world.cache_event_logger ≡ some logger) where
  -- In a ready cache with logging on, a valid map of fewer than 2 ^ 30 buckets, a logger whose
  -- counters are valid and of fewer than 2 ^ 30 buckets, and a producer that accepts every event,
  -- `set` with no ttl, or with one of m milliseconds where the clock is not before 1970 and the
  -- times in nanoseconds fit 64 bits, stores the value under its key, without a deadline or with
  -- the deadline m * 1000000 nanoseconds after the time that the clock had, keeps every other
  -- key, and hands the producer exactly one SET event, with the key's next sequence number, m or
  -- -1, and the time of one clock reading; the other keys keep their sequence numbers.
  pub set-Logged :
      (v : V) (ttl : Option ℤ)
      → FitsIfSome (time c.world.ticks) ttl
      → c.hash_map.capacity < 2 ^ 30
      → Returns (set (λ i. pos (time i)) produce k v ttl c) λ r.
        Stored c.hash_map k
          (record { value = v; expires_at = expiry (time c.world.ticks) ttl })
          r.1.hash_map
        × Logged logger k
            (λ i. pos (time i))
            set_event
            v
            (event_ttl ttl)
            (behind time ttl c.world).ticks
            r.1.world
  unfolding set check_accepting_ops is_accepting_ops
  set-Logged v ttl fits small =
      let w = behind time ttl c.world in
      let (after, logs, l) =
        log_event-Logged counting k roomy (λ i. pos (time i)) produce accepted set_event v
          (ttl_count ttl) w.ticks in
      let (r, run, (stored, e)) =
        set_with-Stored valid k small
          (log_if_allowed (λ i. pos (time i)) produce ready false set_event k v (ttl_count ttl))
          (record { value = v; expires_at = expiry (time c.world.ticks) ttl }) w after
          (log_on (λ i. pos (time i)) produce set_event k v (ttl_count ttl) w logger
              (behind_keeps time ttl c.world ∙ has)
            ∙ logs) in
      (
        (true, record c { hash_map = r.0; world = r.1 }),
        rw (is_up, on, new_entry-expiry time v ttl c.world fits, run),
        (stored, rw (e, ← ttl_count-event_ttl ttl) l),
      )
