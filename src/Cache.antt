-- ===== src/Cache.antt =====
-- `ChronoCache` of src/cpp/cache/chrono_cache.cpp and its entries, `CacheEntry` of
-- src/cpp/cache/cache_entry.h. A time is a number of nanoseconds, as the system clock has it; each
-- reading of the clock counts one tick. The callbacks are the functions given to the map.
pub mod Laws
pub mod Expiry
pub mod Deadlines
pub mod Logging
use chrono_cache.Shared.{ℕ, ◌+◌, Bool, true, false, ◌||◌, not, Option, none, some, if◌then◌else◌}
use chrono_cache.Shared.Int.{ℤ, pos, negsuc, ltb_ℤ, leb_ℤ, add_ℤ, neg_ℤ, scale_ℤ, quot_ℤ}
use chrono_cache.Shared.Run.{Run, ok, err, exception, undefined, ◌>>=◌, int64}
use chrono_cache.KvStore.Key.{Key}
use chrono_cache.KvStore.Store.{Store}
use chrono_cache.HashMap.{set_with, remove_with, process_and_remove_if}
use chrono_cache.Events.{
  EventType, set_event, delete_event, expire_event, persist_event, Event, Logger, World, nanos,
  log_event,
}

-- `CacheEntry`
pub record Entry {κ} (V : Type κ) : Type κ where
  pub value : V
  pub expires_at : Option ℤ

-- `ChronoCacheState`
pub data CacheState : Type 0 where
  uninitialized replaying replay_failed replay_success ready : CacheState

-- `ChronoCache`; its sorted sets stand apart
pub record Cache {ℓ κ} (K : Type ℓ) (V : Type κ) : Type (ℓ ⊔ κ) where
  pub state : CacheState
  pub hash_map : Store K (Entry V)
  pub disable_event_logging : Bool
  pub world : World K V

-- What `cond_fn` captures: the world, and the result of the operation.
pub record Local {ℓ κ μ} (K : Type ℓ) (V : Type κ) (R : Type μ) : Type (ℓ ⊔ κ ⊔ μ) where
  pub world : World K V
  pub result : R

unfoldable pub is_accepting_ops : CacheState → Bool
is_accepting_ops ready = true
is_accepting_ops replaying = true
is_accepting_ops uninitialized = false
is_accepting_ops replay_failed = false
is_accepting_ops replay_success = false

unfoldable pub is_ready : CacheState → Bool
is_ready ready = true
is_ready uninitialized = false
is_ready replaying = false
is_ready replay_failed = false
is_ready replay_success = false

unfoldable pub check_accepting_ops : CacheState → Run (Unit {0})
unfolding is_accepting_ops
check_accepting_ops state =
    if is_accepting_ops state
    then ok tt
    else err (exception "ChronoCache is not ready to accept operations")

-- `ttl.has_value() ? ttl->count() : -1`
abbrev pub ttl_count : Option ℤ → ℤ
ttl_count none = negsuc 0
ttl_count (some ttl) = ttl

-- `if (ttl.count() <= 0) throw ...`
unfoldable pub check_ttl : ℤ → Run (Unit {0})
check_ttl ttl = if leb_ℤ ttl (pos 0) then err (exception "TTL must be greater than 0") else ok tt

module _ {ℓ κ} {K : Type ℓ} {V : Type κ} where
  unfoldable pub tick : World K V → World K V
  tick w = record w { ticks = w.ticks + 1 }

  -- `Clock::now() + ttl`, with the ttl turned into nanoseconds
  unfoldable pub deadline : (ℕ → ℤ) → ℤ → World K V → Run ℤ
  unfolding int64
  deadline clock ttl w = do
    since_now ← int64 (scale_ℤ nanos ttl)
    int64 (add_ℤ (clock w.ticks) since_now)

  -- `CacheEntry(val)` and `CacheEntry(val, ttl)`
  unfoldable pub new_entry : (ℕ → ℤ) → V → Option ℤ → World K V → Run (Entry V × World K V)
  unfolding deadline tick
  new_entry clock v none w = ok (record { value = v; expires_at = none }, w)
  new_entry clock v (some ttl) w = do
    expires_at ← deadline clock ttl w
    ok (record { value = v; expires_at = some expires_at }, tick w)

  -- `is_expired`, which reads the clock only where there is a deadline
  unfoldable pub is_expired : (ℕ → ℤ) → Entry V → World K V → Bool × World K V
  unfolding tick
  is_expired clock e w = elim e.expires_at [
    | none ↦ (false, w)
    | some t ↦ (ltb_ℤ t (clock w.ticks), tick w)
  ]

  unfoldable pub check_logging_allowed : CacheState → Bool → World K V → Run Bool
  unfolding is_ready
  check_logging_allowed state disable_event_logging w =
      if disable_event_logging || not (is_ready state)
      then ok false
      else elim w.cache_event_logger [
        | none ↦ err (exception "Event logging is enabled but logger was not initialized")
        | some logger ↦ ok true
      ]

module _ {ℓ κ} {K : Type ℓ} {V : Type κ} ⦃key : Key K⦄ (clock : ℕ → ℤ)
    (produce : Event K V → Run (Unit {0})) where
  -- `if (check_logging_allowed()) cache_event_logger->log_...(...)`
  unfoldable pub log_if_allowed :
      CacheState → Bool → EventType → K → V → ℤ → World K V → Run (World K V)
  unfolding check_logging_allowed log_event
  log_if_allowed state disable_event_logging type k v ttl_ms w = do
    allowed ← check_logging_allowed state disable_event_logging w
    (if allowed
        then (elim w.cache_event_logger [
          | none ↦ err undefined
          | some logger ↦ log_event clock produce type k v ttl_ms w.ticks logger
        ])
        else ok w)

  unfoldable pub set : K → V → Option ℤ → Cache K V → Run (Bool × Cache K V)
  unfolding check_accepting_ops new_entry set_with log_if_allowed
  set k v ttl c = do
    _ ← check_accepting_ops c.state
    made ← new_entry clock v ttl c.world
    r ←
        set_with (log_if_allowed c.state c.disable_event_logging set_event k v (ttl_count ttl)) k
          made.0 c.hash_map made.1
    ok (true, record c { hash_map = r.0; world = r.1 })

  -- the `cond_fn` of `get`
  unfoldable pub get_cond :
      Option (Entry V) → Local K V (Option V) → Run (Bool × Option (Entry V) × Local K V (Option V))
  unfolding is_expired
  get_cond none w = ok (false, none, w)
  get_cond (some e) w =
      let r = is_expired clock e w.world in
      if r.0
      then ok (true, none, record w { world = r.1 })
      else ok (false, none, record { world = r.1; result = some e.value })

  unfoldable pub get : K → Cache K V → Run (Option V × Cache K V)
  unfolding check_accepting_ops process_and_remove_if get_cond
  get k c = do
    _ ← check_accepting_ops c.state
    r ← process_and_remove_if get_cond k c.hash_map (record { world = c.world; result = none })
    ok (r.1.result, record c { hash_map = r.0; world = r.1.world })

  -- `del`; the event carries an empty value
  unfoldable pub del : V → K → Cache K V → Run (Bool × Cache K V)
  unfolding check_accepting_ops remove_with log_if_allowed
  del empty_value k c = do
    _ ← check_accepting_ops c.state
    r ←
        remove_with
          (log_if_allowed c.state c.disable_event_logging delete_event k empty_value (negsuc 0)) k
          c.hash_map c.world
    ok (r.0, record c { hash_map = r.1; world = r.2 })

  -- the `cond_fn` of `expire`
  unfoldable pub expire_cond :
      CacheState
      → Bool
      → K
      → ℤ
      → Option (Entry V)
      → Local K V Bool
      → Run (Bool × Option (Entry V) × Local K V Bool)
  unfolding is_expired deadline tick log_if_allowed
  expire_cond state disable_event_logging k ttl none w = ok (false, none, w)
  expire_cond state disable_event_logging k ttl (some e) w =
      let r = is_expired clock e w.world in
      if r.0 then ok (true, none, record w { world = r.1 }) else (do
        expires_at ← deadline clock ttl r.1
        w' ← log_if_allowed state disable_event_logging expire_event k e.value ttl (tick r.1)
        ok (
          false,
          some (record e { expires_at = some expires_at }),
          record { world = w'; result = true },
        ))

  unfoldable pub expire : K → ℤ → Cache K V → Run (Bool × Cache K V)
  unfolding check_accepting_ops check_ttl process_and_remove_if expire_cond
  expire k ttl c = do
    _ ← check_accepting_ops c.state
    _ ← check_ttl ttl
    r ←
        process_and_remove_if (expire_cond c.state c.disable_event_logging k ttl) k c.hash_map
          (record { world = c.world; result = false })
    ok (r.1.result, record c { hash_map = r.0; world = r.1.world })

  -- the `cond_fn` of `pttl`; `remaining_ttl` reads the clock again
  unfoldable pub pttl_cond :
      Option (Entry V) → Local K V ℤ → Run (Bool × Option (Entry V) × Local K V ℤ)
  unfolding is_expired tick
  pttl_cond none w = ok (false, none, w)
  pttl_cond (some e) w =
      let r = is_expired clock e w.world in
      if r.0 then ok (true, none, record w { world = r.1 }) else (elim e.expires_at [
        | none ↦ ok (false, none, record { world = r.1; result = negsuc 0 })
        | some t ↦ do
          remaining ← int64 (add_ℤ t (neg_ℤ (clock r.1.ticks)))
          ok (false, none, record { world = tick r.1; result = quot_ℤ remaining nanos })
      ])

  unfoldable pub pttl : K → Cache K V → Run (ℤ × Cache K V)
  unfolding check_accepting_ops process_and_remove_if pttl_cond
  pttl k c = do
    _ ← check_accepting_ops c.state
    r ← process_and_remove_if pttl_cond k c.hash_map (record { world = c.world; result = negsuc 1 })
    ok (r.1.result, record c { hash_map = r.0; world = r.1.world })

  -- the `cond_fn` of `persist`
  unfoldable pub persist_cond :
      CacheState
      → Bool
      → K
      → Option (Entry V)
      → Local K V Bool
      → Run (Bool × Option (Entry V) × Local K V Bool)
  unfolding is_expired log_if_allowed
  persist_cond state disable_event_logging k none w = ok (false, none, w)
  persist_cond state disable_event_logging k (some e) w =
      let r = is_expired clock e w.world in
      if r.0 then ok (true, none, record w { world = r.1 }) else (elim e.expires_at [
        | none ↦ ok (false, none, record w { world = r.1 })
        | some t ↦ do
          w' ← log_if_allowed state disable_event_logging persist_event k e.value (negsuc 0) r.1
          ok (false, some (record e { expires_at = none }), record { world = w'; result = true })
      ])

  unfoldable pub persist : K → Cache K V → Run (Bool × Cache K V)
  unfolding check_accepting_ops process_and_remove_if persist_cond
  persist k c = do
    _ ← check_accepting_ops c.state
    r ←
        process_and_remove_if (persist_cond c.state c.disable_event_logging k) k c.hash_map
          (record { world = c.world; result = false })
    ok (r.1.result, record c { hash_map = r.0; world = r.1.world })
