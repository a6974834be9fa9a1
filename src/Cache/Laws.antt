-- ===== src/Cache/Laws.antt =====
-- `get` and `set` of src/cpp/cache/chrono_cache.cpp on a valid map: what they answer, and what
-- they leave in the map.
use chrono_cache.Shared.{
  ℕ, ◌^◌, ◌<◌, ◌≡◌, refl, ap, ◌∙◌, Bool, true, false, Option, none, some, Option-cases, Bool-cases,
  inl, inr, if◌then◌else◌,
}
use chrono_cache.Shared.Int.{ℤ, ltb_ℤ}
use chrono_cache.Shared.Run.{Run, ok, Returns}
use chrono_cache.KvStore.Key.{Key}
use chrono_cache.KvStore.Store.Invariant.{IsValid, view}
use chrono_cache.KvStore.Store.Methods.{Writes}
use chrono_cache.HashMap.Laws.{Stored, set_with-Stored, outcome, process_and_remove_if-Writes}
use chrono_cache.Events.{Event, World, set_event}
use chrono_cache.Cache.{
  Entry, Cache, Local, is_accepting_ops, check_accepting_ops, new_entry, tick, is_expired,
  check_logging_allowed, log_if_allowed, ttl_count, set, get_cond, get,
}

-- Whether a deadline has passed at the time `now`.
abbrev pub is_past : ℤ → Option ℤ → Bool
is_past now none = false
is_past now (some t) = ltb_ℤ t now

module _ {κ} {V : Type κ} where
  -- What is left of an entry at the time `now`: nothing once its deadline has passed.
  abbrev pub swept : ℤ → Option (Entry V) → Option (Entry V)
  swept now none = none
  swept now (some e) = if is_past now e.expires_at then none else some e

  abbrev pub value_at : Option (Entry V) → Option V
  value_at none = none
  value_at (some e) = some e.value

module _ {ℓ κ} {K : Type ℓ} {V : Type κ} ⦃key : Key K⦄ (clock : ℕ → ℤ)
    (produce : Event K V → Run (Unit {0})) where
  -- The answer of `get_cond` on what the map holds.
  record Answers (o : Option (Entry V)) (w : World K V) : Type (ℓ ⊔ κ) where
    drop : Bool
    after : Local K V (Option V)
    runs : get_cond clock produce o (record { world = w; result = none }) ≡ ok (drop, none, after)
    left : outcome drop none o ≡ swept (clock w.ticks) o
    result : after.result ≡ value_at (swept (clock w.ticks) o)
    logger : after.world.cache_event_logger ≡ w.cache_event_logger

  get_cond-Answers : (o : Option (Entry V)) (w : World K V) → Answers o w
  unfolding get_cond is_expired tick
  get_cond-Answers none w = record {
    drop = false;
    after = record { world = w; result = none };
    runs = refl;
    left = refl;
    result = refl;
    logger = refl;
  }
  get_cond-Answers (some e) w = elim (Option-cases e.expires_at) [
    | inl h ↦ record {
      drop = false;
      after = record { world = w; result = some e.value };
      runs = rw h;
      left = rw h;
      result = rw h;
      logger = refl;
    }
    | inr (t, h) ↦ elim (Bool-cases (ltb_ℤ t (clock w.ticks))) [
      | inl p ↦ record {
        drop = true;
        after = record { world = tick w; result = none };
        runs = rw (h, p);
        left = rw (h, p);
        result = rw (h, p);
        logger = refl;
      }
      | inr p ↦ record {
        drop = false;
        after = record { world = tick w; result = some e.value };
        runs = rw (h, p);
        left = rw (h, p);
        result = rw (h, p);
        logger = refl;
      }
    ]
  ]

  module _ (c : Cache K V) (valid : IsValid c.hash_map) (k : K)
      (accepting : is_accepting_ops c.state ≡ true) where
    -- In an accepting cache with a valid map, `get k` answers the value of `k` unless its
    -- deadline has passed at the clock reading, leaves a valid map in which `k` is gone where its
    -- deadline has passed and every key else keeps its entry, and leaves the logger as it is.
    pub get-Reads : Returns (get clock produce k c) λ r.
        (r.0 ≡ value_at (swept (clock c.world.ticks) (view c.hash_map k)))
        × Writes c.hash_map k (swept (clock c.world.ticks) (view c.hash_map k)) r.1.hash_map
        × (r.1.world.cache_event_logger ≡ c.world.cache_event_logger)
    unfolding get check_accepting_ops
    get-Reads =
        let a = get_cond-Answers (view c.hash_map k) c.world in
        let (r, run, (w, e)) =
          process_and_remove_if-Writes valid k (get_cond clock produce)
            (record { world = c.world; result = none }) a.after a.drop none a.runs (λ _. refl) in
        (
          (r.1.result, record c { hash_map = r.0; world = r.1.world }),
          rw (accepting, run),
          (
            ap (λ l. l.result) e ∙ a.result,
            rw⁻¹ a.left w,
            ap (λ l. l.world.cache_event_logger) e ∙ a.logger,
          ),
        )

    -- With logging off, the callbacks of the map do nothing.
    log_off :
        c.disable_event_logging ≡ true
        → (v : V) (ttl : ℤ) (w : World K V)
        → log_if_allowed clock produce c.state c.disable_event_logging set_event k v ttl w ≡ ok w
    unfolding log_if_allowed check_logging_allowed
    log_off off v ttl w = rw off

    -- In an accepting cache with logging off and a valid map of fewer than 2 ^ 30 buckets, `set`
    -- returns true, stores the entry that was made, keeps every other key, and leaves the state
    -- as it is; the world is the one behind making the entry.
    pub set-Stored :
        (v : V) (ttl : Option ℤ) (made : Entry V × World K V)
        → new_entry clock v ttl c.world ≡ ok made
        → c.disable_event_logging ≡ true
        → c.hash_map.capacity < 2 ^ 30
        → Returns (set clock produce k v ttl c) λ r.
          (r.0 ≡ true)
          × Stored c.hash_map k made.0 r.1.hash_map
          × (r.1.world ≡ made.1)
          × (r.1.state ≡ c.state)
    unfolding set check_accepting_ops
    set-Stored v ttl made new off small =
        let (r, run, (stored, e)) =
          set_with-Stored valid k small
            (log_if_allowed clock produce c.state c.disable_event_logging set_event k v
              (ttl_count ttl))
            made.0 made.1 made.1 (log_off off v (ttl_count ttl) made.1) in
        (
          (true, record c { hash_map = r.0; world = r.1 }),
          rw (accepting, new, run),
          (refl, stored, e, refl),
        )
