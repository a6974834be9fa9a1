-- ===== src/Events/Laws.antt =====
-- The sequence counters and the log calls of src/cpp/cache/kafka_logging/event_logger.cpp.
use chrono_cache.Shared.{
  ℕ, ◌+◌, ◌%◌, ◌^◌, ◌<◌, ◌≡◌, refl, ap, ◌∙◌, Option, none, some, [], ◌∷◌, ◌++◌, if◌then◌else◌,
  Bool-cases, Option-cases, inl, inr,
}
use chrono_cache.Shared.Int.{ℤ, quot_ℤ}
use chrono_cache.Shared.Run.{Run, ok, Returns}
use chrono_cache.KvStore.Key.{Key, ◌≈◌}
use chrono_cache.KvStore.Store.Invariant.{IsValid, view}
use chrono_cache.KvStore.Store.Pointers.{write_ptr-Writes}
use chrono_cache.HashMap.Laws.{get_or_add_growing-Stored}
use chrono_cache.Events.{EventType, Event, Logger, World, nanos, next_seq, log_event}

-- The counter of a key, which starts at 0.
abbrev pub last_of : Option ℕ → ℕ
last_of none = 0
last_of (some n) = n

module _ {ℓ κ} {K : Type ℓ} {V : Type κ} ⦃key : Key K⦄ where
  -- The last number that the logger gave to the key, or 0.
  abbrev pub last_seq : Logger K V → K → ℕ
  last_seq logger k = last_of (view logger.seq_counters k)

  -- What numbering an event of `k` does.
  pub record Numbered (logger : Logger K V) (k : K) (r : ℕ × Logger K V) : Type (ℓ ⊔ κ) where
    pub valid : IsValid r.1.seq_counters
    pub seq : r.0 ≡ (last_seq logger k + 1) % 2 ^ 64
    pub counters :
        (q : K) → view r.1.seq_counters q ≡ (if k ≈ q then some r.0 else view logger.seq_counters q)
    pub produced : r.1.produced ≡ logger.produced

  -- What logging an event of `k` does: it goes out with the next number and the time of one reading
  -- of the clock.
  pub record Logged (logger : Logger K V) (k : K) (clock : ℕ → ℤ) (type : EventType) (v : V)
      (ttl_ms : ℤ) (ticks : ℕ) (w : World K V) : Type (ℓ ⊔ κ) where
    pub after : Logger K V
    pub kept : w.cache_event_logger ≡ some after
    pub read : w.ticks ≡ ticks + 1
    pub valid : IsValid after.seq_counters
    pub event :
        after.produced
        ≡ logger.produced
          ++ record {
            type = type;
            key = k;
            value = v;
            ttl_ms = ttl_ms;
            seq = (last_seq logger k + 1) % 2 ^ 64;
            timestamp = quot_ℤ (clock ticks) nanos;
          }
            ∷ []
    pub counters :
        (q : K)
        → last_seq after q ≡ (if k ≈ q then (last_seq logger k + 1) % 2 ^ 64 else last_seq logger q)

  module _ {logger : Logger K V} (valid : IsValid logger.seq_counters) (k : K)
      (small : logger.seq_counters.capacity < 2 ^ 30) where
    pub next_seq-Numbered : Returns (next_seq k logger) (Numbered logger k)
    unfolding next_seq
    next_seq-Numbered =
        let (r, run, (stored, address, value)) = get_or_add_growing-Stored valid k small 0 in
        let seq = (r.0.value + 1) % 2 ^ 64 in
        let (s, run', w) = write_ptr-Writes stored.valid k r.0.addr seq address in
        (
          (seq, record logger { seq_counters = s }),
          rw (run, run'),
          record {
            valid = w.valid;
            seq =
                ap (λ n. (n + 1) % 2 ^ 64)
                  (value ∙ elim (Option-cases (view logger.seq_counters k)) [
                    | inl e ↦ rw e
                    | inr (n, e) ↦ rw e
                  ]);
            counters = λ q. elim (Bool-cases (k ≈ q)) [
              | inl p ↦ rw (w.reads q, p)
              | inr p ↦ rw (w.reads q, stored.reads q, p)
            ];
            produced = refl;
          },
        )

    -- For a logger whose counters are valid and of fewer than 2 ^ 30 buckets, and a producer that
    -- accepts every event, logging appends one event with the key's next sequence number (modulo
    -- 2 ^ 64) and the time of one clock reading, and the counters stay valid, the key's one
    -- higher and the others as they were.
    pub log_event-Logged :
        (clock : ℕ → ℤ) (produce : Event K V → Run (Unit {0}))
        → ((e : Event K V) → produce e ≡ ok tt)
        → (type : EventType) (v : V) (ttl_ms : ℤ) (ticks : ℕ)
        → Returns
            (log_event clock produce type k v ttl_ms ticks logger)
            (Logged logger k clock type v ttl_ms ticks)
    unfolding log_event
    log_event-Logged clock produce accepted type v ttl_ms ticks =
        let (r, run, n) = next_seq-Numbered in
        let event : ℕ → Event K V = λ seq. record {
          type = type;
          key = k;
          value = v;
          ttl_ms = ttl_ms;
          seq = seq;
          timestamp = quot_ℤ (clock ticks) nanos;
        } in
        let after : Logger K V = record r.1 { produced = r.1.produced ++ event r.0 ∷ [] } in
        (
          record { ticks = ticks + 1; cache_event_logger = some after },
          rw (run, accepted (event r.0)),
          record {
            after = after;
            kept = refl;
            read = refl;
            valid = n.valid;
            event =
                ap (λ p. p ++ event r.0 ∷ []) n.produced
                ∙ ap (λ seq. logger.produced ++ event seq ∷ []) n.seq;
            counters = λ q. elim (Bool-cases (k ≈ q)) [
              | inl p ↦ ap last_of (n.counters q) ∙ rw p n.seq
              | inr p ↦ ap last_of (n.counters q) ∙ rw p
            ];
          },
        )
