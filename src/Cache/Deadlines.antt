-- ===== src/Cache/Deadlines.antt =====
-- The operations of src/cpp/cache/chrono_cache.cpp that change a deadline, `expire` and `persist`, with
-- event logging off.
use chrono_cache.Shared.{
  ℕ, ◌≡◌, refl, ap, ◌∙◌, Bool, true, false, Option, none, some, Option-cases, Bool-cases, inl, inr,
  ◌+◌, if◌then◌else◌, subst,
}
use chrono_cache.Shared.Int.{ℤ, pos, ltb_ℤ, leb_ℤ}
use chrono_cache.Shared.Run.{Run, ok, Returns}
use chrono_cache.KvStore.Key.{Key}
use chrono_cache.KvStore.Store.Invariant.{IsValid, view}
use chrono_cache.KvStore.Store.Methods.{Writes, is_some}
use chrono_cache.HashMap.Laws.{outcome, process_and_remove_if-Writes}
use chrono_cache.Events.{EventType, Event, World}
use chrono_cache.Cache.{
  Entry, CacheState, Cache, Local, is_accepting_ops, check_accepting_ops, check_ttl, tick,
  is_expired, check_logging_allowed, log_if_allowed, expire_cond, expire, persist_cond, persist,
}
use chrono_cache.Cache.Laws.{swept}
use chrono_cache.Cache.Expiry.{moved, Fits, deadline-moved}

module _ {κ} {V : Type κ} where
  -- The entry with another deadline, where there is one.
  abbrev pub with_deadline : Option ℤ → Option (Entry V) → Option (Entry V)
  with_deadline t none = none
  with_deadline t (some e) = some (record e { expires_at = t })

  abbrev pub has_deadline : Option (Entry V) → Bool
  has_deadline none = false
  has_deadline (some e) = is_some e.expires_at

module _ {ℓ κ} {K : Type ℓ} {V : Type κ} ⦃key : Key K⦄ (clock : ℕ → ℤ)
    (produce : Event K V → Run (Unit {0})) where
  -- What a callback that changes a deadline answers.
  record Changes
      (cond_fn : Option (Entry V) → Local K V Bool → Run (Bool × Option (Entry V) × Local K V Bool))
      (o : Option (Entry V)) (w : World K V) (new : Option (Entry V)) (done : Bool)
      : Type (ℓ ⊔ κ) where
    drop : Bool
    written : Option (Entry V)
    after : Local K V Bool
    runs : cond_fn o (record { world = w; result = false }) ≡ ok (drop, written, after)
    safe : o ≡ none → written ≡ none
    left : outcome drop written o ≡ new
    result : after.result ≡ done

  log_off :
      (state : CacheState) (type : EventType) (k : K) (v : V) (ttl : ℤ) (w : World K V)
      → log_if_allowed clock produce state true type k v ttl w ≡ ok w
  unfolding log_if_allowed check_logging_allowed
  log_off state type k v ttl w = refl

  persist_cond-Changes :
      (state : CacheState) (k : K) (o : Option (Entry V)) (w : World K V)
      → Changes
          (persist_cond clock produce state true k)
          o
          w
          (with_deadline none (swept (clock w.ticks) o))
          (has_deadline (swept (clock w.ticks) o))
  unfolding persist_cond is_expired log_if_allowed check_logging_allowed
  persist_cond-Changes state k none w = record {
    drop = false;
    written = none;
    after = record { world = w; result = false };
    runs = refl;
    safe = λ _. refl;
    left = refl;
    result = refl;
  }
  persist_cond-Changes state k (some e) w = elim (Option-cases e.expires_at) [
    | inl h ↦ record {
      drop = false;
      written = none;
      after = record { world = w; result = false };
      runs = rw (h, h);
      safe = λ _. refl;
      left = rw h;
      result = rw h;
    }
    | inr (t, h) ↦ elim (Bool-cases (ltb_ℤ t (clock w.ticks))) [
      | inl p ↦ record {
        drop = true;
        written = none;
        after = record { world = tick w; result = false };
        runs = rw (h, p, is_expired);
        safe = λ _. refl;
        left = rw (h, p);
        result = rw (h, p);
      }
      | inr p ↦ record {
        drop = false;
        written = some (record e { expires_at = none });
        after = record { world = tick w; result = true };
        runs = rw (h, p, h);
        safe = λ n. cc (n);
        left = rw (h, p);
        result = rw (h, p);
      }
    ]
  ]

  module _ (c : Cache K V) (valid : IsValid c.hash_map) (k : K)
      (accepting : is_accepting_ops c.state ≡ true) (off : c.disable_event_logging ≡ true) where
    -- In an accepting cache with a valid map and logging off, `persist` reports whether the key
    -- has an entry with a deadline that has not passed, leaves an entry whose deadline has not
    -- passed without one and with its value kept, removes an entry whose deadline has passed, and
    -- keeps every other key.
    pub persist-Writes : Returns (persist clock produce k c) λ r.
        (r.0 ≡ has_deadline (swept (clock c.world.ticks) (view c.hash_map k)))
        × Writes c.hash_map k
            (with_deadline none (swept (clock c.world.ticks) (view c.hash_map k)))
            r.1.hash_map
    unfolding persist check_accepting_ops
    persist-Writes =
        let a = persist_cond-Changes c.state k (view c.hash_map k) c.world in
        let (r, run, (w, e)) =
          process_and_remove_if-Writes valid k (persist_cond clock produce c.state true k)
            (record { world = c.world; result = false }) a.after a.drop a.written a.runs a.safe in
        (
          (r.1.result, record c { hash_map = r.0; world = r.1.world }),
          rw (accepting, off, run),
          (ap (λ l. l.result) e ∙ a.result, rw⁻¹ a.left w),
        )

-- The reading of the clock that `expire` counts from: `is_expired` takes one first where there is a deadline.
abbrev pub reading {κ} : {V : Type κ} → ℕ → Option (Entry V) → ℕ
reading ticks o = if has_deadline o then ticks + 1 else ticks

module _ {ℓ κ} {K : Type ℓ} {V : Type κ} ⦃key : Key K⦄ (time : ℕ → ℕ)
    (produce : Event K V → Run (Unit {0})) (ttl : ℤ) where
  expire_cond-Changes :
      (state : CacheState) (k : K) (o : Option (Entry V)) (w : World K V)
      → Fits (time (reading w.ticks o)) ttl
      → Changes
          (λ i. pos (time i))
          produce
          (expire_cond (λ i. pos (time i)) produce state true k ttl)
          o
          w
          (with_deadline
            (some (moved (time (reading w.ticks o)) ttl))
            (swept (pos (time w.ticks)) o))
          (is_some (swept (pos (time w.ticks)) o))
  unfolding expire_cond is_expired log_if_allowed check_logging_allowed tick
  expire_cond-Changes state k none w fits = record {
    drop = false;
    written = none;
    after = record { world = w; result = false };
    runs = refl;
    safe = λ _. refl;
    left = refl;
    result = refl;
  }
  expire_cond-Changes state k (some e) w fits =
      let at_reading : Option ℤ → Type 0 =
        λ x. Fits (time (if is_some x then w.ticks + 1 else w.ticks)) ttl in
      elim (Option-cases e.expires_at) [
        | inl h ↦
            let now : Fits (time w.ticks) ttl = subst at_reading h fits in
            record {
              drop = false;
              written = some (record e { expires_at = some (moved (time w.ticks) ttl) });
              after = record { world = tick w; result = true };
              runs = rw (h, deadline-moved time ttl w now) refl;
              safe = λ n. cc (n);
              left = rw h;
              result = rw h;
            }
        | inr (t, h) ↦ elim (Bool-cases (ltb_ℤ t (pos (time w.ticks)))) [
          | inl p ↦ record {
            drop = true;
            written = none;
            after = record { world = tick w; result = false };
            runs = rw (h, p);
            safe = λ _. refl;
            left = rw (h, p);
            result = rw (h, p);
          }
          | inr p ↦
              let now : Fits (time (w.ticks + 1)) ttl = subst at_reading h fits in
              record {
                drop = false;
                written = some (record e { expires_at = some (moved (time (w.ticks + 1)) ttl) });
                after = record { world = tick (tick w); result = true };
                runs = rw (h, p, deadline-moved time ttl (tick w) now) refl;
                safe = λ n. cc (n);
                left = rw (h, p);
                result = rw (h, p);
              }
        ]
      ]

  -- In an accepting cache with a valid map and logging off, on a clock that is not before 1970,
  -- `expire` with a ttl of m milliseconds above 0 whose deadline fits 64 bits reports whether the
  -- key has an entry whose deadline has not passed, gives that entry the deadline m * 1000000
  -- nanoseconds after the clock's next reading with its value kept, removes an entry whose
  -- deadline has passed, and keeps every other key.
  pub expire-Writes :
      (c : Cache K V) (valid : IsValid c.hash_map) (k : K)
      → is_accepting_ops c.state ≡ true
      → c.disable_event_logging ≡ true
      → leb_ℤ ttl (pos 0) ≡ false
      → Fits (time (reading c.world.ticks (view c.hash_map k))) ttl
      → Returns (expire (λ i. pos (time i)) produce k ttl c) λ r.
        (r.0 ≡ is_some (swept (pos (time c.world.ticks)) (view c.hash_map k)))
        × Writes c.hash_map k
            (with_deadline
              (some (moved (time (reading c.world.ticks (view c.hash_map k))) ttl))
              (swept (pos (time c.world.ticks)) (view c.hash_map k)))
            r.1.hash_map
  unfolding expire check_accepting_ops check_ttl
  expire-Writes c valid k accepting off positive fits =
      let a = expire_cond-Changes c.state k (view c.hash_map k) c.world fits in
      let (r, run, (w, e)) =
        process_and_remove_if-Writes valid k
          (expire_cond (λ i. pos (time i)) produce c.state true k ttl)
          (record { world = c.world; result = false }) a.after a.drop a.written a.runs a.safe in
      (
        (r.1.result, record c { hash_map = r.0; world = r.1.world }),
        rw (accepting, off, positive, run),
        (ap (λ l. l.result) e ∙ a.result, rw⁻¹ a.left w),
      )
