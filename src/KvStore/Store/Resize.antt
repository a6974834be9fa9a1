-- ===== src/KvStore/Store/Resize.antt =====
-- `resize` of src/cpp/cache/kv_store/store.h: the nodes of a valid table, moved to a larger one.
use mathlib.Core.Option.{or_else}
use chrono_cache.Shared.{
  ℕ, ◌+◌, ◌^◌, ◌≤◌, ◌<◌, ◌≡◌, refl, ap, ◌∙◌, sym, true, false, arith, tally, leb, ◌==◌,
}
use chrono_cache.Shared.Run.{err, exception, Returns}
use chrono_cache.KvStore.Key.{Key}
use chrono_cache.KvStore.Chain.{Node}
use chrono_cache.KvStore.Chain.Search.{key_hit, read_at}
use chrono_cache.KvStore.Metrics.{Metrics, resize_event_triggered, recalculate_load_factor}
use chrono_cache.KvStore.Store.{Store, is_power_of_2, reset_to_capacity, collect, reinsert, resize}
use chrono_cache.KvStore.Store.Index.{is_power_of_2_iff}
use chrono_cache.KvStore.Store.Invariant.{home, view_by, view, addresses, IsValid, length-tally}
use chrono_cache.KvStore.Store.Collect.{tally-collect_only, read_at-collect, collect-replicate}
use chrono_cache.KvStore.Store.Blank.{blank, blank-IsValid, blank_reads}
use chrono_cache.KvStore.Store.Reinsert.{Pending, reinsert-Moved}

module _ {ℓ κ} {K : Type ℓ} {V : Type κ} ⦃key : Key K⦄ where
  -- What `resize` promises: a valid store of the new capacity with the same entries, each value at
  -- the address where it was.
  pub record Resized (s : Store K V) (n : ℕ) (s' : Store K V) : Type (ℓ ⊔ κ) where
    pub valid : IsValid s'
    pub reads : (q : K) → view s' q ≡ view s q
    pub addrs : (q : K) → addresses s' q ≡ addresses s q
    pub entries : s'.metrics.num_entries ≡ s.metrics.num_entries
    pub capacity : s'.capacity ≡ n
    pub threshold : s'.load_factor_threshold ≡ s.load_factor_threshold

  module _ {s : Store K V} (valid : IsValid s) where
    -- Collecting the nodes of a valid table keeps what each key reads.
    collect_reads {μ} :
        {B : Type μ} (f : Node K V → B) (q : K)
        → read_at f q (collect s.bucket_heads) ≡ view_by f s q
    unfolding view_by
    collect_reads f q =
        read_at-collect f q s.bucket_heads (home s.capacity q)
          (λ i n. (valid.placed q i).1 (λ e. n (sym e)))

    collect_once : (q : K) → tally (key_hit q) (collect s.bucket_heads) ≤ 1
    collect_once q =
        rw
          (tally-collect_only (key_hit q) s.bucket_heads (home s.capacity q)
            (λ i n. (valid.placed q i).1 (λ e. n (sym e))))
          (valid.placed q (home s.capacity q)).0

    waiting :
        (n : ℕ) (m : Metrics)
        → Pending (blank (record s { metrics = m }) n) (collect s.bucket_heads)
    waiting n m = record {
      hashed = valid.hashed;
      keys = λ q. rw (collect-replicate {K = K} {V = V} n) (omega (arith, collect_once q));
      addrs = λ a. rw (collect-replicate {K = K} {V = V} n) (omega (arith, valid.distinct a));
      allocated = valid.fresh;
    }

    -- The metrics that `resize` leaves to the empty table.
    abbrev wiped : ℕ → Metrics
    wiped n = record {
      num_buckets = n;
      num_entries = 0;
      num_collisions = 0;
      num_resizes = s.metrics.num_resizes + 1;
      max_chain_length = 0;
      load_factor_val = record { num = 0; den = n };
    }

    wiped-IsValid :
        (n : ℕ)
        → s.capacity < n
        → is_power_of_2 n ≡ true
        → n < 2 ^ 31
        → IsValid (blank (record s { metrics = wiped n }) n)
    wiped-IsValid n more e small =
        let (k, power) = (is_power_of_2_iff n).0 e in
        blank-IsValid (record s { metrics = wiped n }) k n power small
          (record { buckets = refl; entries = refl; load = refl; load_den = omega arith })

    resize_runs :
        (n : ℕ)
        → s.capacity < n
        → is_power_of_2 n ≡ true
        → resize s n ≡ reinsert (collect s.bucket_heads) (blank (record s { metrics = wiped n }) n)
    unfolding resize resize_event_triggered reset_to_capacity recalculate_load_factor
    resize_runs n more e =
        let no : leb n s.capacity ≡ false = ground arith in
        let same : (s.metrics.num_buckets == s.capacity) ≡ true =
          ground (arith, valid.buckets_counted) in
        rw (no, e, same)

    -- In a valid store, `resize` to a larger power of two below 2 ^ 31 returns a valid store of
    -- that capacity in which every key has the value that it had, at the same address, with the
    -- same entry count and threshold.
    pub resize-Resized :
        (n : ℕ)
        → s.capacity < n
        → is_power_of_2 n ≡ true
        → n < 2 ^ 31
        → Returns (resize s n) (Resized s n)
    resize-Resized n more e small =
        let start = record s { metrics = wiped n } in
        let (s', run, m) =
          reinsert-Moved (collect s.bucket_heads) (wiped-IsValid n more e small)
            (waiting n (wiped n)) in
        (
          s',
          resize_runs n more e ∙ run,
          record {
            valid = m.valid;
            reads = λ q.
                m.reads q
                ∙ ap (λ o. or_else o (read_at (λ n. n.value) q (collect s.bucket_heads)))
                    (blank_reads (λ n. n.value) start n q)
                ∙ unfold or_else in (collect_reads (λ n. n.value) q);
            addrs = λ q.
                m.addrs q
                ∙ ap (λ o. or_else o (read_at (λ n. n.addr) q (collect s.bucket_heads)))
                    (blank_reads (λ n. n.addr) start n q)
                ∙ unfold or_else in (collect_reads (λ n. n.addr) q);
            entries = omega (
              arith,
              m.valid.counted,
              valid.counted,
              m.adds (λ _. 1),
              length-tally (collect s.bucket_heads),
              length-tally (collect s'.bucket_heads),
              ap (tally (λ _. 1)) (collect-replicate {K = K} {V = V} n),
            );
            capacity = m.capacity;
            threshold = m.threshold;
          },
        )

  -- `resize` throws its first error where the new capacity is not larger, and its second where it
  -- is larger but no power of two.
  pub resize_refuses :
      (s : Store K V) (n : ℕ)
      → (n ≤ s.capacity
          → resize s n ≡ err (exception "New capacity must be greater than current capacity"))
        × (s.capacity < n
            → is_power_of_2 n ≡ false
            → resize s n ≡ err (exception "New capacity must be a power of 2"))
  unfolding resize
  resize_refuses s n = (
    λ h. let yes : leb n s.capacity ≡ true = ground arith in rw yes,
    λ h e. let no : leb n s.capacity ≡ false = ground arith in rw (no, e),
  )
