-- ===== src/KvStore/Store/Blank.antt =====
-- The constructor and `reset_to_capacity` of src/cpp/cache/kv_store/store.h: the fresh table, and
-- the refusal of a capacity.
use chrono_cache.Shared.{
  ℕ, ◌^◌, ◌<◌, ◌≡◌, refl, ap, ◌∙◌, sym, true, false, none, [], arith, length, get_or-replicate,
  length-replicate, replicate,
}
use chrono_cache.Shared.Run.{err, exception, Returns}
use chrono_cache.KvStore.Key.{Key}
use chrono_cache.KvStore.Chain.{Node}
use chrono_cache.KvStore.Chain.Laws.{last_or}
use chrono_cache.KvStore.Metrics.{Ratio, Metrics, new_metrics}
use chrono_cache.KvStore.Store.{Store, is_power_of_2, reset_to_capacity, new_store}
use chrono_cache.KvStore.Store.Index.{is_power_of_2_iff}
use chrono_cache.KvStore.Store.Invariant.{home, bucket, view_by, view, IsValid}
use chrono_cache.KvStore.Store.Collect.{collect-replicate}

-- Metrics that have counted the buckets and no entry yet.
pub record IsBlank (m : Metrics) (n : ℕ) : Type 0 where
  pub buckets : m.num_buckets ≡ n
  pub entries : m.num_entries ≡ 0
  pub load : m.load_factor_val.num ≡ 0
  pub load_den : 0 < m.load_factor_val.den

module _ {ℓ κ} {K : Type ℓ} {V : Type κ} ⦃key : Key K⦄ where
  -- The empty table of `n` buckets in the store `s`.
  abbrev pub blank : Store K V → ℕ → Store K V
  blank s n = record s {
    capacity = n;
    bucket_heads = replicate n [];
    bucket_tails = replicate n none;
    bucket_chain_lengths = replicate n 0;
  }

  empty_bucket : (s : Store K V) (n i : ℕ) → bucket (blank s n) i ≡ []
  empty_bucket s n i = get_or-replicate n i []

  pub blank-IsValid :
      (s : Store K V) (k n : ℕ) → n ≡ 2 ^ k → n < 2 ^ 31 → IsBlank s.metrics n → IsValid (blank s n)
  blank-IsValid s k n e small b = record {
    power = (k, e);
    small = small;
    wide_heads = length-replicate n [];
    wide_tails = length-replicate n none;
    wide_lengths = length-replicate n 0;
    tails = λ i _. get_or-replicate n i none ∙ sym (ap (last_or none) (get_or-replicate n i []));
    lengths = λ i _. get_or-replicate n i 0 ∙ sym (ap length (get_or-replicate n i []));
    placed = λ q i. rw (empty_bucket s n i) (omega arith, λ _. refl);
    hashed = rw (collect-replicate n);
    distinct = λ a. rw (collect-replicate n) (omega arith);
    fresh = λ a _. rw (collect-replicate n);
    buckets_counted = b.buckets;
    counted = rw (collect-replicate n) b.entries;
    load = rw (b.load, b.entries) (omega arith);
    load_den = b.load_den;
    longest = λ i. rw (empty_bucket s n i) (omega arith);
  }

  pub blank_reads {μ} :
      {B : Type μ} (f : Node K V → B) (s : Store K V) (n : ℕ) (q : K)
      → view_by f (blank s n) q ≡ none
  unfolding view_by
  blank_reads f s n q = rw (empty_bucket s n (home n q))

  -- Both functions that check a capacity refuse one that is no power of two.
  pub reset_to_capacity_refuses :
      (s : Store K V) (n : ℕ)
      → is_power_of_2 n ≡ false
      → reset_to_capacity s n ≡ err (exception "Capacity must be a power of 2")
  unfolding reset_to_capacity
  reset_to_capacity_refuses s n e = rw e

  -- The constructor with a power of two below 2 ^ 31 returns a valid store of that capacity and
  -- threshold, with no key stored.
  pub new_store-IsValid :
      (n : ℕ) (threshold : Ratio)
      → is_power_of_2 n ≡ true
      → n < 2 ^ 31
      → Returns (new_store {K = K} {V = V} n threshold) λ s.
        IsValid s
        × ((q : K) → view s q ≡ none)
        × (s.capacity ≡ n)
        × (s.load_factor_threshold ≡ threshold)
  unfolding new_store reset_to_capacity new_metrics
  new_store-IsValid n threshold e small =
      let start : Store K V = record {
        capacity = 0;
        load_factor_threshold = threshold;
        metrics = new_metrics n;
        bucket_heads = [];
        bucket_tails = [];
        bucket_chain_lengths = [];
        next_addr = 0;
      } in
      let (k, power) = (is_power_of_2_iff n).0 e in
      (
        blank start n,
        rw e,
        (
          blank-IsValid start k n power small
              (record { buckets = refl; entries = refl; load = refl; load_den = omega arith }),
          blank_reads (λ m. m.value) start n,
          refl,
          refl,
        ),
      )
