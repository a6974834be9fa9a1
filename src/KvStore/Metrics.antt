-- ===== src/KvStore/Metrics.antt =====
-- `ChronCacheHashMapMetrics` of src/cpp/cache/kv_store/metrics.h.
-- The load factor is a `double`: a quotient of two counts, whose divisor is a power of two in every
-- store, so the quotient is exact and a fraction stands for it. The `int` counters are unbounded here.
use chrono_cache.Shared.{ℕ, ◌+◌, ◌-◌, ◌*◌, Bool, ltb, ◌==◌, if◌then◌else◌}
use chrono_cache.Shared.Run.{Run, ok, err, exception}

pub record Ratio : Type 0 where
  pub num : ℕ
  pub den : ℕ

-- `a > b` of two fractions with positive denominators
unfoldable pub exceeds : Ratio → Ratio → Bool
exceeds a b = ltb (b.num * a.den) (a.num * b.den)

pub record Metrics : Type 0 where
  pub num_buckets : ℕ
  pub num_entries : ℕ
  pub num_collisions : ℕ
  pub num_resizes : ℕ
  pub max_chain_length : ℕ
  pub load_factor_val : Ratio

unfoldable pub new_metrics : ℕ → Metrics
new_metrics n = record {
  num_buckets = n;
  num_entries = 0;
  num_collisions = 0;
  num_resizes = 0;
  max_chain_length = 0;
  load_factor_val = record { num = 0; den = 1 };
}

unfoldable pub recalculate_load_factor : Metrics → Metrics
recalculate_load_factor m = record m {
  load_factor_val = record { num = m.num_entries; den = m.num_buckets };
}

unfoldable pub new_element_event : Bool → ℕ → Metrics → Metrics
unfolding recalculate_load_factor
new_element_event is_collision chain_length m = recalculate_load_factor (record m {
  num_collisions = if is_collision then m.num_collisions + 1 else m.num_collisions;
  max_chain_length =
      if ltb m.max_chain_length chain_length then chain_length else m.max_chain_length;
  num_entries = m.num_entries + 1;
})

unfoldable pub remove_element_event : Metrics → Metrics
unfolding recalculate_load_factor
remove_element_event m = recalculate_load_factor (record m { num_entries = m.num_entries - 1 })

unfoldable pub resize_event_triggered : ℕ → ℕ → Metrics → Run Metrics
unfolding recalculate_load_factor
resize_event_triggered curr_capacity new_capacity m =
    if m.num_buckets == curr_capacity
    then ok (
        recalculate_load_factor (record m {
          num_buckets = new_capacity;
          num_entries = 0;
          num_collisions = 0;
          max_chain_length = 0;
          num_resizes = m.num_resizes + 1;
        }))
    else err (exception "Current capacity does not match the number of buckets")
