-- ===== src/KvStore/Store/Index.antt =====
-- `compute_bucket_index` and the power-of-two test of src/cpp/cache/kv_store/store.h.
use native.Mathlib.Nat.{one-le-pow}
use chrono_cache.Shared.{ℕ, zero, suc, ◌+◌, ◌-◌, ◌%◌, ◌^◌, ◌<◌, ◌≡◌, ◌↔◌, true, arith}
use chrono_cache.Shared.Bits.{bit_and_mask, bit_and-pred_iff}
use chrono_cache.KvStore.Store.{is_power_of_2, compute_bucket_index}

-- The bit test that the constructor and `resize` use accepts a number exactly where it is a power
-- of two.
pub is_power_of_2_iff : (c : ℕ) → (is_power_of_2 c ≡ true) ↔ ((k : ℕ) × (c ≡ 2 ^ k))
unfolding is_power_of_2
is_power_of_2_iff zero = (λ h. cc, λ (k, e). absurd (omega (arith, one-le-pow k 2)))
is_power_of_2_iff (suc c) =
    let (to, from) = bit_and-pred_iff (suc c) (omega arith) in
    (λ h. to (ground arith), λ p. ground (arith, from p))

-- For a capacity below 2 ^ 64 that is a power of two, the masked bucket index is the hash modulo
-- the capacity.
pub compute_bucket_index-mod :
    (capacity k h : ℕ)
    → capacity ≡ 2 ^ k
    → capacity < 2 ^ 64
    → compute_bucket_index capacity h ≡ h % capacity
unfolding compute_bucket_index
compute_bucket_index-mod capacity k h e small =
    let positive : 0 < 2 ^ k = one-le-pow k 2 (omega arith) in
    let mask : (capacity + 2 ^ 64 - 1) % 2 ^ 64 ≡ 2 ^ k - 1 = omega arith in
    rw (mask, e) (bit_and_mask h k)
