-- ===== src/KvStore/Key.antt =====
-- The key type of the map and its hash, `ChronCacheHashKey` of src/cpp/cache/kv_store/hash_key.h.
-- `std::hash` is not fixed by the language: any function into the 64-bit words serves.
use chrono_cache.Shared.{ℕ, ◌^◌, ◌<◌, ◌≡◌, ◌↔◌, Bool, true}

pub record Key {ℓ} (K : Type ℓ) : Type ℓ where
  -- `operator==` of the key
  pub equal : K → K → Bool
  pub equal_iff : (a b : K) → (equal a b ≡ true) ↔ (a ≡ b)
  -- `std::hash<T>()(key)`, a `size_t`
  pub hash : K → ℕ
  pub hash-lt : (a : K) → hash a < 2 ^ 64

module _ {ℓ} {K : Type ℓ} ⦃key : Key K⦄ where
  infix 50 ◌≈◌
  abbrev pub ◌≈◌ : K → K → Bool
  a ≈ b = key.equal a b
