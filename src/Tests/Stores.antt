-- ===== src/Tests/Stores.antt =====
-- The store of src/cpp/cache/kv_store/store.h on numbers, each its own hash.
use chrono_cache.Shared.{
  ℕ, ◌%◌, ◌^◌, ◌≡◌, refl, ◌∙◌, Bool, true, Option, none, some, List, [], ◌∷◌, arith, ◌==◌, ==_iff,
}
use chrono_cache.Shared.Run.{Run, ok, err, exception, Returns, ◌>>=◌}
use chrono_cache.KvStore.Key.{Key}
use chrono_cache.KvStore.Metrics.{Ratio}
use chrono_cache.KvStore.Store.{
  Store, is_power_of_2, compute_bucket_index, new_store, set_value, get, get_or_add, remove, resize,
}
use chrono_cache.KvStore.Store.Invariant.{IsValid, view}
use chrono_cache.KvStore.Store.Methods.{Writes, is_some, set_value-Writes, remove-Writes}
use chrono_cache.KvStore.Store.Pointers.{Added, get_or_add-Added}
use chrono_cache.KvStore.Store.Blank.{new_store-IsValid}
use chrono_cache.KvStore.Store.Resize.{Resized, resize-Resized}

instance abbrev pub nat_key : Key ℕ
nat_key = record {
  equal = λ a b. a == b;
  equal_iff = ==_iff;
  hash = λ a. a % 2 ^ 64;
  hash-lt = λ a. omega arith;
}

abbrev pub three_quarters : Ratio
three_quarters = record { num = 3; den = 4 }

program : Unit {0}
unfolding is_power_of_2 compute_bucket_index new_store set_value get remove resize
program = tt

-- Two buckets; 5 and 7 collide, and `resize` parts them.
abbrev session : Run (Bool × Option ℕ × Option ℕ × Option ℕ × ℕ × ℕ × List ℕ)
session = do
  s₀ ← new_store {K = ℕ} {V = ℕ} 2 three_quarters
  s₁ ← set_value s₀ 5 50
  s₂ ← set_value s₁ 7 70
  s₃ ← set_value s₂ 4 40
  s₄ ← set_value s₃ 7 71
  s₅ ← resize s₄ 4
  r ← remove s₅ 5
  five ← get r.1 5
  seven ← get r.1 7
  four ← get r.1 4
  ok (
    r.0, five, seven, four, r.1.metrics.num_entries, s₃.metrics.max_chain_length,
    s₅.bucket_chain_lengths,
  )

session_prints : session ≡ ok (true, none, some 71, some 40, 2, 2, 1 ∷ 1 ∷ 0 ∷ 1 ∷ [])
unfolding program
session_prints = refl

new_store-three :
    new_store {K = ℕ} {V = ℕ} 3 three_quarters ≡ err (exception "Capacity must be a power of 2")
unfolding program
new_store-three = refl

pub two-is_power_of_2 : is_power_of_2 2 ≡ true
unfolding program
two-is_power_of_2 = refl

-- The store before its first call, and with one entry.
abbrev pub blank_store : Store ℕ ℕ
blank_store = (new_store-IsValid 2 three_quarters two-is_power_of_2 (omega arith)).0

pub blank_store-IsValid : IsValid blank_store
blank_store-IsValid = (new_store-IsValid 2 three_quarters two-is_power_of_2 (omega arith)).2.0

abbrev pub one_item : Store ℕ ℕ
one_item = (set_value-Writes blank_store-IsValid 5 50).0

pub one_item-Writes : Writes blank_store 5 (some 50) one_item
one_item-Writes = (set_value-Writes blank_store-IsValid 5 50).2

pub one_item-IsValid : IsValid one_item
one_item-IsValid = one_item-Writes.valid

pub two_wide : one_item.capacity ≡ 2
two_wide =
    one_item-Writes.capacity
    ∙ (new_store-IsValid {V = ℕ} 2 three_quarters two-is_power_of_2 (omega arith)).2.2

set_value-Writes_example : Returns (set_value one_item 7 70) (Writes one_item 7 (some 70))
set_value-Writes_example = set_value-Writes one_item-IsValid 7 70

remove-Writes_example :
    Returns (remove one_item 5) λ r. (r.0 ≡ is_some (view one_item 5)) × Writes one_item 5 none r.1
remove-Writes_example = remove-Writes one_item-IsValid 5

resize-Resized_example : Returns (resize one_item 8) (Resized one_item 8)
resize-Resized_example =
    resize-Resized one_item-IsValid 8 (omega (arith, two_wide)) (unfold is_power_of_2 in refl)
      (omega arith)

abbrev added : Returns (get_or_add blank_store 5 50) (Added blank_store-IsValid 5 50)
added = get_or_add-Added blank_store-IsValid 5 50
