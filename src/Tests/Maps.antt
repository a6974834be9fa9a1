-- ===== src/Tests/Maps.antt =====
-- The map of src/cpp/cache/kv_store/hash_map.h on numbers, with callbacks that count.
use chrono_cache.Shared.{
  ℕ, ◌+◌, ◌^◌, ◌<◌, ◌≡◌, refl, ap, Bool, true, false, Option, none, some, arith,
}
use chrono_cache.Shared.Run.{Run, ok, Returns, ◌>>=◌}
use chrono_cache.KvStore.Store.{new_store, get}
use chrono_cache.KvStore.Store.Invariant.{view, addresses}
use chrono_cache.KvStore.Store.Methods.{Writes, is_some}
use chrono_cache.HashMap.{set_with, remove_with, process_and_remove_if, get_or_add_growing}
use chrono_cache.HashMap.Laws.{
  Stored, set_with-Stored, get_or_add_growing-Stored, remove_with-Writes, outcome,
  process_and_remove_if-Writes,
}
use chrono_cache.Tests.Stores.{
  nat_key, three_quarters, one_item, one_item-Writes, one_item-IsValid, two_wide,
}

-- `post_fn` that counts its calls.
abbrev count : ℕ → Run ℕ
count w = ok (w + 1)

-- `cond_fn` that asks for the removal of what it finds.
abbrev drop_it : Option ℕ → ℕ → Run (Bool × Option ℕ × ℕ)
drop_it none w = ok (false, none, w)
drop_it (some v) w = ok (true, none, w + v)

program : Unit {0}
unfolding new_store set_with remove_with process_and_remove_if get
program = tt

-- The second entry takes a table of two buckets over its threshold of three quarters.
abbrev session : Run (ℕ × Option ℕ × Option ℕ × ℕ)
session = do
  s₀ ← new_store {K = ℕ} {V = ℕ} 2 three_quarters
  r₁ ← set_with count 5 50 s₀ 0
  r₂ ← set_with count 7 70 r₁.0 r₁.1
  r₃ ← process_and_remove_if drop_it 5 r₂.0 r₂.1
  r₄ ← remove_with count 6 r₃.0 r₃.1
  five ← get r₄.1 5
  seven ← get r₄.1 7
  ok (r₄.1.capacity, five, seven, r₄.2)

session_prints : session ≡ ok (4, none, some 70, 52)
unfolding program
session_prints = refl

narrow : one_item.capacity < 2 ^ 30
narrow = omega (arith, two_wide)

five_stored : view one_item 5 ≡ some 50
five_stored = one_item-Writes.reads 5

set_with-Stored_example :
    Returns (set_with count 7 70 one_item 1) λ r. Stored one_item 7 70 r.0 × (r.1 ≡ 2)
set_with-Stored_example = set_with-Stored one_item-IsValid 7 narrow count 70 1 2 refl

get_or_add_growing-Stored_example : Returns (get_or_add_growing one_item 7 0) λ r.
    Stored one_item 7 r.0.value r.1
    × (addresses r.1 7 ≡ some r.0.addr)
    × (r.0.value ≡ (elim (view one_item 7) [ none ↦ 0 | some v ↦ v ]))
get_or_add_growing-Stored_example = get_or_add_growing-Stored one_item-IsValid 7 narrow 0

remove_with-Writes_example :
    Returns
      (remove_with count 5 one_item 1)
      λ r. (r.0 ≡ is_some (view one_item 5)) × Writes one_item 5 none r.1 × (r.2 ≡ 2)
remove_with-Writes_example =
    remove_with-Writes one_item-IsValid 5 count 1 2 (λ _. refl)
      (λ h. absurd (cc (h, ap is_some five_stored)))

process_and_remove_if-Writes_example :
    Returns
      (process_and_remove_if drop_it 5 one_item 1)
      λ r. Writes one_item 5 (outcome true none (view one_item 5)) r.0 × (r.1 ≡ 51)
process_and_remove_if-Writes_example =
    process_and_remove_if-Writes one_item-IsValid 5 drop_it 1 51 true none
      (ap (λ v. drop_it v 1) five_stored) (λ _. refl)
