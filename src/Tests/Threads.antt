-- ===== src/Tests/Threads.antt =====
-- A thread that takes the locks of the map of src/cpp/cache/kv_store/hash_map.h and writes.
use chrono_cache.Shared.{ℕ, ◌≡◌, ◌≢◌, refl, true, false, ◌==◌, Bool-cases, inl, inr}
use chrono_cache.KvStore.Store.Invariant.{IsValid}
use chrono_cache.KvStore.Store.Methods.{set_value-Writes}
use chrono_cache.HashMap.{slice_of}
use chrono_cache.HashMap.Locks.{
  outside, entered, located, inside, resizing, System, blocks, move, enter, locate, lock_slice,
  write_value, Reach, begin, later,
}
use chrono_cache.HashMap.Locks.Exclusion.{writer_alone}
use chrono_cache.Tests.Stores.{nat_key, blank_store, blank_store-IsValid, one_item}

abbrev all_outside : System ℕ ℕ
all_outside = record { store = blank_store; place = λ i. outside }

-- The slice of the key 5.
abbrev slice : ℕ
slice = slice_of blank_store 5

abbrev has_entered : System ℕ ℕ
has_entered = move all_outside 0 (entered 5 true)

abbrev has_located : System ℕ ℕ
has_located = move has_entered 0 (located 5 true slice)

abbrev is_inside : System ℕ ℕ
is_inside = move has_located 0 (inside 5 true slice)

-- It has written, and is still inside.
abbrev has_written : System ℕ ℕ
has_written = record is_inside { store = one_item }

slice_free : (j : ℕ) → blocks true slice (has_located.place j) ≡ false
slice_free j = elim (Bool-cases (0 == j)) [ inl h ↦ rw h refl | inr h ↦ rw h refl ]

has_written-Reach : Reach blank_store has_written
has_written-Reach =
    later
      (later (later (later begin (enter 0 5 true refl λ j. refl)) (locate 0 5 true refl))
        (lock_slice 0 5 true slice refl slice_free))
      (write_value 0 5 slice 50 one_item refl (set_value-Writes blank_store-IsValid 5 50).1)

writer_alone_example :
    ◌≡◌ {A = ℕ} 0 0 × ((r : ℕ) → has_written.place r ≢ resizing) × IsValid one_item
writer_alone_example =
    writer_alone blank_store has_written 0 0 5 5 true slice slice blank_store-IsValid
      has_written-Reach refl refl refl
