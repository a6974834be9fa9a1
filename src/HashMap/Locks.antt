-- ===== src/HashMap/Locks.antt =====
-- The locks of `ChronCacheHashMap` (src/cpp/cache/kv_store/hash_map.h): threads that take the resize lock and
-- a slice lock, or the resize lock alone to grow the table. A `shared_mutex` is free for a reader where no
-- other thread holds it as a writer, and for a writer where no other thread holds it.
pub mod Places
pub mod Exclusion
use chrono_cache.Shared.{
  ℕ, zero, suc, ◌+◌, ◌-◌, ◌*◌, ◌/◌, ◌%◌, ◌^◌, ◌≤◌, ◌<◌, ◌≡◌, ◌≢◌, refl, sym, ap, ◌∙◌, subst,
  fun_ext, Bool, true, false, not, ◌&&◌, ◌||◌, Option, none, some, List, [], ◌∷◌, ◌++◌, map,
  append-nil, append_assoc, length, take, drop, ltb, leb, ◌==◌, ==_iff, if◌then◌else◌, arith,
  Bool-cases, Option-cases, inl, inr, ◌⊎◌, ◌↔◌, if_true, if_false, le_or_lt, le→leb, leb→le, lt→ltb,
  ltb→lt, length-append, get_elem?,
}
use chrono_cache.Shared.Int.{ℤ, pos, negsuc, pos_part, neg_part}
use chrono_cache.Shared.Run.{
  Run, ok, err, Error, exception, aborted, undefined, out_of_fuel, ◌>>=◌, at, IsSafe, IsSafe-bind,
  IsSafe-weaken, IsSafe-if, bind_ext, bind_assoc, bind_ok, Returns,
}
use chrono_cache.Shared.Text.{
  Bytes, codes, length-drop, take-append, drop-append, same_bytes, same_bytes_iff,
}
use chrono_cache.KvStore.Key.{Key}
use chrono_cache.KvStore.Store.{Store, set_value, remove}
use chrono_cache.HashMap.{slice_of, maybe_resize}

-- Where a thread stands in an operation on a key, which writes or only reads.
pub data Place {ℓ} (K : Type ℓ) : Type ℓ where
  outside : Place K
  -- behind `rl(resize_lock)`
  entered : K → Bool → Place K
  -- behind `compute_slice_index`
  located : K → Bool → ℕ → Place K
  -- behind the lock of the slice
  inside : K → Bool → ℕ → Place K
  -- the slice is unlocked, the resize lock is not
  leaving : Place K
  -- in `resize`, with `guard(resize_lock)`
  resizing : Place K

-- The threads, by number, and the store that they share.
pub record System {ℓ κ} (K : Type ℓ) (V : Type κ) : Type (ℓ ⊔ κ) where
  pub store : Store K V
  pub place : ℕ → Place K

module _ {ℓ} {K : Type ℓ} where
  -- Holds the resize lock, as a reader or a writer.
  abbrev pub holds_resize : Place K → Bool
  holds_resize outside = false
  holds_resize (entered k writes) = true
  holds_resize (located k writes slice) = true
  holds_resize (inside k writes slice) = true
  holds_resize leaving = true
  holds_resize resizing = true

  abbrev pub is_resizing : Place K → Bool
  is_resizing outside = false
  is_resizing (entered k writes) = false
  is_resizing (located k writes slice) = false
  is_resizing (inside k writes slice) = false
  is_resizing leaving = false
  is_resizing resizing = true

  -- Keeps a thread that writes, or reads, from locking the slice.
  abbrev pub blocks : Bool → ℕ → Place K → Bool
  blocks writes slice outside = false
  blocks writes slice (entered k w) = false
  blocks writes slice (located k w n) = false
  blocks writes slice (inside k w n) = (slice == n) && (writes || w)
  blocks writes slice leaving = false
  blocks writes slice resizing = false

abbrev pub update {ℓ} : {A : Type ℓ} → (ℕ → A) → ℕ → A → ℕ → A
update f i a j = if i == j then a else f j

module _ {ℓ κ} {K : Type ℓ} {V : Type κ} where
  abbrev pub move : System K V → ℕ → Place K → System K V
  move s i p = record s { place = update s.place i p }

module _ {ℓ κ} {K : Type ℓ} {V : Type κ} ⦃key : Key K⦄ where
  -- One step of one thread.
  pub data Step (s : System K V) : System K V → Type (ℓ ⊔ κ) where
    enter :
        (i : ℕ) (k : K) (writes : Bool)
        → s.place i ≡ outside
        → ((j : ℕ) → is_resizing (s.place j) ≡ false)
        → Step s (move s i (entered k writes))
    locate :
        (i : ℕ) (k : K) (writes : Bool)
        → s.place i ≡ entered k writes
        → Step s (move s i (located k writes (slice_of s.store k)))
    lock_slice :
        (i : ℕ) (k : K) (writes : Bool) (slice : ℕ)
        → s.place i ≡ located k writes slice
        → ((j : ℕ) → blocks writes slice (s.place j) ≡ false)
        → Step s (move s i (inside k writes slice))
    write_value :
        (i : ℕ) (k : K) (slice : ℕ) (v : V) (store : Store K V)
        → s.place i ≡ inside k true slice
        → set_value s.store k v ≡ ok store
        → Step s (record s { store = store })
    remove_key :
        (i : ℕ) (k : K) (slice : ℕ) (r : Bool × Store K V)
        → s.place i ≡ inside k true slice
        → remove s.store k ≡ ok r
        → Step s (record s { store = r.1 })
    unlock_slice :
        (i : ℕ) (k : K) (writes : Bool) (slice : ℕ)
        → s.place i ≡ inside k writes slice
        → Step s (move s i leaving)
    leave : (i : ℕ) → s.place i ≡ leaving → Step s (move s i outside)
    lock_resize :
        (i : ℕ)
        → s.place i ≡ outside
        → ((j : ℕ) → holds_resize (s.place j) ≡ false)
        → Step s (move s i resizing)
    grow :
        (i : ℕ) (store : Store K V)
        → s.place i ≡ resizing
        → s.store.capacity < 2 ^ 30
        → maybe_resize s.store ≡ ok store
        → Step s (record s { store = store })
    unlock_resize : (i : ℕ) → s.place i ≡ resizing → Step s (move s i outside)

  -- What threads that all start outside can reach from a store.
  pub data Reach (start : Store K V) : System K V → Type (ℓ ⊔ κ) where
    begin : Reach start (record { store = start; place = λ i. outside })
    later : {s t : System K V} → Reach start s → Step s t → Reach start t
