-- ===== src/HashMap.antt =====
-- `ChronCacheHashMap` of src/cpp/cache/kv_store/hash_map.h over the store of store.h, as its operations
-- read when they run one at a time. The callbacks `post_fn` and `cond_fn` act on a state `W` of the
-- caller's and may throw.
pub mod Load
pub mod Laws
pub mod Locks
use chrono_cache.Shared.{
  ℕ, ◌*◌, ◌^◌, ◌%◌, Bool, true, false, Option, none, some, leb, if◌then◌else◌,
}
use chrono_cache.Shared.Run.{Run, ok, err, undefined, ◌>>=◌}
use chrono_cache.KvStore.Key.{Key}
use chrono_cache.KvStore.Chain.{Node}
use chrono_cache.KvStore.Store.{
  Store, needs_resize, set_value, get_ptr, value_of, get_or_add, remove, resize, write_ptr,
  bucket_of,
}

-- `NUM_SLICES`
abbrev pub num_slices : ℕ
num_slices = 16

unfoldable pub compute_slice_index : ℕ → ℕ
compute_slice_index bucket_index = bucket_index % num_slices

-- `kv_store.get_capacity() * 2`, on `int`: an overflow is undefined
unfoldable pub double_capacity : ℕ → Run ℕ
double_capacity c = if leb (2 ^ 31) (c * 2) then err undefined else ok (c * 2)

module _ {ℓ κ} {K : Type ℓ} {V : Type κ} where
  -- The test runs again once the lock is held.
  unfoldable pub maybe_resize : Store K V → Run (Store K V)
  unfolding needs_resize resize double_capacity
  maybe_resize s =
      if needs_resize s
      then (if needs_resize s then double_capacity s.capacity >>= resize s else ok s)
      else ok s

module _ {ℓ κ} {K : Type ℓ} {V : Type κ} where
  -- `resize(new_capacity)`
  unfoldable pub resize_to : ℕ → Store K V → Run (Store K V)
  unfolding resize
  resize_to new_capacity s = resize s new_capacity

module _ {ℓ κ} {K : Type ℓ} {V : Type κ} ⦃key : Key K⦄ where
  -- The slice lock that guards a key.
  unfoldable pub slice_of : Store K V → K → ℕ
  unfolding bucket_of compute_slice_index
  slice_of s k = compute_slice_index (bucket_of s k)

  -- What `cond_fn` assigned through its pointer; it has none where the key is absent.
  unfoldable pub assign : Store K V → K → Option (Node K V) → Option V → Run (Store K V)
  unfolding write_ptr
  assign s k entry none = ok s
  assign s k none (some v) = err undefined
  assign s k (some n) (some v) = write_ptr s k n.addr v

  abbrev pub has_entry : Option (Node K V) → Bool
  has_entry none = false
  has_entry (some n) = true

module _ {ℓ κ μ} {K : Type ℓ} {V : Type κ} ⦃key : Key K⦄ {W : Type μ} where
  -- `set(key, value, post_fn)`; it returns what `kv_store.set` returned, true
  unfoldable pub set_with : (W → Run W) → K → V → Store K V → W → Run (Store K V × W)
  unfolding set_value needs_resize maybe_resize
  set_with post_fn k v s w = do
    s' ← set_value s k v
    w' ← post_fn w
    s'' ← if needs_resize s' then maybe_resize s' else ok s'
    ok (s'', w')

  -- `remove(key, post_fn)`: the callback runs where the key was found
  unfoldable pub remove_with : (W → Run W) → K → Store K V → W → Run (Bool × Store K V × W)
  unfolding remove
  remove_with post_fn k s w = do
    r ← remove s k
    w' ← if r.0 then post_fn w else ok w
    ok (r.0, r.1, w')

  -- `cond_fn` gives its verdict, what it assigned to the entry, and the caller's state.
  unfoldable pub process_and_remove_if :
      (Option V → W → Run (Bool × Option V × W)) → K → Store K V → W → Run (Store K V × W)
  unfolding get_ptr assign remove
  process_and_remove_if cond_fn k s w = do
    entry ← get_ptr s k
    verdict ← cond_fn (value_of entry) w
    s' ← assign s k entry verdict.1
    s'' ←
        if (if verdict.0 then has_entry entry else false)
        then (do r ← remove s' k; ok r.1)
        else ok s'
    ok (s'', verdict.2)

module _ {ℓ κ} {K : Type ℓ} {V : Type κ} ⦃key : Key K⦄ where
  -- `get_or_add`: the pointer stays with its node when the table grows
  unfoldable pub get_or_add_growing : Store K V → K → V → Run (Node K V × Store K V)
  unfolding get_or_add needs_resize maybe_resize
  get_or_add_growing s k default = do
    r ← get_or_add s k default
    s' ← if needs_resize r.1 then maybe_resize r.1 else ok r.1
    ok (r.0, s')
