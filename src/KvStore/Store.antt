-- ===== src/KvStore/Store.antt =====
-- `KVStore` of src/cpp/cache/kv_store/store.h. `new` takes the next free address; `delete` drops the
-- node from its chain. Each call gives the new store, or throws, or is undefined.
pub mod Index
pub mod Invariant
pub mod Insert
pub mod Unlink
pub mod Methods
pub mod Pointers
pub mod Collect
pub mod Blank
pub mod Reinsert
pub mod Resize
use chrono_cache.Shared.{
  ℕ, ◌+◌, ◌-◌, ◌%◌, ◌^◌, bit_and, Bool, true, false, ◌&&◌, Option, none, some, List, [], ◌∷◌, ◌++◌,
  ltb, leb, ◌==◌, set, replicate, if◌then◌else◌,
}
use chrono_cache.Shared.Run.{Run, ok, err, exception, undefined, ◌>>=◌, at}
use chrono_cache.KvStore.Key.{Key}
use chrono_cache.KvStore.Chain.{
  Node, Chain, new_node, next_in_bucket, set_next, write_value, find, find_with_prev,
}
use chrono_cache.KvStore.Metrics.{
  Ratio, Metrics, exceeds, new_metrics, new_element_event, remove_element_event,
  resize_event_triggered,
}

pub record Store {ℓ κ} (K : Type ℓ) (V : Type κ) : Type (ℓ ⊔ κ) where
  pub capacity : ℕ
  pub load_factor_threshold : Ratio
  pub metrics : Metrics
  pub bucket_heads : List (Chain K V)
  pub bucket_tails : List (Option ℕ)
  pub bucket_chain_lengths : List ℕ
  -- the allocator: no node has this address or a later one
  pub next_addr : ℕ

-- `(c > 0) && ((c & (c - 1)) == 0)`
unfoldable pub is_power_of_2 : ℕ → Bool
is_power_of_2 c = ltb 0 c && (bit_and c (c - 1) == 0)

-- `hashed_key & (static_cast<size_t>(capacity) - 1)`
unfoldable pub compute_bucket_index : ℕ → ℕ → ℕ
compute_bucket_index capacity hashed_key = bit_and hashed_key ((capacity + 2 ^ 64 - 1) % 2 ^ 64)

module _ {ℓ κ} {K : Type ℓ} {V : Type κ} where
  unfoldable pub reset_to_capacity : Store K V → ℕ → Run (Store K V)
  unfolding is_power_of_2
  reset_to_capacity s capacity_val =
      if is_power_of_2 capacity_val
      then ok (record s {
        capacity = capacity_val;
        bucket_heads = replicate capacity_val [];
        bucket_tails = replicate capacity_val none;
        bucket_chain_lengths = replicate capacity_val 0;
      })
      else err (exception "Capacity must be a power of 2")

  -- the constructor
  unfoldable pub new_store : ℕ → Ratio → Run (Store K V)
  unfolding reset_to_capacity new_metrics
  new_store capacity_val threshold =
      reset_to_capacity
        (record {
          capacity = 0;
          load_factor_threshold = threshold;
          metrics = new_metrics capacity_val;
          bucket_heads = [];
          bucket_tails = [];
          bucket_chain_lengths = [];
          next_addr = 0;
        })
        capacity_val

  unfoldable pub needs_resize : Store K V → Bool
  unfolding exceeds
  needs_resize s = exceeds s.metrics.load_factor_val s.load_factor_threshold

  -- `bucket_heads[i]` is empty: the node becomes the head; else it hangs behind the old tail.
  unfoldable pub link_tail : Node K V → Option ℕ → Chain K V → Run (Chain K V)
  unfolding set_next
  link_tail node old_tail [] = ok (node ∷ [])
  link_tail node none (h ∷ c) = err undefined
  link_tail node (some tail) (h ∷ c) = set_next tail (node ∷ []) (h ∷ c)

  unfoldable pub is_empty : Chain K V → Bool
  is_empty [] = true
  is_empty (h ∷ c) = false

  unfoldable pub insert_into_bucket : ℕ → Node K V → Store K V → Run (Store K V)
  unfolding link_tail is_empty new_element_event at
  insert_into_bucket i node s = do
    head ← at s.bucket_heads i
    old_tail ← at s.bucket_tails i
    head' ← link_tail node old_tail head
    len ← at s.bucket_chain_lengths i
    ok (record s {
      metrics = new_element_event (if is_empty head then false else true) (len + 1) s.metrics;
      bucket_heads = set s.bucket_heads i head';
      bucket_tails = set s.bucket_tails i (some node.addr);
      bucket_chain_lengths = set s.bucket_chain_lengths i (len + 1);
    })

  -- `prev_in_bucket == nullptr` moves the head, else the previous node skips the node
  unfoldable pub skip_node : Option ℕ → Chain K V → Chain K V → Run (Chain K V)
  unfolding set_next
  skip_node none rest head = ok rest
  skip_node (some prev) rest head = set_next prev rest head

  unfoldable pub unlink_from_bucket_chain : Node K V → Option ℕ → ℕ → Store K V → Run (Store K V)
  unfolding next_in_bucket skip_node is_empty at
  unlink_from_bucket_chain node prev_in_bucket i s = do
    head ← at s.bucket_heads i
    rest ← next_in_bucket node.addr head
    head' ← skip_node prev_in_bucket rest head
    len ← at s.bucket_chain_lengths i
    ok (record s {
      bucket_heads = set s.bucket_heads i head';
      bucket_tails = if is_empty rest then set s.bucket_tails i prev_in_bucket else s.bucket_tails;
      bucket_chain_lengths = set s.bucket_chain_lengths i (len - 1);
    })

module _ {ℓ κ} {K : Type ℓ} {V : Type κ} ⦃key : Key K⦄ where
  -- `compute_bucket_index(compute_hash(key))`
  unfoldable pub bucket_of : Store K V → K → ℕ
  unfolding compute_bucket_index
  bucket_of s k = compute_bucket_index s.capacity (key.hash k)

  -- A pointer into the store: the bucket it is found in, and the node's address and contents.
  unfoldable pub find_in_bucket : Store K V → ℕ → K → Run (Option (Node K V))
  unfolding find at
  find_in_bucket s i k = do head ← at s.bucket_heads i; ok (find k head)

  -- `*ptr = value`, for a pointer that `get_ptr` or `get_or_add` gave for the key
  unfoldable pub write_ptr : Store K V → K → ℕ → V → Run (Store K V)
  unfolding bucket_of write_value at
  write_ptr s k a v = do
    head ← at s.bucket_heads (bucket_of s k)
    ok (record s { bucket_heads = set s.bucket_heads (bucket_of s k) (write_value a v head) })

  -- `insert_into_bucket(bucket_index, new Node(key, value))`
  unfoldable pub insert_node : Store K V → K → V → Run (Store K V)
  unfolding bucket_of insert_into_bucket new_node
  insert_node s k v =
      insert_into_bucket (bucket_of s k) (new_node s.next_addr k v)
        (record s { next_addr = s.next_addr + 1 })

  unfoldable pub set_in : Store K V → K → V → Option (Node K V) → Run (Store K V)
  unfolding write_ptr insert_node
  set_in s k v (some existing) = write_ptr s k existing.addr v
  set_in s k v none = insert_node s k v

  -- `set`; it always returns true
  unfoldable pub set_value : Store K V → K → V → Run (Store K V)
  unfolding bucket_of find_in_bucket set_in
  set_value s k v = find_in_bucket s (bucket_of s k) k >>= set_in s k v

  unfoldable pub get_ptr : Store K V → K → Run (Option (Node K V))
  unfolding bucket_of find_in_bucket
  get_ptr s k = find_in_bucket s (bucket_of s k) k

  abbrev pub value_of : Option (Node K V) → Option V
  value_of none = none
  value_of (some n) = some n.value

  unfoldable pub get : Store K V → K → Run (Option V)
  unfolding get_ptr
  get s k = do ptr ← get_ptr s k; ok (value_of ptr)

  unfoldable pub add_in : Store K V → K → V → Option (Node K V) → Run (Node K V × Store K V)
  unfolding insert_node
  add_in s k default (some existing) = ok (existing, s)
  add_in s k default none = do s' ← insert_node s k default; ok (new_node s.next_addr k default, s')

  -- `get_or_add`; `default` is the `value()` of the node's constructor
  unfoldable pub get_or_add : Store K V → K → V → Run (Node K V × Store K V)
  unfolding bucket_of find_in_bucket add_in
  get_or_add s k default = find_in_bucket s (bucket_of s k) k >>= add_in s k default

  unfoldable pub remove_in : Store K V → ℕ → Option (Option ℕ × Node K V) → Run (Bool × Store K V)
  unfolding unlink_from_bucket_chain remove_element_event
  remove_in s i none = ok (false, s)
  remove_in s i (some (prev, node)) = do
    s' ← unlink_from_bucket_chain node prev i s
    ok (true, record s' { metrics = remove_element_event s'.metrics })

  unfoldable pub remove : Store K V → K → Run (Bool × Store K V)
  unfolding bucket_of find_with_prev remove_in at
  remove s k = do
    head ← at s.bucket_heads (bucket_of s k)
    remove_in s (bucket_of s k) (find_with_prev k none head)

module _ {ℓ κ} {K : Type ℓ} {V : Type κ} where
  -- the first loop of `resize`: the nodes, bucket by bucket
  unfoldable pub collect : List (Chain K V) → Chain K V
  collect [] = []
  collect (c ∷ cs) = c ++ collect cs

  -- its second loop; a node of the list has no `next_in_bucket` left to clear
  unfoldable pub reinsert : Chain K V → Store K V → Run (Store K V)
  unfolding compute_bucket_index insert_into_bucket
  reinsert [] s = ok s
  reinsert (node ∷ nodes) s =
      insert_into_bucket (compute_bucket_index s.capacity node.hashed_key) node s >>= reinsert nodes

  unfoldable pub resize : Store K V → ℕ → Run (Store K V)
  unfolding is_power_of_2 collect reset_to_capacity reinsert resize_event_triggered
  resize s new_capacity =
      if leb new_capacity s.capacity
      then err (exception "New capacity must be greater than current capacity")
      else if is_power_of_2 new_capacity
      then (do
        metrics' ← resize_event_triggered s.capacity new_capacity s.metrics
        s' ← reset_to_capacity (record s { metrics = metrics' }) new_capacity
        reinsert (collect s.bucket_heads) s')
      else err (exception "New capacity must be a power of 2")
