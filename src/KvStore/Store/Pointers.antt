-- ===== src/KvStore/Store/Pointers.antt =====
-- Pointers into the store of src/cpp/cache/kv_store/store.h: what `get_or_add` returns, and a
-- write through it.
use chrono_cache.Shared.{ℕ, ◌≡◌, none, some, Option-cases, inl, inr, subst}
use chrono_cache.Shared.Run.{Returns, ◌>>=◌}
use chrono_cache.KvStore.Key.{Key}
use chrono_cache.KvStore.Chain.{Node, new_node, find}
use chrono_cache.KvStore.Store.{Store, add_in, get_or_add, write_ptr}
use chrono_cache.KvStore.Store.Invariant.{home, bucket, view, addresses, IsValid}
use chrono_cache.KvStore.Store.Methods.{
  Writes, find_in_bucket_runs, view-find, address-find, view_absent, address_absent, kept,
  insert_node-Writes, written-Writes,
}

module _ {ℓ κ} {K : Type ℓ} {V : Type κ} ⦃key : Key K⦄ where
  module _ {s : Store K V} (valid : IsValid s) (k : K) where
    -- A pointer to the value of `k` in the store `r.1`: it holds the stored value, or the default
    -- where there was none; the other keys read as before.
    pub record Added (default : V) (r : Node K V × Store K V) : Type (ℓ ⊔ κ) where
      pub writes : Writes s k (some r.0.value) r.1
      pub address : addresses r.1 k ≡ some r.0.addr
      pub value : r.0.value ≡ (elim (view s k) [ none ↦ default | some v ↦ v ])

    -- In a valid store, `get_or_add k` returns the node of `k`, with its stored value or the
    -- default where it had none, and a valid store in which `k` has that value at that node's
    -- address and every other key keeps its value and its address.
    pub get_or_add-Added : (default : V) → Returns (get_or_add s k default) (Added default)
    unfolding get_or_add add_in
    get_or_add-Added default = elim (Option-cases (find k (bucket s (home s.capacity k)))) [
      | inl e ↦
          let (s', run, w) = insert_node-Writes valid k e default in
          (
            (new_node s.next_addr k default, s'),
            rw (find_in_bucket_runs valid k, e, ◌>>=◌, run),
            unfold new_node in
                record { writes = w.0; address = w.1; value = rw (view_absent valid k e) },
          )
      | inr (n, e) ↦ (
        (n, s),
        rw (find_in_bucket_runs valid k, e),
        record {
          writes = kept valid k n e;
          address = address-find valid k n e;
          value = rw (view-find valid k n e);
        },
      )
    ]

    -- In a valid store, a write through the address at which the value of `k` stands returns a
    -- valid store in which `k` has the written value and every other key keeps its value and its
    -- address.
    pub write_ptr-Writes :
        (a : ℕ) (v : V) → addresses s k ≡ some a → Returns (write_ptr s k a v) (Writes s k (some v))
    write_ptr-Writes a v e = elim (Option-cases (find k (bucket s (home s.capacity k)))) [
      | inl absent ↦ cc (e, address_absent valid k absent)
      | inr (n, at_n) ↦
          let same : n.addr ≡ a = cc (address-find valid k n at_n) in
          subst (λ b. Returns (write_ptr s k b v) (Writes s k (some v))) same
            (written-Writes valid k n at_n v)
    ]
