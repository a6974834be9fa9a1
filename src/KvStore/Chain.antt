-- ===== src/KvStore/Chain.antt =====
-- `ChronCacheNode` of src/cpp/cache/kv_store/node.h, and the chain of nodes that hangs from a bucket
-- of the store. A chain is the list of the nodes that `next_in_bucket` reaches from the bucket's head,
-- and a `Node*` is the node's address: to follow or to write `next_in_bucket` is to find the address.
pub mod Laws
pub mod Search
use chrono_cache.Shared.{
  ℕ, Bool, true, false, Option, none, some, List, [], ◌∷◌, ◌==◌, if◌then◌else◌,
}
use chrono_cache.Shared.Run.{Run, ok, err, undefined, ◌>>=◌}
use chrono_cache.KvStore.Key.{Key, ◌≈◌}

pub record Node {ℓ κ} (K : Type ℓ) (V : Type κ) : Type (ℓ ⊔ κ) where
  pub addr : ℕ
  pub key : K
  pub hashed_key : ℕ
  pub value : V

abbrev pub Chain {ℓ κ} : Type ℓ → Type κ → Type (ℓ ⊔ κ)
Chain K V = List (Node K V)

-- `ChronCacheNode(key, value)`; `new` yields the address
unfoldable pub new_node {ℓ κ} : {K : Type ℓ} {V : Type κ} ⦃key : Key K⦄ → ℕ → K → V → Node K V
new_node ⦃key⦄ a k v = record { addr = a; key = k; hashed_key = key.hash k; value = v }

module _ {ℓ κ} {K : Type ℓ} {V : Type κ} where
  -- `p->next_in_bucket`: what follows the node in its chain
  unfoldable pub next_in_bucket : ℕ → Chain K V → Run (Chain K V)
  next_in_bucket a [] = err undefined
  next_in_bucket a (n ∷ c) = if n.addr == a then ok c else next_in_bucket a c

  -- `p->next_in_bucket = rest`
  unfoldable pub set_next : ℕ → Chain K V → Chain K V → Run (Chain K V)
  set_next a rest [] = err undefined
  set_next a rest (n ∷ c) =
      let later = set_next a rest c >>= λ c'. ok (n ∷ c') in
      if n.addr == a then ok (n ∷ rest) else later

  -- `p->value = v`
  unfoldable pub write_value : ℕ → V → Chain K V → Chain K V
  write_value a v [] = []
  write_value a v (n ∷ c) =
      let later = write_value a v c in
      if n.addr == a then record n { value = v } ∷ later else n ∷ later

module _ {ℓ κ} {K : Type ℓ} {V : Type κ} ⦃key : Key K⦄ where
  -- The loop of `find_in_bucket`.
  unfoldable pub find : K → Chain K V → Option (Node K V)
  find k [] = none
  find k (n ∷ c) = if n.key ≈ k then some n else find k c

  -- The loop of `remove`: the node and the one before it, `prev_in_bucket`.
  unfoldable pub find_with_prev : K → Option ℕ → Chain K V → Option (Option ℕ × Node K V)
  find_with_prev k prev [] = none
  find_with_prev k prev (n ∷ c) =
      if n.key ≈ k then some (prev, n) else find_with_prev k (some n.addr) c
