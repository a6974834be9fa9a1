-- ===== src/SortedSets.antt =====
-- `SortedSet` and `SortedSetsAPI` of src/cpp/cache/sorted_sets/sorted_set.cpp, over the tree of tree.cpp
-- and the map of hash_map.h, one call at a time. A score is a value of any type with the two comparisons
-- that the code makes.
pub mod Laws
use chrono_cache.Shared.{ℕ, Bool, true, false, Option, none, some, if◌then◌else◌}
use chrono_cache.Shared.Run.{Run, ok, ◌>>=◌}
use chrono_cache.SortedList.{Order}
use chrono_cache.Avl
use chrono_cache.Avl.{AvlTree}
use chrono_cache.KvStore.Key.{Key}
use chrono_cache.KvStore.Chain.{Node}
use chrono_cache.KvStore.Metrics.{Ratio}
use chrono_cache.KvStore.Store.{Store, new_store, get, get_ptr, write_ptr}
use chrono_cache.HashMap.{get_or_add_growing, set_with, remove_with}

-- `==` and `<` on scores
pub record Score {μ} (S : Type μ) : Type μ where
  pub same : S → S → Bool
  pub below : S → S → Bool

-- `AVLTreeNodeValue`
pub record Pair {ℓ μ} (M : Type ℓ) (S : Type μ) : Type (ℓ ⊔ μ) where
  pub member : M
  pub score : S

-- `operator<` of `AVLTreeNodeValue`
instance abbrev pub pair_order {ℓ μ} :
    {M : Type ℓ} {S : Type μ} ⦃members : Order M⦄ ⦃scores : Score S⦄ → Order (Pair M S)
pair_order ⦃members⦄ ⦃scores⦄ = record {
  less = λ a b.
      if scores.same a.score b.score
      then members.less a.member b.member
      else scores.below a.score b.score;
}

-- `SortedSet`
pub record SortedSet {ℓ μ} (M : Type ℓ) (S : Type μ) : Type (ℓ ⊔ μ) where
  pub tree : AvlTree (Pair M S)
  pub member_score : Store M S

abbrev pub default_threshold : Ratio
default_threshold = record { num = 3; den = 4 }

-- `SORTED_SET_INITIAL_MAP_CAPACITY`
abbrev pub initial_capacity : ℕ
initial_capacity = 16

-- `SortedSet()`
unfoldable pub new_set {ℓ μ} : {M : Type ℓ} {S : Type μ} → Run (SortedSet M S)
unfolding new_store Avl.empty
new_set = do
  m ← new_store initial_capacity default_threshold
  ok (record { tree = Avl.empty; member_score = m })

module _ {ℓ μ} {M : Type ℓ} {S : Type μ} ⦃key : Key M⦄ ⦃members : Order M⦄ ⦃scores : Score S⦄ where
  -- `member_score.set(member, score)`
  unfoldable pub set_score : M → S → Store M S → Run (Store M S)
  unfolding set_with
  set_score member score s = do r ← set_with (λ (w : Unit {0}). ok w) member score s tt; ok r.0

  -- the rest of `zadd` for the score that `member_score.get(member)` has found
  unfoldable pub zadd_found : S → M → SortedSet M S → Option S → Run (Bool × SortedSet M S)
  unfolding Avl.insert Avl.erase set_score
  zadd_found score member zset none = do
    m ← set_score member score zset.member_score
    ok (
      true,
      record {
        tree = (Avl.insert zset.tree (record { member = member; score = score })).0;
        member_score = m;
      },
    )
  zadd_found score member zset (some existing) =
      let erased = (Avl.erase zset.tree (record { member = member; score = existing })).0 in
      if scores.same existing score then ok (false, zset) else (do
        m ← set_score member score zset.member_score
        ok (
          false,
          record {
            tree = (Avl.insert erased (record { member = member; score = score })).0;
            member_score = m;
          },
        ))

  -- `zadd` in the set of its key
  unfoldable pub zadd_set : S → M → SortedSet M S → Run (Bool × SortedSet M S)
  unfolding get zadd_found
  zadd_set score member zset = get zset.member_score member >>= zadd_found score member zset

  -- `zscore` in the set of its key
  unfoldable pub zscore_set : M → SortedSet M S → Run (Option S)
  unfolding get
  zscore_set member zset = get zset.member_score member

  unfoldable pub zrem_found : M → SortedSet M S → Option S → Run (Bool × SortedSet M S)
  unfolding Avl.erase remove_with
  zrem_found member zset none = ok (false, zset)
  zrem_found member zset (some score) = do
    r ← remove_with (λ (w : Unit {0}). ok w) member zset.member_score tt
    ok (
      true,
      record {
        tree = (Avl.erase zset.tree (record { member = member; score = score })).0;
        member_score = r.1;
      },
    )

  -- `zrem` in the set of its key
  unfoldable pub zrem_set : M → SortedSet M S → Run (Bool × SortedSet M S)
  unfolding get zrem_found
  zrem_set member zset = get zset.member_score member >>= zrem_found member zset

  unfoldable pub rank_found : M → SortedSet M S → Option S → Option ℕ
  unfolding Avl.rank
  rank_found member zset none = none
  rank_found member zset (some score) =
      some (Avl.rank zset.tree (record { member = member; score = score }))

  -- `zrank` in the set of its key
  unfoldable pub zrank_set : M → SortedSet M S → Run (Option ℕ)
  unfolding get rank_found
  zrank_set member zset = do found ← get zset.member_score member; ok (rank_found member zset found)

module _ {ℓ κ μ} {K : Type κ} {M : Type ℓ} {S : Type μ} ⦃keys : Key K⦄ ⦃key : Key M⦄
    ⦃members : Order M⦄ ⦃scores : Score S⦄ where
  -- `SortedSetsAPI::zadd`: the set that `get_or_add` points to is changed in place
  unfoldable pub zadd : K → S → M → Store K (SortedSet M S) → Run (Bool × Store K (SortedSet M S))
  unfolding new_set get_or_add_growing zadd_set write_ptr
  zadd k score member sorted_set_store = do
    default ← new_set
    r ← get_or_add_growing sorted_set_store k default
    z ← zadd_set score member r.0.value
    s ← write_ptr r.1 k r.0.addr z.1
    ok (z.0, s)

  unfoldable pub in_set {ν} :
      {A : Type ν} → A → (SortedSet M S → Run A) → Option (Node K (SortedSet M S)) → Run A
  in_set missing use_set none = ok missing
  in_set missing use_set (some zset) = use_set zset.value

  -- `SortedSetsAPI::zscore`
  unfoldable pub zscore : K → M → Store K (SortedSet M S) → Run (Option S)
  unfolding get_ptr in_set zscore_set
  zscore k member sorted_set_store = get_ptr sorted_set_store k >>= in_set none (zscore_set member)

  unfoldable pub zrem_in :
      K
      → M
      → Store K (SortedSet M S)
      → Option (Node K (SortedSet M S))
      → Run (Bool × Store K (SortedSet M S))
  unfolding zrem_set write_ptr
  zrem_in k member sorted_set_store none = ok (false, sorted_set_store)
  zrem_in k member sorted_set_store (some zset) = do
    z ← zrem_set member zset.value
    s ← write_ptr sorted_set_store k zset.addr z.1
    ok (z.0, s)

  -- `SortedSetsAPI::zrem`
  unfoldable pub zrem : K → M → Store K (SortedSet M S) → Run (Bool × Store K (SortedSet M S))
  unfolding get_ptr zrem_in
  zrem k member sorted_set_store = get_ptr sorted_set_store k >>= zrem_in k member sorted_set_store

  -- `SortedSetsAPI::zrank`
  unfoldable pub zrank : K → M → Store K (SortedSet M S) → Run (Option ℕ)
  unfolding get_ptr in_set zrank_set
  zrank k member sorted_set_store = get_ptr sorted_set_store k >>= in_set none (zrank_set member)
