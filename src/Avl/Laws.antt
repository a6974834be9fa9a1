-- ===== src/Avl/Laws.antt =====
-- The methods of `AVLTree` (src/cpp/cache/sorted_sets/tree.cpp) on a valid tree, in terms of the
-- sorted list that it stands for.
use chrono_cache.Shared.{
  ℕ, zero, suc, ◌+◌, ◌*◌, ◌/◌, ◌^◌, ◌≡◌, ◌≤◌, refl, max, not, List, [], ◌∷◌, ap, ◌∙◌, subst, arith,
  length, length-append,
}
use chrono_cache.SortedList
use chrono_cache.SortedList.{Order, IsStrict, IsSorted}
use chrono_cache.SortedList.Laws.{insert-IsSorted, remove-IsSorted, length-insert, length-remove}
use chrono_cache.Avl.{Tree, null, node, height_above, AvlTree, empty, insert, erase, rank}
use chrono_cache.Avl.View.{
  to_list, IsSized, size_of-to_list, insert_node-IsSized, erase_node-IsSized,
}
use chrono_cache.Avl.Ordering.{to_list-insert_node, to_list-erase_node, rank_node-to_list}
use chrono_cache.Avl.Balance.{IsBalanced, insert_node-Grown, erase_node-Shrunk}

module _ {ℓ} {A : Type ℓ} where
  -- The abstract value of a tree.
  abbrev pub values : AvlTree A → List A
  values t = to_list t.root

  -- How many nodes the longest path from the root has.
  abbrev pub depth : Tree A → ℕ
  depth null = 0
  depth (node l v r h s) = suc (max (depth l) (depth r))

  depth_lem : (t : Tree A) → IsBalanced t → depth t ≡ height_above t
  unfolding height_above
  depth_lem null b = refl
  depth_lem (node l v r h s) b = omega (arith, depth_lem l b.3, depth_lem r b.4)

  pow-le-length :
      (t : Tree A) (k : ℕ) → IsBalanced t → 2 * k ≤ height_above t → 2 ^ k ≤ length (to_list t) + 1
  unfolding height_above
  pow-le-length t zero b h = omega arith
  pow-le-length null (suc k) b h = absurd (omega arith)
  pow-le-length (node l v r hh s) (suc k) b h = omega (
    arith,
    length-append (to_list l) (v ∷ to_list r),
    pow-le-length l k b.3 (omega arith),
    pow-le-length r k b.4 (omega arith),
  )

module _ {ℓ} {A : Type ℓ} ⦃o : Order A⦄ where
  -- In order, with right caches, and balanced.
  pub record IsValid (t : AvlTree A) : Type 0 where
    pub sorted : IsSorted (values t)
    pub sized : IsSized t.root
    pub balanced : IsBalanced t.root

  -- The caches of a balanced tree bound its longest path.
  depth_bound : (t : AvlTree A) → IsValid t → 2 ^ (depth t.root / 2) ≤ length (values t) + 1
  depth_bound t valid =
      rw (depth_lem t.root valid.balanced) (pow-le-length t.root _ valid.balanced (omega arith))

  -- The new tree is valid.
  pub empty-IsValid : IsValid empty
  unfolding empty height_above
  empty-IsValid = record { sorted = tt; sized = tt; balanced = tt }

module _ {ℓ} {A : Type ℓ} ⦃o : Order A⦄ (strict : IsStrict o) (t : AvlTree A) (x : A)
    (valid : IsValid t) where
  -- For a strict order, `insert` into a valid tree (in order, with right cached sizes and
  -- heights, balanced) gives a valid tree whose values in order are those of insertion into the
  -- sorted list, and reports whether the value was new.
  pub insert-Refines :
      IsValid (insert t x).0
      × (values (insert t x).0 ≡ SortedList.insert x (values t))
      × ((insert t x).1 ≡ not (SortedList.contains x (values t)))
  unfolding insert
  insert-Refines =
      let view = to_list-insert_node strict t.root x valid.sorted in
      let sized = insert_node-IsSized t.root x valid.sized in
      (
        record {
          sorted = rw view (insert-IsSorted strict x (values t) valid.sorted);
          sized = sized;
          balanced = (insert_node-Grown t.root x valid.balanced).balanced;
        },
        view,
        rw (size_of-to_list t.root valid.sized, size_of-to_list _ sized, view)
            (ground (arith, length-insert strict x (values t) valid.sorted)),
      )

  -- For a strict order, `erase` from a valid tree gives a valid tree whose values in order are
  -- those of removal from the sorted list, and reports whether the value was there.
  pub erase-Refines :
      IsValid (erase t x).0
      × (values (erase t x).0 ≡ SortedList.remove x (values t))
      × ((erase t x).1 ≡ SortedList.contains x (values t))
  unfolding erase
  erase-Refines =
      let view = to_list-erase_node strict t.root x valid.sorted in
      let sized = erase_node-IsSized t.root x valid.sized in
      (
        record {
          sorted = rw view (remove-IsSorted strict x (values t) valid.sorted);
          sized = sized;
          balanced = (erase_node-Shrunk t.root x valid.balanced).balanced;
        },
        view,
        rw (size_of-to_list t.root valid.sized, size_of-to_list _ sized, view)
            (ground (arith, length-remove strict x (values t) valid.sorted)),
      )

  -- For a strict order, `rank x` in a valid tree is the number of its values that are below `x`.
  pub rank-values : rank t x ≡ SortedList.rank x (values t)
  unfolding rank
  rank-values = rank_node-to_list strict t.root x valid.sorted valid.sized

-- The changes of a tree.
pub data Change {ℓ} (A : Type ℓ) : Type ℓ where
  inserted : A → Change A
  erased : A → Change A

module _ {ℓ} {A : Type ℓ} ⦃o : Order A⦄ where
  -- A tree that is changed by the methods, and the list that is changed as a set should be.
  abbrev pub changed : AvlTree A → List (Change A) → AvlTree A
  changed t [] = t
  changed t (inserted x ∷ changes) = changed (insert t x).0 changes
  changed t (erased x ∷ changes) = changed (erase t x).0 changes

  abbrev pub members : List A → List (Change A) → List A
  members xs [] = xs
  members xs (inserted x ∷ changes) = members (SortedList.insert x xs) changes
  members xs (erased x ∷ changes) = members (SortedList.remove x xs) changes

  changed-Refines :
      IsStrict o
      → (t : AvlTree A) (changes : List (Change A)) → IsValid t
      → IsValid (changed t changes) × (values (changed t changes) ≡ members (values t) changes)
  changed-Refines strict t [] valid = (valid, refl)
  changed-Refines strict t (inserted x ∷ changes) valid =
      let (next, view, report) = insert-Refines strict t x valid in
      let (done, same) = changed-Refines strict (insert t x).0 changes next in
      (done, same ∙ ap (λ xs. members xs changes) view)
  changed-Refines strict t (erased x ∷ changes) valid =
      let (next, view, report) = erase-Refines strict t x valid in
      let (done, same) = changed-Refines strict (erase t x).0 changes next in
      (done, same ∙ ap (λ xs. members xs changes) view)

  -- For a strict order, after any insertions and erasures on the empty tree, the longest path of
  -- the tree has d nodes with 2 ^ (d / 2) ≤ n + 1, where n is the length of the list that the
  -- same insertions and removals give.
  pub depth-changed :
      IsStrict o
      → (changes : List (Change A))
      → 2 ^ (depth (changed empty changes).root / 2) ≤ length (members [] changes) + 1
  unfolding empty
  depth-changed strict changes =
      let (valid, view) = changed-Refines strict empty changes empty-IsValid in
      subst (λ xs. 2 ^ (depth (changed empty changes).root / 2) ≤ length xs + 1) view
        (depth_bound (changed empty changes) valid)
