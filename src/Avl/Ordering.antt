-- ===== src/Avl/Ordering.antt =====
-- The tree of src/cpp/cache/sorted_sets/tree.cpp as a sorted list: `insert_node` and `erase_node`
-- are insertion and removal, `rank_node` counts the smaller elements.
use chrono_cache.Shared.{
  ℕ, ◌≡◌, subst, refl, sym, ap, ◌∙◌, false, List, ◌∷◌, ◌++◌, arith, append-nil,
}
use chrono_cache.SortedList
use chrono_cache.SortedList.{Order, IsStrict, ◌≺◌, IsSorted}
use chrono_cache.SortedList.Laws.{IsSorted-split, remove-AllAbove}
use chrono_cache.SortedList.Split.{
  insert_before, insert_after, insert_here, remove_before, remove_after, remove_here, rank_before,
  rank_after, rank_here,
}
use chrono_cache.Avl.{
  Tree, null, node, recompute, leftmost, is_null, insert_node, erase_root, erase_node, rank_node,
}
use chrono_cache.Avl.View.{
  to_list, IsSized, size_of-to_list, to_list-rebalance, to_list-settle, leftmost_lem,
}

module _ {ℓ} {A : Type ℓ} where
  -- The root's value goes: the successor takes its place, or the only child does.
  to_list-erase_root :
      (l r : Tree A) (succ : A) (rest : Tree A) (h s : ℕ)
      → (is_null r ≡ false → succ ∷ to_list rest ≡ to_list r)
      → to_list (erase_root l r succ rest h s) ≡ to_list l ++ to_list r
  unfolding erase_root is_null
  to_list-erase_root null null succ rest h s e = refl
  to_list-erase_root null (node rl rv rr rh rs) succ rest h s e =
      to_list-settle (node rl rv rr rh rs)
  to_list-erase_root (node ll lv lr lh ls) null succ rest h s e =
      to_list-settle (node ll lv lr lh ls) ∙ sym (append-nil _)
  to_list-erase_root (node ll lv lr lh ls) (node rl rv rr rh rs) succ rest h s e =
      to_list-settle (node (node ll lv lr lh ls) succ rest h s)
      ∙ ap (λ xs. to_list (node ll lv lr lh ls) ++ xs) (e refl)

module _ {ℓ} {A : Type ℓ} ⦃o : Order A⦄ (strict : IsStrict o) where
  -- `_insert` is insertion in the sorted list of the values.
  pub to_list-insert_node :
      (t : Tree A) (x : A)
      → IsSorted (to_list t)
      → to_list (insert_node t x) ≡ SortedList.insert x (to_list t)
  unfolding insert_node
  to_list-insert_node null x h = unfold SortedList.insert in refl
  to_list-insert_node (node l v r h s) x sorted =
      let (_, _, front, back) = IsSorted-split (to_list l) v (to_list r) sorted in
      ground (
        arith,
        to_list-rebalance (recompute (insert_node l x) v r),
        to_list-rebalance (recompute l v (insert_node r x)),
        to_list-insert_node l x front,
        to_list-insert_node r x back,
        insert_before strict x (to_list l) v (to_list r),
        insert_after strict x (to_list l) v (to_list r) sorted,
        insert_here strict x (to_list l) v (to_list r) sorted,
      )

  -- `_rank` counts the smaller values.
  pub rank_node-to_list :
      (t : Tree A) (x : A)
      → IsSorted (to_list t)
      → IsSized t
      → rank_node t x ≡ SortedList.rank x (to_list t)
  unfolding rank_node
  rank_node-to_list null x h z = unfold SortedList.rank in refl
  rank_node-to_list (node l v r h s) x sorted z =
      let (_, _, front, back) = IsSorted-split (to_list l) v (to_list r) sorted in
      ground (
        arith,
        size_of-to_list l z.1,
        rank_node-to_list l x front z.1,
        rank_node-to_list r x back z.2,
        rank_before strict x (to_list l) v (to_list r) sorted,
        rank_after strict x (to_list l) v (to_list r) sorted,
        rank_here strict x (to_list l) v (to_list r) sorted,
      )

  remove_head : (x : A) (xs : List A) → IsSorted (x ∷ xs) → SortedList.remove x (x ∷ xs) ≡ xs
  unfolding SortedList.remove
  remove_head x xs h = ground (arith, strict.irrefl x, remove-AllAbove strict x xs h.0)

  -- Taking the leftmost value out of a child leaves the rest of its list.
  erase_node-leftmost :
      (r : Tree A) (v : A)
      → IsSorted (to_list r)
      → ((y : A) → to_list (erase_node r y) ≡ SortedList.remove y (to_list r))
      → is_null r ≡ false
      → leftmost r v ∷ to_list (erase_node r (leftmost r v)) ≡ to_list r
  unfolding is_null leftmost
  erase_node-leftmost null v sorted ih h = cc
  erase_node-leftmost (node rl rv rr rh rs) v sorted ih h =
      let (rest, e) = leftmost_lem rl rv rr rh rs in
      let succ = leftmost rl rv in
      ap (λ xs. succ ∷ xs)
        (ih succ ∙ ap (SortedList.remove succ) e ∙ remove_head succ rest (subst IsSorted e sorted))
      ∙ sym e

  -- `_erase` is removal from the sorted list of the values.
  pub to_list-erase_node :
      (t : Tree A) (x : A)
      → IsSorted (to_list t)
      → to_list (erase_node t x) ≡ SortedList.remove x (to_list t)
  unfolding erase_node
  to_list-erase_node null x h = unfold SortedList.remove in refl
  to_list-erase_node (node l v r h s) x sorted =
      let (_, _, front, back) = IsSorted-split (to_list l) v (to_list r) sorted in
      ground (
        arith,
        to_list-settle (node (erase_node l x) v r h s),
        to_list-settle (node l v (erase_node r x) h s),
        to_list-erase_node l x front,
        to_list-erase_node r x back,
        to_list-erase_root l r (leftmost r v) (erase_node r (leftmost r v)) h s
            (erase_node-leftmost r v back (λ y. to_list-erase_node r y back)),
        remove_before strict x (to_list l) v (to_list r) sorted,
        remove_after strict x (to_list l) v (to_list r) sorted,
        remove_here strict x (to_list l) v (to_list r) sorted,
      )
