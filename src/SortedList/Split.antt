-- ===== src/SortedList/Split.antt =====
-- `insert`, `remove` and `rank` on a sorted list that is split at an element: what a search tree
-- relies on at a node.
use chrono_cache.Shared.{◌+◌, ◌≡◌, false, List, ◌∷◌, ◌++◌, arith, length}
use chrono_cache.SortedList.{Order, IsStrict, ◌≺◌, IsSorted, insert, remove, rank}
use chrono_cache.SortedList.Laws.{
  asym, IsSorted-split, AllAbove-trans, AllBelow-trans, insert-AllBelow, insert-append_AllAbove,
  remove-AllAbove, remove-AllBelow, remove-append_AllAbove, rank-AllAbove, rank-AllBelow,
  rank-append_AllAbove,
}

module _ {ℓ} {A : Type ℓ} ⦃o : Order A⦄ (strict : IsStrict o) (x : A) (xs : List A) (v : A)
    (ys : List A) where
  pub insert_before : x ≺ v → insert x (xs ++ v ∷ ys) ≡ insert x xs ++ v ∷ ys
  insert_before h = insert-append_AllAbove strict x xs v ys h

  module _ (sorted : IsSorted (xs ++ v ∷ ys)) where
    pub insert_after : v ≺ x → insert x (xs ++ v ∷ ys) ≡ xs ++ v ∷ insert x ys
    insert_after h =
        let (below, above, _, _) = IsSorted-split xs v ys sorted in
        rw (insert-AllBelow strict x xs (v ∷ ys) (AllBelow-trans strict xs v x h below))
          (unfold insert in ground (arith, asym strict v x))

    pub insert_here :
        o.less x v ≡ false → o.less v x ≡ false → insert x (xs ++ v ∷ ys) ≡ xs ++ v ∷ ys
    insert_here p q =
        let (below, above, _, _) = IsSorted-split xs v ys sorted in
        rw (strict.connected x v p q, insert-AllBelow strict v xs (v ∷ ys) below)
          (unfold insert in ground (arith, strict.irrefl v))

    pub remove_before : x ≺ v → remove x (xs ++ v ∷ ys) ≡ remove x xs ++ v ∷ ys
    remove_before h =
        let (below, above, _, _) = IsSorted-split xs v ys sorted in
        remove-append_AllAbove strict x xs (v ∷ ys) (h, AllAbove-trans strict ys x v h above)

    pub remove_after : v ≺ x → remove x (xs ++ v ∷ ys) ≡ xs ++ v ∷ remove x ys
    remove_after h =
        let (below, above, _, _) = IsSorted-split xs v ys sorted in
        rw (remove-AllBelow strict x xs (v ∷ ys) (AllBelow-trans strict xs v x h below))
          (unfold remove in ground (arith, asym strict v x))

    pub remove_here : o.less x v ≡ false → o.less v x ≡ false → remove x (xs ++ v ∷ ys) ≡ xs ++ ys
    remove_here p q =
        let (below, above, _, _) = IsSorted-split xs v ys sorted in
        rw (strict.connected x v p q, remove-AllBelow strict v xs (v ∷ ys) below)
          (unfold remove in ground (arith, strict.irrefl v, remove-AllAbove strict v ys above))

    pub rank_before : x ≺ v → rank x (xs ++ v ∷ ys) ≡ rank x xs
    rank_before h =
        let (below, above, _, _) = IsSorted-split xs v ys sorted in
        rank-append_AllAbove strict x xs (v ∷ ys) (h, AllAbove-trans strict ys x v h above)

    pub rank_after : v ≺ x → rank x (xs ++ v ∷ ys) ≡ length xs + 1 + rank x ys
    rank_after h =
        let (below, above, _, _) = IsSorted-split xs v ys sorted in
        rw (rank-AllBelow strict x xs (v ∷ ys) (AllBelow-trans strict xs v x h below))
          (unfold rank in ground arith)

    pub rank_here : o.less x v ≡ false → o.less v x ≡ false → rank x (xs ++ v ∷ ys) ≡ length xs
    rank_here p q =
        let (below, above, _, _) = IsSorted-split xs v ys sorted in
        rw (strict.connected x v p q, rank-AllBelow strict v xs (v ∷ ys) below)
          (unfold rank in ground (arith, strict.irrefl v, rank-AllAbove strict v ys above))
