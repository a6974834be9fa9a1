-- ===== src/Avl/View.antt =====
-- The in-order view of the tree of src/cpp/cache/sorted_sets/tree.cpp, which rotations keep, and the
-- cached subtree sizes, which every operation keeps right.
use chrono_cache.Shared.{
  ℕ, ◌+◌, ◌≡◌, refl, sym, ap, ◌∙◌, Bool, true, false, List, [], ◌∷◌, ◌++◌, arith, length,
  length-append, append_assoc, if◌then◌else◌,
}
use chrono_cache.SortedList.{Order}
use chrono_cache.Avl.{
  Tree, null, node, size_of, recompute, right_rotate, left_rotate, rebalance, leftmost, insert_node,
  settle, erase_root, erase_node,
}

if_ind {ℓ κ} :
    {A : Type ℓ} (P : A → Type κ) (b : Bool) (x y : A) → P x → P y → P (if b then x else y)
if_ind P true x y p q = p
if_ind P false x y p q = q

module _ {ℓ} {A : Type ℓ} where
  -- The values, from left to right.
  abbrev pub to_list : Tree A → List A
  to_list null = []
  to_list (node l v r h s) = to_list l ++ (v ∷ to_list r)

  -- Every cached size is the number of nodes below.
  abbrev pub IsSized : Tree A → Type 0
  IsSized null = Unit
  IsSized (node l v r h s) =
      (s ≡ length (to_list l) + 1 + length (to_list r)) × IsSized l × IsSized r

  pub size_of-to_list : (t : Tree A) → IsSized t → size_of t ≡ length (to_list t)
  unfolding size_of
  size_of-to_list null h = refl
  size_of-to_list (node l v r h s) z = omega (arith, length-append (to_list l) (v ∷ to_list r))

  recompute-IsSized :
      (l : Tree A) (v : A) (r : Tree A) → IsSized l → IsSized r → IsSized (recompute l v r)
  unfolding recompute
  recompute-IsSized l v r zl zr =
      (omega (arith, size_of-to_list l zl, size_of-to_list r zr), zl, zr)

  to_list-right_rotate : (t : Tree A) → to_list (right_rotate t) ≡ to_list t
  unfolding right_rotate
  to_list-right_rotate null = refl
  to_list-right_rotate (node null v r h s) = refl
  to_list-right_rotate (node (node ll lv lr lh ls) v r h s) =
      sym (append_assoc (to_list ll) (lv ∷ to_list lr) (v ∷ to_list r))

  to_list-left_rotate : (t : Tree A) → to_list (left_rotate t) ≡ to_list t
  unfolding left_rotate
  to_list-left_rotate null = refl
  to_list-left_rotate (node l v null h s) = refl
  to_list-left_rotate (node l v (node rl rv rr rh rs) h s) =
      append_assoc (to_list l) (v ∷ to_list rl) (rv ∷ to_list rr)

  right_rotate-IsSized : (t : Tree A) → IsSized t → IsSized (right_rotate t)
  unfolding right_rotate
  right_rotate-IsSized null z = tt
  right_rotate-IsSized (node null v r h s) z = z
  right_rotate-IsSized (node (node ll lv lr lh ls) v r h s) z =
      recompute-IsSized ll lv (recompute lr v r) z.1.1 (recompute-IsSized lr v r z.1.2 z.2)

  left_rotate-IsSized : (t : Tree A) → IsSized t → IsSized (left_rotate t)
  unfolding left_rotate
  left_rotate-IsSized null z = tt
  left_rotate-IsSized (node l v null h s) z = z
  left_rotate-IsSized (node l v (node rl rv rr rh rs) h s) z =
      recompute-IsSized (recompute l v rl) rv rr (recompute-IsSized l v rl z.1 z.2.1) z.2.2

  -- What holds of the five results of `rebalance` holds of it.
  rebalance_ind {κ} :
      (P : Tree A → Type κ) (l : Tree A) (v : A) (r : Tree A) (h s : ℕ)
      → P (right_rotate (node l v r h s))
      → P (left_rotate (node l v r h s))
      → P (right_rotate (node (left_rotate l) v r h s))
      → P (left_rotate (node l v (right_rotate r) h s))
      → P (node l v r h s)
      → P (rebalance (node l v r h s))
  unfolding rebalance
  rebalance_ind P l v r h s a b c d e =
      if_ind P _ _ _ a (if_ind P _ _ _ b (if_ind P _ _ _ c (if_ind P _ _ _ d e)))

  pub to_list-rebalance : (t : Tree A) → to_list (rebalance t) ≡ to_list t
  to_list-rebalance null = unfold rebalance in refl
  to_list-rebalance (node l v r h s) =
      rebalance_ind (λ t. to_list t ≡ to_list l ++ v ∷ to_list r) l v r h s
        (to_list-right_rotate (node l v r h s)) (to_list-left_rotate (node l v r h s))
        (to_list-right_rotate (node (left_rotate l) v r h s)
          ∙ ap (λ xs. xs ++ v ∷ to_list r) (to_list-left_rotate l))
        (to_list-left_rotate (node l v (right_rotate r) h s)
          ∙ ap (λ xs. to_list l ++ v ∷ xs) (to_list-right_rotate r))
        refl

  rebalance-IsSized : (t : Tree A) → IsSized t → IsSized (rebalance t)
  rebalance-IsSized null z = unfold rebalance in tt
  rebalance-IsSized (node l v r h s) z =
      rebalance_ind IsSized l v r h s (right_rotate-IsSized (node l v r h s) z)
        (left_rotate-IsSized (node l v r h s) z)
        (right_rotate-IsSized (node (left_rotate l) v r h s)
          (rw to_list-left_rotate z.0, left_rotate-IsSized l z.1, z.2))
        (left_rotate-IsSized (node l v (right_rotate r) h s)
          (rw to_list-right_rotate z.0, z.1, right_rotate-IsSized r z.2))
        z

  -- `settle` is `rebalance` after the caches are written anew.
  pub to_list-settle : (t : Tree A) → to_list (settle t) ≡ to_list t
  unfolding settle
  to_list-settle null = refl
  to_list-settle (node l v r h s) = to_list-rebalance (recompute l v r)

  settle-IsSized :
      (l : Tree A) (v : A) (r : Tree A) (h s : ℕ)
      → IsSized l
      → IsSized r
      → IsSized (settle (node l v r h s))
  unfolding settle
  settle-IsSized l v r h s zl zr =
      rebalance-IsSized (recompute l v r) (recompute-IsSized l v r zl zr)

  -- The leftmost value comes first.
  pub leftmost_lem :
      (l : Tree A) (v : A) (r : Tree A) (h s : ℕ)
      → (rest : List A) × (to_list (node l v r h s) ≡ leftmost l v ∷ rest)
  unfolding leftmost
  leftmost_lem null v r h s = (to_list r, refl)
  leftmost_lem (node ll lv lr lh ls) v r h s =
      let (rest, e) = leftmost_lem ll lv lr lh ls in
      (rest ++ v ∷ to_list r, ap (λ xs. xs ++ v ∷ to_list r) e)

  erase_root-IsSized :
      (l r : Tree A) (succ : A) (rest : Tree A) (h s : ℕ)
      → IsSized l
      → IsSized r
      → IsSized rest
      → IsSized (erase_root l r succ rest h s)
  unfolding erase_root
  erase_root-IsSized null null succ rest h s zl zr z = tt
  erase_root-IsSized null (node rl rv rr rh rs) succ rest h s zl zr z =
      settle-IsSized rl rv rr rh rs zr.1 zr.2
  erase_root-IsSized (node ll lv lr lh ls) null succ rest h s zl zr z =
      settle-IsSized ll lv lr lh ls zl.1 zl.2
  erase_root-IsSized (node ll lv lr lh ls) (node rl rv rr rh rs) succ rest h s zl zr z =
      settle-IsSized (node ll lv lr lh ls) succ rest h s zl z

module _ {ℓ} {A : Type ℓ} ⦃o : Order A⦄ where
  pub insert_node-IsSized : (t : Tree A) (x : A) → IsSized t → IsSized (insert_node t x)
  unfolding insert_node
  insert_node-IsSized null x z = (refl, tt, tt)
  insert_node-IsSized (node l v r h s) x z = ground (
    arith,
    rebalance-IsSized (recompute (insert_node l x) v r)
        (recompute-IsSized (insert_node l x) v r (insert_node-IsSized l x z.1) z.2),
    rebalance-IsSized (recompute l v (insert_node r x))
        (recompute-IsSized l v (insert_node r x) z.1 (insert_node-IsSized r x z.2)),
  )

  pub erase_node-IsSized : (t : Tree A) (x : A) → IsSized t → IsSized (erase_node t x)
  unfolding erase_node
  erase_node-IsSized null x z = tt
  erase_node-IsSized (node l v r h s) x z = ground (
    arith,
    settle-IsSized (erase_node l x) v r h s (erase_node-IsSized l x z.1) z.2,
    settle-IsSized l v (erase_node r x) h s z.1 (erase_node-IsSized r x z.2),
    erase_root-IsSized l r (leftmost r v) (erase_node r (leftmost r v)) h s z.1 z.2
        (erase_node-IsSized r (leftmost r v) z.2),
  )
