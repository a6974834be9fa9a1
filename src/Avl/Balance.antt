-- ===== src/Avl/Balance.antt =====
-- The AVL invariant of src/cpp/cache/sorted_sets/tree.cpp: cached heights are right, and the two
-- children of a node differ by at most one.
use chrono_cache.Shared.{ℕ, ◌+◌, ◌≡◌, ◌≤◌, ◌<◌, ◌⊎◌, inl, inr, max, arith, Bool-cases, le_or_lt}
use chrono_cache.SortedList.{Order}
use chrono_cache.Avl.{
  Tree, null, node, height_above, recompute, rebalance, leftmost, insert_node, settle, erase_root,
  erase_node, right_rotate, left_rotate,
}
use chrono_cache.Avl.Rotation.{
  rebalance_even, rebalance_single_right, rebalance_double_right, rebalance_single_left,
  rebalance_double_left,
}

module _ {ℓ} {A : Type ℓ} where
  abbrev pub IsBalanced : Tree A → Type 0
  unfolding height_above
  IsBalanced null = Unit
  IsBalanced (node l v r h s) =
      (h ≡ max (height_above l) (height_above r))
      × (height_above l ≤ height_above r + 1)
      × (height_above r ≤ height_above l + 1)
      × IsBalanced l
      × IsBalanced r

  -- One rotation's worth: where the children differ by at most two, the result is balanced, and it
  -- is as high as the node was, or lower by one; it is as high where nothing had to be done.
  record Rebalanced (l r t : Tree A) : Type 0 where
    balanced : IsBalanced t
    upper : height_above t ≤ max (height_above l) (height_above r) + 1
    lower : max (height_above l) (height_above r) ≤ height_above t
    kept :
        height_above l ≤ height_above r + 1
        → height_above r ≤ height_above l + 1
        → height_above t ≡ max (height_above l) (height_above r) + 1

  rebalance_right :
      (ll : Tree A) (lv : A) (lr : Tree A) (lh ls : ℕ) (v : A) (r : Tree A)
      → IsBalanced (node ll lv lr lh ls)
      → IsBalanced r
      → lh ≡ height_above r + 1
      → (height_above lr ≤ height_above ll) ⊎ (height_above ll < height_above lr)
      → Rebalanced (node ll lv lr lh ls) r (rebalance (recompute (node ll lv lr lh ls) v r))
  unfolding recompute height_above
  rebalance_right ll lv lr lh ls v r bl br e (inl p) =
      rw (rebalance_single_right ll lv lr lh ls v r _ _ e p) (unfold right_rotate in ground arith)
  rebalance_right ll lv null lh ls v r bl br e (inr p) = absurd (omega arith)
  rebalance_right ll lv (node a b c d f) lh ls v r bl br e (inr p) =
      rw (rebalance_double_right ll lv (node a b c d f) lh ls v r _ _ e p)
        (unfold right_rotate left_rotate in ground arith)

  rebalance_left :
      (l : Tree A) (v : A) (rl : Tree A) (rv : A) (rr : Tree A) (rh rs : ℕ)
      → IsBalanced l
      → IsBalanced (node rl rv rr rh rs)
      → rh ≡ height_above l + 1
      → (height_above rl ≤ height_above rr) ⊎ (height_above rr < height_above rl)
      → Rebalanced l (node rl rv rr rh rs) (rebalance (recompute l v (node rl rv rr rh rs)))
  unfolding recompute height_above
  rebalance_left l v rl rv rr rh rs bl br e (inl p) =
      rw (rebalance_single_left l v rl rv rr rh rs _ _ e p) (unfold left_rotate in ground arith)
  rebalance_left l v null rv rr rh rs bl br e (inr p) = absurd (omega arith)
  rebalance_left l v (node a b c d f) rv rr rh rs bl br e (inr p) =
      rw (rebalance_double_left l v (node a b c d f) rv rr rh rs _ _ e p)
        (unfold right_rotate left_rotate in ground arith)

  rebalance-Rebalanced :
      (l : Tree A) (v : A) (r : Tree A)
      → IsBalanced l
      → IsBalanced r
      → height_above l ≤ height_above r + 2
      → height_above r ≤ height_above l + 2
      → Rebalanced l r (rebalance (recompute l v r))
  rebalance-Rebalanced l v r bl br p q = elim (le_or_lt (height_above l) (height_above r + 1)) [
    | inr high ↦ left_high l bl p high
    | inl low ↦ elim (le_or_lt (height_above r) (height_above l + 1)) [
      | inr high ↦ right_high r br q high
      | inl low' ↦
          unfold recompute height_above in rw (rebalance_even l v r _ _ low low') (ground arith)
    ]
  ]
    where
      left_high :
          (t : Tree A)
          → IsBalanced t
          → height_above t ≤ height_above r + 2
          → height_above r + 1 < height_above t
          → Rebalanced t r (rebalance (recompute t v r))
      left_high null b up high = absurd (unfold height_above in omega arith)
      left_high (node ll lv lr lh ls) b up high =
          rebalance_right ll lv lr lh ls v r b br (unfold height_above in omega arith)
            (le_or_lt _ _)

      right_high :
          (t : Tree A)
          → IsBalanced t
          → height_above t ≤ height_above l + 2
          → height_above l + 1 < height_above t
          → Rebalanced l t (rebalance (recompute l v t))
      right_high null b up high = absurd (unfold height_above in omega arith)
      right_high (node rl rv rr rh rs) b up high =
          rebalance_left l v rl rv rr rh rs bl b (unfold height_above in omega arith) (le_or_lt _ _)

  -- An insertion keeps the balance, and makes the tree higher by one at most.
  pub record Grown (t t' : Tree A) : Type 0 where
    pub balanced : IsBalanced t'
    pub lower : height_above t ≤ height_above t'
    pub upper : height_above t' ≤ height_above t + 1

  -- An erasure keeps the balance, and makes the tree lower by one at most.
  pub record Shrunk (t t' : Tree A) : Type 0 where
    pub balanced : IsBalanced t'
    pub lower : height_above t ≤ height_above t' + 1
    pub upper : height_above t' ≤ height_above t

  module _ {l : Tree A} {v : A} {r : Tree A} {h s : ℕ} (b : IsBalanced (node l v r h s)) where
    Grown-left :
        {l' : Tree A} (w : A) → Grown l l' → Grown (node l v r h s) (rebalance (recompute l' w r))
    unfolding height_above
    Grown-left {l'} w g =
        let m = rebalance-Rebalanced l' w r g.balanced b.4 (omega arith) (omega arith) in
        record { balanced = m.balanced; lower = grind arith; upper = grind arith }

    Grown-right :
        {r' : Tree A} (w : A) → Grown r r' → Grown (node l v r h s) (rebalance (recompute l w r'))
    unfolding height_above
    Grown-right {r'} w g =
        let m = rebalance-Rebalanced l w r' b.3 g.balanced (omega arith) (omega arith) in
        record { balanced = m.balanced; lower = grind arith; upper = grind arith }

    Shrunk-left :
        {l' : Tree A} (w : A) → Shrunk l l' → Shrunk (node l v r h s) (rebalance (recompute l' w r))
    unfolding height_above
    Shrunk-left {l'} w g =
        let m = rebalance-Rebalanced l' w r g.balanced b.4 (omega arith) (omega arith) in
        record { balanced = m.balanced; lower = grind arith; upper = grind arith }

    Shrunk-right :
        {r' : Tree A} (w : A) → Shrunk r r' → Shrunk (node l v r h s) (rebalance (recompute l w r'))
    unfolding height_above
    Shrunk-right {r'} w g =
        let m = rebalance-Rebalanced l w r' b.3 g.balanced (omega arith) (omega arith) in
        record { balanced = m.balanced; lower = grind arith; upper = grind arith }

  -- `settle` of a balanced node changes nothing that matters.
  settle-Rebalanced :
      (l : Tree A) (v : A) (r : Tree A) (h s : ℕ)
      → IsBalanced (node l v r h s)
      → IsBalanced (settle (node l v r h s)) × (height_above (settle (node l v r h s)) ≡ h + 1)
  unfolding settle
  settle-Rebalanced l v r h s b =
      let m = rebalance-Rebalanced l v r b.3 b.4 (omega arith) (omega arith) in
      (m.balanced, omega (arith, m.kept))

module _ {ℓ} {A : Type ℓ} ⦃o : Order A⦄ where
  pub insert_node-Grown : (t : Tree A) (x : A) → IsBalanced t → Grown t (insert_node t x)
  unfolding insert_node
  insert_node-Grown null x b = unfold height_above in ground arith
  insert_node-Grown (node l v r h s) x b = elim (Bool-cases (o.less x v)) [
    | inl p ↦ rw (p, insert_node) (Grown-left b v (insert_node-Grown l x b.3))
    | inr p ↦ elim (Bool-cases (o.less v x)) [
      | inl q ↦ rw (p, q, insert_node) (Grown-right b v (insert_node-Grown r x b.4))
      | inr q ↦
          rw (p, q, insert_node) (record { balanced = b; lower = omega arith; upper = omega arith })
    ]
  ]

  -- At the root the successor takes the value's place, or the only child does.
  erase_root-Shrunk :
      (l : Tree A) (v : A) (r : Tree A) (succ : A) (rest : Tree A) (h s : ℕ)
      → IsBalanced (node l v r h s)
      → Shrunk r rest
      → Shrunk (node l v r h s) (erase_root l r succ rest h s)
  unfolding erase_root height_above
  erase_root-Shrunk null v null succ rest h s b k = ground arith
  erase_root-Shrunk null v (node rl rv rr rh rs) succ rest h s b k =
      let m = settle-Rebalanced rl rv rr rh rs b.4 in
      record { balanced = m.0; lower = omega arith; upper = omega arith }
  erase_root-Shrunk (node ll lv lr lh ls) v null succ rest h s b k =
      let m = settle-Rebalanced ll lv lr lh ls b.3 in
      record { balanced = m.0; lower = omega arith; upper = omega arith }
  erase_root-Shrunk (node ll lv lr lh ls) v (node rl rv rr rh rs) succ rest h s b k =
      unfold settle in Shrunk-right b succ k

  pub erase_node-Shrunk : (t : Tree A) (x : A) → IsBalanced t → Shrunk t (erase_node t x)
  unfolding erase_node
  erase_node-Shrunk null x b = unfold height_above in ground arith
  erase_node-Shrunk (node l v r h s) x b = elim (Bool-cases (o.less x v)) [
    | inl p ↦ rw (p, erase_node) (unfold settle in Shrunk-left b v (erase_node-Shrunk l x b.3))
    | inr p ↦ elim (Bool-cases (o.less v x)) [
      | inl q ↦
          rw (p, q, erase_node) (unfold settle in Shrunk-right b v (erase_node-Shrunk r x b.4))
      | inr q ↦
          rw (p, q, erase_node)
            (erase_root-Shrunk l v r (leftmost r v) (erase_node r (leftmost r v)) h s b
              (erase_node-Shrunk r (leftmost r v) b.4))
    ]
  ]
