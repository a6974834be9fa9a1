-- ===== src/Avl.antt =====
-- The order-statistics AVL tree of src/cpp/cache/sorted_sets/tree.h and tree.cpp.
-- A child pointer is a subtree: every node has one parent, so the code's in-place writes
-- (`root->left = ...`) rebuild the path, and `delete` leaves no trace.
pub mod View
pub mod Ordering
pub mod Rotation
pub mod Balance
pub mod Laws
use chrono_cache.Shared.{ℕ, ◌+◌, Bool, true, false, ◌&&◌, not, max, ltb, if◌then◌else◌}
use chrono_cache.Shared.Int.{ℤ, pos, negsuc, sub_ℕ, ltb_ℤ, leb_ℤ}
use chrono_cache.SortedList.{Order}

-- `AVLTreeNode*`: a null pointer, or a node with its left child, value, right child, cached height
-- and cached size of its subtree.
pub data Tree {ℓ} (A : Type ℓ) : Type ℓ where
  null : Tree A
  node : Tree A → A → Tree A → ℕ → ℕ → Tree A

module _ {ℓ} {A : Type ℓ} where
  -- `(child == nullptr) ? -1 : child->height`, plus one: the height of a node is never negative.
  unfoldable pub height_above : Tree A → ℕ
  height_above null = 0
  height_above (node l v r h s) = h + 1

  -- `(child == nullptr) ? 0 : child->subtree_size`
  unfoldable pub size_of : Tree A → ℕ
  size_of null = 0
  size_of (node l v r h s) = s

  -- `AVLTreeNode(value)`
  unfoldable pub new_node : A → Tree A
  new_node v = node null v null 0 1

  -- `l_height - r_height`; the shift by one cancels. Only called on a node.
  unfoldable pub get_balance : Tree A → ℤ
  unfolding height_above
  get_balance null = pos 0
  get_balance (node l v r h s) = sub_ℕ (height_above l) (height_above r)

  -- `recompute_height` and `recompute_subtree_size`: `1 + max(l_h, r_h)` and `1 + l_s + r_s`
  unfoldable pub recompute : Tree A → A → Tree A → Tree A
  unfolding height_above size_of
  recompute l v r = node l v r (max (height_above l) (height_above r)) (1 + size_of l + size_of r)

  unfoldable pub right_rotate : Tree A → Tree A
  unfolding recompute
  right_rotate (node (node ll lv lr lh ls) v r h s) = recompute ll lv (recompute lr v r)
  right_rotate t = t

  unfoldable pub left_rotate : Tree A → Tree A
  unfolding recompute
  left_rotate (node l v (node rl rv rr rh rs) h s) = recompute (recompute l v rl) rv rr
  left_rotate t = t

  unfoldable pub is_null : Tree A → Bool
  is_null null = true
  is_null (node l v r h s) = false

  -- The four tests of `_rebalance` at a node with the children `l` and `r`, whose balance comes
  -- first: `balance > 1 && root->left != nullptr && root->left->get_balance() >= 0`, and so on.
  unfoldable pub is_left_left : ℤ → Tree A → Bool
  unfolding get_balance is_null
  is_left_left balance l =
      ltb_ℤ (pos 1) balance && (not (is_null l) && leb_ℤ (pos 0) (get_balance l))

  unfoldable pub is_right_right : ℤ → Tree A → Bool
  unfolding get_balance is_null
  is_right_right balance r =
      ltb_ℤ balance (negsuc 0) && (not (is_null r) && leb_ℤ (get_balance r) (pos 0))

  unfoldable pub is_left_right : ℤ → Tree A → Bool
  unfolding get_balance is_null
  is_left_right balance l =
      ltb_ℤ (pos 1) balance && (not (is_null l) && ltb_ℤ (get_balance l) (pos 0))

  unfoldable pub is_right_left : ℤ → Tree A → Bool
  unfolding get_balance is_null
  is_right_left balance r =
      ltb_ℤ balance (negsuc 0) && (not (is_null r) && ltb_ℤ (pos 0) (get_balance r))

  -- `_rebalance`
  unfoldable pub rebalance : Tree A → Tree A
  unfolding get_balance right_rotate left_rotate is_left_left is_right_right is_left_right
      is_right_left
  rebalance null = null
  rebalance (node l v r h s) =
      let balance = get_balance (node l v r h s) in
      if is_left_left balance l
      then right_rotate (node l v r h s)
      else if is_right_right balance r
      then left_rotate (node l v r h s)
      else if is_left_right balance l
      then right_rotate (node (left_rotate l) v r h s)
      else if is_right_left balance r
      then left_rotate (node l v (right_rotate r) h s)
      else node l v r h s

  -- `while (successor->left != nullptr) successor = successor->left`, from a node with the left
  -- child `l` and the value `v`.
  unfoldable pub leftmost : Tree A → A → A
  leftmost null v = v
  leftmost (node ll lv lr lh ls) v = leftmost ll lv

  -- `result->recompute_height(); result->recompute_subtree_size(); return _rebalance(result)`
  unfoldable pub settle : Tree A → Tree A
  unfolding recompute rebalance
  settle null = null
  settle (node l v r h s) = rebalance (recompute l v r)

  -- The `else` branch of `_erase`, at a node whose value goes: `succ` is the leftmost value of the
  -- right child, and `rest` that child without it.
  unfoldable pub erase_root : Tree A → Tree A → A → Tree A → ℕ → ℕ → Tree A
  unfolding settle
  erase_root null null succ rest h s = null
  erase_root null (node rl rv rr rh rs) succ rest h s = settle (node rl rv rr rh rs)
  erase_root (node ll lv lr lh ls) null succ rest h s = settle (node ll lv lr lh ls)
  erase_root (node ll lv lr lh ls) (node rl rv rr rh rs) succ rest h s =
      settle (node (node ll lv lr lh ls) succ rest h s)

module _ {ℓ} {A : Type ℓ} ⦃o : Order A⦄ where
  -- `_insert`; `value > root->value` is `root->value < value`
  unfoldable pub insert_node : Tree A → A → Tree A
  unfolding new_node recompute rebalance
  insert_node null x = new_node x
  insert_node (node l v r h s) x = elim (o.less x v) [
    | true ↦ rebalance (recompute (insert_node l x) v r)
    | false ↦ elim (o.less v x) [
      | true ↦ rebalance (recompute l v (insert_node r x))
      | false ↦ node l v r h s
    ]
  ]

  -- `_erase`
  unfoldable pub erase_node : Tree A → A → Tree A
  unfolding erase_root leftmost
  erase_node null x = null
  erase_node (node l v r h s) x = elim (o.less x v) [
    | true ↦ settle (node (erase_node l x) v r h s)
    | false ↦ elim (o.less v x) [
      | true ↦ settle (node l v (erase_node r x) h s)
      | false ↦
          let succ = leftmost r v in let rest = erase_node r succ in erase_root l r succ rest h s
    ]
  ]

  -- `_rank`
  unfoldable pub rank_node : Tree A → A → ℕ
  unfolding size_of
  rank_node null x = 0
  rank_node (node l v r h s) x = elim (o.less x v) [
    | true ↦ rank_node l x
    | false ↦ elim (o.less v x) [ true ↦ size_of l + 1 + rank_node r x | false ↦ size_of l ]
  ]

-- `AVLTree`
pub record AvlTree {ℓ} (A : Type ℓ) : Type ℓ where
  pub root : Tree A

unfoldable pub empty {ℓ} : {A : Type ℓ} → AvlTree A
empty = record { root = null }

module _ {ℓ} {A : Type ℓ} ⦃o : Order A⦄ where
  -- `insert`, with whether the size has grown
  unfoldable pub insert : AvlTree A → A → AvlTree A × Bool
  unfolding insert_node size_of
  insert t x =
      let after = insert_node t.root x in
      (record { root = after }, ltb (size_of t.root) (size_of after))

  -- `erase`, with whether the size has shrunk
  unfoldable pub erase : AvlTree A → A → AvlTree A × Bool
  unfolding erase_node size_of
  erase t x =
      let after = erase_node t.root x in
      (record { root = after }, ltb (size_of after) (size_of t.root))

  -- `rank`
  unfoldable pub rank : AvlTree A → A → ℕ
  unfolding rank_node
  rank t x = rank_node t.root x
