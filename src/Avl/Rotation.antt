-- ===== src/Avl/Rotation.antt =====
-- Which of the four rotations of `_rebalance` in src/cpp/cache/sorted_sets/tree.cpp is made, by the
-- heights of the children and of the higher child's own children.
use chrono_cache.Shared.{◌+◌, ◌≡◌, ◌≤◌, ◌<◌, ℕ, true, false, arith}
use chrono_cache.Shared.Int.{ℤ, sub_ℕ}
use chrono_cache.Avl.{
  Tree, node, height_above, rebalance, is_left_left, is_right_right, is_left_right, is_right_left,
  right_rotate, left_rotate,
}

module _ {ℓ} {A : Type ℓ} where
  -- Where the children differ by at most one, nothing is done.
  pub rebalance_even :
      (l : Tree A) (v : A) (r : Tree A) (h s : ℕ)
      → height_above l ≤ height_above r + 1
      → height_above r ≤ height_above l + 1
      → rebalance (node l v r h s) ≡ node l v r h s
  rebalance_even l v r h s p q = unfold rebalance in rw (ll, rr, lr, rl)
    where
      balance : ℤ
      balance = sub_ℕ (height_above l) (height_above r)

      ll : is_left_left balance l ≡ false
      ll = unfold is_left_left in ground arith

      rr : is_right_right balance r ≡ false
      rr = unfold is_right_right in ground arith

      lr : is_left_right balance l ≡ false
      lr = unfold is_left_right in ground arith

      rl : is_right_left balance r ≡ false
      rl = unfold is_right_left in ground arith

  -- The left child is higher by two: one rotation, or two where its right child is the higher.
  module _ (ll : Tree A) (lv : A) (lr : Tree A) (lh ls : ℕ) (v : A) (r : Tree A) (h s : ℕ) where
    pub rebalance_single_right :
        lh ≡ height_above r + 1
        → height_above lr ≤ height_above ll
        → rebalance (node (node ll lv lr lh ls) v r h s)
          ≡ right_rotate (node (node ll lv lr lh ls) v r h s)
    rebalance_single_right e p =
        let balance = sub_ℕ (height_above (node ll lv lr lh ls)) (height_above r) in
        let test : is_left_left balance (node ll lv lr lh ls) ≡ true =
          unfold is_left_left height_above in ground arith in
        unfold rebalance in rw test

    pub rebalance_double_right :
        lh ≡ height_above r + 1
        → height_above ll < height_above lr
        → rebalance (node (node ll lv lr lh ls) v r h s)
          ≡ right_rotate (node (left_rotate (node ll lv lr lh ls)) v r h s)
    rebalance_double_right e p =
        let l = node ll lv lr lh ls in
        let balance = sub_ℕ (height_above l) (height_above r) in
        let a : is_left_left balance l ≡ false = unfold is_left_left height_above in ground arith in
        let b : is_right_right balance r ≡ false =
          unfold is_right_right height_above in ground arith in
        let c : is_left_right balance l ≡ true =
          unfold is_left_right height_above in ground arith in
        unfold rebalance in rw (a, b, c)

  -- The right child is higher by two.
  module _ (l : Tree A) (v : A) (rl : Tree A) (rv : A) (rr : Tree A) (rh rs h s : ℕ) where
    pub rebalance_single_left :
        rh ≡ height_above l + 1
        → height_above rl ≤ height_above rr
        → rebalance (node l v (node rl rv rr rh rs) h s)
          ≡ left_rotate (node l v (node rl rv rr rh rs) h s)
    rebalance_single_left e p =
        let r = node rl rv rr rh rs in
        let balance = sub_ℕ (height_above l) (height_above r) in
        let a : is_left_left balance l ≡ false = unfold is_left_left height_above in ground arith in
        let b : is_right_right balance r ≡ true =
          unfold is_right_right height_above in ground arith in
        unfold rebalance in rw (a, b)

    pub rebalance_double_left :
        rh ≡ height_above l + 1
        → height_above rr < height_above rl
        → rebalance (node l v (node rl rv rr rh rs) h s)
          ≡ left_rotate (node l v (right_rotate (node rl rv rr rh rs)) h s)
    rebalance_double_left e p =
        let r = node rl rv rr rh rs in
        let balance = sub_ℕ (height_above l) (height_above r) in
        let a : is_left_left balance l ≡ false = unfold is_left_left height_above in ground arith in
        let b : is_right_right balance r ≡ false =
          unfold is_right_right height_above in ground arith in
        let c : is_left_right balance l ≡ false =
          unfold is_left_right height_above in ground arith in
        let d : is_right_left balance r ≡ true =
          unfold is_right_left height_above in ground arith in
        unfold rebalance in rw (a, b, c, d)
