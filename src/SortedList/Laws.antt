-- ===== src/SortedList/Laws.antt =====
-- Laws of sorted lists: splitting at an element, and what `insert`, `remove`, `rank` and `contains`
-- do on the two halves of a split list.
use chrono_cache.Shared.{◌+◌, ◌≡◌, refl, false, List, [], ◌∷◌, ◌++◌, arith, length, if◌then◌else◌}
use chrono_cache.SortedList.{
  Order, IsStrict, ◌≺◌, AllBelow, AllAbove, IsSorted, insert, remove, rank, contains,
}

module _ {ℓ} {A : Type ℓ} ⦃o : Order A⦄ where
  pub AllBelow-append :
      (xs ys : List A) (b : A) → AllBelow xs b → AllBelow ys b → AllBelow (xs ++ ys) b
  AllBelow-append [] ys b h k = k
  AllBelow-append (x ∷ xs) ys b h k = (h.0, AllBelow-append xs ys b h.1 k)

  pub AllAbove-append :
      (xs ys : List A) (b : A) → AllAbove xs b → AllAbove ys b → AllAbove (xs ++ ys) b
  AllAbove-append [] ys b h k = k
  AllAbove-append (x ∷ xs) ys b h k = (h.0, AllAbove-append xs ys b h.1 k)

  pub AllAbove-split :
      (xs ys : List A) (b : A) → AllAbove (xs ++ ys) b → AllAbove xs b × AllAbove ys b
  AllAbove-split [] ys b h = (tt, h)
  AllAbove-split (x ∷ xs) ys b h = let (p, q) = AllAbove-split xs ys b h.1 in ((h.0, p), q)

  -- A sorted list that is split at `y`: the front is below `y`, the back above, both are sorted.
  pub IsSorted-split :
      (xs : List A) (y : A) (ys : List A)
      → IsSorted (xs ++ y ∷ ys)
      → AllBelow xs y × AllAbove ys y × IsSorted xs × IsSorted ys
  IsSorted-split [] y ys h = (tt, h.0, tt, h.1)
  IsSorted-split (x ∷ xs) y ys h =
      let (below, above, front, back) = IsSorted-split xs y ys h.1 in
      let (near, far) = AllAbove-split xs (y ∷ ys) x h.0 in
      ((far.0, below), above, (near, front), back)

module _ {ℓ} {A : Type ℓ} ⦃o : Order A⦄ (strict : IsStrict o) where
  pub asym : (a b : A) → a ≺ b → o.less b a ≡ false
  asym a b h = ground (arith, strict.trans a b a, strict.irrefl a)

  pub AllAbove-trans : (xs : List A) (a b : A) → a ≺ b → AllAbove xs b → AllAbove xs a
  AllAbove-trans [] a b h k = tt
  AllAbove-trans (x ∷ xs) a b h k = (strict.trans a b x h k.0, AllAbove-trans xs a b h k.1)

  pub AllBelow-trans : (xs : List A) (a b : A) → a ≺ b → AllBelow xs a → AllBelow xs b
  AllBelow-trans [] a b h k = tt
  AllBelow-trans (x ∷ xs) a b h k = (strict.trans x a b k.0 h, AllBelow-trans xs a b h k.1)

  pub IsSorted-join :
      (xs : List A) (y : A) (ys : List A)
      → AllBelow xs y
      → AllAbove ys y
      → IsSorted xs
      → IsSorted ys
      → IsSorted (xs ++ y ∷ ys)
  IsSorted-join [] y ys below above front back = (above, back)
  IsSorted-join (x ∷ xs) y ys below above front back = (
    AllAbove-append xs (y ∷ ys) x front.0 (below.0, AllAbove-trans ys x y below.0 above),
    IsSorted-join xs y ys below.1 above front.1 back,
  )

  module _ (v : A) where
    -- Of a list above `v`.
    pub insert-AllAbove : (ys : List A) → AllAbove ys v → insert v ys ≡ v ∷ ys
    unfolding insert
    insert-AllAbove [] h = refl
    insert-AllAbove (y ∷ ys) h = ground arith

    pub remove-AllAbove : (ys : List A) → AllAbove ys v → remove v ys ≡ ys
    unfolding remove
    remove-AllAbove [] h = refl
    remove-AllAbove (y ∷ ys) h = ground (arith, remove-AllAbove ys)

    pub rank-AllAbove : (ys : List A) → AllAbove ys v → rank v ys ≡ 0
    unfolding rank
    rank-AllAbove [] h = refl
    rank-AllAbove (y ∷ ys) h = ground (arith, asym v y, rank-AllAbove ys)

    pub contains-AllAbove : (ys : List A) → AllAbove ys v → contains v ys ≡ false
    unfolding contains
    contains-AllAbove [] h = refl
    contains-AllAbove (y ∷ ys) h = ground (arith, contains-AllAbove ys)

    -- Behind a list below `v`.
    pub insert-AllBelow : (xs ys : List A) → AllBelow xs v → insert v (xs ++ ys) ≡ xs ++ insert v ys
    unfolding insert
    insert-AllBelow [] ys h = refl
    insert-AllBelow (x ∷ xs) ys h = ground (arith, asym x v, insert-AllBelow xs ys)

    pub remove-AllBelow : (xs ys : List A) → AllBelow xs v → remove v (xs ++ ys) ≡ xs ++ remove v ys
    unfolding remove
    remove-AllBelow [] ys h = refl
    remove-AllBelow (x ∷ xs) ys h = ground (arith, asym x v, remove-AllBelow xs ys)

    pub rank-AllBelow : (xs ys : List A) → AllBelow xs v → rank v (xs ++ ys) ≡ length xs + rank v ys
    unfolding rank
    rank-AllBelow [] ys h = omega arith
    rank-AllBelow (x ∷ xs) ys h = ground (arith, rank-AllBelow xs ys)

    pub contains-AllBelow : (xs ys : List A) → AllBelow xs v → contains v (xs ++ ys) ≡ contains v ys
    unfolding contains
    contains-AllBelow [] ys h = refl
    contains-AllBelow (x ∷ xs) ys h = ground (arith, asym x v, contains-AllBelow xs ys)

    -- In front of a list above `v`.
    pub insert-append_AllAbove :
        (xs : List A) (y : A) (ys : List A)
        → v ≺ y
        → insert v (xs ++ y ∷ ys) ≡ insert v xs ++ y ∷ ys
    unfolding insert
    insert-append_AllAbove [] y ys h = ground arith
    insert-append_AllAbove (x ∷ xs) y ys h = ground (arith, insert-append_AllAbove xs y ys)

    pub remove-append_AllAbove :
        (xs ys : List A) → AllAbove ys v → remove v (xs ++ ys) ≡ remove v xs ++ ys
    unfolding remove
    remove-append_AllAbove [] ys h = remove-AllAbove ys h
    remove-append_AllAbove (x ∷ xs) ys h = ground (arith, remove-append_AllAbove xs ys)

    pub rank-append_AllAbove : (xs ys : List A) → AllAbove ys v → rank v (xs ++ ys) ≡ rank v xs
    unfolding rank
    rank-append_AllAbove [] ys h = rank-AllAbove ys h
    rank-append_AllAbove (x ∷ xs) ys h = ground (arith, rank-append_AllAbove xs ys)

    pub contains-append_AllAbove :
        (xs ys : List A) → AllAbove ys v → contains v (xs ++ ys) ≡ contains v xs
    unfolding contains
    contains-append_AllAbove [] ys h = contains-AllAbove ys h
    contains-append_AllAbove (x ∷ xs) ys h = ground (arith, contains-append_AllAbove xs ys)

    pub AllAbove-insert : (xs : List A) (b : A) → b ≺ v → AllAbove xs b → AllAbove (insert v xs) b
    unfolding insert
    AllAbove-insert [] b h k = (h, tt)
    AllAbove-insert (x ∷ xs) b h k = ground (arith, AllAbove-insert xs b)

    pub AllAbove-remove : (xs : List A) (b : A) → AllAbove xs b → AllAbove (remove v xs) b
    unfolding remove
    AllAbove-remove [] b k = tt
    AllAbove-remove (x ∷ xs) b k = ground (arith, AllAbove-remove xs b)

    -- `insert` and `remove` keep a list sorted.
    pub insert-IsSorted : (xs : List A) → IsSorted xs → IsSorted (insert v xs)
    unfolding insert
    insert-IsSorted [] h = (tt, tt)
    insert-IsSorted (x ∷ xs) h =
        ground (arith, insert-IsSorted xs, AllAbove-insert xs x, AllAbove-trans xs v x)

    pub remove-IsSorted : (xs : List A) → IsSorted xs → IsSorted (remove v xs)
    unfolding remove
    remove-IsSorted [] h = tt
    remove-IsSorted (x ∷ xs) h = ground (arith, remove-IsSorted xs, AllAbove-remove xs x)

    pub length-insert :
        (xs : List A)
        → IsSorted xs
        → length (insert v xs) ≡ length xs + (if contains v xs then 0 else 1)
    unfolding insert contains
    length-insert [] h = refl
    length-insert (x ∷ xs) h =
        ground (arith, length-insert xs, contains-AllAbove xs, AllAbove-trans xs v x)

    pub length-remove :
        (xs : List A)
        → IsSorted xs
        → length (remove v xs) + (if contains v xs then 1 else 0) ≡ length xs
    unfolding remove contains
    length-remove [] h = refl
    length-remove (x ∷ xs) h =
        ground
          (arith, length-remove xs, strict.connected v x, contains-AllAbove xs, remove-AllAbove xs)
