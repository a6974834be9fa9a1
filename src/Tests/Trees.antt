-- ===== src/Tests/Trees.antt =====
-- The tree of src/cpp/cache/sorted_sets/tree.cpp on numbers.
use chrono_cache.Shared.{ℕ, ◌+◌, ◌^◌, ◌/◌, ◌≤◌, ◌≡◌, refl, not, List, [], ◌∷◌, arith, ltb, length}
use chrono_cache.SortedList
use chrono_cache.SortedList.{Order, IsStrict}
use chrono_cache.Avl.{AvlTree, null, node, empty, insert, erase, rank}
use chrono_cache.Avl.Laws.{
  IsValid, values, depth, empty-IsValid, insert-Refines, erase-Refines, rank-values, Change,
  inserted, erased, changed, members, depth-changed,
}

instance abbrev nat_order : Order ℕ
nat_order = record { less = ltb }

strict : IsStrict nat_order
strict = record {
  irrefl = λ a. ground arith;
  trans = λ a b c h g. ground arith;
  connected = λ a b h g. ground arith;
}

-- The values 1 to 5, inserted in ascending order.
abbrev ascending : AvlTree ℕ
ascending = (insert (insert (insert (insert (insert empty 1).0 2).0 3).0 4).0 5).0

-- Two rotations keep it flat.
ascending_shape :
    ascending.root
    ≡ node (node null 1 null 0 1) 2 (node (node null 3 null 0 1) 4 (node null 5 null 0 1) 1 3) 2 5
unfolding insert empty
ascending_shape = refl

rank-ascending : rank ascending 4 ≡ 3
unfolding insert empty rank
rank-ascending = refl

erase-ascending : values (erase ascending 2).0 ≡ 1 ∷ 3 ∷ 4 ∷ 5 ∷ []
unfolding insert empty erase
erase-ascending = refl

ascending-IsValid : IsValid ascending
ascending-IsValid =
    let one = insert-Refines strict empty 1 empty-IsValid in
    let two = insert-Refines strict (insert empty 1).0 2 one.0 in
    let three = insert-Refines strict (insert (insert empty 1).0 2).0 3 two.0 in
    let four = insert-Refines strict (insert (insert (insert empty 1).0 2).0 3).0 4 three.0 in
    (insert-Refines strict (insert (insert (insert (insert empty 1).0 2).0 3).0 4).0 5 four.0).0

insert-Refines_example :
    IsValid (insert ascending 0).0
    × (values (insert ascending 0).0 ≡ SortedList.insert 0 (values ascending))
    × ((insert ascending 0).1 ≡ not (SortedList.contains 0 (values ascending)))
insert-Refines_example = insert-Refines strict ascending 0 ascending-IsValid

erase-Refines_example :
    IsValid (erase ascending 2).0
    × (values (erase ascending 2).0 ≡ SortedList.remove 2 (values ascending))
    × ((erase ascending 2).1 ≡ SortedList.contains 2 (values ascending))
erase-Refines_example = erase-Refines strict ascending 2 ascending-IsValid

rank-values_example : rank ascending 4 ≡ SortedList.rank 4 (values ascending)
rank-values_example = rank-values strict ascending 4 ascending-IsValid

abbrev some_changes : List (Change ℕ)
some_changes =
    inserted 1 ∷ inserted 2 ∷ inserted 3 ∷ inserted 4 ∷ erased 2 ∷ inserted 5 ∷ inserted 4 ∷ []

depth-changed_example :
    2 ^ (depth (changed empty some_changes).root / 2) ≤ length (members [] some_changes) + 1
depth-changed_example = depth-changed strict some_changes
