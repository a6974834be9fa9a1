-- ===== src/Tests/Sets.antt =====
-- Sorted sets of src/cpp/cache/sorted_sets/sorted_set.cpp, of numbers with numbers for scores.
use chrono_cache.Shared.{
  ℕ, ◌^◌, ◌<◌, ◌≡◌, refl, Bool, true, false, Option, none, some, arith, ltb, ◌==◌,
}
use chrono_cache.Shared.Run.{Run, ok, Returns, ◌>>=◌}
use chrono_cache.SortedList
use chrono_cache.SortedList.{Order, IsStrict}
use chrono_cache.Avl.{empty, insert}
use chrono_cache.Avl.Laws.{empty-IsValid, insert-Refines, values}
use chrono_cache.KvStore.Store.{Store, new_store}
use chrono_cache.KvStore.Store.Invariant.{view}
use chrono_cache.KvStore.Store.Methods.{Writes, set_value-Writes}
use chrono_cache.KvStore.Store.Blank.{new_store-IsValid}
use chrono_cache.SortedSets.{
  Score, pair_order, SortedSet, zadd, zscore, zrem, zrank, zadd_set, zrem_set, zrank_set,
}
use chrono_cache.SortedSets.Laws.{
  IsSound, Added, zadd_set-Added, Removed, zrem_set-Removed, zrank_set-rank,
}
use chrono_cache.Tests.Stores.{
  nat_key, three_quarters, two-is_power_of_2, blank_store, blank_store-IsValid,
}

instance abbrev nat_members : Order ℕ
nat_members = record { less = ltb }

instance abbrev nat_scores : Score ℕ
nat_scores = record { same = λ a b. a == b; below = ltb }

program : Unit {0}
unfolding new_store zadd zscore zrem zrank
program = tt

-- Three members, of which one moves up and one goes.
abbrev session : Run (Bool × Bool × Option ℕ × Option ℕ × Option ℕ)
session = do
  s₀ ← new_store {K = ℕ} {V = SortedSet ℕ ℕ} 16 three_quarters
  r₁ ← zadd 1 30 7 s₀
  r₂ ← zadd 1 20 8 r₁.1
  r₃ ← zadd 1 10 9 r₂.1
  r₄ ← zadd 1 40 9 r₃.1
  r₅ ← zrem 1 8 r₄.1
  score ← zscore 1 9 r₅.1
  last ← zrank 1 9 r₅.1
  gone ← zrank 1 8 r₅.1
  ok (r₁.0, r₄.0, score, last, gone)

session_prints : session ≡ ok (true, false, some 40, some 1, none)
unfolding program
session_prints = refl

pair-IsStrict : IsStrict (pair_order {M = ℕ} {S = ℕ})
pair-IsStrict = record {
  irrefl = λ a. ground arith;
  trans = λ a b c h g. ground arith;
  connected = λ a b h g.
      let same_member : a.member ≡ b.member = ground arith in
      let same_score : a.score ≡ b.score = ground arith in
      λ i. record { member = same_member i; score = same_score i };
}

-- A set with the member 7 of the score 10.
abbrev scores_of_one : Store ℕ ℕ
scores_of_one = (set_value-Writes blank_store-IsValid 7 10).0

scores_of_one-Writes : Writes blank_store 7 (some 10) scores_of_one
scores_of_one-Writes = (set_value-Writes blank_store-IsValid 7 10).2

abbrev one_member : SortedSet ℕ ℕ
one_member = record {
  tree = (insert empty (record { member = 7; score = 10 })).0;
  member_score = scores_of_one;
}

one_member-IsSound : IsSound one_member
one_member-IsSound = record {
  scored = scores_of_one-Writes.valid;
  ordered =
      (insert-Refines pair-IsStrict empty (record { member = 7; score = 10 }) empty-IsValid).0;
}

roomy : scores_of_one.capacity < 2 ^ 30
roomy = omega (
  arith,
  scores_of_one-Writes.capacity,
  (new_store-IsValid {V = ℕ} ⦃key = nat_key⦄ 2 three_quarters two-is_power_of_2 (omega arith)).2.2,
)

zadd_set-Added_example : Returns (zadd_set 20 7 one_member) (Added 20 7 one_member)
zadd_set-Added_example = zadd_set-Added pair-IsStrict one_member-IsSound 7 20 roomy

zrank_set-rank_example :
    zrank_set 7 one_member
    ≡ ok (elim (view one_member.member_score 7) [
      | none ↦ none
      | some score ↦
          some (SortedList.rank (record { member = 7; score = score }) (values one_member.tree))
    ])
zrank_set-rank_example = zrank_set-rank pair-IsStrict one_member-IsSound 7

zrem_set-Removed_example : Returns (zrem_set 7 one_member) (Removed 7 one_member)
zrem_set-Removed_example = zrem_set-Removed pair-IsStrict one_member-IsSound 7
