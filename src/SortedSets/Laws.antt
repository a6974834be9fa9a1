-- ===== src/SortedSets/Laws.antt =====
-- What `zadd`, `zrem` and `zrank` of src/cpp/cache/sorted_sets/sorted_set.cpp do to one sorted set: to
-- the scores and to the values of its tree.
use chrono_cache.Shared.{
  ◌^◌, ◌<◌, ◌≡◌, refl, ap, sym, ◌∙◌, Bool, true, false, not, Option, none, some, List, Option-cases,
  Bool-cases, inl, inr, if◌then◌else◌,
}
use chrono_cache.Shared.Run.{ok, Returns}
use chrono_cache.SortedList
use chrono_cache.SortedList.{Order, IsStrict}
use chrono_cache.Avl
use chrono_cache.Avl.Laws
use chrono_cache.Avl.Laws.{values, insert-Refines, erase-Refines, rank-values}
use chrono_cache.KvStore.Key.{Key, ◌≈◌}
use chrono_cache.KvStore.Store.Invariant.{IsValid, view}
use chrono_cache.KvStore.Store.Methods.{is_some, get-view}
use chrono_cache.HashMap.Laws.{set_with-Stored, remove_with-Writes}
use chrono_cache.SortedSets.{
  Score, Pair, pair_order, SortedSet, set_score, zadd_found, zadd_set, zrem_found, zrem_set,
  rank_found, zrank_set,
}

-- The score that a member has after `zadd`: one that compares equal is kept.
abbrev pub score_after {μ} : {S : Type μ} ⦃scores : Score S⦄ → S → Option S → S
score_after ⦃scores⦄ score none = score
score_after ⦃scores⦄ score (some old) = if scores.same old score then old else score

module _ {ℓ μ} {M : Type ℓ} {S : Type μ} ⦃key : Key M⦄ ⦃members : Order M⦄ ⦃scores : Score S⦄ where
  -- A sorted set whose map and whose tree are valid.
  pub record IsSound (zset : SortedSet M S) : Type (ℓ ⊔ μ) where
    pub scored : IsValid zset.member_score
    pub ordered : Laws.IsValid zset.tree

  -- The values of the tree after `zadd`.
  abbrev pub values_after : S → M → List (Pair M S) → Option S → List (Pair M S)
  values_after score member xs none =
      SortedList.insert (record { member = member; score = score }) xs
  values_after score member xs (some old) =
      if scores.same old score
      then xs
      else SortedList.insert (record { member = member; score = score })
          (SortedList.remove (record { member = member; score = old }) xs)

  -- What `zadd` does to a sorted set.
  pub record Added (score : S) (member : M) (zset : SortedSet M S) (r : Bool × SortedSet M S)
      : Type (ℓ ⊔ μ) where
    pub is_new : r.0 ≡ not (is_some (view zset.member_score member))
    pub sound : IsSound r.1
    pub reads :
        (q : M)
        → view r.1.member_score q ≡ (
            if member ≈ q
            then some (score_after score (view zset.member_score member))
            else view zset.member_score q)
    pub tree :
        values r.1.tree
        ≡ values_after score member (values zset.tree) (view zset.member_score member)

  -- What `zrem` does to a sorted set.
  pub record Removed (member : M) (zset : SortedSet M S) (r : Bool × SortedSet M S)
      : Type (ℓ ⊔ μ) where
    pub was_there : r.0 ≡ is_some (view zset.member_score member)
    pub sound : IsSound r.1
    pub reads :
        (q : M) → view r.1.member_score q ≡ (if member ≈ q then none else view zset.member_score q)
    pub tree : values r.1.tree ≡ (elim (view zset.member_score member) [
      | none ↦ values zset.tree
      | some old ↦ SortedList.remove (record { member = member; score = old }) (values zset.tree)
    ])

  module _ (strict : IsStrict (pair_order {M = M} {S = S})) {zset : SortedSet M S}
      (sound : IsSound zset) (member : M) where
    -- For a strict order on the pairs, a set whose map and tree are valid, and a map of fewer
    -- than 2 ^ 30 buckets, `zadd` reports whether the member is new and leaves a set whose map
    -- and tree are valid, in which the member has the new score (the old one where it compares
    -- equal) and every other member its old score, and whose tree has the values that removal of
    -- the old pair and insertion of the new one give in the sorted list.
    pub zadd_set-Added :
        (score : S)
        → zset.member_score.capacity < 2 ^ 30
        → Returns (zadd_set score member zset) (Added score member zset)
    unfolding zadd_set zadd_found set_score
    zadd_set-Added score small =
        let found = get-view sound.scored member in
        let (s, run, (t, _)) =
          set_with-Stored sound.scored member small (λ (w : Unit {0}). ok w) score tt tt refl in
        let p : Pair M S = record { member = member; score = score } in
        elim (Option-cases (view zset.member_score member)) [
          | inl e ↦
              let (ordered, vals, _) = insert-Refines strict zset.tree p sound.ordered in
              (
                (true, record { tree = (Avl.insert zset.tree p).0; member_score = s.0 }),
                rw (found, e, run),
                record {
                  is_new = rw e;
                  sound = record { scored = t.valid; ordered = ordered };
                  reads = λ q. rw (e, t.reads q);
                  tree = rw (e, vals);
                },
              )
          | inr (old, e) ↦ elim (Bool-cases (scores.same old score)) [
            | inl same ↦ (
              (false, zset),
              rw (found, e, same),
              record {
                is_new = rw e;
                sound = sound;
                reads = λ q. elim (Bool-cases (member ≈ q)) [
                  | inl p ↦
                      rw (p, e, same)
                        (ap (view zset.member_score) (sym ((key.equal_iff member q).0 p)) ∙ e)
                  | inr p ↦ rw p
                ];
                tree = rw (e, same);
              },
            )
            | inr other ↦
                let gone : Pair M S = record { member = member; score = old } in
                let (ordered, vals, _) = erase-Refines strict zset.tree gone sound.ordered in
                let (ordered', vals', _) =
                  insert-Refines strict (Avl.erase zset.tree gone).0 p ordered in
                (
                  (
                    false,
                    record {
                      tree = (Avl.insert (Avl.erase zset.tree gone).0 p).0;
                      member_score = s.0;
                    },
                  ),
                  rw (found, e, other, run),
                  record {
                    is_new = rw e;
                    sound = record { scored = t.valid; ordered = ordered' };
                    reads = λ q. rw (e, other, t.reads q);
                    tree = rw (e, other, vals', vals);
                  },
                )
          ]
        ]

    -- For a strict order on the pairs and a set whose map and tree are valid, `zrem` reports
    -- whether the member has a score and leaves a set whose map and tree are valid, in which the
    -- member has none and every other member its score, and whose tree has lost the member's pair
    -- as removal from the sorted list loses it.
    pub zrem_set-Removed : Returns (zrem_set member zset) (Removed member zset)
    unfolding zrem_set zrem_found
    zrem_set-Removed =
        let found = get-view sound.scored member in
        elim (Option-cases (view zset.member_score member)) [
          | inl e ↦ (
            (false, zset),
            rw (found, e),
            record {
              was_there = rw e;
              sound = sound;
              reads = λ q. elim (Bool-cases (member ≈ q)) [
                | inl p ↦
                    rw p (ap (view zset.member_score) (sym ((key.equal_iff member q).0 p)) ∙ e)
                | inr p ↦ rw p
              ];
              tree = rw e;
            },
          )
          | inr (score, e) ↦
              let gone : Pair M S = record { member = member; score = score } in
              let (r, run, (_, w, _)) =
                remove_with-Writes sound.scored member (λ (w : Unit {0}). ok w) tt tt (λ _. refl)
                  (λ _. refl) in
              let (ordered, vals, _) = erase-Refines strict zset.tree gone sound.ordered in
              (
                (true, record { tree = (Avl.erase zset.tree gone).0; member_score = r.1 }),
                rw (found, e, run),
                record {
                  was_there = rw e;
                  sound = record { scored = w.valid; ordered = ordered };
                  reads = w.reads;
                  tree = rw (e, vals);
                },
              )
        ]

    -- For a strict order on the pairs and a set whose map and tree are valid, `zrank` answers
    -- none for a member without a score, and else the number of the tree's values that are below
    -- the pair of the member and its score.
    pub zrank_set-rank :
        zrank_set member zset
        ≡ ok (elim (view zset.member_score member) [
          | none ↦ none
          | some score ↦
              some (SortedList.rank (record { member = member; score = score }) (values zset.tree))
        ])
    unfolding zrank_set rank_found
    zrank_set-rank = elim (Option-cases (view zset.member_score member)) [
      | inl e ↦ rw (get-view sound.scored member, e)
      | inr (score, e) ↦ rw (
        get-view sound.scored member,
        e,
        rank-values strict zset.tree (record { member = member; score = score }) sound.ordered,
      )
    ]
