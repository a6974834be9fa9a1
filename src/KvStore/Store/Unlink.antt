-- ===== src/KvStore/Store/Unlink.antt =====
-- Writes through a pointer and `unlink_from_bucket_chain` of src/cpp/cache/kv_store/store.h: on a
-- valid store they return, and the node that the search stopped at is written or gone.
use chrono_cache.Shared.{
  ℕ, ◌+◌, ◌-◌, ◌*◌, ◌≤◌, ◌<◌, ◌≡◌, ◌≢◌, refl, ap, ◌∙◌, sym, subst, true, Option, none, some, List,
  [], ◌∷◌, ◌++◌, append_assoc, arith, length, length-set, get_or, get_or-set, set, if◌then◌else◌,
  Bool-cases, inl, inr,
}
use chrono_cache.Shared.Run.{ok, at-get_or}
use chrono_cache.KvStore.Key.{Key, ◌≈◌}
use chrono_cache.KvStore.Chain.{Node, Chain, set_next, next_in_bucket, write_value}
use chrono_cache.KvStore.Chain.Laws.{
  addr_hit, last_or, last_split, last_or-append, next_in_bucket-split, set_next-split,
  write_value-split, AreDistinct, AreDistinct-split,
}
use chrono_cache.KvStore.Chain.Search.{
  key_hit, Stops, tally_unlinked, tally_written, read_at_unlinked, read_at_written,
}
use chrono_cache.KvStore.Metrics.{remove_element_event}
use chrono_cache.KvStore.Store.{Store, collect, is_empty, skip_node, write_ptr, remove_in}
use chrono_cache.KvStore.Store.Invariant.{
  home, bucket, view_by, IsValid, home-lt, capacity_pos, bucket-AreDistinct, Replaces-IsValid,
  view_replaced, tally-collect-set, tally-get_or-le, stale, length-tally,
}

module _ {ℓ κ} {K : Type ℓ} {V : Type κ} where
  -- The pointers around a node skip it.
  skip_node_lem :
      (front : Chain K V) (n : Node K V) (rest : Chain K V)
      → AreDistinct (front ++ n ∷ rest)
      → skip_node (last_or none front) rest (front ++ n ∷ rest) ≡ ok (front ++ rest)
  unfolding skip_node
  skip_node_lem [] n rest d = refl
  skip_node_lem (h ∷ c) n rest d =
      let (xs, m, e, l) = last_split h c none in
      let whole : (h ∷ c) ++ n ∷ rest ≡ xs ++ m ∷ n ∷ rest =
        ap (λ ys. ys ++ n ∷ rest) e ∙ append_assoc xs (m ∷ []) (n ∷ rest) in
      let (alone, _) = AreDistinct-split xs m (n ∷ rest) (subst AreDistinct whole d) in
      ap (λ t. skip_node t rest ((h ∷ c) ++ n ∷ rest)) l
      ∙ ap (set_next m.addr rest) whole
      ∙ set_next-split xs m (n ∷ rest) rest alone
      ∙ ap ok (sym (append_assoc xs (m ∷ []) rest) ∙ ap (λ ys. ys ++ rest) (sym e))

module _ {ℓ κ} {K : Type ℓ} {V : Type κ} (rest : Chain K V) (ts : List (Option ℕ)) (i : ℕ)
    (p : Option ℕ) where
  -- The tail moves back exactly where the last node goes.
  abbrev moved_tail : List (Option ℕ)
  moved_tail = if is_empty rest then set ts i p else ts

  length-moved_tail : length moved_tail ≡ length ts
  length-moved_tail = elim (Bool-cases (is_empty rest)) [
    | inl e ↦ rw e (length-set ts i p)
    | inr e ↦ rw e
  ]

  get_or-moved_tail_ne :
      (j : ℕ) → i < length ts → i ≢ j → get_or moved_tail j none ≡ get_or ts j none
  get_or-moved_tail_ne j h m = elim (Bool-cases (is_empty rest)) [
    | inl e ↦ rw (e, get_or-set ts i j p none h) (ground arith)
    | inr e ↦ rw e
  ]

get_or-moved_tail {ℓ κ} :
    {K : Type ℓ} {V : Type κ} (n : Node K V) (rest : Chain K V) (ts : List (Option ℕ)) (i : ℕ)
    (p : Option ℕ)
    → i < length ts
    → get_or ts i none ≡ last_or p (n ∷ rest)
    → get_or (moved_tail rest ts i p) i none ≡ last_or p rest
unfolding is_empty
get_or-moved_tail n [] ts i p h e = rw (get_or-set ts i i p none h) (ground arith)
get_or-moved_tail n (m ∷ rest) ts i p h e = e

module _ {ℓ κ} {K : Type ℓ} {V : Type κ} ⦃key : Key K⦄ where
  module _ {s : Store K V} (valid : IsValid s) (k : K) (n : Node K V)
      (stop : Stops k (bucket s (home s.capacity k)) n) where
    -- The store after `*ptr = v`.
    abbrev pub written : V → Store K V
    written v = record s {
      bucket_heads =
          set s.bucket_heads (home s.capacity k) (stop.front ++ record n { value = v } ∷ stop.rest);
    }

    pub write_ptr_runs : (v : V) → write_ptr s k n.addr v ≡ ok (written v)
    unfolding write_ptr
    write_ptr_runs v =
        let i = home s.capacity k in
        let distinct = subst AreDistinct stop.split (bucket-AreDistinct valid i) in
        let (before, behind) = AreDistinct-split stop.front n stop.rest distinct in
        rw (at-get_or s.bucket_heads i [] (rw valid.wide_heads (home-lt valid k))) (
          ap (λ c. ok (record s { bucket_heads = set s.bucket_heads i c }))
            (ap (write_value n.addr v) stop.split
              ∙ write_value-split stop.front n stop.rest v before behind))

    pub written-IsValid : (v : V) → IsValid (written v)
    written-IsValid v =
        let i = home s.capacity k in
        let o = bucket s i in
        let c = stop.front ++ record n { value = v } ∷ stop.rest in
        let inside = home-lt valid k in
        let inside_heads : i < length s.bucket_heads = rw valid.wide_heads inside in
        let same = tally_written k o n stop (record n { value = v }) in
        let width : length c ≡ length o =
          omega (arith, length-tally c, length-tally o, same (λ _. 1) refl) in
        Replaces-IsValid valid k {c = c} {m = s.metrics} (record {
          wide_tails = valid.wide_tails;
          wide_lengths = valid.wide_lengths;
          tail =
              valid.tails i inside
              ∙ ap (last_or none) stop.split
              ∙ last_or-append none stop.front (n ∷ stop.rest)
              ∙ sym (last_or-append none stop.front (record n { value = v } ∷ stop.rest));
          other_tails = λ j _. refl;
          len = valid.lengths i inside ∙ sym width;
          other_lens = λ j _. refl;
          once = λ q. rw (same (key_hit q) refl) (valid.placed q i).0;
          apart = λ q a. rw (same (key_hit q) refl) ((valid.placed q i).1 a);
          hashed =
              rw (same stale refl)
                (omega (arith, tally-get_or-le stale s.bucket_heads i, valid.hashed));
          distinct = λ a. omega (
            arith,
            tally-collect-set (addr_hit a) s.bucket_heads i c inside_heads,
            same (addr_hit a) refl,
            valid.distinct a,
          );
          fresh = λ a h. omega (
            arith,
            tally-collect-set (addr_hit a) s.bucket_heads i c inside_heads,
            same (addr_hit a) refl,
            valid.fresh a h,
          );
          buckets_counted = valid.buckets_counted;
          counted = omega arith;
          load = valid.load;
          load_den = valid.load_den;
          longest = omega (arith, valid.longest i);
          longest_kept = omega arith;
        })

    pub written_reads {μ} :
        {B : Type μ} (f : Node K V → B) (v : V) (q : K)
        → view_by f (written v) q
          ≡ (if k ≈ q then some (f (record n { value = v })) else view_by f s q)
    unfolding view_by
    written_reads f v q =
        view_replaced f valid k _ (some (f (record n { value = v })))
          (λ p.
            read_at_written k (bucket s (home s.capacity k)) n stop f p (record n { value = v })
              refl)
          q

    -- The store after the node is unlinked and the metrics are told.
    abbrev pub removed : Store K V
    removed =
        let i = home s.capacity k in
        record s {
          metrics = remove_element_event s.metrics;
          bucket_heads = set s.bucket_heads i (stop.front ++ stop.rest);
          bucket_tails =
              if is_empty stop.rest
              then set s.bucket_tails i (last_or none stop.front)
              else s.bucket_tails;
          bucket_chain_lengths = set s.bucket_chain_lengths i (length (bucket s i) - 1);
        }

    pub remove_in_runs :
        remove_in s (home s.capacity k) (some (last_or none stop.front, n)) ≡ ok (true, removed)
    unfolding remove_in
    remove_in_runs =
        let i = home s.capacity k in
        let inside = home-lt valid k in
        let distinct = subst AreDistinct stop.split (bucket-AreDistinct valid i) in
        let (before, _) = AreDistinct-split stop.front n stop.rest distinct in
        rw (
          at-get_or s.bucket_heads i [] (rw valid.wide_heads inside),
          ap (next_in_bucket n.addr) stop.split
              ∙ next_in_bucket-split stop.front n stop.rest before,
          ap (skip_node (last_or none stop.front) stop.rest) stop.split
              ∙ skip_node_lem stop.front n stop.rest distinct,
          at-get_or s.bucket_chain_lengths i 0 (rw valid.wide_lengths inside),
          valid.lengths i inside,
        )

    pub removed-IsValid : IsValid removed
    unfolding remove_element_event
    removed-IsValid =
        let i = home s.capacity k in
        let o = bucket s i in
        let c = stop.front ++ stop.rest in
        let inside = home-lt valid k in
        let inside_heads : i < length s.bucket_heads = rw valid.wide_heads inside in
        let inside_tails : i < length s.bucket_tails = rw valid.wide_tails inside in
        let inside_lens : i < length s.bucket_chain_lengths = rw valid.wide_lengths inside in
        let fewer = tally_unlinked k o n stop in
        let width : length c + 1 ≡ length o =
          omega (arith, length-tally c, length-tally o, fewer (λ _. 1)) in
        let filled : length o ≤ s.metrics.num_entries = omega (
          arith,
          valid.counted,
          length-tally o,
          length-tally (collect s.bucket_heads),
          tally-get_or-le (λ _. 1) s.bucket_heads i,
        ) in
        Replaces-IsValid valid k {c = c} (record {
          wide_tails =
              length-moved_tail stop.rest s.bucket_tails i (last_or none stop.front)
              ∙ valid.wide_tails;
          wide_lengths = length-set s.bucket_chain_lengths i (length o - 1) ∙ valid.wide_lengths;
          tail =
              get_or-moved_tail n stop.rest s.bucket_tails i (last_or none stop.front) inside_tails
                (valid.tails i inside
                  ∙ ap (last_or none) stop.split
                  ∙ last_or-append none stop.front (n ∷ stop.rest))
              ∙ sym (last_or-append none stop.front stop.rest);
          other_tails = λ j m.
              get_or-moved_tail_ne stop.rest s.bucket_tails i (last_or none stop.front) j
                inside_tails m;
          len =
              rw (get_or-set s.bucket_chain_lengths i i (length o - 1) 0 inside_lens)
                (ground arith);
          other_lens = λ j m.
              rw (get_or-set s.bucket_chain_lengths i j (length o - 1) 0 inside_lens)
                (ground arith);
          once = λ q. omega (arith, fewer (key_hit q), (valid.placed q i).0);
          apart = λ q a. omega (arith, fewer (key_hit q), (valid.placed q i).1 a);
          hashed = omega (arith, fewer stale, tally-get_or-le stale s.bucket_heads i, valid.hashed);
          distinct = λ a. omega (
            arith,
            tally-collect-set (addr_hit a) s.bucket_heads i c inside_heads,
            fewer (addr_hit a),
            valid.distinct a,
          );
          fresh = λ a h. omega (
            arith,
            tally-collect-set (addr_hit a) s.bucket_heads i c inside_heads,
            fewer (addr_hit a),
            valid.fresh a h,
          );
          buckets_counted = valid.buckets_counted;
          counted = omega arith;
          load = ap (λ b. (s.metrics.num_entries - 1) * b) (sym valid.buckets_counted);
          load_den = rw valid.buckets_counted (capacity_pos valid);
          longest = omega (arith, valid.longest i);
          longest_kept = omega arith;
        })

    pub removed_reads {μ} :
        {B : Type μ} (f : Node K V → B) (q : K)
        → view_by f removed q ≡ (if k ≈ q then none else view_by f s q)
    unfolding view_by
    removed_reads f q =
        view_replaced f valid k _ none
          (λ p.
            read_at_unlinked k (bucket s (home s.capacity k)) n stop f p
              (valid.placed p (home s.capacity k)).0)
          q
