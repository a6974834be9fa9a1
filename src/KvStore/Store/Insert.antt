-- ===== src/KvStore/Store/Insert.antt =====
-- `insert_into_bucket` of src/cpp/cache/kv_store/store.h on a valid store: the node at the end of
-- its bucket.
use mathlib.Core.Option.{or_else}
use chrono_cache.Shared.{
  ℕ, ◌+◌, ◌*◌, ◌<◌, ◌≡◌, refl, ap, ◌∙◌, sym, subst, true, false, none, some, [], ◌∷◌, ◌++◌,
  append_assoc, arith, length, length-set, get_or-set, set, tally, tally-append, if◌then◌else◌,
  length-append,
}
use chrono_cache.Shared.Run.{ok, Returns, at-get_or}
use chrono_cache.KvStore.Key.{Key, ◌≈◌}
use chrono_cache.KvStore.Chain.{Node, Chain, set_next}
use chrono_cache.KvStore.Chain.Laws.{
  addr_hit, last_or, last_split, last_or-append, set_next-split, AreDistinct, AreDistinct-split,
}
use chrono_cache.KvStore.Chain.Search.{key_hit, read_at_absent, read_at-append}
use chrono_cache.KvStore.Metrics.{new_element_event}
use chrono_cache.KvStore.Store.{Store, collect, link_tail, is_empty, insert_into_bucket}
use chrono_cache.KvStore.Store.Invariant.{
  home, bucket, view_by, view, addresses, IsValid, home-lt, capacity_pos, bucket-AreDistinct,
  Replaces, Replaces-IsValid, view_replaced, tally-collect-set, tally-get_or-le, stale,
}

module _ {ℓ κ} {K : Type ℓ} {V : Type κ} where
  -- The right tail pointer hangs the node behind the whole chain.
  link_tail_lem :
      (node : Node K V) (c : Chain K V)
      → AreDistinct c
      → link_tail node (last_or none c) c ≡ ok (c ++ node ∷ [])
  unfolding link_tail
  link_tail_lem node [] d = refl
  link_tail_lem node (h ∷ c) d =
      let (xs, m, e, l) = last_split h c none in
      let (alone, _) = AreDistinct-split xs m [] (subst AreDistinct e d) in
      ap (λ t. link_tail node t (h ∷ c)) l
      ∙ ap (set_next m.addr (node ∷ [])) e
      ∙ set_next-split xs m [] (node ∷ []) alone
      ∙ ap ok (sym (append_assoc xs (m ∷ []) (node ∷ [])))
      ∙ ap (λ ys. ok (ys ++ node ∷ [])) (sym e)

module _ {ℓ κ} {K : Type ℓ} {V : Type κ} ⦃key : Key K⦄ where
  -- The store with the node at the end of its bucket.
  abbrev inserted : Store K V → Node K V → Store K V
  inserted s node =
      let i = home s.capacity node.key in
      let c = bucket s i in
      record s {
        metrics = new_element_event (if is_empty c then false else true) (length c + 1) s.metrics;
        bucket_heads = set s.bucket_heads i (c ++ node ∷ []);
        bucket_tails = set s.bucket_tails i (some node.addr);
        bucket_chain_lengths = set s.bucket_chain_lengths i (length c + 1);
      }

  insert_into_bucket_runs :
      {s : Store K V} (node : Node K V)
      → IsValid s
      → insert_into_bucket (home s.capacity node.key) node s ≡ ok (inserted s node)
  unfolding insert_into_bucket
  insert_into_bucket_runs {s} node valid =
      let i = home s.capacity node.key in
      let inside = home-lt valid node.key in
      rw (
        at-get_or s.bucket_heads i [] (rw valid.wide_heads inside),
        at-get_or s.bucket_tails i none (rw valid.wide_tails inside),
        valid.tails i inside,
        link_tail_lem node (bucket s i) (bucket-AreDistinct valid i),
        at-get_or s.bucket_chain_lengths i 0 (rw valid.wide_lengths inside),
        valid.lengths i inside,
      )

  -- What a new node must bring: its key's hash, a key that is not stored, an address not in use.
  pub record IsNew (s : Store K V) (node : Node K V) : Type 0 where
    pub hashed : node.hashed_key ≡ key.hash node.key
    pub absent : tally (key_hit node.key) (bucket s (home s.capacity node.key)) ≡ 0
    pub unused : tally (addr_hit node.addr) (collect s.bucket_heads) ≡ 0
    pub allocated : node.addr < s.next_addr

  module _ {s : Store K V} (node : Node K V) (valid : IsValid s) (new : IsNew s node) where
    inserted-Replaces :
        Replaces s node.key
          (bucket s (home s.capacity node.key) ++ node ∷ [])
          (inserted s node).bucket_tails
          (inserted s node).bucket_chain_lengths
          (inserted s node).metrics
          s.next_addr
    unfolding new_element_event
    inserted-Replaces =
        let i = home s.capacity node.key in
        let o = bucket s i in
        let inside = home-lt valid node.key in
        let inside_heads : i < length s.bucket_heads = rw valid.wide_heads inside in
        let inside_tails : i < length s.bucket_tails = rw valid.wide_tails inside in
        let inside_lens : i < length s.bucket_chain_lengths = rw valid.wide_lengths inside in
        record {
          wide_tails = length-set s.bucket_tails i (some node.addr) ∙ valid.wide_tails;
          wide_lengths = length-set s.bucket_chain_lengths i (length o + 1) ∙ valid.wide_lengths;
          tail =
              rw
                (
                  last_or-append none o (node ∷ []),
                  get_or-set s.bucket_tails i i (some node.addr) none inside_tails,
                )
                (ground arith);
          other_tails = λ j n.
              rw (get_or-set s.bucket_tails i j (some node.addr) none inside_tails) (ground arith);
          len =
              rw
                (
                  length-append o (node ∷ []),
                  get_or-set s.bucket_chain_lengths i i (length o + 1) 0 inside_lens,
                )
                (ground arith);
          other_lens = λ j n.
              rw (get_or-set s.bucket_chain_lengths i j (length o + 1) 0 inside_lens)
                (ground arith);
          once = λ q. ground (
            arith,
            tally-append (key_hit q) o (node ∷ []),
            valid.placed q i,
            new.absent,
            (key.equal_iff node.key q).0,
          );
          apart = λ q n. ground (
            arith,
            tally-append (key_hit q) o (node ∷ []),
            (valid.placed q i).1 n,
            (key.equal_iff node.key q).0,
          );
          hashed = ground (
            arith,
            tally-append stale o (node ∷ []),
            tally-get_or-le stale s.bucket_heads i,
            valid.hashed,
            new.hashed,
          );
          distinct = λ a. ground (
            arith,
            tally-collect-set (addr_hit a) s.bucket_heads i (o ++ node ∷ []) inside_heads,
            tally-append (addr_hit a) o (node ∷ []),
            valid.distinct a,
            new.unused,
          );
          fresh = λ a h. ground (
            arith,
            tally-collect-set (addr_hit a) s.bucket_heads i (o ++ node ∷ []) inside_heads,
            tally-append (addr_hit a) o (node ∷ []),
            valid.fresh a h,
            new.allocated,
          );
          buckets_counted = valid.buckets_counted;
          counted = omega (arith, length-append o (node ∷ []));
          load = ap (λ b. (s.metrics.num_entries + 1) * b) (sym valid.buckets_counted);
          load_den = rw valid.buckets_counted (capacity_pos valid);
          longest = ground (arith, length-append o (node ∷ []));
          longest_kept = ground arith;
        }

    inserted_reads {μ} :
        {B : Type μ} (f : Node K V → B) (q : K)
        → view_by f (inserted s node) q ≡ (if node.key ≈ q then some (f node) else view_by f s q)
    unfolding view_by or_else
    inserted_reads f q =
        let o = bucket s (home s.capacity node.key) in
        view_replaced f valid node.key (o ++ node ∷ []) (some (f node))
          (λ p.
            rw (read_at-append f p o (node ∷ [])) (
              ground
                (arith, new.absent, read_at_absent f node.key o, (key.equal_iff node.key p).0)))
          q

  -- What `insert_into_bucket` does on a valid store.
  pub record Inserted (s : Store K V) (node : Node K V) (s' : Store K V) : Type (ℓ ⊔ κ) where
    pub valid : IsValid s'
    pub reads : (q : K) → view s' q ≡ (if node.key ≈ q then some node.value else view s q)
    pub addrs : (q : K) → addresses s' q ≡ (if node.key ≈ q then some node.addr else addresses s q)
    pub adds :
        (f : Node K V → ℕ)
        → tally f (collect s'.bucket_heads) ≡ tally f (collect s.bucket_heads) + f node
    pub capacity : s'.capacity ≡ s.capacity
    pub threshold : s'.load_factor_threshold ≡ s.load_factor_threshold
    pub next : s'.next_addr ≡ s.next_addr

  pub insert_into_bucket-Inserted :
      {s : Store K V} (node : Node K V)
      → IsValid s
      → IsNew s node
      → Returns (insert_into_bucket (home s.capacity node.key) node s) (Inserted s node)
  insert_into_bucket-Inserted {s} node valid new =
      let i = home s.capacity node.key in
      let o = bucket s i in
      (
        inserted s node,
        insert_into_bucket_runs node valid,
        record {
          valid = Replaces-IsValid valid node.key (inserted-Replaces node valid new);
          reads = inserted_reads node valid new (λ n. n.value);
          addrs = inserted_reads node valid new (λ n. n.addr);
          adds = λ f. omega (
            arith,
            tally-collect-set f s.bucket_heads i (o ++ node ∷ [])
                (rw valid.wide_heads (home-lt valid node.key)),
            tally-append f o (node ∷ []),
          );
          capacity = refl;
          threshold = refl;
          next = refl;
        },
      )
