-- ===== src/KvStore/Store/Methods.antt =====
-- The public methods of `KVStore` (src/cpp/cache/kv_store/store.h) on a valid store, and how they
-- act on the abstract map.
use chrono_cache.Shared.{
  ℕ, ◌<◌, ◌+◌, ◌≡◌, refl, ap, ◌∙◌, sym, Bool, true, false, Option, none, some, [], arith, length,
  if◌then◌else◌, Bool-cases, Option-cases, inl, inr,
}
use chrono_cache.Shared.Run.{ok, Returns, at-get_or}
use chrono_cache.KvStore.Key.{Key, ◌≈◌}
use chrono_cache.KvStore.Chain.{Node, new_node, find}
use chrono_cache.KvStore.Chain.Search.{
  read_at-find, read_at_absent, find-Stops, find_absent, find_with_prev_absent, tally_unlinked,
}
use chrono_cache.KvStore.Metrics.{remove_element_event}
use chrono_cache.KvStore.Store.{
  Store, bucket_of, find_in_bucket, insert_node, set_in, set_value, get_ptr, get, remove, remove_in,
  write_ptr, collect,
}
use chrono_cache.KvStore.Store.Invariant.{
  home, bucket, view_by, view, addresses, IsValid, home-lt, length-tally, tally-get_or-le,
}
use chrono_cache.KvStore.Store.Insert.{insert_into_bucket-Inserted}
use chrono_cache.KvStore.Store.Unlink.{
  written, write_ptr_runs, written-IsValid, written_reads, removed, remove_in_runs, removed-IsValid,
  removed_reads,
}

-- 1 for a value and 0 for none.
abbrev pub found {κ} : {V : Type κ} → Option V → ℕ
found none = 0
found (some _) = 1

abbrev pub is_some {κ} : {V : Type κ} → Option V → Bool
is_some none = false
is_some (some _) = true

module _ {ℓ κ} {K : Type ℓ} {V : Type κ} ⦃key : Key K⦄ where
  -- What a write of `x` at `k` does: `some` stores, `none` removes. The other keys keep their values,
  -- at the same addresses, and the entry count follows.
  pub record Writes (s : Store K V) (k : K) (x : Option V) (s' : Store K V) : Type (ℓ ⊔ κ) where
    pub valid : IsValid s'
    pub reads : (q : K) → view s' q ≡ (if k ≈ q then x else view s q)
    pub addrs : (q : K) → (k ≈ q) ≡ false → addresses s' q ≡ addresses s q
    pub entries : s'.metrics.num_entries + found (view s k) ≡ s.metrics.num_entries + found x
    pub capacity : s'.capacity ≡ s.capacity
    pub threshold : s'.load_factor_threshold ≡ s.load_factor_threshold

  module _ {s : Store K V} (valid : IsValid s) (k : K) where
    -- Taking an address from the allocator.
    allocated-IsValid : IsValid (record s { next_addr = s.next_addr + 1 })
    allocated-IsValid = record {
      power = valid.power;
      small = valid.small;
      wide_heads = valid.wide_heads;
      wide_tails = valid.wide_tails;
      wide_lengths = valid.wide_lengths;
      tails = valid.tails;
      lengths = valid.lengths;
      placed = valid.placed;
      hashed = valid.hashed;
      distinct = valid.distinct;
      fresh = λ a h. valid.fresh a (omega arith);
      buckets_counted = valid.buckets_counted;
      counted = valid.counted;
      load = valid.load;
      load_den = valid.load_den;
      longest = valid.longest;
    }

    pub find_in_bucket_runs :
        find_in_bucket s (bucket_of s k) k ≡ ok (find k (bucket s (home s.capacity k)))
    unfolding find_in_bucket bucket_of
    find_in_bucket_runs =
        rw (at-get_or s.bucket_heads (home s.capacity k) [] (rw valid.wide_heads (home-lt valid k)))

    pub view-find :
        (n : Node K V) → find k (bucket s (home s.capacity k)) ≡ some n → view s k ≡ some n.value
    unfolding view_by
    view-find n e = read_at-find (λ m. m.value) k (bucket s (home s.capacity k)) n e

    pub address-find :
        (n : Node K V)
        → find k (bucket s (home s.capacity k)) ≡ some n
        → addresses s k ≡ some n.addr
    unfolding view_by
    address-find n e = read_at-find (λ m. m.addr) k (bucket s (home s.capacity k)) n e

    pub view_absent : find k (bucket s (home s.capacity k)) ≡ none → view s k ≡ none
    unfolding view_by
    view_absent e =
        read_at_absent (λ m. m.value) k (bucket s (home s.capacity k))
          (find_absent k (bucket s (home s.capacity k)) e)

    pub address_absent : find k (bucket s (home s.capacity k)) ≡ none → addresses s k ≡ none
    unfolding view_by
    address_absent e =
        read_at_absent (λ m. m.addr) k (bucket s (home s.capacity k))
          (find_absent k (bucket s (home s.capacity k)) e)

    -- A key that is not stored: removing it changes nothing.
    pub unchanged : find k (bucket s (home s.capacity k)) ≡ none → Writes s k none s
    unchanged e = record {
      valid = valid;
      reads = λ q. elim (Bool-cases (k ≈ q)) [
        | inl p ↦ rw p (ap (view s) (sym ((key.equal_iff k q).0 p)) ∙ view_absent e)
        | inr p ↦ rw p
      ];
      addrs = λ q _. refl;
      entries = rw (view_absent e);
      capacity = refl;
      threshold = refl;
    }

    -- A key that is stored: storing its value again changes nothing.
    pub kept :
        (n : Node K V)
        → find k (bucket s (home s.capacity k)) ≡ some n
        → Writes s k (some n.value) s
    kept n e = record {
      valid = valid;
      reads = λ q. elim (Bool-cases (k ≈ q)) [
        | inl p ↦ rw p (ap (view s) (sym ((key.equal_iff k q).0 p)) ∙ view-find n e)
        | inr p ↦ rw p
      ];
      addrs = λ q _. refl;
      entries = rw (view-find n e);
      capacity = refl;
      threshold = refl;
    }

    -- In a valid store, `get k` returns the value that the abstract map has at `k`, or none.
    pub get-view : get s k ≡ ok (view s k)
    unfolding get get_ptr
    get-view = elim (Option-cases (find k (bucket s (home s.capacity k)))) [
      | inl e ↦ rw (find_in_bucket_runs, e, view_absent e)
      | inr (n, e) ↦ rw (find_in_bucket_runs, e, view-find n e)
    ]

    -- `*ptr = v` where `find` has stopped
    pub written-Writes :
        (n : Node K V)
        → find k (bucket s (home s.capacity k)) ≡ some n
        → (v : V) → Returns (write_ptr s k n.addr v) (Writes s k (some v))
    written-Writes n e v =
        let stop = find-Stops k (bucket s (home s.capacity k)) n e in
        (
          written valid k n stop v,
          write_ptr_runs valid k n stop v,
          record {
            valid = written-IsValid valid k n stop v;
            reads = written_reads valid k n stop (λ m. m.value) v;
            addrs = λ q apart. rw (written_reads valid k n stop (λ m. m.addr) v q, apart);
            entries = rw (view-find n e);
            capacity = refl;
            threshold = refl;
          },
        )

    -- A new node, at the next address, for a key that is not stored.
    pub insert_node-Writes :
        find k (bucket s (home s.capacity k)) ≡ none
        → (v : V)
        → Returns
            (insert_node s k v)
            λ s'. Writes s k (some v) s' × (addresses s' k ≡ some s.next_addr)
    unfolding insert_node new_node bucket_of view_by
    insert_node-Writes absent v =
        let node = new_node s.next_addr k v in
        let unseen = find_absent k (bucket s (home s.capacity k)) absent in
        let (s', run, t) = insert_into_bucket-Inserted node allocated-IsValid (record {
          hashed = refl;
          absent = unseen;
          unused = valid.fresh s.next_addr (omega arith);
          allocated = omega arith;
        }) in
        (
          s',
          run,
          (
            record {
              valid = t.valid;
              reads = t.reads;
              addrs = λ q apart. rw (t.addrs q, apart);
              entries = rw (view_absent absent) (
                  omega (
                    arith,
                    t.valid.counted,
                    valid.counted,
                    length-tally (collect s'.bucket_heads),
                    length-tally (collect s.bucket_heads),
                    t.adds (λ _. 1),
                  ));
              capacity = t.capacity;
              threshold = t.threshold;
            },
            rw (t.addrs k, (key.equal_iff k k).1 refl),
          ),
        )

    -- In a valid store, `set k v` returns a valid store in which `k` has the value `v`, every
    -- other key keeps its value and its address, the entry count is right, and the capacity is
    -- the same.
    pub set_value-Writes : (v : V) → Returns (set_value s k v) (Writes s k (some v))
    unfolding set_value set_in
    set_value-Writes v = elim (Option-cases (find k (bucket s (home s.capacity k)))) [
      | inl e ↦
          let (s', run, w) = insert_node-Writes e v in (s', rw (find_in_bucket_runs, e) run, w.0)
      | inr (n, e) ↦
          let (s', run, w) = written-Writes n e v in (s', rw (find_in_bucket_runs, e) run, w)
    ]

    -- In a valid store, `remove k` returns: it reports whether `k` was stored, and leaves a valid
    -- store in which `k` is not stored, every other key keeps its value and its address, and the
    -- entry count is right.
    pub remove-Writes : Returns (remove s k) λ r. (r.0 ≡ is_some (view s k)) × Writes s k none r.1
    unfolding remove bucket_of
    remove-Writes =
        let i = home s.capacity k in
        let inside = home-lt valid k in
        let inside_heads : i < length s.bucket_heads = rw valid.wide_heads inside in
        let head = at-get_or s.bucket_heads i [] inside_heads in
        elim (Option-cases (find k (bucket s i))) [
          | inl e ↦ (
            (false, s),
            rw (head, find_with_prev_absent k none (bucket s i) e) (unfold remove_in in refl),
            (rw (view_absent e), unchanged e),
          )
          | inr (n, e) ↦
              let stop = find-Stops k (bucket s i) n e in
              (
                (true, removed valid k n stop),
                rw (head, stop.with_prev none) (remove_in_runs valid k n stop),
                (
                  rw (view-find n e),
                  record {
                    valid = removed-IsValid valid k n stop;
                    reads = removed_reads valid k n stop (λ m. m.value);
                    addrs = λ q apart. rw (removed_reads valid k n stop (λ m. m.addr) q, apart);
                    entries = rw (view-find n e) (
                        unfold remove_element_event in
                        omega (
                          arith,
                          valid.counted,
                          length-tally (collect s.bucket_heads),
                          tally-get_or-le (λ _. 1) s.bucket_heads i,
                          tally_unlinked k (bucket s i) n stop (λ _. 1),
                        ));
                    capacity = refl;
                    threshold = refl;
                  },
                ),
              )
        ]
