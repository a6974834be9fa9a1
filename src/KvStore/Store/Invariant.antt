-- ===== src/KvStore/Store/Invariant.antt =====
-- The representation invariant of `KVStore` (src/cpp/cache/kv_store/store.h), the abstract map that a
-- store stands for, and the one step that all writes share: a bucket's chain is replaced.
use native.Mathlib.Nat.{one-le-pow}
use chrono_cache.Shared.{
  ℕ, zero, suc, ◌+◌, ◌*◌, ◌^◌, ◌≤◌, ◌<◌, ◌≡◌, ◌≢◌, refl, ap, ◌∙◌, Option, none, List, [], ◌∷◌,
  arith, length, length-set, get_or, get_or-set_ind, set, Bool-cases, inl, inr, tally, tally-append,
  ◌==◌, if◌then◌else◌,
}
use chrono_cache.KvStore.Key.{Key, ◌≈◌}
use chrono_cache.KvStore.Chain.{Node, Chain}
use chrono_cache.KvStore.Chain.Laws.{addr_hit, last_or, AreDistinct}
use chrono_cache.KvStore.Chain.Search.{key_hit, read_at}
use chrono_cache.KvStore.Metrics.{Metrics}
use chrono_cache.KvStore.Store.{Store, compute_bucket_index, collect}
use chrono_cache.KvStore.Store.Index.{compute_bucket_index-mod}

module _ {ℓ κ} {K : Type ℓ} {V : Type κ} where
  pub tally-collect-set :
      (f : Node K V → ℕ) (bs : List (Chain K V)) (i : ℕ) (c : Chain K V)
      → i < length bs
      → tally f (collect (set bs i c)) + tally f (get_or bs i []) ≡ tally f (collect bs) + tally f c
  unfolding collect
  tally-collect-set f [] i c h = absurd (omega arith)
  tally-collect-set f (b ∷ bs) zero c h =
      omega (arith, tally-append f b (collect bs), tally-append f c (collect bs))
  tally-collect-set f (b ∷ bs) (suc i) c h = omega (
    arith,
    tally-append f b (collect bs),
    tally-append f b (collect (set bs i c)),
    tally-collect-set f bs i c (omega arith),
  )

  -- A bucket has no more than the table.
  pub tally-get_or-le :
      (f : Node K V → ℕ) (bs : List (Chain K V)) (i : ℕ)
      → tally f (get_or bs i []) ≤ tally f (collect bs)
  unfolding collect
  tally-get_or-le f [] i = omega arith
  tally-get_or-le f (b ∷ bs) zero = omega (arith, tally-append f b (collect bs))
  tally-get_or-le f (b ∷ bs) (suc i) =
      omega (arith, tally-append f b (collect bs), tally-get_or-le f bs i)

  pub length-tally : (c : Chain K V) → length c ≡ tally (λ _. 1) c
  length-tally [] = refl
  length-tally (n ∷ c) = omega (arith, length-tally c)

-- The bucket of a key, in a table of `capacity` buckets.
abbrev pub home {ℓ} : {K : Type ℓ} ⦃key : Key K⦄ → ℕ → K → ℕ
home ⦃key⦄ capacity q = compute_bucket_index capacity (key.hash q)

module _ {ℓ κ} {K : Type ℓ} {V : Type κ} ⦃key : Key K⦄ where
  -- 1 for a node whose cached hash is not its key's.
  abbrev pub stale : Node K V → ℕ
  stale n = if n.hashed_key == key.hash n.key then 0 else 1

  abbrev pub bucket : Store K V → ℕ → Chain K V
  bucket s i = get_or s.bucket_heads i []

  -- A reading of the node that a key's bucket holds for it.
  unfoldable pub view_by {μ} : {B : Type μ} → (Node K V → B) → Store K V → K → Option B
  view_by f s q = read_at f q (bucket s (home s.capacity q))

  -- The abstract map, and where its values stand.
  abbrev pub view : Store K V → K → Option V
  view = view_by (λ n. n.value)

  abbrev pub addresses : Store K V → K → Option ℕ
  addresses = view_by (λ n. n.addr)

  pub record IsValid (s : Store K V) : Type ℓ where
    -- the capacity is a power of two, an `int`, and the width of the three vectors
    pub power : (k : ℕ) × (s.capacity ≡ 2 ^ k)
    pub small : s.capacity < 2 ^ 31
    pub wide_heads : length s.bucket_heads ≡ s.capacity
    pub wide_tails : length s.bucket_tails ≡ s.capacity
    pub wide_lengths : length s.bucket_chain_lengths ≡ s.capacity
    -- every tail pointer is the last node's, every chain length is right
    pub tails : (i : ℕ) → i < s.capacity → get_or s.bucket_tails i none ≡ last_or none (bucket s i)
    pub lengths : (i : ℕ) → i < s.capacity → get_or s.bucket_chain_lengths i 0 ≡ length (bucket s i)
    -- a key has one node at most, in its own bucket, and nodes cache their keys' hashes
    pub placed :
        (q : K) (i : ℕ)
        → (tally (key_hit q) (bucket s i) ≤ 1)
          × (home s.capacity q ≢ i → tally (key_hit q) (bucket s i) ≡ 0)
    pub hashed : tally stale (collect s.bucket_heads) ≡ 0
    -- no two nodes share an address, and the allocator's next ones are unused
    pub distinct : AreDistinct (collect s.bucket_heads)
    pub fresh : (a : ℕ) → s.next_addr ≤ a → tally (addr_hit a) (collect s.bucket_heads) ≡ 0
    -- the metrics count the buckets and the nodes, and bound the chains
    pub buckets_counted : s.metrics.num_buckets ≡ s.capacity
    pub counted : s.metrics.num_entries ≡ length (collect s.bucket_heads)
    pub load :
        s.metrics.load_factor_val.num * s.capacity
        ≡ s.metrics.num_entries * s.metrics.load_factor_val.den
    pub load_den : 0 < s.metrics.load_factor_val.den
    pub longest : (i : ℕ) → length (bucket s i) ≤ s.metrics.max_chain_length

  module _ {s : Store K V} (valid : IsValid s) where
    pub capacity_pos : 0 < s.capacity
    capacity_pos = omega (arith, one-le-pow valid.power.0 2)

    pub home-lt : (q : K) → home s.capacity q < s.capacity
    home-lt q =
        rw
          (compute_bucket_index-mod s.capacity valid.power.0 (key.hash q) valid.power.1
            (omega (arith, valid.small)))
          (omega (arith, capacity_pos))

    pub bucket-AreDistinct : (i : ℕ) → AreDistinct (bucket s i)
    bucket-AreDistinct i a =
        omega (arith, valid.distinct a, tally-get_or-le (addr_hit a) s.bucket_heads i)

  -- What replacing the chain of bucket `home k` asks of the new chain `c`, its tail and its length.
  pub record Replaces (s : Store K V) (k : K) (c : Chain K V) (tails : List (Option ℕ))
      (lens : List ℕ) (m : Metrics) (next : ℕ) : Type ℓ where
    pub wide_tails : length tails ≡ s.capacity
    pub wide_lengths : length lens ≡ s.capacity
    pub tail : get_or tails (home s.capacity k) none ≡ last_or none c
    pub other_tails :
        (j : ℕ) → home s.capacity k ≢ j → get_or tails j none ≡ get_or s.bucket_tails j none
    pub len : get_or lens (home s.capacity k) 0 ≡ length c
    pub other_lens :
        (j : ℕ) → home s.capacity k ≢ j → get_or lens j 0 ≡ get_or s.bucket_chain_lengths j 0
    pub once : (q : K) → tally (key_hit q) c ≤ 1
    pub apart : (q : K) → home s.capacity q ≢ home s.capacity k → tally (key_hit q) c ≡ 0
    pub hashed : tally stale c ≡ 0
    pub distinct : AreDistinct (collect (set s.bucket_heads (home s.capacity k) c))
    pub fresh :
        (a : ℕ)
        → next ≤ a
        → tally (addr_hit a) (collect (set s.bucket_heads (home s.capacity k) c)) ≡ 0
    pub buckets_counted : m.num_buckets ≡ s.capacity
    pub counted :
        m.num_entries + length (bucket s (home s.capacity k)) ≡ s.metrics.num_entries + length c
    pub load : m.load_factor_val.num * s.capacity ≡ m.num_entries * m.load_factor_val.den
    pub load_den : 0 < m.load_factor_val.den
    pub longest : length c ≤ m.max_chain_length
    pub longest_kept : s.metrics.max_chain_length ≤ m.max_chain_length

  module _ {s : Store K V} (valid : IsValid s) (k : K) {c : Chain K V} {tails : List (Option ℕ)}
      {lens : List ℕ} {m : Metrics} {next : ℕ} where
    pub Replaces-IsValid :
        Replaces s k c tails lens m next
        → IsValid (record s {
          bucket_heads = set s.bucket_heads (home s.capacity k) c;
          bucket_tails = tails;
          bucket_chain_lengths = lens;
          metrics = m;
          next_addr = next;
        })
    Replaces-IsValid r =
        let i = home s.capacity k in
        let inside : i < length s.bucket_heads = rw valid.wide_heads (home-lt valid k) in
        record {
          power = valid.power;
          small = valid.small;
          wide_heads = length-set s.bucket_heads i c ∙ valid.wide_heads;
          wide_tails = r.wide_tails;
          wide_lengths = r.wide_lengths;
          tails = λ j h.
              get_or-set_ind (λ n b. get_or tails n none ≡ last_or none b) s.bucket_heads i j c []
                inside r.tail (λ n. r.other_tails j n ∙ valid.tails j h);
          lengths = λ j h.
              get_or-set_ind (λ n b. get_or lens n 0 ≡ length b) s.bucket_heads i j c [] inside
                r.len (λ n. r.other_lens j n ∙ valid.lengths j h);
          placed = λ q j.
              get_or-set_ind
                (λ n b.
                  (tally (key_hit q) b ≤ 1) × (home s.capacity q ≢ n → tally (key_hit q) b ≡ 0))
                s.bucket_heads i j c [] inside (r.once q, r.apart q) (λ _. valid.placed q j);
          hashed =
              omega
                (arith, tally-collect-set stale s.bucket_heads i c inside, valid.hashed, r.hashed);
          distinct = r.distinct;
          fresh = r.fresh;
          buckets_counted = r.buckets_counted;
          counted = omega (
            arith,
            r.counted,
            valid.counted,
            tally-collect-set (λ _. 1) s.bucket_heads i c inside,
            length-tally (collect s.bucket_heads),
            length-tally (collect (set s.bucket_heads i c)),
            length-tally c,
            length-tally (bucket s i),
          );
          load = r.load;
          load_den = r.load_den;
          longest = λ j.
              get_or-set_ind (λ _ b. length b ≤ m.max_chain_length) s.bucket_heads i j c [] inside
                r.longest (λ _. omega (arith, valid.longest j, r.longest_kept));
        }

  -- How the abstract map reads after the replacement.
  pub view_replaced {μ} :
      {B : Type μ} (f : Node K V → B) {s : Store K V} (valid : IsValid s) (k : K) (c : Chain K V)
      (x : Option B)
      → ((q : K)
          → read_at f q c ≡ (if k ≈ q then x else read_at f q (bucket s (home s.capacity k))))
      → (q : K)
      → read_at f q (get_or (set s.bucket_heads (home s.capacity k) c) (home s.capacity q) [])
        ≡ (if k ≈ q then x else view_by f s q)
  unfolding view_by
  view_replaced f {s} valid k c x reads q =
      get_or-set_ind
        (λ n b.
          home s.capacity q ≡ n → read_at f q b ≡ (if k ≈ q then x else read_at f q (bucket s n)))
        s.bucket_heads (home s.capacity k) (home s.capacity q) c []
        (rw valid.wide_heads (home-lt valid k)) (λ _. reads q)
        (λ n _. elim (Bool-cases (k ≈ q)) [
          | inl p ↦ absurd (n (ap (home s.capacity) ((key.equal_iff k q).0 p)))
          | inr p ↦ rw p
        ])
        refl
