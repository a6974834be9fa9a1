-- ===== src/KvStore/Store/Reinsert.antt =====
-- The second loop of `resize` in src/cpp/cache/kv_store/store.h: nodes that wait for their place go into
-- the table one by one.
use mathlib.Core.Option.{or_else}
use chrono_cache.Shared.{
  ℕ, ◌+◌, ◌≤◌, ◌≡◌, refl, ap, ◌∙◌, sym, true, Option, none, some, [], ◌∷◌, arith, tally,
  if◌then◌else◌, Bool-cases, inl, inr, le_or_lt,
}
use chrono_cache.Shared.Run.{Returns, ◌>>=◌}
use chrono_cache.KvStore.Key.{Key, ◌≈◌}
use chrono_cache.KvStore.Chain.{Node, Chain}
use chrono_cache.KvStore.Chain.Laws.{addr_hit}
use chrono_cache.KvStore.Chain.Search.{key_hit, read_at, read_at_absent}
use chrono_cache.KvStore.Store.{Store, compute_bucket_index, insert_into_bucket, collect, reinsert}
use chrono_cache.KvStore.Store.Invariant.{
  home, bucket, view_by, view, addresses, stale, IsValid, tally-get_or-le,
}
use chrono_cache.KvStore.Store.Insert.{IsNew, Inserted, insert_into_bucket-Inserted}
use chrono_cache.KvStore.Store.Collect.{or_else-none}

module _ {ℓ κ} {K : Type ℓ} {V : Type κ} ⦃key : Key K⦄ where
  -- Nodes that wait for their place in the store `s`.
  pub record Pending (s : Store K V) (nodes : Chain K V) : Type ℓ where
    pub hashed : tally stale nodes ≡ 0
    pub keys : (q : K) → tally (key_hit q) (collect s.bucket_heads) + tally (key_hit q) nodes ≤ 1
    pub addrs : (a : ℕ) → tally (addr_hit a) (collect s.bucket_heads) + tally (addr_hit a) nodes ≤ 1
    pub allocated : (a : ℕ) → s.next_addr ≤ a → tally (addr_hit a) nodes ≡ 0

  module _ {s : Store K V} (node : Node K V) (nodes : Chain K V)
      (p : Pending s (node ∷ nodes)) where
    pending_hash : node.hashed_key ≡ key.hash node.key
    pending_hash = ground (arith, p.hashed)

    pending-IsNew : IsNew s node
    pending-IsNew = record {
      hashed = pending_hash;
      absent = ground (
        arith,
        p.keys node.key,
        (key.equal_iff node.key node.key).1 refl,
        tally-get_or-le (key_hit node.key) s.bucket_heads (home s.capacity node.key),
      );
      unused = ground (arith, p.addrs node.addr);
      allocated = elim (le_or_lt s.next_addr node.addr) [
        | inr h ↦ h
        | inl h ↦ absurd (ground (arith, p.allocated node.addr h))
      ];
    }

    Pending-rest : {s' : Store K V} → Inserted s node s' → Pending s' nodes
    Pending-rest t = record {
      hashed = ground (arith, p.hashed);
      keys = λ q. omega (arith, p.keys q, t.adds (key_hit q));
      addrs = λ a. omega (arith, p.addrs a, t.adds (addr_hit a));
      allocated = λ a h. omega (arith, p.allocated a (rw t.next at h));
    }

    -- A waiting key is not in the table.
    pending_unseen {μ} :
        {B : Type μ} (f : Node K V → B) (q : K) → (node.key ≈ q) ≡ true → view_by f s q ≡ none
    unfolding view_by
    pending_unseen f q e =
        read_at_absent f q (bucket s (home s.capacity q))
          (ground (arith, p.keys q, tally-get_or-le (key_hit q) s.bucket_heads (home s.capacity q)))

    -- One node more in the table is one node less to wait for.
    pending_step {μ} :
        {B : Type μ} (f : Node K V → B) (q : K) (o : Option B)
        → o ≡ (if node.key ≈ q then some (f node) else view_by f s q)
        → or_else o (read_at f q nodes) ≡ or_else (view_by f s q) (read_at f q (node ∷ nodes))
    unfolding or_else
    pending_step f q o e = elim (Bool-cases (node.key ≈ q)) [
      | inl h ↦ rw (e, h, pending_unseen f q h)
      | inr h ↦ rw (e, h)
    ]

  pub record Moved (s : Store K V) (nodes : Chain K V) (s' : Store K V) : Type (ℓ ⊔ κ) where
    pub valid : IsValid s'
    pub reads : (q : K) → view s' q ≡ or_else (view s q) (read_at (λ n. n.value) q nodes)
    pub addrs : (q : K) → addresses s' q ≡ or_else (addresses s q) (read_at (λ n. n.addr) q nodes)
    pub adds :
        (f : Node K V → ℕ)
        → tally f (collect s'.bucket_heads) ≡ tally f (collect s.bucket_heads) + tally f nodes
    pub capacity : s'.capacity ≡ s.capacity
    pub threshold : s'.load_factor_threshold ≡ s.load_factor_threshold

  pub reinsert-Moved :
      (nodes : Chain K V) {s : Store K V}
      → IsValid s
      → Pending s nodes
      → Returns (reinsert nodes s) (Moved s nodes)
  unfolding reinsert
  reinsert-Moved [] {s} valid p = (
    s,
    refl,
    record {
      valid = valid;
      reads = λ q. sym (or_else-none (view s q));
      addrs = λ q. sym (or_else-none (addresses s q));
      adds = λ f. omega arith;
      capacity = refl;
      threshold = refl;
    },
  )
  reinsert-Moved (node ∷ nodes) {s} valid p =
      let (s₁, run₁, t) = insert_into_bucket-Inserted node valid (pending-IsNew node nodes p) in
      let (s', run, m) = reinsert-Moved nodes t.valid (Pending-rest node nodes p t) in
      (
        s',
        ap (λ h. insert_into_bucket (compute_bucket_index s.capacity h) node s >>= reinsert nodes)
              (pending_hash node nodes p)
            ∙ ap (λ r. r >>= reinsert nodes) run₁
            ∙ run,
        record {
          valid = m.valid;
          reads =
              λ q. m.reads q ∙ pending_step node nodes p (λ n. n.value) q (view s₁ q) (t.reads q);
          addrs = λ q.
              m.addrs q ∙ pending_step node nodes p (λ n. n.addr) q (addresses s₁ q) (t.addrs q);
          adds = λ f. omega (arith, m.adds f, t.adds f);
          capacity = m.capacity ∙ t.capacity;
          threshold = m.threshold ∙ t.threshold;
        },
      )
