-- ===== src/HashMap/Laws.antt =====
-- The operations of src/cpp/cache/kv_store/hash_map.h on a valid store, in terms of the abstract
-- map.
use native.Mathlib.Nat.{mul-le-mul_right}
use chrono_cache.Shared.{
  ◌+◌, ◌*◌, ◌^◌, ◌≤◌, ◌<◌, ◌≡◌, refl, ap, ◌∙◌, sym, Bool, true, false, Option, none, some, arith,
  Bool-cases, Option-cases, inl, inr, if◌then◌else◌,
}
use chrono_cache.Shared.Run.{Run, ok, Returns}
use chrono_cache.KvStore.Key.{Key, ◌≈◌}
use chrono_cache.KvStore.Chain.{Node, find}
use chrono_cache.KvStore.Store.{Store, needs_resize, get_ptr}
use chrono_cache.KvStore.Store.Invariant.{home, bucket, IsValid, view, addresses}
use chrono_cache.KvStore.Store.Methods.{
  found, is_some, Writes, find_in_bucket_runs, view-find, view_absent, set_value-Writes,
  written-Writes, remove-Writes, unchanged, kept,
}
use chrono_cache.KvStore.Store.Pointers.{get_or_add-Added}
use chrono_cache.HashMap.{
  maybe_resize, set_with, remove_with, assign, process_and_remove_if, get_or_add_growing,
}
use chrono_cache.HashMap.Load.{IsLight, needs_resize_iff, Grown, maybe_resize-Grown, light_again}

-- What `process_and_remove_if` leaves at the key, for the verdict, the assignment and the old value.
abbrev pub outcome {κ} : {V : Type κ} → Bool → Option V → Option V → Option V
outcome drop written none = none
outcome true written (some old) = none
outcome false none (some old) = some old
outcome false (some new) (some old) = some new

module _ {ℓ κ} {K : Type ℓ} {V : Type κ} ⦃key : Key K⦄ where
  -- What storing `v` at `k` does, growing included: the other keys keep their values, at the same
  -- addresses, and a table under a threshold of at least a half stays under it.
  pub record Stored (s : Store K V) (k : K) (v : V) (s' : Store K V) : Type (ℓ ⊔ κ) where
    pub valid : IsValid s'
    pub reads : (q : K) → view s' q ≡ (if k ≈ q then some v else view s q)
    pub addrs : (q : K) → (k ≈ q) ≡ false → addresses s' q ≡ addresses s q
    pub entries : s'.metrics.num_entries + found (view s k) ≡ s.metrics.num_entries + 1
    pub threshold : s'.load_factor_threshold ≡ s.load_factor_threshold
    pub light :
        s.load_factor_threshold.den ≤ 2 * s.load_factor_threshold.num
        → needs_resize s ≡ false
        → needs_resize s' ≡ false

  -- A table that is light before a write has at most one entry too many after it.
  one_more :
      {s s₁ : Store K V} {k : K} {v : V}
      → IsValid s
      → Writes s k (some v) s₁
      → needs_resize s ≡ false
      → s₁.metrics.num_entries * s₁.load_factor_threshold.den
        ≤ s₁.capacity * s₁.load_factor_threshold.num + s₁.load_factor_threshold.den
  one_more {s} {s₁} {k} {v} valid w light =
      let light' : IsLight s = ground (arith, (needs_resize_iff valid).1) in
      let more : s₁.metrics.num_entries ≤ s.metrics.num_entries + 1 = omega (arith, w.entries) in
      rw (w.capacity, w.threshold)
        (omega (arith, mul-le-mul_right s.load_factor_threshold.den more))

  Grown-Stored :
      {s s₁ s₂ : Store K V} {k : K} {v : V}
      → IsValid s
      → Writes s k (some v) s₁
      → Grown s₁ s₂
      → Stored s k v s₂
  Grown-Stored {s} {s₁} valid w g = record {
    valid = g.valid;
    reads = λ q. g.reads q ∙ w.reads q;
    addrs = λ q apart. g.addrs q ∙ w.addrs q apart;
    entries = omega (arith, g.entries, w.entries);
    threshold = g.threshold ∙ w.threshold;
    light = λ half e. light_again w.valid g (rw w.threshold half) (one_more valid w e);
  }

  -- The end of `set` and of `get_or_add`.
  settle_lem : (s : Store K V) → (if needs_resize s then maybe_resize s else ok s) ≡ maybe_resize s
  unfolding maybe_resize
  settle_lem s = elim (Bool-cases (needs_resize s)) [ inl e ↦ rw e | inr e ↦ rw e ]

  settle-Grown :
      {s : Store K V}
      → IsValid s
      → s.capacity < 2 ^ 30
      → Returns (if needs_resize s then maybe_resize s else ok s) (Grown s)
  settle-Grown {s} valid small =
      let (s', run, g) = maybe_resize-Grown valid small in (s', settle_lem s ∙ run, g)

  module _ {s : Store K V} (valid : IsValid s) (k : K) (small : s.capacity < 2 ^ 30) where
    -- On a valid store of fewer than 2 ^ 30 buckets, `set k v` with a callback that returns gives
    -- a valid store in which `k` has the value `v`, every other key keeps its value and its
    -- address, and the entry count is right, with the callback's state; where the threshold is at
    -- least a half and the table did not need to grow before, it does not need to grow after.
    pub set_with-Stored {μ} :
        {W : Type μ} (post_fn : W → Run W) (v : V) (w w' : W)
        → post_fn w ≡ ok w'
        → Returns (set_with post_fn k v s w) λ r. Stored s k v r.0 × (r.1 ≡ w')
    unfolding set_with
    set_with-Stored post_fn v w w' e =
        let (s₁, run₁, t) = set_value-Writes valid k v in
        let (s₂, run₂, g) = settle-Grown t.valid (rw t.capacity small) in
        ((s₂, w'), rw (run₁, e, run₂), (Grown-Stored valid t g, refl))

    -- On a valid store of fewer than 2 ^ 30 buckets, `get_or_add k` returns a pointer to the
    -- value that `k` had, or to a new default where it had none; the store is valid and `k` has
    -- that value at that address even where the table has grown, the other keys keep their values
    -- and addresses, and a table under a threshold of at least a half stays under it.
    pub get_or_add_growing-Stored :
        (default : V)
        → Returns (get_or_add_growing s k default) λ r.
          Stored s k r.0.value r.1
          × (addresses r.1 k ≡ some r.0.addr)
          × (r.0.value ≡ (elim (view s k) [ none ↦ default | some v ↦ v ]))
    unfolding get_or_add_growing
    get_or_add_growing-Stored default =
        let (r, run₁, t) = get_or_add-Added valid k default in
        let (s₂, run₂, g) = settle-Grown t.writes.valid (rw t.writes.capacity small) in
        (
          (r.0, s₂),
          rw (run₁, run₂),
          (Grown-Stored valid t.writes g, g.addrs k ∙ t.address, t.value),
        )

  module _ {s : Store K V} (valid : IsValid s) (k : K) where
    -- On a valid store, `remove k` with a callback that returns where `k` is stored reports
    -- whether `k` was stored, leaves a valid store without `k` and with every other key's value
    -- and address, and has run the callback exactly where `k` was stored.
    pub remove_with-Writes {μ} :
        {W : Type μ} (post_fn : W → Run W) (w w' : W)
        → (is_some (view s k) ≡ true → post_fn w ≡ ok w')
        → (is_some (view s k) ≡ false → w' ≡ w)
        → Returns
            (remove_with post_fn k s w)
            λ r. (r.0 ≡ is_some (view s k)) × Writes s k none r.1 × (r.2 ≡ w')
    unfolding remove_with
    remove_with-Writes post_fn w w' called skipped =
        let (r, run, (e, t)) = remove-Writes valid k in
        elim (Bool-cases (is_some (view s k))) [
          | inl h ↦ ((r.0, r.1, w'), rw (run, e, h, called h), (e, t, refl))
          | inr h ↦ ((r.0, r.1, w), rw (run, e, h), (e, t, sym (skipped h)))
        ]

  -- A second write of the key hides the first.
  overwritten :
      {s s₁ s₂ : Store K V} {k : K} {x y : Option V}
      → Writes s k x s₁
      → Writes s₁ k y s₂
      → Writes s k y s₂
  overwritten {k = k} t u = record {
    valid = u.valid;
    reads = λ q. elim (Bool-cases (k ≈ q)) [
      | inl p ↦ rw (u.reads q, p)
      | inr p ↦ rw (u.reads q, t.reads q, p)
    ];
    addrs = λ q apart. u.addrs q apart ∙ t.addrs q apart;
    entries =
        let own = rw (t.reads k, (key.equal_iff k k).1 refl) at u.entries in
        omega (arith, own, t.entries);
    capacity = u.capacity ∙ t.capacity;
    threshold = u.threshold ∙ t.threshold;
  }

  module _ {s : Store K V} (valid : IsValid s) (k : K) where
    -- The entry that `get_ptr` finds has the stored value.
    get_ptr_runs : get_ptr s k ≡ ok (find k (bucket s (home s.capacity k)))
    unfolding get_ptr
    get_ptr_runs = find_in_bucket_runs valid k

    -- An assignment through the entry, or none.
    assign-Writes :
        (n : Node K V) (written : Option V)
        → find k (bucket s (home s.capacity k)) ≡ some n
        → Returns (assign s k (some n) written) (Writes s k (outcome false written (some n.value)))
    unfolding assign
    assign-Writes n none e = (s, refl, kept valid k n e)
    assign-Writes n (some v) e = written-Writes valid k n e v

    -- On a valid store, `process_and_remove_if` whose callback returns a verdict, and assigns
    -- only where an entry is stored, gives the callback's state and a valid store in which the
    -- key has no value where the verdict is removal, else the value that the callback assigned or
    -- the old one; every other key keeps its value and its address.
    pub process_and_remove_if-Writes {μ} :
        {W : Type μ} (cond_fn : Option V → W → Run (Bool × Option V × W)) (w w' : W) (drop : Bool)
        (written : Option V)
        → cond_fn (view s k) w ≡ ok (drop, written, w')
        → (view s k ≡ none → written ≡ none)
        → Returns
            (process_and_remove_if cond_fn k s w)
            λ r. Writes s k (outcome drop written (view s k)) r.0 × (r.1 ≡ w')
    unfolding process_and_remove_if assign
    process_and_remove_if-Writes cond_fn w w' drop written e safe =
        elim (Option-cases (find k (bucket s (home s.capacity k)))) [
          | inl absent ↦
              let gone = view_absent valid k absent in
              let called : cond_fn none w ≡ ok (drop, written, w') =
                ap (λ v. cond_fn v w) (sym gone) ∙ e in
              (
                (s, w'),
                elim (Bool-cases drop) [
                  | inl d ↦ rw (get_ptr_runs, absent, called, safe gone, d)
                  | inr d ↦ rw (get_ptr_runs, absent, called, safe gone, d)
                ],
                (rw gone (unchanged valid k absent), refl),
              )
          | inr (n, at_n) ↦
              let stored = view-find valid k n at_n in
              let called : cond_fn (some n.value) w ≡ ok (drop, written, w') =
                ap (λ v. cond_fn v w) (sym stored) ∙ e in
              let (s₁, run₁, t) = assign-Writes n written at_n in
              elim (Bool-cases drop) [
                | inl d ↦
                    let (r, run₂, (_, u)) = remove-Writes t.valid k in
                    (
                      (r.1, w'),
                      rw (get_ptr_runs, at_n, called, d, run₁, run₂),
                      (rw (stored, d) (overwritten t u), refl),
                    )
                | inr d ↦
                    ((s₁, w'), rw (get_ptr_runs, at_n, called, d, run₁), (rw (stored, d) t, refl))
              ]
        ]
