-- ===== src/HashMap/Load.antt =====
-- When `maybe_resize` of src/cpp/cache/kv_store/hash_map.h grows the table, and what it leaves.
use native.Mathlib.Nat.{pow-suc, mul-le-mul_right, mul-lt-mul_of_pos_right, lt_of_mul-lt-mul_right}
use chrono_cache.Shared.{
  ℕ, zero, suc, ◌+◌, ◌*◌, ◌^◌, ◌≤◌, ◌<◌, ◌≡◌, ◌↔◌, refl, ap, true, false, arith, Bool-cases, inl,
  inr, leb, if◌then◌else◌,
}
use chrono_cache.Shared.Run.{Returns}
use chrono_cache.KvStore.Key.{Key}
use chrono_cache.KvStore.Metrics.{exceeds}
use chrono_cache.KvStore.Store.{Store, is_power_of_2, needs_resize}
use chrono_cache.KvStore.Store.Index.{is_power_of_2_iff}
use chrono_cache.KvStore.Store.Invariant.{IsValid, view, addresses, capacity_pos}
use chrono_cache.KvStore.Store.Resize.{resize-Resized}
use chrono_cache.HashMap.{double_capacity, maybe_resize}

-- A quotient of counts exceeds a fraction where the cross products do.
exceeds_counts :
    (num den entries c p q : ℕ)
    → num * c ≡ entries * den
    → 0 < den
    → 0 < c
    → (p * den < num * q) ↔ (c * p < entries * q)
exceeds_counts num den entries c p q e den_pos c_pos = (
  λ h.
      lt_of_mul-lt-mul_right den
        (omega (arith, mul-lt-mul_of_pos_right h c_pos, ap (λ x. x * q) e)),
  λ h.
      lt_of_mul-lt-mul_right c
        (omega (arith, mul-lt-mul_of_pos_right h den_pos, ap (λ x. x * q) e)),
)

-- Twice a capacity has room for one entry more, where the threshold is at least a half.
room : (entries c p q : ℕ) → 0 < c → q ≤ 2 * p → entries * q ≤ c * p + q → entries * q ≤ 2 * c * p
room zero c p q c_pos half light = omega arith
room (suc zero) c p q c_pos half light = omega (arith, mul-le-mul_right p c_pos)
room (suc (suc entries)) c p q c_pos half light = omega arith

module _ {ℓ κ} {K : Type ℓ} {V : Type κ} ⦃key : Key K⦄ where
  -- The entries are at most the capacity times the threshold.
  abbrev pub IsLight : Store K V → Type 0
  IsLight s =
      s.metrics.num_entries * s.load_factor_threshold.den ≤ s.capacity * s.load_factor_threshold.num

  -- In a valid store, the cached load factor exceeds the threshold exactly where capacity times
  -- threshold is less than the number of entries.
  pub needs_resize_iff :
      {s : Store K V}
      → IsValid s
      → (needs_resize s ≡ true) ↔ (
          s.capacity * s.load_factor_threshold.num
          < s.metrics.num_entries * s.load_factor_threshold.den)
  unfolding needs_resize exceeds
  needs_resize_iff {s} valid =
      let (to, from) =
        exceeds_counts s.metrics.load_factor_val.num s.metrics.load_factor_val.den
          s.metrics.num_entries s.capacity s.load_factor_threshold.num s.load_factor_threshold.den
          valid.load valid.load_den (capacity_pos valid) in
      (λ h. to (ground arith), λ h. ground (arith, from h))

  -- What `maybe_resize` leaves: the same map, in a table of the same or of twice the capacity.
  pub record Grown (s s' : Store K V) : Type (ℓ ⊔ κ) where
    pub valid : IsValid s'
    pub reads : (q : K) → view s' q ≡ view s q
    pub addrs : (q : K) → addresses s' q ≡ addresses s q
    pub entries : s'.metrics.num_entries ≡ s.metrics.num_entries
    pub capacity : s'.capacity ≡ (if needs_resize s then 2 * s.capacity else s.capacity)
    pub threshold : s'.load_factor_threshold ≡ s.load_factor_threshold

  doubled-power : {s : Store K V} → IsValid s → is_power_of_2 (s.capacity * 2) ≡ true
  doubled-power {s} valid =
      (is_power_of_2_iff (s.capacity * 2)).1
        (suc valid.power.0, rw valid.power.1 (omega (arith, pow-suc 2 valid.power.0)))

  -- On a valid store of fewer than 2 ^ 30 buckets, `maybe_resize` returns a valid store with the
  -- same values, addresses, entry count and threshold, of twice the capacity where the load
  -- factor exceeds the threshold and of the same capacity where it does not.
  pub maybe_resize-Grown :
      {s : Store K V} → IsValid s → s.capacity < 2 ^ 30 → Returns (maybe_resize s) (Grown s)
  unfolding maybe_resize double_capacity
  maybe_resize-Grown {s} valid small = elim (Bool-cases (needs_resize s)) [
    | inl e ↦
        let (s', run, r) =
          resize-Resized valid (s.capacity * 2) (omega (arith, capacity_pos valid))
            (doubled-power valid) (omega arith) in
        let fits : leb (2 ^ 31) (s.capacity * 2) ≡ false = ground arith in
        (
          s',
          rw (e, fits) run,
          record {
            valid = r.valid;
            reads = r.reads;
            addrs = r.addrs;
            entries = r.entries;
            capacity = rw e (omega (arith, r.capacity));
            threshold = r.threshold;
          },
        )
    | inr e ↦ (
      s,
      rw e,
      record {
        valid = valid;
        reads = λ q. refl;
        addrs = λ q. refl;
        entries = refl;
        capacity = rw e;
        threshold = refl;
      },
    )
  ]

  -- One entry more than a light table holds is light again once the table has grown.
  pub light_again :
      {s s' : Store K V}
      → IsValid s
      → Grown s s'
      → s.load_factor_threshold.den ≤ 2 * s.load_factor_threshold.num
      → s.metrics.num_entries * s.load_factor_threshold.den
        ≤ s.capacity * s.load_factor_threshold.num + s.load_factor_threshold.den
      → needs_resize s' ≡ false
  light_again {s} {s'} valid g half light = elim (Bool-cases (needs_resize s')) [
    | inr e ↦ e
    | inl e ↦
        let over = (needs_resize_iff g.valid).0 e in
        let heavy = rw (g.capacity, g.entries, g.threshold) at over in
        let light' =
          room s.metrics.num_entries s.capacity s.load_factor_threshold.num
            s.load_factor_threshold.den (capacity_pos valid) half light in
        absurd (elim (Bool-cases (needs_resize s)) [
          | inl grew ↦ omega (arith, rw grew at heavy, light')
          | inr same ↦ ground (arith, rw same at heavy, (needs_resize_iff valid).1)
        ])
  ]
