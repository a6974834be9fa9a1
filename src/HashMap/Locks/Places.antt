-- ===== src/HashMap/Locks/Places.antt =====
-- How the places of two threads bear on each other, in the locks of src/cpp/cache/kv_store/hash_map.h.
use chrono_cache.Shared.{
  ℕ, ◌≡◌, ◌≢◌, refl, sym, ap, ◌∙◌, Bool, true, false, ◌&&◌, Option, none, some, ◌==◌, arith,
  Bool-cases, inl, inr,
}
use chrono_cache.HashMap.Locks.{
  Place, outside, entered, located, inside, leaving, resizing, holds_resize, is_resizing, blocks,
  update,
}

abbrev pub same_slice : Option ℕ → Option ℕ → Bool
same_slice none m = false
same_slice (some n) none = false
same_slice (some n) (some m) = n == m

same_slice-none : (n : Option ℕ) → same_slice n none ≡ false
same_slice-none none = refl
same_slice-none (some n) = refl

-- A relation that only a thread has with itself stays so where one thread moves to a place that has it with
-- no other thread's.
pub pairs-update {ℓ} :
    {A : Type ℓ} (R : A → A → Bool) (f : ℕ → A) (i : ℕ) (p : A)
    → ((a b : ℕ) → R (f a) (f b) ≡ true → a ≡ b)
    → ((j : ℕ) → i ≢ j → (R p (f j) ≡ false) × (R (f j) p ≡ false))
    → (a b : ℕ) → R (update f i p a) (update f i p b) ≡ true
    → a ≡ b
pairs-update R f i p old apart a b h = elim (Bool-cases (i == a)) [
  | inl ha ↦ elim (Bool-cases (i == b)) [
    | inl hb ↦ ground (arith, ha, hb)
    | inr hb ↦
        let off : R (update f i p a) (update f i p b) ≡ false =
          rw (ha, hb) ((apart b (ground (arith, hb))).0) in
        absurd (cc (sym off ∙ h))
  ]
  | inr ha ↦ elim (Bool-cases (i == b)) [
    | inl hb ↦
        let off : R (update f i p a) (update f i p b) ≡ false =
          rw (ha, hb) ((apart a (ground (arith, ha))).1) in
        absurd (cc (sym off ∙ h))
    | inr hb ↦
        let same : R (update f i p a) (update f i p b) ≡ R (f a) (f b) = rw (ha, hb) refl in
        old a b (sym same ∙ h)
  ]
]

module _ {ℓ} {K : Type ℓ} where
  -- The slice that a thread is in.
  abbrev pub slice_at : Place K → Option ℕ
  slice_at outside = none
  slice_at (entered k w) = none
  slice_at (located k w n) = none
  slice_at (inside k w n) = some n
  slice_at leaving = none
  slice_at resizing = none

  -- The slice that a thread writes in.
  abbrev pub writes_in : Place K → Option ℕ
  writes_in outside = none
  writes_in (entered k w) = none
  writes_in (located k w n) = none
  writes_in (inside k true n) = some n
  writes_in (inside k false n) = none
  writes_in leaving = none
  writes_in resizing = none

  -- The first thread writes in the slice that the second is in.
  abbrev pub clash : Place K → Place K → Bool
  clash p q = same_slice (writes_in p) (slice_at q)

  -- Two threads of which the first is in no slice.
  pub clash_away :
      (p q : Place K)
      → slice_at p ≡ none
      → writes_in p ≡ none
      → (clash p q ≡ false) × (clash q p ≡ false)
  clash_away p q a b = (
    ap (λ n. same_slice n (slice_at q)) b,
    ap (same_slice (writes_in q)) a ∙ same_slice-none (writes_in q),
  )

  pub clash-blocks :
      (k : K) (w : Bool) (n : ℕ) (q : Place K)
      → blocks w n q ≡ false
      → (clash (inside k w n) q ≡ false) × (clash q (inside k w n) ≡ false)
  clash-blocks k true n (inside q true m) free = (ground (arith, free), ground (arith, free))
  clash-blocks k true n (inside q false m) free = (ground (arith, free), refl)
  clash-blocks k false n (inside q true m) free = (refl, ground (arith, free))
  clash-blocks k false n (inside q false m) free = (refl, refl)
  clash-blocks k w n outside free = (same_slice-none (writes_in (inside k w n)), refl)
  clash-blocks k w n (entered q v) free = (same_slice-none (writes_in (inside k w n)), refl)
  clash-blocks k w n (located q v m) free = (same_slice-none (writes_in (inside k w n)), refl)
  clash-blocks k w n leaving free = (same_slice-none (writes_in (inside k w n)), refl)
  clash-blocks k w n resizing free = (same_slice-none (writes_in (inside k w n)), refl)

module _ {ℓ} {K : Type ℓ} where
  -- The first thread resizes and the second holds the resize lock.
  abbrev pub bars : Place K → Place K → Bool
  bars p q = is_resizing p && holds_resize q

  -- Two threads of which neither resizes.
  pub bars_calm :
      (p q : Place K)
      → is_resizing p ≡ false
      → is_resizing q ≡ false
      → (bars p q ≡ false) × (bars q p ≡ false)
  bars_calm p q a b = (ap (λ x. x && holds_resize q) a, ap (λ x. x && holds_resize p) b)

  pub resizing_holds : (p : Place K) → holds_resize p ≡ false → is_resizing p ≡ false
  resizing_holds outside free = refl
  resizing_holds (entered k w) free = refl
  resizing_holds (located k w n) free = refl
  resizing_holds (inside k w n) free = refl
  resizing_holds leaving free = refl
  resizing_holds resizing free = free
