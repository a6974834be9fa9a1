-- ===== src/HashMap/Locks/Exclusion.antt =====
-- What the locks of src/cpp/cache/kv_store/hash_map.h keep apart.
use chrono_cache.Shared.{
  ℕ, ◌≡◌, ◌≢◌, refl, sym, ap, ◌∙◌, subst, Bool, true, false, ◌&&◌, Option, none, some, ◌==◌, ==_iff,
  Bool-cases, inl, inr,
}
use chrono_cache.KvStore.Key.{Key}
use chrono_cache.KvStore.Store.{Store, bucket_of}
use chrono_cache.KvStore.Store.Invariant.{IsValid}
use chrono_cache.KvStore.Store.Methods.{Writes, set_value-Writes, remove-Writes}
use chrono_cache.HashMap.{compute_slice_index, slice_of}
use chrono_cache.HashMap.Load.{maybe_resize-Grown}
use chrono_cache.HashMap.Locks.{
  Place, outside, entered, located, inside, leaving, resizing, System, holds_resize, is_resizing,
  move, Step, enter, locate, lock_slice, write_value, remove_key, unlock_slice, leave, lock_resize,
  grow, unlock_resize, Reach, begin, later,
}
use chrono_cache.HashMap.Locks.Places.{
  pairs-update, slice_at, writes_in, clash, bars, bars_calm, clash_away, clash-blocks,
  resizing_holds,
}

module _ {ℓ κ} {K : Type ℓ} {V : Type κ} ⦃key : Key K⦄ where
  -- The slice that a thread has computed is still that of its key.
  abbrev pub IsRight : Store K V → Place K → Type 0
  IsRight s outside = Unit
  IsRight s (entered k w) = Unit
  IsRight s (located k w n) = n ≡ slice_of s k
  IsRight s (inside k w n) = n ≡ slice_of s k
  IsRight s leaving = Unit
  IsRight s resizing = Unit

  pub record Inv (s : System K V) : Type (ℓ ⊔ κ) where
    pub valid : IsValid s.store
    pub alone : (i j : ℕ) → bars (s.place i) (s.place j) ≡ true → i ≡ j
    pub right : (i : ℕ) → IsRight s.store (s.place i)
    pub exclusive : (i j : ℕ) → clash (s.place i) (s.place j) ≡ true → i ≡ j

  -- What a thread must meet where it goes.
  record Fits (s : System K V) (i : ℕ) (p : Place K) : Type 0 where
    right : IsRight s.store p
    calm : (j : ℕ) → i ≢ j → (bars p (s.place j) ≡ false) × (bars (s.place j) p ≡ false)
    apart : (j : ℕ) → i ≢ j → (clash p (s.place j) ≡ false) × (clash (s.place j) p ≡ false)

  move-Inv : (s : System K V) (i : ℕ) (p : Place K) → Inv s → Fits s i p → Inv (move s i p)
  move-Inv s i p inv fits = record {
    valid = inv.valid;
    alone = pairs-update bars s.place i p inv.alone fits.calm;
    right =
        λ j. elim (Bool-cases (i == j)) [ inl h ↦ rw h fits.right | inr h ↦ rw h (inv.right j) ];
    exclusive = pairs-update clash s.place i p inv.exclusive fits.apart;
  }

  -- No other thread resizes while one holds the resize lock.
  calm_with :
      (s : System K V) (i j : ℕ)
      → Inv s
      → holds_resize (s.place i) ≡ true
      → i ≢ j
      → is_resizing (s.place j) ≡ false
  calm_with s i j inv held other = elim (Bool-cases (is_resizing (s.place j))) [
    | inl h ↦
        absurd (other (sym (inv.alone j i (ap (λ x. x && holds_resize (s.place i)) h ∙ held))))
    | inr h ↦ h
  ]

  slice_of-capacity :
      (s t : Store K V) (k : K) → t.capacity ≡ s.capacity → slice_of t k ≡ slice_of s k
  unfolding slice_of bucket_of
  slice_of-capacity s t k same = rw same refl

  IsRight-capacity :
      (s t : Store K V) (p : Place K) → t.capacity ≡ s.capacity → IsRight s p → IsRight t p
  IsRight-capacity s t outside same right = tt
  IsRight-capacity s t (entered k w) same right = tt
  IsRight-capacity s t (located k w n) same right = right ∙ sym (slice_of-capacity s t k same)
  IsRight-capacity s t (inside k w n) same right = right ∙ sym (slice_of-capacity s t k same)
  IsRight-capacity s t leaving same right = tt
  IsRight-capacity s t resizing same right = tt

  IsRight-free : (s : Store K V) (p : Place K) → holds_resize p ≡ false → IsRight s p
  IsRight-free s outside free = tt
  IsRight-free s (entered k w) free = tt
  IsRight-free s (located k w n) free = absurd (cc free)
  IsRight-free s (inside k w n) free = absurd (cc free)
  IsRight-free s leaving free = tt
  IsRight-free s resizing free = tt

  -- A write in the store leaves the slices of all keys where they are.
  write-Inv :
      (s : System K V) (k : K) (x : Option V) (store : Store K V)
      → Inv s
      → Writes s.store k x store
      → Inv (record s { store = store })
  write-Inv s k x store inv w = record {
    valid = w.valid;
    alone = inv.alone;
    right = λ j. IsRight-capacity s.store store (s.place j) w.capacity (inv.right j);
    exclusive = inv.exclusive;
  }

  -- The table grows while no other thread holds a slice.
  grow-Inv :
      (s : System K V) (i : ℕ) (store : Store K V)
      → Inv s
      → s.place i ≡ resizing
      → IsValid store
      → Inv (record s { store = store })
  grow-Inv s i store inv e valid = record {
    valid = valid;
    alone = inv.alone;
    right = λ j. elim (Bool-cases (holds_resize (s.place j))) [
      | inl h ↦
          let same : i ≡ j = inv.alone i j (ap (λ p. bars p (s.place j)) e ∙ h) in
          subst (IsRight store) (sym e ∙ ap s.place same) tt
      | inr h ↦ IsRight-free store (s.place j) h
    ];
    exclusive = inv.exclusive;
  }

  -- A thread that holds the resize lock as a reader, or gives it back, moves on outside of the slices.
  steps_away :
      (s : System K V) (i : ℕ) (p : Place K)
      → Inv s
      → holds_resize (s.place i) ≡ true
      → is_resizing p ≡ false
      → slice_at p ≡ none
      → writes_in p ≡ none
      → IsRight s.store p
      → Inv (move s i p)
  steps_away s i p inv held calm out quiet right = move-Inv s i p inv (record {
    right = right;
    calm = λ j other. bars_calm p (s.place j) calm (calm_with s i j inv held other);
    apart = λ j other. clash_away p (s.place j) out quiet;
  })

  pub Step-Inv : {s t : System K V} → Inv s → Step s t → Inv t
  Step-Inv {s} inv (enter i k w e free) = move-Inv s i (entered k w) inv (record {
    right = tt;
    calm = λ j other. bars_calm (entered k w) (s.place j) refl (free j);
    apart = λ j other. clash_away (entered k w) (s.place j) refl refl;
  })
  Step-Inv {s} inv (locate i k w e) =
      steps_away s i (located k w (slice_of s.store k)) inv (ap holds_resize e) refl refl refl refl
  Step-Inv {s} inv (lock_slice i k w n e free) = move-Inv s i (inside k w n) inv (record {
    right = subst (IsRight s.store) e (inv.right i);
    calm = λ j other.
        bars_calm (inside k w n) (s.place j) refl (calm_with s i j inv (ap holds_resize e) other);
    apart = λ j other. clash-blocks k w n (s.place j) (free j);
  })
  Step-Inv {s} inv (write_value i k n v store e run) =
      let (r, run', w) = set_value-Writes inv.valid k v in
      let same : r ≡ store = cc (sym run' ∙ run) in
      write-Inv s k (some v) store inv (subst (Writes s.store k (some v)) same w)
  Step-Inv {s} inv (remove_key i k n t e run) =
      let (r, run', (found, w)) = remove-Writes inv.valid k in
      let same : r ≡ t = cc (sym run' ∙ run) in
      write-Inv s k none t.1 inv (subst (λ u. Writes s.store k none u.1) same w)
  Step-Inv {s} inv (unlock_slice i k w n e) =
      steps_away s i leaving inv (ap holds_resize e) refl refl refl tt
  Step-Inv {s} inv (leave i e) = steps_away s i outside inv (ap holds_resize e) refl refl refl tt
  Step-Inv {s} inv (lock_resize i e free) = move-Inv s i resizing inv (record {
    right = tt;
    calm = λ j other. (free j, ap (λ x. x && true) (resizing_holds (s.place j) (free j)));
    apart = λ j other. clash_away resizing (s.place j) refl refl;
  })
  Step-Inv {s} inv (grow i store e small run) =
      let (r, run', g) = maybe_resize-Grown inv.valid small in
      let same : r ≡ store = cc (sym run' ∙ run) in
      grow-Inv s i store inv e (subst IsValid same g.valid)
  Step-Inv {s} inv (unlock_resize i e) =
      steps_away s i outside inv (ap holds_resize e) refl refl refl tt

  Reach-Inv : {start : Store K V} {s : System K V} → IsValid start → Reach start s → Inv s
  Reach-Inv valid begin = record {
    valid = valid;
    alone = λ i j h. absurd (cc h);
    right = λ i. tt;
    exclusive = λ i j h. absurd (cc h);
  }
  Reach-Inv valid (later reach step) = Step-Inv (Reach-Inv valid reach) step

  -- From a valid store, in every state that threads reach by taking and releasing the locks,
  -- writing, removing and growing a table of fewer than 2 ^ 30 buckets: a thread that holds the
  -- slice lock to write the key of a bucket, and a thread that holds a slice lock for a key of
  -- the same bucket, are the same thread; then no thread is resizing, and the store is valid.
  pub writer_alone :
      (start : Store K V) (s : System K V) (i j : ℕ) (k q : K) (w : Bool) (n m : ℕ)
      → IsValid start
      → Reach start s
      → s.place i ≡ inside k true n
      → s.place j ≡ inside q w m
      → bucket_of s.store k ≡ bucket_of s.store q
      → (i ≡ j) × ((r : ℕ) → s.place r ≢ resizing) × IsValid s.store
  unfolding slice_of
  writer_alone start s i j k q w n m valid reach e f same =
      let inv = Reach-Inv valid reach in
      let at_i : n ≡ slice_of s.store k = subst (IsRight s.store) e (inv.right i) in
      let at_j : m ≡ slice_of s.store q = subst (IsRight s.store) f (inv.right j) in
      let meet : n ≡ m = at_i ∙ ap compute_slice_index same ∙ sym at_j in
      (
        inv.exclusive i j (rw (e, f) ((==_iff n m).1 meet)),
        λ r g.
            let here : r ≡ i = inv.alone r i (rw (g, e) refl) in
            absurd (cc (sym g ∙ ap s.place here ∙ e)),
        inv.valid,
      )
