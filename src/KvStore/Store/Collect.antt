-- ===== src/KvStore/Store/Collect.antt =====
-- The nodes of a table (src/cpp/cache/kv_store/store.h) in one list, as `resize` collects them: what is
-- zero in every bucket but one is that bucket's, and so is what a key reads.
use mathlib.Core.Option.{or_else}
use chrono_cache.Shared.{
  ℕ, zero, suc, ◌≡◌, ◌≢◌, refl, ap, ◌∙◌, Option, none, some, List, [], ◌∷◌, arith, tally,
  tally-append, get_or, replicate,
}
use chrono_cache.KvStore.Key.{Key}
use chrono_cache.KvStore.Chain.{Node, Chain}
use chrono_cache.KvStore.Chain.Search.{key_hit, read_at, read_at_absent, read_at-append}
use chrono_cache.KvStore.Store.{collect}

pub or_else-none {ℓ} : {A : Type ℓ} (o : Option A) → or_else o none ≡ o
unfolding or_else
or_else-none none = refl
or_else-none (some a) = refl

module _ {ℓ κ} {K : Type ℓ} {V : Type κ} where
  pub collect-replicate : (n : ℕ) → collect {K = K} {V = V} (replicate n []) ≡ []
  unfolding collect
  collect-replicate zero = refl
  collect-replicate (suc n) = collect-replicate n

  -- A measure that is zero in every bucket but one is that bucket's.
  tally-collect_nowhere :
      (f : Node K V → ℕ) (bs : List (Chain K V))
      → ((i : ℕ) → tally f (get_or bs i []) ≡ 0)
      → tally f (collect bs) ≡ 0
  unfolding collect
  tally-collect_nowhere f [] h = refl
  tally-collect_nowhere f (b ∷ bs) h =
      omega (arith, tally-append f b (collect bs), h 0, tally-collect_nowhere f bs (λ i. h (suc i)))

  pub tally-collect_only :
      (f : Node K V → ℕ) (bs : List (Chain K V)) (j : ℕ)
      → ((i : ℕ) → i ≢ j → tally f (get_or bs i []) ≡ 0)
      → tally f (collect bs) ≡ tally f (get_or bs j [])
  unfolding collect
  tally-collect_only f [] j h = refl
  tally-collect_only f (b ∷ bs) zero h = omega (
    arith,
    tally-append f b (collect bs),
    tally-collect_nowhere f bs (λ i. h (suc i) (omega arith)),
  )
  tally-collect_only f (b ∷ bs) (suc j) h = omega (
    arith,
    tally-append f b (collect bs),
    h 0 (omega arith),
    tally-collect_only f bs j (λ i n. h (suc i) (omega arith)),
  )

module _ {ℓ κ} {K : Type ℓ} {V : Type κ} ⦃key : Key K⦄ where
  pub read_at-collect {μ} :
      {B : Type μ} (f : Node K V → B) (q : K) (bs : List (Chain K V)) (j : ℕ)
      → ((i : ℕ) → i ≢ j → tally (key_hit q) (get_or bs i []) ≡ 0)
      → read_at f q (collect bs) ≡ read_at f q (get_or bs j [])
  unfolding collect or_else
  read_at-collect f q [] j h = refl
  read_at-collect f q (b ∷ bs) zero h =
      read_at-append f q b (collect bs)
      ∙ ap (or_else (read_at f q b)) (
          read_at_absent f q (collect bs)
            (tally-collect_nowhere (key_hit q) bs (λ i. h (suc i) (omega arith))))
      ∙ or_else-none (read_at f q b)
  read_at-collect f q (b ∷ bs) (suc j) h =
      rw (read_at-append f q b (collect bs), read_at_absent f q b (h 0 (omega arith)))
        (read_at-collect f q bs j (λ i n. h (suc i) (omega arith)))
