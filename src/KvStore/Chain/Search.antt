-- ===== src/KvStore/Chain/Search.antt =====
-- Chains of src/cpp/cache/kv_store searched by key: where a search stops, and what appending,
-- unlinking and writing a node do to later searches.
use mathlib.Core.Option.{or_else}
use chrono_cache.Shared.{
  ℕ, ◌+◌, ◌≤◌, ◌≡◌, refl, ap, subst, true, Option, none, some, [], ◌∷◌, ◌++◌, arith, tally,
  tally-append, if◌then◌else◌, inl, inr, Bool-cases,
}
use chrono_cache.KvStore.Key.{Key, ◌≈◌}
use chrono_cache.KvStore.Chain.{Node, Chain, find, find_with_prev}
use chrono_cache.KvStore.Chain.Laws.{last_or}

module _ {ℓ κ} {K : Type ℓ} {V : Type κ} ⦃key : Key K⦄ where
  abbrev pub key_hit : K → Node K V → ℕ
  key_hit q n = if n.key ≈ q then 1 else 0

  -- What the node of the key holds, by a reading of nodes such as its value or its address.
  abbrev pub read_at {μ} : {B : Type μ} → (Node K V → B) → K → Chain K V → Option B
  read_at f q [] = none
  read_at f q (n ∷ c) = if n.key ≈ q then some (f n) else read_at f q c

  module _ {μ} {B : Type μ} (f : Node K V → B) where
    pub read_at_absent : (q : K) (c : Chain K V) → tally (key_hit q) c ≡ 0 → read_at f q c ≡ none
    read_at_absent q [] h = refl
    read_at_absent q (n ∷ c) h = ground (arith, read_at_absent q c)

    pub read_at-append :
        (q : K) (xs ys : Chain K V)
        → read_at f q (xs ++ ys) ≡ or_else (read_at f q xs) (read_at f q ys)
    unfolding or_else
    read_at-append q [] ys = refl
    read_at-append q (n ∷ xs) ys = rw (read_at-append q xs ys) (ground arith)

    -- What `find` gives is what `read_at` reads.
    pub read_at-find :
        (k : K) (c : Chain K V) (n : Node K V) → find k c ≡ some n → read_at f k c ≡ some (f n)
    unfolding find
    read_at-find k [] n e = cc
    read_at-find k (m ∷ c) n e = elim (Bool-cases (m.key ≈ k)) [
      | inl p ↦ let same : m ≡ n = cc (rw p at e) in rw (p, same)
      | inr p ↦ rw p (read_at-find k c n (rw p at e))
    ]

  pub find_absent : (q : K) (c : Chain K V) → find q c ≡ none → tally (key_hit q) c ≡ 0
  unfolding find
  find_absent q [] h = refl
  find_absent q (n ∷ c) h = ground (arith, find_absent q c)

  pub find_with_prev_absent :
      (q : K) (p : Option ℕ) (c : Chain K V) → find q c ≡ none → find_with_prev q p c ≡ none
  unfolding find find_with_prev
  find_with_prev_absent q p [] h = refl
  find_with_prev_absent q p (n ∷ c) h = ground (arith, find_with_prev_absent q (some n.addr) c)

  -- Where a search stops.
  pub record Stops (k : K) (c : Chain K V) (n : Node K V) : Type (ℓ ⊔ κ) where
    pub front : Chain K V
    pub rest : Chain K V
    pub split : c ≡ front ++ n ∷ rest
    pub hit : (n.key ≈ k) ≡ true
    pub missed : tally (key_hit k) front ≡ 0
    pub with_prev : (p : Option ℕ) → find_with_prev k p c ≡ some (last_or p front, n)

  pub find-Stops : (k : K) (c : Chain K V) (n : Node K V) → find k c ≡ some n → Stops k c n
  unfolding find find_with_prev
  find-Stops k [] n e = cc
  find-Stops k (m ∷ c) n e = elim (Bool-cases (m.key ≈ k)) [
    | inl here ↦
        let same : m ≡ n = cc (rw here at e) in
        subst (Stops k (m ∷ c)) same (record {
          front = [];
          rest = c;
          split = refl;
          hit = here;
          missed = refl;
          with_prev = λ p. rw here;
        })
    | inr later ↦
        let s = find-Stops k c n (rw later at e) in
        record {
          front = m ∷ s.front;
          rest = s.rest;
          split = ap (λ ys. m ∷ ys) s.split;
          hit = s.hit;
          missed = ground (arith, s.missed);
          with_prev = λ p. rw later (s.with_prev (some m.addr));
        }
  ]

  module _ (k : K) (c : Chain K V) (n : Node K V) (s : Stops k c n) where
    same_key : n.key ≡ k
    same_key = (key.equal_iff n.key k).0 s.hit

    -- Taking the node out.
    pub tally_unlinked : (f : Node K V → ℕ) → tally f (s.front ++ s.rest) + f n ≡ tally f c
    tally_unlinked f =
        rw s.split
          (omega (arith, tally-append f s.front s.rest, tally-append f s.front (n ∷ s.rest)))

    module _ {μ} {B : Type μ} (f : Node K V → B) (q : K) where
      pub read_at_unlinked :
          tally (key_hit q) c ≤ 1
          → read_at f q (s.front ++ s.rest) ≡ (if k ≈ q then none else read_at f q c)
      unfolding or_else
      read_at_unlinked once =
          rw (s.split, read_at-append f q s.front s.rest, read_at-append f q s.front (n ∷ s.rest))
            (ground (
              arith,
              same_key,
              rw s.split at once,
              tally-append (key_hit q) s.front (n ∷ s.rest),
              read_at_absent f q s.front,
              read_at_absent f q s.rest,
            ))

      -- Putting another node of the same key in its place.
      pub read_at_written :
          (n' : Node K V)
          → n'.key ≡ n.key
          → read_at f q (s.front ++ n' ∷ s.rest) ≡ (if k ≈ q then some (f n') else read_at f q c)
      unfolding or_else
      read_at_written n' e =
          rw
            (
              s.split,
              read_at-append f q s.front (n' ∷ s.rest),
              read_at-append f q s.front (n ∷ s.rest),
            )
            (ground
              (arith, e, same_key, (key.equal_iff k q).0, s.missed, read_at_absent f q s.front))

    pub tally_written :
        (n' : Node K V) (f : Node K V → ℕ)
        → f n' ≡ f n
        → tally f (s.front ++ n' ∷ s.rest) ≡ tally f c
    tally_written n' f e =
        rw s.split
          (omega (arith, tally-append f s.front (n' ∷ s.rest), tally-append f s.front (n ∷ s.rest)))
