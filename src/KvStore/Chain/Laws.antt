-- ===== src/KvStore/Chain/Laws.antt =====
-- Laws of the chains of src/cpp/cache/kv_store/node.h: counting nodes by key and by address, and what
-- the pointer operations do on a chain that is split at a node.
use chrono_cache.Shared.{
  ℕ, ◌≤◌, ◌≡◌, refl, ap, Option, some, [], ◌∷◌, ◌++◌, arith, tally, tally-append, ◌==◌,
  if◌then◌else◌,
}
use chrono_cache.Shared.Run.{ok}
use chrono_cache.KvStore.Chain.{Node, Chain, next_in_bucket, set_next, write_value}

module _ {ℓ κ} {K : Type ℓ} {V : Type κ} where
  abbrev pub addr_hit : ℕ → Node K V → ℕ
  addr_hit a n = if n.addr == a then 1 else 0

  abbrev pub one : Node K V → ℕ
  one n = 1

  -- The address of the last node, or `p` where there is none.
  abbrev pub last_or : Option ℕ → Chain K V → Option ℕ
  last_or p [] = p
  last_or p (n ∷ c) = last_or (some n.addr) c

  pub last_or-append :
      (p : Option ℕ) (xs ys : Chain K V) → last_or p (xs ++ ys) ≡ last_or (last_or p xs) ys
  last_or-append p [] ys = refl
  last_or-append p (x ∷ xs) ys = last_or-append (some x.addr) xs ys

  -- A chain that is not empty ends in a node.
  pub last_split :
      (h : Node K V) (c : Chain K V) (p : Option ℕ)
      → (xs : Chain K V) × (m : Node K V) × (h ∷ c ≡ xs ++ m ∷ [])
        × (last_or p (h ∷ c) ≡ some m.addr)
  last_split h [] p = ([], h, refl, refl)
  last_split h (h' ∷ c) p =
      let (xs, m, e, l) = last_split h' c (some h.addr) in (h ∷ xs, m, ap (λ ys. h ∷ ys) e, l)

  pub next_in_bucket-split :
      (xs : Chain K V) (n : Node K V) (ys : Chain K V)
      → tally (addr_hit n.addr) xs ≡ 0
      → next_in_bucket n.addr (xs ++ n ∷ ys) ≡ ok ys
  unfolding next_in_bucket
  next_in_bucket-split [] n ys h = ground arith
  next_in_bucket-split (x ∷ xs) n ys h = ground (arith, next_in_bucket-split xs n ys)

  pub set_next-split :
      (xs : Chain K V) (n : Node K V) (ys rest : Chain K V)
      → tally (addr_hit n.addr) xs ≡ 0
      → set_next n.addr rest (xs ++ n ∷ ys) ≡ ok (xs ++ n ∷ rest)
  unfolding set_next
  set_next-split [] n ys rest h = ground arith
  set_next-split (x ∷ xs) n ys rest h = ground (arith, set_next-split xs n ys rest)

  -- A write to an address that is not in the chain changes nothing.
  write_value_absent :
      (a : ℕ) (v : V) (c : Chain K V) → tally (addr_hit a) c ≡ 0 → write_value a v c ≡ c
  unfolding write_value
  write_value_absent a v [] h = refl
  write_value_absent a v (n ∷ c) h = ground (arith, write_value_absent a v c)

  pub write_value-split :
      (xs : Chain K V) (n : Node K V) (ys : Chain K V) (v : V)
      → tally (addr_hit n.addr) xs ≡ 0
      → tally (addr_hit n.addr) ys ≡ 0
      → write_value n.addr v (xs ++ n ∷ ys) ≡ xs ++ record n { value = v } ∷ ys
  unfolding write_value
  write_value-split [] n ys v h k = ground (arith, write_value_absent n.addr v ys)
  write_value-split (x ∷ xs) n ys v h k = ground (arith, write_value-split xs n ys v)

  -- No address twice: what a split chain knows of the address at the split.
  abbrev pub AreDistinct : Chain K V → Type 0
  AreDistinct c = (a : ℕ) → tally (addr_hit a) c ≤ 1

  pub AreDistinct-split :
      (xs : Chain K V) (n : Node K V) (ys : Chain K V)
      → AreDistinct (xs ++ n ∷ ys)
      → (tally (addr_hit n.addr) xs ≡ 0) × (tally (addr_hit n.addr) ys ≡ 0)
  AreDistinct-split xs n ys d = ground (arith, d n.addr, tally-append (addr_hit n.addr) xs (n ∷ ys))
