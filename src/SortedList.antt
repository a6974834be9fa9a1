-- ===== src/SortedList.antt =====
-- The abstract view of an ordered tree: a strictly sorted list, over a Boolean comparison.
-- An independent specification for src/cpp/cache/sorted_sets/tree.cpp; no code is modelled here.
pub mod Laws
pub mod Split
use chrono_cache.Shared.{ℕ, ◌+◌, ◌≡◌, Bool, true, false, List, [], ◌∷◌, if◌then◌else◌}

-- The `operator<` that a container is built on.
pub record Order {ℓ} (A : Type ℓ) : Type ℓ where
  pub less : A → A → Bool

-- What the comparison must satisfy for an ordered container to work.
pub record IsStrict {ℓ} {A : Type ℓ} (o : Order A) : Type ℓ where
  pub irrefl : (a : A) → o.less a a ≡ false
  pub trans : (a b c : A) → o.less a b ≡ true → o.less b c ≡ true → o.less a c ≡ true
  pub connected : (a b : A) → o.less a b ≡ false → o.less b a ≡ false → a ≡ b

module _ {ℓ} {A : Type ℓ} ⦃o : Order A⦄ where
  infix 50 ◌≺◌
  abbrev pub ◌≺◌ : A → A → Type 0
  a ≺ b = o.less a b ≡ true

  -- Every element of the list is below `b`.
  abbrev pub AllBelow : List A → A → Type 0
  AllBelow [] b = Unit
  AllBelow (x ∷ xs) b = x ≺ b × AllBelow xs b

  -- Every element of the list is above `b`.
  abbrev pub AllAbove : List A → A → Type 0
  AllAbove [] b = Unit
  AllAbove (x ∷ xs) b = b ≺ x × AllAbove xs b

  abbrev pub IsSorted : List A → Type 0
  IsSorted [] = Unit
  IsSorted (x ∷ xs) = AllAbove xs x × IsSorted xs

  -- Puts `v` in its place; an element that is neither below nor above `v` is kept.
  unfoldable pub insert : A → List A → List A
  insert v [] = v ∷ []
  insert v (x ∷ xs) =
      let later = x ∷ insert v xs in
      if o.less v x then v ∷ x ∷ xs else if o.less x v then later else x ∷ xs

  -- Takes out the elements that are neither below nor above `v`.
  unfoldable pub remove : A → List A → List A
  remove v [] = []
  remove v (x ∷ xs) =
      let rest = remove v xs in
      if o.less v x then x ∷ rest else if o.less x v then x ∷ rest else rest

  -- How many elements are below `v`.
  unfoldable pub rank : A → List A → ℕ
  rank v [] = 0
  rank v (x ∷ xs) = (if o.less x v then 1 else 0) + rank v xs

  -- Whether some element is neither below nor above `v`.
  unfoldable pub contains : A → List A → Bool
  contains v [] = false
  contains v (x ∷ xs) =
      let rest = contains v xs in if o.less v x then rest else if o.less x v then rest else true
