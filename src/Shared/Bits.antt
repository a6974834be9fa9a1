-- ===== src/Shared/Bits.antt =====
-- `&` with a mask of low bits is a remainder, and `c & (c - 1)` is zero at the powers of two alone.
use Prim.Native.Nat.{digits, bit_and-bitwise}
use native.Mathlib.Nat.{pow-suc, one-le-pow, mul_comm, mod_self}
use chrono_cache.Shared.{
  ℕ, zero, suc, ◌+◌, ◌-◌, ◌*◌, ◌/◌, ◌%◌, ◌^◌, ◌≤◌, ◌<◌, min, bit_and, ◌≡◌, refl, sym, ◌∙◌, ap,
  arith, inl, inr, ◌⊎◌, ◌↔◌,
}

-- The recursion on binary digits that `bit_and` stands for, with `n` digits at most.
abbrev and_digits : ℕ → ℕ → ℕ → ℕ
and_digits n a b = digits (λ _. 0) min n a b

and_digits-zero : (n a : ℕ) → a ≤ n → and_digits n a 0 ≡ 0
and_digits-zero zero a h = refl
and_digits-zero (suc n) zero h = refl
and_digits-zero (suc n) (suc a) h = omega (arith, and_digits-zero n (suc a / 2) (omega arith))

and_digits_self : (n a : ℕ) → a ≤ n → and_digits n a a ≡ a
and_digits_self zero zero h = refl
and_digits_self zero (suc a) h = absurd (omega arith)
and_digits_self (suc n) zero h = refl
and_digits_self (suc n) (suc a) h = omega (arith, and_digits_self n (suc a / 2) (omega arith))

mod_double : (a p : ℕ) → 0 < p → a % (2 * p) ≡ a / 2 % p * 2 + a % 2
mod_double a p h = grind arith

and_digits_mask : (n a k : ℕ) → a ≤ n → and_digits n a (2 ^ k - 1) ≡ a % 2 ^ k
and_digits_mask n a zero h = omega (arith, and_digits-zero n a h)
and_digits_mask zero zero (suc k) h = omega arith
and_digits_mask zero (suc a) (suc k) h = absurd (omega arith)
and_digits_mask (suc n) zero (suc k) h = omega arith
and_digits_mask (suc n) (suc a) (suc k) h =
    let positive : 0 < 2 ^ k = one-le-pow k 2 (omega arith) in
    let halved : (2 ^ suc k - 1) / 2 ≡ 2 ^ k - 1 = omega (arith, pow-suc 2 k) in
    rw halved (
      omega (
        arith,
        pow-suc 2 k,
        mod_double (suc a) (2 ^ k) positive,
        and_digits_mask n (suc a / 2) k (omega arith),
        ap (λ (m : ℕ). suc a % m) (pow-suc 2 k ∙ mul_comm (2 ^ k) 2),
      ))

-- A mask of `k` low bits is the remainder by `2 ^ k`.
pub bit_and_mask : (a k : ℕ) → bit_and a (2 ^ k - 1) ≡ a % 2 ^ k
bit_and_mask a k = bit_and-bitwise a (2 ^ k - 1) ∙ and_digits_mask a a k (omega arith)

mod-two_cases : (a : ℕ) → (a % 2 ≡ 0) ⊎ (a % 2 ≡ 1)
mod-two_cases a = grind arith

and_digits_pred : (n c : ℕ) → c ≤ n → 0 < c → and_digits n c (c - 1) ≡ 0 → (k : ℕ) × (c ≡ 2 ^ k)
and_digits_pred n zero h p e = absurd (omega arith)
and_digits_pred zero (suc c) h p e = absurd (omega arith)
and_digits_pred (suc n) (suc zero) h p e = (0, refl)
and_digits_pred (suc n) (suc (suc c)) h p e =
    let half = suc (suc c) / 2 in
    let low : and_digits n half ((suc (suc c) - 1) / 2) ≡ 0 = omega arith in
    elim (mod-two_cases (suc (suc c))) [
      | inl even ↦
          let halved : (suc (suc c) - 1) / 2 ≡ half - 1 = omega arith in
          let (k, found) = and_digits_pred n half (omega arith) (omega arith) (rw halved at low) in
          (suc k, omega (arith, pow-suc 2 k))
      | inr odd ↦
          let halved : (suc (suc c) - 1) / 2 ≡ half = omega arith in
          let none_left : and_digits n half half ≡ 0 = rw halved at low in
          absurd (omega (arith, and_digits_self n half (omega arith)))
    ]

-- `(c & (c - 1)) == 0` says of a positive `c` that it is a power of two.
pub bit_and-pred_iff : (c : ℕ) → 0 < c → (bit_and c (c - 1) ≡ 0) ↔ ((k : ℕ) × (c ≡ 2 ^ k))
bit_and-pred_iff c p = (
  λ e. and_digits_pred c c (omega arith) p (sym (bit_and-bitwise c (c - 1)) ∙ e),
  λ (k, e). rw e (omega (arith, bit_and_mask (2 ^ k) k, mod_self (2 ^ k))),
)
