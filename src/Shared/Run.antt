-- ===== src/Shared/Run.antt =====
-- C++ calls that may throw, or whose behaviour the language leaves undefined.
use chrono_cache.Shared.{
  ℕ, zero, suc, ◌<◌, ◌≡◌, refl, List, [], ◌∷◌, arith, length, get_or, Bool, true, false,
  if◌then◌else◌, ◌&&◌, ◌^◌, ◌-◌,
}
use Prim.Native.String.{String}
use chrono_cache.Shared.Int.{ℤ, pos, negsuc, leb_ℤ}

-- A thrown `std::exception` with its `what()`, a failed assertion, undefined behaviour, or the end of the
-- model's fuel.
pub data Error : Type 0 where
  exception : String → Error
  aborted : Error
  undefined : Error
  out_of_fuel : Error

pub data Run {ℓ} (A : Type ℓ) : Type ℓ where
  ok : A → Run A
  err : Error → Run A

-- A call, and then what uses its value: an error ends both.
infixl 5 ◌>>=◌
abbrev pub ◌>>=◌ {ℓ κ} : {A : Type ℓ} {B : Type κ} → Run A → (A → Run B) → Run B
err problem >>= rest = err problem
ok value >>= rest = rest value

-- The call returns a value that satisfies `P`.
abbrev pub Returns {ℓ κ} : {A : Type ℓ} → Run A → (A → Type κ) → Type (ℓ ⊔ κ)
Returns {A} call Q = (value : A) × (call ≡ ok value) × Q value

-- A value that the code computes on `int64_t`: undefined where it overflows.
unfoldable pub int64 : ℤ → Run ℤ
int64 z =
    if leb_ℤ (negsuc (2 ^ 63 - 1)) z && leb_ℤ z (pos (2 ^ 63 - 1)) then ok z else err undefined

-- `v[i]` on a vector: undefined out of range.
unfoldable pub at {ℓ} : {A : Type ℓ} → List A → ℕ → Run A
at [] i = err undefined
at (x ∷ xs) zero = ok x
at (x ∷ xs) (suc i) = at xs i

pub at-get_or {ℓ} :
    {A : Type ℓ} (v : List A) (i : ℕ) (d : A) → i < length v → at v i ≡ ok (get_or v i d)
unfolding at
at-get_or [] i d inside = absurd (omega arith)
at-get_or (first ∷ v) zero d inside = refl
at-get_or (first ∷ v) (suc i) d inside = at-get_or v i d (omega arith)

-- Two continuations that agree on what the call returns.
pub bind_ext {ℓ κ} :
    {A : Type ℓ} {B : Type κ} (call : Run A) (f g : A → Run B)
    → ((value : A) → call ≡ ok value → f value ≡ g value)
    → (call >>= f) ≡ (call >>= g)
bind_ext (err problem) f g same = refl
bind_ext (ok value) f g same = same value refl

-- The call throws nothing, fails no assertion and has fuel enough; where it is defined, its value satisfies `Q`.
abbrev pub IsSafe {ℓ} : {A : Type ℓ} → (A → Type 0) → Run A → Type 0
IsSafe Q (ok value) = Q value
IsSafe Q (err (exception what)) = ⊥
IsSafe Q (err aborted) = ⊥
IsSafe Q (err undefined) = Unit
IsSafe Q (err out_of_fuel) = ⊥

pub IsSafe-bind {ℓ κ} :
    {A : Type ℓ} {B : Type κ} (Q : A → Type 0) (R : B → Type 0) (call : Run A) (rest : A → Run B)
    → IsSafe Q call
    → ((value : A) → Q value → IsSafe R (rest value))
    → IsSafe R (call >>= rest)
IsSafe-bind Q R (ok value) rest safe h = h value safe
IsSafe-bind Q R (err (exception what)) rest safe h = absurd safe
IsSafe-bind Q R (err aborted) rest safe h = absurd safe
IsSafe-bind Q R (err undefined) rest safe h = tt
IsSafe-bind Q R (err out_of_fuel) rest safe h = absurd safe

pub IsSafe-if {ℓ} :
    {A : Type ℓ} (Q : A → Type 0) (b : Bool) (x y : Run A)
    → IsSafe Q x
    → IsSafe Q y
    → IsSafe Q (if b then x else y)
IsSafe-if Q true x y hx hy = hx
IsSafe-if Q false x y hx hy = hy

pub at-IsSafe {ℓ} : {A : Type ℓ} (v : List A) (i : ℕ) → IsSafe (λ x. Unit) (at v i)
unfolding at
at-IsSafe [] i = tt
at-IsSafe (x ∷ v) zero = tt
at-IsSafe (x ∷ v) (suc i) = at-IsSafe v i

pub bind_assoc {ℓ κ ν} :
    {A : Type ℓ} {B : Type κ} {C : Type ν} (call : Run A) (f : A → Run B) (g : B → Run C)
    → ((call >>= f) >>= g) ≡ (call >>= λ value. f value >>= g)
bind_assoc (err problem) f g = refl
bind_assoc (ok value) f g = refl

-- A sequence that returns is made of calls that return.
pub bind_ok {ℓ κ} :
    {A : Type ℓ} {B : Type κ} (call : Run A) (f : A → Run B) (r : B)
    → (call >>= f) ≡ ok r
    → (value : A) × (call ≡ ok value) × (f value ≡ ok r)
bind_ok (err problem) f r e = absurd (cc e)
bind_ok (ok value) f r e = (value, refl, e)

pub IsSafe-weaken {ℓ} :
    {A : Type ℓ} (Q R : A → Type 0) (call : Run A)
    → ((value : A) → Q value → R value)
    → IsSafe Q call
    → IsSafe R call
IsSafe-weaken Q R (ok value) h safe = h value safe
IsSafe-weaken Q R (err (exception what)) h safe = safe
IsSafe-weaken Q R (err aborted) h safe = safe
IsSafe-weaken Q R (err undefined) h safe = tt
IsSafe-weaken Q R (err out_of_fuel) h safe = safe
