-- ===== src/Cache/Expiry.antt =====
-- The times of src/cpp/cache/cache_entry.h, on a clock that is not before 1970, as long as they fit.
use chrono_cache.Shared.{
  ℕ, suc, ◌+◌, ◌-◌, ◌*◌, ◌^◌, ◌≤◌, ◌<◌, ◌≡◌, refl, ap, ◌∙◌, true, false, Option, none, some, arith,
  leb, le_or_lt, inl, inr,
}
use chrono_cache.Shared.Int.{ℤ, pos, negsuc, sub_ℕ, add_ℤ, scale_ℤ, leb_ℤ}
use chrono_cache.Shared.Run.{ok, ◌>>=◌, int64}
use chrono_cache.Events.{World, nanos}
use chrono_cache.Cache.{deadline, new_entry, tick}

-- The time `ms` milliseconds behind `now`, or before it, in nanoseconds.
abbrev pub moved : ℕ → ℤ → ℤ
moved now (pos ms) = pos (now + ms * 1000000)
moved now (negsuc n) = sub_ℕ now ((n + 1) * 1000000)

abbrev pub expiry : ℕ → Option ℤ → Option ℤ
expiry now none = none
expiry now (some ms) = some (moved now ms)

-- The time and what is added to it fit an `int64_t`.
abbrev pub Fits : ℕ → ℤ → Type 0
Fits now (pos ms) = now + ms * 1000000 < 2 ^ 63
Fits now (negsuc n) = (now < 2 ^ 63) × ((n + 1) * 1000000 ≤ 2 ^ 63)

abbrev pub FitsIfSome : ℕ → Option ℤ → Type 0
FitsIfSome now none = Unit
FitsIfSome now (some ms) = Fits now ms

pub int64_pos : (n : ℕ) → n < 2 ^ 63 → int64 (pos n) ≡ ok (pos n)
unfolding int64
int64_pos n small =
    let low : leb_ℤ (negsuc (2 ^ 63 - 1)) (pos n) ≡ true = ground arith in
    let high : leb_ℤ (pos n) (pos (2 ^ 63 - 1)) ≡ true = ground arith in rw (low, high) refl

int64_negsuc : (n : ℕ) → n < 2 ^ 63 → int64 (negsuc n) ≡ ok (negsuc n)
unfolding int64
int64_negsuc n small =
    let low : leb_ℤ (negsuc (2 ^ 63 - 1)) (negsuc n) ≡ true = ground arith in
    let high : leb_ℤ (negsuc n) (pos (2 ^ 63 - 1)) ≡ true = ground arith in rw (low, high) refl

-- `sub_ℕ` on either side of 0.
sub_ℕ-above : (a b : ℕ) → b ≤ a → sub_ℕ a b ≡ pos (a - b)
sub_ℕ-above a b h = let here : leb b a ≡ true = ground arith in rw here refl

sub_ℕ-below : (a b : ℕ) → a < b → sub_ℕ a b ≡ negsuc (b - a - 1)
sub_ℕ-below a b h = let here : leb b a ≡ false = ground arith in rw here refl

int64-sub_ℕ : (a b : ℕ) → a < 2 ^ 63 → b ≤ 2 ^ 63 → int64 (sub_ℕ a b) ≡ ok (sub_ℕ a b)
int64-sub_ℕ a b small few = elim (le_or_lt b a) [
  | inl h ↦ rw (sub_ℕ-above a b h) (int64_pos (a - b) (omega arith))
  | inr h ↦ rw (sub_ℕ-below a b h) (int64_negsuc (b - a - 1) (omega arith))
]

scale_pos : (ms : ℕ) → scale_ℤ nanos (pos ms) ≡ pos (ms * 1000000)
scale_pos ms = sub_ℕ-above (ms * 1000000) 0 (omega arith) ∙ ap pos (omega arith)

scale_negsuc : (n : ℕ) → scale_ℤ nanos (negsuc n) ≡ negsuc ((n + 1) * 1000000 - 1)
scale_negsuc n = sub_ℕ-below 0 (suc n * 1000000) (omega arith) ∙ ap negsuc (omega arith)

pub add_pos : (a b : ℕ) → add_ℤ (pos a) (pos b) ≡ pos (a + b)
add_pos a b = sub_ℕ-above (a + b) 0 (omega arith) ∙ ap pos (omega arith)

add_negsuc : (a b : ℕ) → 0 < b → add_ℤ (pos a) (negsuc (b - 1)) ≡ sub_ℕ a b
add_negsuc a b positive =
    let left : a + 0 ≡ a = omega arith in
    let right : 0 + suc (b - 1) ≡ b = omega arith in
    ap (λ x. sub_ℕ x (0 + suc (b - 1))) left ∙ ap (sub_ℕ a) right

module _ {ℓ κ} {K : Type ℓ} {V : Type κ} (time : ℕ → ℕ) where
  pub deadline-moved :
      (ms : ℤ) (w : World K V)
      → Fits (time w.ticks) ms
      → deadline (λ i. pos (time i)) ms w ≡ ok (moved (time w.ticks) ms)
  unfolding deadline
  deadline-moved (pos ms) w fits =
      let scaled : int64 (scale_ℤ nanos (pos ms)) ≡ ok (pos (ms * 1000000)) =
        ap int64 (scale_pos ms) ∙ int64_pos (ms * 1000000) (omega arith) in
      ap (λ r. r >>= λ d. int64 (add_ℤ (pos (time w.ticks)) d)) scaled
      ∙ ap int64 (add_pos (time w.ticks) (ms * 1000000))
      ∙ int64_pos (time w.ticks + ms * 1000000) fits
  deadline-moved (negsuc n) w (early, fits) =
      let scaled : int64 (scale_ℤ nanos (negsuc n)) ≡ ok (negsuc ((n + 1) * 1000000 - 1)) =
        ap int64 (scale_negsuc n) ∙ int64_negsuc ((n + 1) * 1000000 - 1) (omega arith) in
      ap (λ r. r >>= λ d. int64 (add_ℤ (pos (time w.ticks)) d)) scaled
      ∙ ap int64 (add_negsuc (time w.ticks) ((n + 1) * 1000000) (omega arith))
      ∙ int64-sub_ℕ (time w.ticks) ((n + 1) * 1000000) early fits

  -- The world behind the reading of the clock that a ttl takes.
  abbrev pub behind : Option ℤ → World K V → World K V
  behind none w = w
  behind (some ms) w = record w { ticks = w.ticks + 1 }

  pub new_entry-expiry :
      (v : V) (ttl : Option ℤ) (w : World K V)
      → FitsIfSome (time w.ticks) ttl
      → new_entry (λ i. pos (time i)) v ttl w
        ≡ ok (record { value = v; expires_at = expiry (time w.ticks) ttl }, behind ttl w)
  unfolding new_entry tick
  new_entry-expiry v none w fits = refl
  new_entry-expiry v (some ms) w fits = rw (deadline-moved ms w fits) refl
