-- ===== src/Resp/Number/Laws.antt =====
-- `parse_string_as_int` of src/cpp/server/request_handler/utils.cpp on what `std::to_string` prints.
use chrono_cache.Shared.{
  ℕ, zero, suc, ◌+◌, ◌/◌, ◌%◌, ◌^◌, ◌≤◌, ◌<◌, ◌≡◌, refl, ap, ◌∙◌, true, false, Option, some, [],
  ◌∷◌, arith, ◌==◌, length, Bool-cases, inl, inr,
}
use chrono_cache.Shared.Int.{ℤ, pos, negsuc, pos_part, neg_part}
use chrono_cache.Shared.Run.{Run, ok, ◌>>=◌}
use chrono_cache.Shared.Text.{Bytes}
use chrono_cache.Resp.Number.{
  signed, scan, scan_behind_sign, parse_string_as_int, digits, to_string_ℕ, to_string,
}

-- Every byte is a decimal digit.
abbrev pub AreDigits : Bytes → Type 0
AreDigits [] = Unit
AreDigits (c ∷ s) = (b'0' ≤ c) × (c ≤ b'9') × AreDigits s

-- Reading the last digit of `n` behind the others gives `n`.
scan_last : (n : ℕ) (out : Bytes) → n < 2 ^ 31 → scan ((b'0' + n % 10) ∷ out) (n / 10) ≡ scan out n
unfolding scan
scan_last n out h = ground arith

scan-digits :
    (fuel n : ℕ) (out : Bytes) → n < fuel → n < 2 ^ 31 → scan (digits fuel n out) 0 ≡ scan out n
unfolding digits
scan-digits zero n out h small = absurd (omega arith)
scan-digits (suc fuel) n out h small = elim (Bool-cases (n == 0)) [
  | inl z ↦ rw z (ap (scan out) (ground arith))
  | inr p ↦ rw p (
      scan-digits fuel (n / 10) ((b'0' + n % 10) ∷ out) (ground arith) (omega arith)
      ∙ scan_last n out small)
]

digits-AreDigits : (fuel n : ℕ) (out : Bytes) → AreDigits out → AreDigits (digits fuel n out)
unfolding digits
digits-AreDigits zero n out d = d
digits-AreDigits (suc fuel) n out d = elim (Bool-cases (n == 0)) [
  | inl z ↦ rw z d
  | inr p ↦
      rw p (digits-AreDigits fuel (n / 10) ((b'0' + n % 10) ∷ out) (omega arith, omega arith, d))
]

length-digits : (fuel n : ℕ) (out : Bytes) → length (digits fuel n out) ≤ fuel + length out
unfolding digits
length-digits zero n out = omega arith
length-digits (suc fuel) n out = elim (Bool-cases (n == 0)) [
  | inl z ↦ rw z (omega arith)
  | inr p ↦ rw p (omega (arith, length-digits fuel (n / 10) ((b'0' + n % 10) ∷ out)))
]

-- A number has no more digits than its value and one.
pub length-to_string_ℕ : (n : ℕ) → length (to_string_ℕ n) ≤ n + 1
unfolding to_string_ℕ
length-to_string_ℕ n = elim (Bool-cases (n == 0)) [
  | inl z ↦ rw z (omega arith)
  | inr p ↦ rw p (omega (arith, length-digits n (n / 10) ((b'0' + n % 10) ∷ [])))
]

-- A text of digits, which has one at least.
pub record IsNumeral (s : Bytes) : Type 0 where
  pub head : ℕ
  pub tail : Bytes
  pub split : s ≡ head ∷ tail
  pub all_digits : AreDigits s

digits-IsNumeral :
    (fuel n : ℕ) (c : ℕ) (out : Bytes) → AreDigits (c ∷ out) → IsNumeral (digits fuel n (c ∷ out))
unfolding digits
digits-IsNumeral zero n c out d = record { head = c; tail = out; split = refl; all_digits = d }
digits-IsNumeral (suc fuel) n c out d = elim (Bool-cases (n == 0)) [
  | inl z ↦ rw z (record { head = c; tail = out; split = refl; all_digits = d })
  | inr p ↦
      rw p (digits-IsNumeral fuel (n / 10) (b'0' + n % 10) (c ∷ out) (omega arith, omega arith, d))
]

pub to_string_ℕ-IsNumeral : (n : ℕ) → IsNumeral (to_string_ℕ n)
unfolding to_string_ℕ digits
to_string_ℕ-IsNumeral n = elim (Bool-cases (n == 0)) [
  | inl z ↦ rw z (record { head = b'0'; tail = []; split = refl; all_digits = omega arith })
  | inr p ↦ rw p (digits-IsNumeral n (n / 10) (b'0' + n % 10) [] (omega arith, omega arith, tt))
]

scan-to_string_ℕ : (n : ℕ) → n < 2 ^ 31 → scan (to_string_ℕ n) 0 ≡ ok (some n)
unfolding to_string_ℕ scan
scan-to_string_ℕ n small = elim (Bool-cases (n == 0)) [
  | inl z ↦ rw z (ap (λ k. ok (some k)) (ground arith))
  | inr p ↦ rw p (
      scan-digits n (n / 10) ((b'0' + n % 10) ∷ []) (ground arith) (omega arith)
      ∙ scan_last n [] small)
]

-- A numeral starts with no sign.
numeral_unsigned :
    (s : Bytes) (value : Run (Option ℕ))
    → IsNumeral s
    → scan s 0 ≡ value
    → (parse_string_as_int s ≡ (do v ← value; ok (signed false v)))
      × (scan_behind_sign true s ≡ (do v ← value; ok (signed true v)))
unfolding parse_string_as_int scan_behind_sign
numeral_unsigned [] value h e = absurd (cc (h.split))
numeral_unsigned (c ∷ s) value h e =
    let no_minus : (c == b'-') ≡ false = ground (arith, h.all_digits) in
    let no_plus : (c == b'+') ≡ false = ground (arith, h.all_digits) in
    (rw (no_minus, no_plus, e), rw e)

-- What `std::to_string` prints of an `int` other than the least is read back.
pub parse_string_as_int-to_string :
    (n : ℤ) → pos_part n + neg_part n < 2 ^ 31 → parse_string_as_int (to_string n) ≡ ok (some n)
unfolding to_string parse_string_as_int
parse_string_as_int-to_string (pos n) h =
    (numeral_unsigned (to_string_ℕ n) (ok (some n)) (to_string_ℕ-IsNumeral n)
      (scan-to_string_ℕ n (omega arith))).0
parse_string_as_int-to_string (negsuc n) h =
    (numeral_unsigned (to_string_ℕ (n + 1)) (ok (some (n + 1))) (to_string_ℕ-IsNumeral (n + 1))
      (scan-to_string_ℕ (n + 1) (omega arith))).1
    ∙ ap (λ k. ok (some k)) (ground arith)
