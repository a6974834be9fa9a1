-- ===== src/Resp/Parser/Bounds.antt =====
-- What `RespParser::parse` (src/cpp/server/request_handler/resp_parser.cpp) reports as read.
use chrono_cache.Shared.{
  le→leb, ℕ, zero, suc, ◌+◌, ◌-◌, ◌≤◌, ◌<◌, ◌≡◌, refl, Bool, true, false, ◌&&◌, ◌||◌, Option, none,
  some, [], ◌∷◌, length, ltb, leb, ◌==◌, arith, Bool-cases, inl, inr, ◌⊎◌, Option-cases, ◌^◌, ◌*◌,
}
use chrono_cache.Shared.Int.{ℤ, pos, negsuc}
use chrono_cache.Shared.Run.{at-IsSafe, IsSafe-bind, IsSafe-if, IsSafe, Run, ok, ◌>>=◌, at}
use chrono_cache.Shared.Text.{Bytes}
use chrono_cache.Resp.Number.{parse_string_as_int, scan, scan_behind_sign, signed}
use chrono_cache.Resp.Value.{RespValue, simple_string, error, num_resp_bytes, k_unset_resp_bytes}
use chrono_cache.Resp.Parser.{
  find_crlf, substr, bulk_data, parse_bulk_string, parse_integer, parse_error, parse_simple_string,
  integer_read,
}

-- A value that was read from the front of `buf`, or an error without a number of bytes.
abbrev pub IsWithin : Bytes → Option RespValue → Type 0
IsWithin buf none = Unit
IsWithin buf (some v) =
    (num_resp_bytes v ≡ k_unset_resp_bytes)
    ⊎ ((0 < num_resp_bytes v) × (num_resp_bytes v ≤ length buf))

abbrev pub IsBounded : Bytes → Run (Option RespValue) → Type 0
IsBounded buf = IsSafe (IsWithin buf)

-- Any value.
abbrev pub Any {ℓ} : {A : Type ℓ} → A → Type 0
Any value = Unit

scan-IsSafe : (s : Bytes) (value : ℕ) → IsSafe Any (scan s value)
unfolding scan
scan-IsSafe [] value = tt
scan-IsSafe (c ∷ s) value =
    let next = value * 10 + (c - b'0') in
    IsSafe-if Any (ltb c b'0' || ltb b'9' c) _ _ tt
      (IsSafe-if Any (leb (2 ^ 31) next) _ _ tt (scan-IsSafe s next))

number-IsSafe :
    (negative : Bool) (s : Bytes) → IsSafe Any (do value ← scan s 0; ok (signed negative value))
number-IsSafe negative s = IsSafe-bind Any Any (scan s 0) _ (scan-IsSafe s 0) λ value h. tt

scan_behind_sign-IsSafe : (negative : Bool) (s : Bytes) → IsSafe Any (scan_behind_sign negative s)
unfolding scan_behind_sign
scan_behind_sign-IsSafe negative [] = tt
scan_behind_sign-IsSafe negative (c ∷ s) = number-IsSafe negative (c ∷ s)

parse_string_as_int-IsSafe : (s : Bytes) → IsSafe Any (parse_string_as_int s)
unfolding parse_string_as_int
parse_string_as_int-IsSafe [] = tt
parse_string_as_int-IsSafe (c ∷ s) =
    IsSafe-if Any (c == b'-') _ _ (scan_behind_sign-IsSafe true s) (
      IsSafe-if Any (c == b'+') _ _ (scan_behind_sign-IsSafe false s) (number-IsSafe false (c ∷ s)))

-- A line's end that is found lies inside the text.
pub find_crlf_inside : (s : Bytes) (i : ℕ) → find_crlf s ≡ some i → i + 2 ≤ length s
unfolding find_crlf
find_crlf_inside [] i e = absurd (cc e)
find_crlf_inside (c ∷ []) i e = absurd (cc e)
find_crlf_inside (c ∷ d ∷ s) i e = elim (Bool-cases (c == 13 && d == 10)) [
  | inl here ↦ ground (arith, here, e)
  | inr on ↦ elim (Option-cases (find_crlf (d ∷ s))) [
    | inl h ↦ ground (arith, on, h, e)
    | inr (j, h) ↦ ground (arith, on, h, e, find_crlf_inside (d ∷ s) j h)
  ]
]

substr-IsSafe : (buf : Bytes) (start n : ℕ) → start ≤ length buf → IsSafe Any (substr buf start n)
unfolding substr
substr-IsSafe buf start n inside = rw (le→leb start (length buf) inside) tt

-- Behind the line's end at `i`, `i + 2` bytes are read.
pub line_read : (buf : Bytes) (i : ℕ) → find_crlf buf ≡ some i → (0 < i + 2) × (i + 2 ≤ length buf)
line_read buf i e = (omega arith, find_crlf_inside buf i e)

-- The number in the first line, and then what uses it.
pub number_line :
    (buf : Bytes) (i : ℕ) (rest : Option ℤ → Run (Option RespValue))
    → find_crlf buf ≡ some i
    → ((value : Option ℤ) → IsBounded buf (rest value))
    → IsBounded buf (do text ← substr buf 1 (i - 1); value ← parse_string_as_int text; rest value)
number_line buf i rest e h =
    IsSafe-bind Any (IsWithin buf) (substr buf 1 (i - 1)) _
      (substr-IsSafe buf 1 (i - 1) (omega (arith, find_crlf_inside buf i e)))
      λ text _.
        IsSafe-bind Any (IsWithin buf) (parse_string_as_int text) rest
          (parse_string_as_int-IsSafe text) λ value _. h value

-- The text in the first line, as a value of the line's length.
text_line :
    (buf : Bytes) (i : ℕ) (make : Bytes → RespValue)
    → find_crlf buf ≡ some i
    → ((text : Bytes) → num_resp_bytes (make text) ≡ i + 2)
    → IsBounded buf (do text ← substr buf 1 (i - 1); ok (some (make text)))
text_line buf i make e h =
    IsSafe-bind Any (IsWithin buf) (substr buf 1 (i - 1)) _
      (substr-IsSafe buf 1 (i - 1) (omega (arith, find_crlf_inside buf i e)))
      λ text _. inr (rw (h text) (line_read buf i e))

pub parse_simple_string-IsBounded : (buf : Bytes) → IsBounded buf (parse_simple_string buf)
unfolding parse_simple_string
parse_simple_string-IsBounded [] = tt
parse_simple_string-IsBounded (c ∷ s) = elim (Option-cases (find_crlf (c ∷ s))) [
  | inl h ↦ rw h (IsSafe-if (IsWithin (c ∷ s)) (c == b'+') _ _ tt (inl refl))
  | inr (i, h) ↦ rw h (
      IsSafe-if (IsWithin (c ∷ s)) (c == b'+') _ _
        (text_line (c ∷ s) i (λ text. simple_string text (i + 2)) h λ text. refl) (inl refl))
]

pub parse_error-IsBounded : (buf : Bytes) → IsBounded buf (parse_error buf)
unfolding parse_error
parse_error-IsBounded [] = tt
parse_error-IsBounded (c ∷ s) = elim (Option-cases (find_crlf (c ∷ s))) [
  | inl h ↦ rw h (IsSafe-if (IsWithin (c ∷ s)) (c == b'-') _ _ tt (inl refl))
  | inr (i, h) ↦ rw h (
      IsSafe-if (IsWithin (c ∷ s)) (c == b'-') _ _
        (text_line (c ∷ s) i (λ text. error text (i + 2)) h λ text. refl) (inl refl))
]

integer_read-IsBounded :
    (buf : Bytes) (i : ℕ)
    → find_crlf buf ≡ some i
    → (value : Option ℤ) → IsBounded buf (integer_read i value)
integer_read-IsBounded buf i e none = inl refl
integer_read-IsBounded buf i e (some value) = inr (line_read buf i e)

pub parse_integer-IsBounded : (buf : Bytes) → IsBounded buf (parse_integer buf)
unfolding parse_integer
parse_integer-IsBounded [] = tt
parse_integer-IsBounded (c ∷ s) = elim (Option-cases (find_crlf (c ∷ s))) [
  | inl h ↦ rw h (
      IsSafe-if (IsWithin (c ∷ s)) (c == b':') _ _
        (IsSafe-if (IsWithin (c ∷ s)) (ltb (length (c ∷ s)) 3) _ _ tt tt) (inl refl))
  | inr (i, h) ↦ rw h (
      IsSafe-if (IsWithin (c ∷ s)) (c == b':') _ _
        (IsSafe-if (IsWithin (c ∷ s)) (ltb (length (c ∷ s)) 3) _ _ tt
          (number_line (c ∷ s) i (integer_read i) h (integer_read-IsBounded (c ∷ s) i h)))
        (inl refl))
]

bulk_data-IsBounded :
    (buf : Bytes) (i : ℕ)
    → find_crlf buf ≡ some i
    → (value : Option ℤ) → IsBounded buf (bulk_data buf i value)
unfolding bulk_data
bulk_data-IsBounded buf i e none = inl refl
bulk_data-IsBounded buf i e (some (negsuc zero)) = inr (line_read buf i e)
bulk_data-IsBounded buf i e (some (negsuc (suc n))) = inl refl
bulk_data-IsBounded buf i e (some (pos n)) = elim (Bool-cases (ltb (length buf) (i + 2 + n + 2))) [
  | inl short ↦ rw short tt
  | inr long ↦ rw long (
      IsSafe-bind Any (IsWithin buf) (at buf (i + 2 + n)) _ (at-IsSafe buf (i + 2 + n)) λ cr _.
        IsSafe-bind Any (IsWithin buf) (at buf (i + 2 + n + 1)) _ (at-IsSafe buf (i + 2 + n + 1))
          λ lf _.
            IsSafe-if (IsWithin buf) (cr == 13 && lf == 10) _ _
              (IsSafe-bind Any (IsWithin buf) (substr buf (i + 2) n) _
                (substr-IsSafe buf (i + 2) n (omega (arith, find_crlf_inside buf i e)))
                λ text _. inr (omega arith, ground (arith, long)))
              (inl refl))
]

pub parse_bulk_string-IsBounded : (buf : Bytes) → IsBounded buf (parse_bulk_string buf)
unfolding parse_bulk_string
parse_bulk_string-IsBounded [] = tt
parse_bulk_string-IsBounded (c ∷ s) = elim (Option-cases (find_crlf (c ∷ s))) [
  | inl h ↦ rw h (IsSafe-if (IsWithin (c ∷ s)) (c == b'$') _ _ tt (inl refl))
  | inr (i, h) ↦ rw h (
      IsSafe-if (IsWithin (c ∷ s)) (c == b'$') _ _
        (number_line (c ∷ s) i (bulk_data (c ∷ s) i) h (bulk_data-IsBounded (c ∷ s) i h))
        (inl refl))
]
