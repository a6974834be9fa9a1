-- ===== src/Resp/Number.antt =====
-- Numbers in text: `parse_string_as_int` and `to_upper` of src/cpp/server/request_handler/utils.cpp, and
-- `std::to_string`, which the serializer calls. An overflow of the `int` is undefined.
pub mod Laws
use chrono_cache.Shared.{
  ℕ, zero, suc, ◌+◌, ◌-◌, ◌*◌, ◌/◌, ◌%◌, ◌^◌, Bool, true, false, ◌||◌, ◌&&◌, Option, none, some, [],
  ◌∷◌, map, ltb, leb, ◌==◌, if◌then◌else◌,
}
use chrono_cache.Shared.Int.{ℤ, pos, negsuc, neg_ℤ}
use chrono_cache.Shared.Run.{Run, ok, err, undefined, ◌>>=◌}
use chrono_cache.Shared.Text.{Bytes}

-- The loop over the digits, `value = value * 10 + digit`; none stands for `return false`.
unfoldable pub scan : Bytes → ℕ → Run (Option ℕ)
scan [] value = ok (some value)
scan (c ∷ s) value =
    let next = value * 10 + (c - b'0') in
    let rest = scan s next in
    if ltb c b'0' || ltb b'9' c then ok none else if leb (2 ^ 31) next then err undefined else rest

-- `negative ? -value : value`
abbrev pub signed : Bool → Option ℕ → Option ℤ
signed negative none = none
signed true (some value) = some (neg_ℤ (pos value))
signed false (some value) = some (pos value)

-- The digits behind a sign: there must be one.
unfoldable pub scan_behind_sign : Bool → Bytes → Run (Option ℤ)
unfolding scan
scan_behind_sign negative [] = ok none
scan_behind_sign negative (c ∷ s) = do value ← scan (c ∷ s) 0; ok (signed negative value)

unfoldable pub parse_string_as_int : Bytes → Run (Option ℤ)
unfolding scan scan_behind_sign
parse_string_as_int [] = ok none
parse_string_as_int (c ∷ s) =
    if c == b'-'
    then scan_behind_sign true s
    else if c == b'+'
    then scan_behind_sign false s
    else (do value ← scan (c ∷ s) 0; ok (signed false value))

-- `::toupper` in the C locale
unfoldable pub to_upper_char : ℕ → ℕ
to_upper_char c = if leb b'a' c && leb c b'z' then c - 32 else c

unfoldable pub to_upper : Bytes → Bytes
unfolding to_upper_char
to_upper s = map to_upper_char s

-- The digits of `n` in front of `out`; a number has no more digits than its value and one.
unfoldable pub digits : ℕ → ℕ → Bytes → Bytes
digits zero n out = out
digits (suc fuel) n out =
    let more = digits fuel (n / 10) ((b'0' + n % 10) ∷ out) in if n == 0 then out else more

unfoldable pub to_string_ℕ : ℕ → Bytes
unfolding digits
to_string_ℕ n = if n == 0 then b'0' ∷ [] else digits (suc n) n []

-- `std::to_string` of an integer
unfoldable pub to_string : ℤ → Bytes
unfolding to_string_ℕ
to_string (pos n) = to_string_ℕ n
to_string (negsuc n) = b'-' ∷ to_string_ℕ (n + 1)
