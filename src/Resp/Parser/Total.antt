-- ===== src/Resp/Parser/Total.antt =====
-- `RespParser::parse_array` and `parse` of src/cpp/server/request_handler/resp_parser.cpp: what they read of an array.
use chrono_cache.Shared.{
  le→leb, ℕ, zero, suc, ◌+◌, ◌≤◌, ◌<◌, ◌≡◌, ◌≢◌, subst, refl, Option, none, some, [], ◌∷◌, length,
  drop, ◌==◌, arith, inl, inr, Option-cases,
}
use chrono_cache.Shared.Int.{ℤ, pos, negsuc}
use chrono_cache.Shared.Run.{IsSafe-bind, IsSafe-if, Run, err, out_of_fuel}
use chrono_cache.Shared.Text.{Bytes, length-drop}
use chrono_cache.Resp.Value.{RespValue, Values, nil, num_resp_bytes, push_back, k_unset_resp_bytes}
use chrono_cache.Resp.Parser.{
  Parse, find_crlf, substr_from, parse_elements, array_data, parse_array, parse_body, parse_within,
  parse, with_element,
}
use chrono_cache.Resp.Parser.Fuel.{parse_within-agree, parse-parse_body}
use chrono_cache.Resp.Parser.Bounds.{
  parse_bulk_string-IsBounded, parse_integer-IsBounded, parse_error-IsBounded, line_read,
  number_line, find_crlf_inside, parse_simple_string-IsBounded, IsBounded, IsWithin,
}

-- A parser that is bounded on every text shorter than `n`.
abbrev BoundedBelow : ℕ → Parse → Type 0
BoundedBelow n p = (r : Bytes) → length r < n → IsBounded r (p r)

-- An element read from what follows `curr`, and then a next round that is bounded.
with_element-IsBounded :
    (buf : Bytes) (curr : ℕ) (next_round : RespValue → Run (Option RespValue))
    (element : Option RespValue)
    → curr ≤ length buf
    → ((v : RespValue) → curr + num_resp_bytes v ≤ length buf → IsBounded buf (next_round v))
    → IsWithin (drop curr buf) element
    → IsBounded buf (with_element next_round element)
with_element-IsBounded buf curr next_round none inside h within = tt
with_element-IsBounded buf curr next_round (some v) inside h (inl unset) = rw unset (inl refl)
with_element-IsBounded buf curr next_round (some v) inside h (inr (positive, fits)) =
    IsSafe-if (IsWithin buf) (num_resp_bytes v == k_unset_resp_bytes) _ _ (inl refl)
      (h v (omega (arith, length-drop curr buf inside)))

module _ (p : Parse) where
  parse_elements-IsBounded :
      (buf : Bytes) (n curr : ℕ) (elements : Values)
      → BoundedBelow (length buf) p
      → 0 < curr
      → curr ≤ length buf
      → IsBounded buf (parse_elements p buf n curr elements)
  unfolding parse_elements substr_from
  parse_elements-IsBounded buf zero curr elements bounded positive inside = inr (positive, inside)
  parse_elements-IsBounded buf (suc n) curr elements bounded positive inside =
      let left = length-drop curr buf inside in
      rw (le→leb curr (length buf) inside) (
        IsSafe-bind (IsWithin (drop curr buf)) (IsWithin buf) (p (drop curr buf)) _
          (bounded (drop curr buf) (omega arith))
          (λ element within.
            with_element-IsBounded buf curr _ element inside
              (λ v fits.
                parse_elements-IsBounded buf n (curr + num_resp_bytes v) (push_back elements v)
                  bounded (omega arith) fits)
              within))

  array_data-IsBounded :
      (buf : Bytes) (i : ℕ)
      → BoundedBelow (length buf) p
      → find_crlf buf ≡ some i
      → (value : Option ℤ) → IsBounded buf (array_data p buf i value)
  unfolding array_data
  array_data-IsBounded buf i bounded e none = inl refl
  array_data-IsBounded buf i bounded e (some (pos n)) =
      parse_elements-IsBounded buf n (i + 2) nil bounded (omega arith) (find_crlf_inside buf i e)
  array_data-IsBounded buf i bounded e (some (negsuc zero)) = inr (line_read buf i e)
  array_data-IsBounded buf i bounded e (some (negsuc (suc n))) = inl refl

  parse_array-IsBounded :
      (buf : Bytes) → BoundedBelow (length buf) p → IsBounded buf (parse_array p buf)
  unfolding parse_array
  parse_array-IsBounded [] bounded = tt
  parse_array-IsBounded (c ∷ s) bounded = elim (Option-cases (find_crlf (c ∷ s))) [
    | inl h ↦ rw h (IsSafe-if (IsWithin (c ∷ s)) (c == b'*') _ _ tt (inl refl))
    | inr (i, h) ↦ rw h (
        IsSafe-if (IsWithin (c ∷ s)) (c == b'*') _ _
          (number_line (c ∷ s) i (array_data p (c ∷ s) i) h
            (array_data-IsBounded (c ∷ s) i bounded h))
          (inl refl))
  ]

  parse_body-IsBounded :
      (buf : Bytes) → BoundedBelow (length buf) p → IsBounded buf (parse_body p buf)
  unfolding parse_body
  parse_body-IsBounded [] bounded = tt
  parse_body-IsBounded (c ∷ s) bounded =
      let branch = IsSafe-if (IsWithin (c ∷ s)) in
      branch (c == b'+') _ _ (parse_simple_string-IsBounded (c ∷ s)) (
        branch (c == b'-') _ _ (parse_error-IsBounded (c ∷ s)) (
          branch (c == b':') _ _ (parse_integer-IsBounded (c ∷ s)) (
            branch (c == b'$') _ _ (parse_bulk_string-IsBounded (c ∷ s))
              (branch (c == b'*') _ _ (parse_array-IsBounded (c ∷ s) bounded) (inl refl)))))

parse_within-IsBounded :
    (fuel : ℕ) (buf : Bytes) → length buf < fuel → IsBounded buf (parse_within fuel buf)
unfolding parse_within
parse_within-IsBounded zero buf enough = absurd (omega arith)
parse_within-IsBounded (suc fuel) buf enough =
    parse_body-IsBounded (parse_within fuel) buf
      λ r shorter. parse_within-IsBounded fuel r (omega arith)

-- For every text, the parser throws nothing and does not run out of fuel; where it is defined and
-- gives a value, that value was read from the front of the text, with at least one byte and no
-- more than there are, or has no number of bytes.
pub parse-IsBounded : (buf : Bytes) → IsBounded buf (parse buf)
unfolding parse
parse-IsBounded buf = parse_within-IsBounded (suc (length buf)) buf (omega arith)

-- A call that ran out of fuel is not safe.
IsBounded-fuel :
    (buf : Bytes) (call : Run (Option RespValue)) → IsBounded buf call → call ≢ err out_of_fuel
IsBounded-fuel buf call bounded e = subst (IsBounded buf) e bounded

-- For every text and every amount of fuel above its length, the parser gives the same result,
-- which is not that the fuel has run out, and which is what its body gives with the parser itself
-- as the recursive call.
pub parse_within-parse :
    (fuel : ℕ) (buf : Bytes)
    → length buf < fuel
    → (parse_within fuel buf ≡ parse buf)
      × (parse buf ≢ err out_of_fuel)
      × (parse buf ≡ parse_body parse buf)
unfolding parse
parse_within-parse fuel buf enough = (
  parse_within-agree fuel (suc (length buf)) buf enough (omega arith),
  IsBounded-fuel buf (parse buf) (parse-IsBounded buf),
  parse-parse_body buf,
)
