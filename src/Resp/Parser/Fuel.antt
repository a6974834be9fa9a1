-- ===== src/Resp/Parser/Fuel.antt =====
-- The recursion of `RespParser::parse` (src/cpp/server/request_handler/resp_parser.cpp): its calls on
-- what follows the length line of an array.
use chrono_cache.Shared.{
  ℕ, zero, suc, ◌+◌, ◌-◌, ◌<◌, ◌≡◌, refl, ap, true, Option, none, some, [], ◌∷◌, length, drop, leb,
  ◌==◌, if◌then◌else◌, arith, Bool-cases, inl, inr, Option-cases, fun_ext, leb→le,
}
use chrono_cache.Shared.Int.{ℤ, pos, negsuc}
use chrono_cache.Shared.Run.{◌>>=◌, bind_ext}
use chrono_cache.Shared.Text.{Bytes, codes, length-drop}
use chrono_cache.Resp.Number.{parse_string_as_int}
use chrono_cache.Resp.Value.{Values, nil, num_resp_bytes, push_back}
use chrono_cache.Resp.Parser.{
  Parse, find_crlf, substr_from, substr, parse_elements, array_data, parse_array, parse_body,
  parse_within, parse, invalid, with_element,
}

-- Two parsers that agree on every text shorter than `n`.
abbrev pub AgreeBelow : ℕ → Parse → Parse → Type 0
AgreeBelow n p q = (r : Bytes) → length r < n → p r ≡ q r

length_drop_lt :
    (n : ℕ) (s : Bytes) → 0 < n → leb n (length s) ≡ true → length (drop n s) < length s
length_drop_lt n s positive h = omega (arith, length-drop n s (leb→le n (length s) h))

module _ (p q : Parse) where
  parse_elements-agree :
      (buf : Bytes) (n curr : ℕ) (elements : Values)
      → AgreeBelow (length buf) p q
      → 0 < curr
      → parse_elements p buf n curr elements ≡ parse_elements q buf n curr elements
  unfolding parse_elements substr_from
  parse_elements-agree buf zero curr elements same positive = refl
  parse_elements-agree buf (suc n) curr elements same positive =
      elim (Bool-cases (leb curr (length buf))) [
        | inl h ↦
            rw (h, same (drop curr buf) (length_drop_lt curr buf positive h))
              (ap (λ next_round. q (drop curr buf) >>= with_element next_round)
                (fun_ext λ v.
                  parse_elements-agree buf n (curr + num_resp_bytes v) (push_back elements v) same
                    (omega arith)))
        | inr h ↦ rw h refl
      ]

  array_data-agree :
      (buf : Bytes) (pos_1 : ℕ) (count : Option ℤ)
      → AgreeBelow (length buf) p q
      → array_data p buf pos_1 count ≡ array_data q buf pos_1 count
  unfolding array_data
  array_data-agree buf pos_1 none same = refl
  array_data-agree buf pos_1 (some (pos n)) same =
      parse_elements-agree buf n (pos_1 + 2) nil same (omega arith)
  array_data-agree buf pos_1 (some (negsuc zero)) same = refl
  array_data-agree buf pos_1 (some (negsuc (suc n))) same = refl

  parse_array-agree :
      (buf : Bytes) → AgreeBelow (length buf) p q → parse_array p buf ≡ parse_array q buf
  unfolding parse_array
  parse_array-agree [] same = refl
  parse_array-agree (c ∷ s) same = elim (Option-cases (find_crlf (c ∷ s))) [
    | inl h ↦ rw h refl
    | inr (i, h) ↦ rw h (
        ap (λ x. if c == b'*' then x else invalid (codes "ERR invalid array format"))
          (bind_ext (substr (c ∷ s) 1 (i - 1)) _ _ λ text read.
            bind_ext (parse_string_as_int text) _ _
              λ value parsed. array_data-agree (c ∷ s) i value same))
  ]

  parse_body-agree :
      (buf : Bytes) → AgreeBelow (length buf) p q → parse_body p buf ≡ parse_body q buf
  unfolding parse_body
  parse_body-agree [] same = refl
  parse_body-agree (c ∷ s) same = rw (parse_array-agree (c ∷ s) same) refl

-- Fuel above the length of the text is enough, and more of it changes nothing.
pub parse_within-agree :
    (fuel more : ℕ) (buf : Bytes)
    → length buf < fuel
    → length buf < more
    → parse_within fuel buf ≡ parse_within more buf
unfolding parse_within
parse_within-agree zero more buf h k = absurd (omega arith)
parse_within-agree (suc fuel) zero buf h k = absurd (omega arith)
parse_within-agree (suc fuel) (suc more) buf h k =
    parse_body-agree (parse_within fuel) (parse_within more) buf
      λ r shorter. parse_within-agree fuel more r (omega arith) (omega arith)

-- The body, with the parser itself as its recursive call, as the source has it.
pub parse-parse_body : (buf : Bytes) → parse buf ≡ parse_body parse buf
unfolding parse parse_within
parse-parse_body buf =
    parse_body-agree (parse_within (length buf)) parse buf
      λ r shorter. parse_within-agree (length buf) (suc (length r)) r shorter (omega arith)
