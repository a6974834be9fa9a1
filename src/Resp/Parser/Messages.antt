-- ===== src/Resp/Parser/Messages.antt =====
-- `RespParser::parse` (src/cpp/server/request_handler/resp_parser.cpp) on a message of each type that
-- starts with a whole first line.
use chrono_cache.Shared.{
  ℕ, suc, ◌+◌, ◌≡◌, refl, ap, ◌∙◌, subst, true, false, Option, none, some, [], ◌∷◌, ◌++◌,
  append_assoc, length, drop, ltb, leb, arith, le→leb, length-append,
}
use chrono_cache.Shared.Int.{ℤ, pos}
use chrono_cache.Shared.Run.{ok, at}
use chrono_cache.Shared.Text.{Bytes, take-append, drop-append}
use chrono_cache.Resp.Number.{parse_string_as_int}
use chrono_cache.Resp.Value.{simple_string, error, integer, bulk_string}
use chrono_cache.Resp.Parser.{
  find_crlf, substr, array_data, parse_array, parse_body, parse, bulk_data, parse_bulk_string,
  parse_integer, parse_error, parse_simple_string, integer_read,
}
use chrono_cache.Resp.Parser.Lines.{line_end, line_text, line_number}
use chrono_cache.Resp.Parser.Fuel.{parse-parse_body}

module _ (t rest : Bytes) where
  pub parse-simple_string :
      find_crlf (b'+' ∷ t) ≡ none
      → parse (b'+' ∷ t ++ 13 ∷ 10 ∷ rest) ≡ ok (some (simple_string t (length t + 3)))
  unfolding parse_body parse_simple_string
  parse-simple_string clear =
      parse-parse_body (b'+' ∷ t ++ 13 ∷ 10 ∷ rest)
      ∙ rw (line_end b'+' t rest clear, line_text b'+' t rest clear)
          (ap (λ n. ok (some (simple_string t n))) (omega arith))

  pub parse-error :
      find_crlf (b'-' ∷ t) ≡ none
      → parse (b'-' ∷ t ++ 13 ∷ 10 ∷ rest) ≡ ok (some (error t (length t + 3)))
  unfolding parse_body parse_error
  parse-error clear =
      parse-parse_body (b'-' ∷ t ++ 13 ∷ 10 ∷ rest)
      ∙ rw (line_end b'-' t rest clear, line_text b'-' t rest clear)
          (ap (λ n. ok (some (error t n))) (omega arith))

  pub parse-integer :
      (value : ℤ)
      → find_crlf (b':' ∷ t) ≡ none
      → parse_string_as_int t ≡ ok (some value)
      → parse (b':' ∷ t ++ 13 ∷ 10 ∷ rest) ≡ ok (some (integer value (length t + 3)))
  unfolding parse_body parse_integer
  parse-integer value clear e =
      let long : ltb (length (b':' ∷ t ++ 13 ∷ 10 ∷ rest)) 3 ≡ false =
        ground (arith, length-append t (13 ∷ 10 ∷ rest)) in
      parse-parse_body (b':' ∷ t ++ 13 ∷ 10 ∷ rest)
      ∙ rw (long, line_end b':' t rest clear)
          (line_number b':' t rest clear (some value) (integer_read (suc (length t))) e
            ∙ ap (λ n. ok (some (integer value n))) (omega arith))

  pub parse-bulk_data :
      (value : Option ℤ)
      → find_crlf (b'$' ∷ t) ≡ none
      → parse_string_as_int t ≡ ok value
      → parse (b'$' ∷ t ++ 13 ∷ 10 ∷ rest)
        ≡ bulk_data (b'$' ∷ t ++ 13 ∷ 10 ∷ rest) (suc (length t)) value
  unfolding parse_body parse_bulk_string
  parse-bulk_data value clear e =
      parse-parse_body (b'$' ∷ t ++ 13 ∷ 10 ∷ rest)
      ∙ rw (line_end b'$' t rest clear) (
          line_number b'$' t rest clear value
            (bulk_data (b'$' ∷ t ++ 13 ∷ 10 ∷ rest) (suc (length t))) e)

  pub parse-array_data :
      (value : Option ℤ)
      → find_crlf (b'*' ∷ t) ≡ none
      → parse_string_as_int t ≡ ok value
      → parse (b'*' ∷ t ++ 13 ∷ 10 ∷ rest)
        ≡ array_data parse (b'*' ∷ t ++ 13 ∷ 10 ∷ rest) (suc (length t)) value
  unfolding parse_body parse_array
  parse-array_data value clear e =
      parse-parse_body (b'*' ∷ t ++ 13 ∷ 10 ∷ rest)
      ∙ rw (line_end b'*' t rest clear) (
          line_number b'*' t rest clear value
            (array_data parse (b'*' ∷ t ++ 13 ∷ 10 ∷ rest) (suc (length t))) e)

-- What stands at `j` behind a front.
at-append : (xs ys : Bytes) (i j : ℕ) → i ≡ length xs + j → at (xs ++ ys) i ≡ at ys j
unfolding at
at-append [] ys i j e = ap (at ys) (omega (arith, e))
at-append (x ∷ xs) ys i j e =
    let next : i ≡ suc (length xs + j) = omega (arith, e) in
    ap (at (x ∷ xs ++ ys)) next ∙ at-append xs ys (length xs + j) j refl

-- `length s` bytes of data behind a front of `i + 2` bytes.
pub bulk_data_whole :
    (front s rest : Bytes) (i : ℕ)
    → length front ≡ i + 2
    → bulk_data (front ++ s ++ 13 ∷ 10 ∷ rest) i (some (pos (length s)))
      ≡ ok (some (bulk_string s (i + 2 + length s + 2)))
unfolding bulk_data substr
bulk_data_whole front s rest i e =
    let buf = front ++ s ++ 13 ∷ 10 ∷ rest in
    let size : length buf ≡ i + 2 + length s + 2 + length rest =
      omega (arith, length-append (front ++ s) (13 ∷ 10 ∷ rest), length-append front s, e) in
    let long : ltb (length buf) (i + 2 + length s + 2) ≡ false = ground (arith, size) in
    let inside : leb (i + 2) (length buf) ≡ true =
      le→leb (i + 2) (length buf) (omega (arith, size)) in
    let first : at buf (i + 2 + length s) ≡ ok 13 =
      at-append (front ++ s) (13 ∷ 10 ∷ rest) (i + 2 + length s) 0
        (omega (arith, length-append front s)) in
    let second : at buf (i + 2 + length s + 1) ≡ ok 10 =
      at-append (front ++ s) (13 ∷ 10 ∷ rest) (i + 2 + length s + 1) 1
        (omega (arith, length-append front s)) in
    let behind : drop (i + 2) buf ≡ s ++ 13 ∷ 10 ∷ rest =
      subst (λ k. drop k buf ≡ s ++ 13 ∷ 10 ∷ rest) e
        (rw (append_assoc front s (13 ∷ 10 ∷ rest)) (drop-append front (s ++ 13 ∷ 10 ∷ rest))) in
    rw (long, first, second, inside, behind, take-append s (13 ∷ 10 ∷ rest)) refl
