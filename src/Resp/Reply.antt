-- ===== src/Resp/Reply.antt =====
-- The replies that the serializer writes (src/cpp/server/request_handler/resp_serializer.cpp), as a client
-- reads them.
use chrono_cache.Shared.{
  ℕ, ◌+◌, ◌^◌, ◌<◌, ◌≡◌, refl, ap, ◌∙◌, none, some, ◌∷◌, ◌++◌, append_assoc, length, arith,
  length-append,
}
use chrono_cache.Shared.Int.{ℤ, pos, negsuc, pos_part, neg_part}
use chrono_cache.Shared.Run.{ok}
use chrono_cache.Shared.Text.{Bytes, codes}
use chrono_cache.Resp.Number.{parse_string_as_int, scan, scan_behind_sign, to_string}
use chrono_cache.Resp.Number.Laws.{parse_string_as_int-to_string}
use chrono_cache.Resp.Value.{RespValue, simple_string, error, integer, bulk_string, null_bulk}
use chrono_cache.Resp.Parser.{find_crlf, parse, bulk_data}
use chrono_cache.Resp.Serializer
use chrono_cache.Resp.Serializer.{crlf}
use chrono_cache.Resp.Parser.Messages.{
  parse-simple_string, parse-error, parse-integer, parse-bulk_data,
}
use chrono_cache.Resp.Serializer.RoundTrip.{numeral_crlf, parse-bulk_string}

-- What a reply says.
pub data Reply : Type 0 where
  done pong : Reply
  failed : Bytes → Reply
  number : ℤ → Reply
  text : Bytes → Reply
  nothing : Reply

-- The bytes of a reply.
abbrev pub serialize : Reply → Bytes
serialize done = Serializer.ok
serialize pong = codes "+PONG" ++ crlf
serialize (failed msg) = Serializer.error msg
serialize (number n) = Serializer.integer n
serialize (text s) = Serializer.bulk_string s
serialize nothing = Serializer.null_bulk

-- A reply that a client can read: an error in one line, and numbers and sizes of an `int`.
abbrev pub IsReadable : Reply → Type 0
IsReadable done = Unit
IsReadable pong = Unit
IsReadable (failed msg) = find_crlf (b'-' ∷ msg) ≡ none
IsReadable (number n) = pos_part n + neg_part n < 2 ^ 31
IsReadable (text s) = length s < 2 ^ 31
IsReadable nothing = Unit

-- What the parser should make of a reply of `n` bytes.
abbrev pub read_reply : Reply → ℕ → RespValue
read_reply done = simple_string (codes "OK")
read_reply pong = simple_string (codes "PONG")
read_reply (failed msg) = error msg
read_reply (number n) = integer n
read_reply (text s) = bulk_string s
read_reply nothing = null_bulk

integer_crlf : (n : ℤ) → find_crlf (b':' ∷ to_string n) ≡ none
unfolding to_string find_crlf
integer_crlf (pos n) = numeral_crlf b':' n
integer_crlf (negsuc n) = rw (numeral_crlf b'-' (n + 1)) refl

-- One line and what follows.
line_layout : (line rest : Bytes) → line ++ crlf ++ rest ≡ line ++ 13 ∷ 10 ∷ rest
line_layout line rest = append_assoc line crlf rest

-- A reply that is OK, PONG, null, an error whose text is one line, a number of absolute value
-- below 2 ^ 31, or a text shorter than 2 ^ 31 bytes is read back as what it says, whatever
-- follows, and with the number of bytes that were written.
pub parse-serialize :
    (r : Reply) (rest : Bytes)
    → IsReadable r
    → parse (serialize r ++ rest) ≡ ok (some (read_reply r (length (serialize r))))
unfolding Serializer.ok Serializer.error Serializer.integer Serializer.null_bulk bulk_data find_crlf
    parse_string_as_int scan_behind_sign scan
parse-serialize done rest readable = parse-simple_string (codes "OK") rest refl
parse-serialize pong rest readable = parse-simple_string (codes "PONG") rest refl
parse-serialize (failed msg) rest readable =
    ap parse (line_layout (b'-' ∷ msg) rest)
    ∙ parse-error msg rest readable
    ∙ ap (λ n. ok (some (error msg n))) (omega (arith, length-append msg crlf))
parse-serialize (number n) rest readable =
    ap parse (line_layout (b':' ∷ to_string n) rest)
    ∙ parse-integer (to_string n) rest n (integer_crlf n) (parse_string_as_int-to_string n readable)
    ∙ ap (λ k. ok (some (integer n k))) (omega (arith, length-append (to_string n) crlf))
parse-serialize (text s) rest readable = parse-bulk_string s rest readable
parse-serialize nothing rest readable =
    parse-bulk_data (codes "-1") rest (some (negsuc 0)) refl refl
