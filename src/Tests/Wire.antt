-- ===== src/Tests/Wire.antt =====
-- The parser and the serializer on small messages.
use chrono_cache.Shared.{◌≡◌, ◌≢◌, refl, none, some, List, [], ◌∷◌, ◌++◌, length, arith}
use chrono_cache.Shared.Run.{ok, at, err, out_of_fuel}
use chrono_cache.Shared.Text.{Bytes, codes}
use chrono_cache.Resp.Number.{parse_string_as_int, scan, scan_behind_sign}
use chrono_cache.Resp.Value.{array_from_parts}
use chrono_cache.Resp.Parser.{
  find_crlf, substr_from, substr, parse_elements, array_data, parse_array, parse_body, parse_within,
  parse, bulk_data, parse_bulk_string,
}
use chrono_cache.Resp.Serializer
use chrono_cache.Resp.Serializer.RoundTrip.{bulk_values, AreShort, parse-array}
use chrono_cache.Resp.Reply.{Reply, failed, serialize, read_reply, IsReadable, parse-serialize}
use chrono_cache.Resp.Parser.Bounds.{IsBounded}
use chrono_cache.Resp.Parser.Total.{parse-IsBounded, parse_within-parse}

abbrev words : List Bytes
words = codes "SET" ∷ codes "k" ∷ codes "" ∷ []

-- A request that ends inside its second element.
abbrev cut : Bytes
cut = codes "*2" ++ 13 ∷ 10 ∷ codes "$3" ++ 13 ∷ 10 ∷ codes "GET" ++ 13 ∷ 10 ∷ codes "$1"

cut_needs_more : parse cut ≡ ok none
unfolding parse parse_within parse_body parse_array array_data parse_elements parse_bulk_string
    bulk_data find_crlf substr substr_from parse_string_as_int scan_behind_sign scan at
cut_needs_more = refl

-- An array in an array, with more fuel than it is long.
abbrev nested : Bytes
nested = codes "*1" ++ 13 ∷ 10 ∷ codes "*1" ++ 13 ∷ 10 ∷ codes ":7" ++ 13 ∷ 10 ∷ []

parse_within-parse_example :
    (parse_within 40 nested ≡ parse nested)
    × (parse nested ≢ err out_of_fuel)
    × (parse nested ≡ parse_body parse nested)
parse_within-parse_example = parse_within-parse 40 nested (omega arith)

parse-IsBounded_example : IsBounded cut (parse cut)
parse-IsBounded_example = parse-IsBounded cut

words-AreShort : AreShort words
words-AreShort = (omega arith, (omega arith, (omega arith, tt)))

parse-array_example :
    parse (Serializer.array words ++ codes "*1")
    ≡ ok (some (array_from_parts (bulk_values words) (length (Serializer.array words))))
parse-array_example = parse-array words (codes "*1") (omega arith) words-AreShort

abbrev complaint : Reply
complaint = failed (codes "ERR syntax error")

complaint-IsReadable : IsReadable complaint
unfolding find_crlf
complaint-IsReadable = refl

parse-serialize_example :
    parse (serialize complaint ++ codes "+")
    ≡ ok (some (read_reply complaint (length (serialize complaint))))
parse-serialize_example = parse-serialize complaint (codes "+") complaint-IsReadable
