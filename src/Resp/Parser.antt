-- ===== src/Resp/Parser.antt =====
-- `RespParser` of src/cpp/server/request_handler/resp_parser.cpp. A view is the list of its bytes; none
-- stands for `std::nullopt`, and positions are below the size of a buffer, so that `size_t` holds them.
pub mod Fuel
pub mod Bounds
pub mod Total
pub mod Lines
pub mod Messages
use chrono_cache.Shared.{
  ℕ, zero, suc, ◌+◌, ◌-◌, Bool, true, false, ◌&&◌, Option, none, some, [], ◌∷◌, length, take, drop,
  ltb, leb, ◌==◌, if◌then◌else◌,
}
use chrono_cache.Shared.Int.{ℤ, pos, negsuc}
use chrono_cache.Shared.Run.{Run, ok, err, exception, undefined, out_of_fuel, ◌>>=◌, at}
use chrono_cache.Shared.Text.{Bytes, codes}
use chrono_cache.Resp.Number.{parse_string_as_int}
use chrono_cache.Resp.Value.{
  RespValue, Values, nil, simple_string, error, integer, bulk_string, null_bulk, null_array,
  array_from_parts, num_resp_bytes, push_back, error_unset, k_unset_resp_bytes,
}

-- `RespParser::find_crlf`: none stands for `npos`.
unfoldable pub find_crlf : Bytes → Option ℕ
find_crlf [] = none
find_crlf (c ∷ []) = none
find_crlf (c ∷ d ∷ s) =
    let later = find_crlf (d ∷ s) in
    if c == 13 && d == 10 then some 0 else elim later [ none ↦ none | some i ↦ some (suc i) ]

-- `buf.substr(start, n)`, which throws behind the end
unfoldable pub substr : Bytes → ℕ → ℕ → Run Bytes
substr buf start n =
    if leb start (length buf)
    then ok (take n (drop start buf))
    else err (exception "basic_string_view::substr")

-- `buf.substr(start)`
unfoldable pub substr_from : Bytes → ℕ → Run Bytes
substr_from buf start =
    if leb start (length buf)
    then ok (drop start buf)
    else err (exception "basic_string_view::substr")

abbrev pub invalid : Bytes → Run (Option RespValue)
invalid msg = ok (some (error_unset msg))

unfoldable pub parse_simple_string : Bytes → Run (Option RespValue)
unfolding find_crlf substr
parse_simple_string [] = err undefined
parse_simple_string (c ∷ s) =
    if c == b'+'
    then (elim (find_crlf (c ∷ s)) [
      | none ↦ ok none
      | some p ↦ (do value ← substr (c ∷ s) 1 (p - 1); ok (some (simple_string value (p + 2))))
    ])
    else invalid (codes "ERR invalid simple string format")

unfoldable pub parse_error : Bytes → Run (Option RespValue)
unfolding find_crlf substr
parse_error [] = err undefined
parse_error (c ∷ s) =
    if c == b'-'
    then (elim (find_crlf (c ∷ s)) [
      | none ↦ ok none
      | some p ↦ (do value ← substr (c ∷ s) 1 (p - 1); ok (some (error value (p + 2))))
    ])
    else invalid (codes "ERR invalid error format")

-- What `parse_integer` makes of the number in front of the line's end at `p`.
abbrev integer_read : ℕ → Option ℤ → Run (Option RespValue)
integer_read p none = invalid (codes "ERR invalid integer format")
integer_read p (some value) = ok (some (integer value (p + 2)))

unfoldable pub parse_integer : Bytes → Run (Option RespValue)
unfolding find_crlf substr
parse_integer [] = err undefined
parse_integer (c ∷ s) =
    if c == b':'
    then (if ltb (length (c ∷ s)) 3 then ok none else (elim (find_crlf (c ∷ s)) [
      | none ↦ ok none
      | some p ↦ (do
        text ← substr (c ∷ s) 1 (p - 1)
        value ← parse_string_as_int text
        integer_read p value)
    ]))
    else invalid (codes "ERR invalid integer format")

-- `parse_bulk_string` behind its length line, which ends at `pos_1`.
unfoldable pub bulk_data : Bytes → ℕ → Option ℤ → Run (Option RespValue)
unfolding at substr
bulk_data buf pos_1 none = invalid (codes "ERR invalid bulk string format")
bulk_data buf pos_1 (some (negsuc zero)) = ok (some (null_bulk (pos_1 + 2)))
bulk_data buf pos_1 (some (negsuc (suc n))) = invalid (codes "ERR invalid bulk string format")
bulk_data buf pos_1 (some (pos n)) =
    let data_start = pos_1 + 2 in
    let total_bytes = data_start + n + 2 in
    if ltb (length buf) total_bytes then ok none else (do
      cr ← at buf (data_start + n)
      lf ← at buf (data_start + n + 1)
      if cr == 13 && lf == 10
          then (do value ← substr buf data_start n; ok (some (bulk_string value total_bytes)))
          else invalid (codes "ERR invalid bulk string format"))

unfoldable pub parse_bulk_string : Bytes → Run (Option RespValue)
unfolding find_crlf substr bulk_data
parse_bulk_string [] = err undefined
parse_bulk_string (c ∷ s) =
    if c == b'$'
    then (elim (find_crlf (c ∷ s)) [
      | none ↦ ok none
      | some pos_1 ↦ (do
        text ← substr (c ∷ s) 1 (pos_1 - 1)
        value ← parse_string_as_int text
        bulk_data (c ∷ s) pos_1 value)
    ])
    else invalid (codes "ERR invalid bulk string format")

-- The recursive call of `parse_array`, on what follows.
abbrev pub Parse : Type 0
Parse = Bytes → Run (Option RespValue)

-- What the loop does with an element, before its next round.
abbrev pub with_element :
    (RespValue → Run (Option RespValue)) → Option RespValue → Run (Option RespValue)
with_element next_round none = ok none
with_element next_round (some v) =
    if num_resp_bytes v == k_unset_resp_bytes
    then invalid (codes "ERR invalid array element")
    else next_round v

-- The loop over the elements, `n` of which are to come.
unfoldable pub parse_elements : Parse → Bytes → ℕ → ℕ → Values → Run (Option RespValue)
unfolding substr_from
parse_elements parse buf zero curr_pos elements = ok (some (array_from_parts elements curr_pos))
parse_elements parse buf (suc n) curr_pos elements = do
  rest ← substr_from buf curr_pos
  element ← parse rest
  with_element
      (λ v. parse_elements parse buf n (curr_pos + num_resp_bytes v) (push_back elements v)) element

-- `parse_array` behind its length line, which ends at `pos_1`.
unfoldable pub array_data : Parse → Bytes → ℕ → Option ℤ → Run (Option RespValue)
unfolding parse_elements
array_data parse buf pos_1 none = invalid (codes "ERR invalid array format")
array_data parse buf pos_1 (some (negsuc zero)) = ok (some (null_array (pos_1 + 2)))
array_data parse buf pos_1 (some (negsuc (suc n))) = invalid (codes "ERR invalid array format")
array_data parse buf pos_1 (some (pos n)) = parse_elements parse buf n (pos_1 + 2) nil

unfoldable pub parse_array : Parse → Bytes → Run (Option RespValue)
unfolding find_crlf substr array_data
parse_array parse [] = err undefined
parse_array parse (c ∷ s) =
    if c == b'*'
    then (elim (find_crlf (c ∷ s)) [
      | none ↦ ok none
      | some pos_1 ↦ (do
        text ← substr (c ∷ s) 1 (pos_1 - 1)
        value ← parse_string_as_int text
        array_data parse (c ∷ s) pos_1 value)
    ])
    else invalid (codes "ERR invalid array format")

-- The body of `RespParser::parse`, with its recursive call as an argument.
unfoldable pub parse_body : Parse → Bytes → Run (Option RespValue)
unfolding parse_simple_string parse_error parse_integer parse_bulk_string parse_array
parse_body parse [] = ok none
parse_body parse (c ∷ s) =
    if c == b'+'
    then parse_simple_string (c ∷ s)
    else if c == b'-'
    then parse_error (c ∷ s)
    else if c == b':'
    then parse_integer (c ∷ s)
    else if c == b'$'
    then parse_bulk_string (c ∷ s)
    else if c == b'*'
    then parse_array parse (c ∷ s)
    else invalid (codes "ERR unknown RESP type byte")

-- `parse`, nested `fuel` deep at most.
unfoldable pub parse_within : ℕ → Bytes → Run (Option RespValue)
unfolding parse_body
parse_within zero buf = err out_of_fuel
parse_within (suc fuel) buf = parse_body (parse_within fuel) buf

-- `RespParser::parse`: an array nests no deeper than its text is long.
unfoldable pub parse : Bytes → Run (Option RespValue)
unfolding parse_within
parse buf = parse_within (suc (length buf)) buf
