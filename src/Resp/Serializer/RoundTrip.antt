-- ===== src/Resp/Serializer/RoundTrip.antt =====
-- What `RespParser` makes of what `RespSerializer` writes (src/cpp/server/request_handler/resp_serializer.cpp
-- and resp_parser.cpp), whatever follows it.
use chrono_cache.Shared.{
  ℕ, suc, ◌+◌, ◌^◌, ◌<◌, ◌≡◌, refl, sym, ap, ◌∙◌, true, false, none, some, List, [], ◌∷◌, ◌++◌,
  append-nil, append_assoc, length, drop, leb, ◌==◌, arith, le→leb, length-append,
}
use chrono_cache.Shared.Int.{pos}
use chrono_cache.Shared.Run.{ok}
use chrono_cache.Shared.Text.{Bytes, codes, drop-append}
use chrono_cache.Resp.Number.{parse_string_as_int, to_string_ℕ, to_string}
use chrono_cache.Resp.Number.Laws.{
  length-to_string_ℕ, to_string_ℕ-IsNumeral, parse_string_as_int-to_string,
}
use chrono_cache.Resp.Value.{
  RespValue, Values, nil, cons, bulk_string, array_from_parts, push_back, k_unset_resp_bytes,
}
use chrono_cache.Resp.Parser.{find_crlf, substr_from, parse_elements, array_data, parse, bulk_data}
use chrono_cache.Resp.Serializer
use chrono_cache.Resp.Serializer.{crlf}
use chrono_cache.Resp.Parser.Lines.{digits_crlf}
use chrono_cache.Resp.Parser.Messages.{parse-bulk_data, parse-array_data, bulk_data_whole}

-- The numeral of a size behind a byte has no line's end.
pub numeral_crlf : (c n : ℕ) → find_crlf (c ∷ to_string_ℕ n) ≡ none
numeral_crlf c n = digits_crlf c (to_string_ℕ n) ((to_string_ℕ-IsNumeral n).all_digits)

-- A size below 2 ^ 31 is read back.
pub size_read : (n : ℕ) → n < 2 ^ 31 → parse_string_as_int (to_string_ℕ n) ≡ ok (some (pos n))
unfolding to_string
size_read n small = parse_string_as_int-to_string (pos n) (omega arith)

-- A line, its data and what follows, with the data's end in one piece.
data_layout :
    (line s rest : Bytes)
    → line ++ crlf ++ s ++ crlf ++ rest ≡ line ++ 13 ∷ 10 ∷ (s ++ 13 ∷ 10 ∷ rest)
data_layout line s rest =
    append_assoc (line ++ crlf ++ s) crlf rest
    ∙ append_assoc (line ++ crlf) s (13 ∷ 10 ∷ rest)
    ∙ append_assoc line crlf (s ++ 13 ∷ 10 ∷ rest)

pub parse-bulk_string :
    (s rest : Bytes)
    → length s < 2 ^ 31
    → parse (Serializer.bulk_string s ++ rest)
      ≡ ok (some (bulk_string s (length (Serializer.bulk_string s))))
unfolding Serializer.bulk_string
parse-bulk_string s rest small =
    let t = to_string_ℕ (length s) in
    let front = b'$' ∷ t ++ crlf in
    let after = s ++ 13 ∷ 10 ∷ rest in
    let sizes : length (front ++ s ++ crlf) ≡ suc (length t) + 2 + length s + 2 = omega (
      arith,
      length-append (front ++ s) crlf,
      length-append front s,
      length-append (b'$' ∷ t) crlf,
    ) in
    ap parse (data_layout (b'$' ∷ t) s rest)
    ∙ parse-bulk_data t after (some (pos (length s))) (numeral_crlf b'$' (length s))
        (size_read (length s) small)
    ∙ ap (λ buf. bulk_data buf (suc (length t)) (some (pos (length s))))
        (sym (append_assoc (b'$' ∷ t) crlf after) ∙ sym (append_assoc front s (13 ∷ 10 ∷ rest)))
    ∙ bulk_data_whole front s rest (suc (length t)) (omega (arith, length-append (b'$' ∷ t) crlf))
    ∙ ap (λ n. ok (some (bulk_string s n))) (sym sizes)

-- The items of a request, as the parser reads them.
abbrev pub bulk_values : List Bytes → Values
bulk_values [] = nil
bulk_values (item ∷ items) =
    cons (bulk_string item (length (Serializer.bulk_string item))) (bulk_values items)

abbrev pub append_values : Values → Values → Values
append_values nil ws = ws
append_values (cons v vs) ws = cons v (append_values vs ws)

push_back-append_values :
    (vs ws : Values) (v : RespValue)
    → append_values (push_back vs v) ws ≡ append_values vs (cons v ws)
push_back-append_values nil ws v = refl
push_back-append_values (cons w vs) ws v = ap (cons w) (push_back-append_values vs ws v)

append_values_nil : (vs : Values) → append_values vs nil ≡ vs
append_values_nil nil = refl
append_values_nil (cons v vs) = ap (cons v) (append_values_nil vs)

-- The items one behind the other.
abbrev pub bulk_items : List Bytes → Bytes
bulk_items [] = []
bulk_items (item ∷ items) = Serializer.bulk_string item ++ bulk_items items

append_item :
    (out item : Bytes)
    → out ++ codes "$" ++ to_string_ℕ (length item) ++ crlf ++ item ++ crlf
      ≡ out ++ Serializer.bulk_string item
unfolding Serializer.bulk_string
append_item out item = simp append_assoc

append_items-bulk_items :
    (out : Bytes) (items : List Bytes) → Serializer.append_items out items ≡ out ++ bulk_items items
unfolding Serializer.append_items
append_items-bulk_items out [] = sym (append-nil out)
append_items-bulk_items out (item ∷ items) =
    append_items-bulk_items (out ++ codes "$" ++ to_string_ℕ (length item) ++ crlf ++ item ++ crlf)
      items
    ∙ ap (λ o. o ++ bulk_items items) (append_item out item)
    ∙ append_assoc out (Serializer.bulk_string item) (bulk_items items)

-- Every item is short enough for an `int`.
abbrev pub AreShort : List Bytes → Type 0
AreShort [] = Unit
AreShort (item ∷ items) = (length item < 2 ^ 31) × AreShort items

-- An item's length is no missing one.
length-bulk_string :
    (s : Bytes)
    → length s < 2 ^ 31
    → (length (Serializer.bulk_string s) == k_unset_resp_bytes) ≡ false
unfolding Serializer.bulk_string
length-bulk_string s small =
    let t = to_string_ℕ (length s) in
    ground (
      arith,
      length-append (b'$' ∷ t ++ crlf ++ s) crlf,
      length-append (b'$' ∷ t ++ crlf) s,
      length-append (b'$' ∷ t) crlf,
      length-to_string_ℕ (length s),
    )

-- One round of the loop, on an item that stands behind `front`.
parse_item :
    (front item after : Bytes) (n : ℕ) (elements : Values)
    → length item < 2 ^ 31
    → parse_elements parse
        (front ++ Serializer.bulk_string item ++ after)
        (suc n)
        (length front)
        elements
      ≡ parse_elements parse
          (front ++ Serializer.bulk_string item ++ after)
          n
          (length (front ++ Serializer.bulk_string item))
          (push_back elements (bulk_string item (length (Serializer.bulk_string item))))
unfolding parse_elements substr_from
parse_item front item after n elements small =
    let bulk = Serializer.bulk_string item in
    let buf = front ++ bulk ++ after in
    let inside : leb (length front) (length buf) ≡ true =
      le→leb (length front) (length buf)
        (omega (arith, length-append (front ++ bulk) after, length-append front bulk)) in
    let behind : drop (length front) buf ≡ bulk ++ after =
      ap (drop (length front)) (append_assoc front bulk after)
      ∙ drop-append front (bulk ++ after) in
    rw (inside, behind, parse-bulk_string item after small, length-bulk_string item small)
      (ap
        (λ curr.
          parse_elements parse buf n curr (push_back elements (bulk_string item (length bulk))))
        (sym (length-append front bulk)))

parse_elements-bulk_items :
    (front : Bytes) (items : List Bytes) (rest : Bytes) (elements : Values)
    → AreShort items
    → parse_elements parse
        (front ++ bulk_items items ++ rest)
        (length items)
        (length front)
        elements
      ≡ ok (
          some (
            array_from_parts
              (append_values elements (bulk_values items))
              (length (front ++ bulk_items items))))
unfolding parse_elements
parse_elements-bulk_items front [] rest elements short =
    rw (append_values_nil elements, append-nil front) refl
parse_elements-bulk_items front (item ∷ items) rest elements (small, short) =
    let bulk = Serializer.bulk_string item in
    let v = bulk_string item (length bulk) in
    let regroup : front ++ (bulk ++ bulk_items items) ≡ front ++ bulk ++ bulk_items items =
      sym (append_assoc front bulk (bulk_items items)) in
    ap (λ s. parse_elements parse (s ++ rest) (suc (length items)) (length front) elements) regroup
    ∙ ap (λ buf. parse_elements parse buf (suc (length items)) (length front) elements)
        (append_assoc (front ++ bulk) (bulk_items items) rest)
    ∙ parse_item front item (bulk_items items ++ rest) (length items) elements small
    ∙ ap
        (λ buf.
          parse_elements parse buf (length items) (length (front ++ bulk)) (push_back elements v))
        (sym (append_assoc (front ++ bulk) (bulk_items items) rest))
    ∙ parse_elements-bulk_items (front ++ bulk) items rest (push_back elements v) short
    ∙ rw (push_back-append_values elements (bulk_values items) v, regroup) refl

-- What `array` writes of fewer than 2 ^ 31 items, each shorter than 2 ^ 31 bytes, is read back as
-- the array of the items as bulk strings, whatever follows, and the value has the number of bytes
-- written.
pub parse-array :
    (items : List Bytes) (rest : Bytes)
    → length items < 2 ^ 31
    → AreShort items
    → parse (Serializer.array items ++ rest)
      ≡ ok (some (array_from_parts (bulk_values items) (length (Serializer.array items))))
unfolding Serializer.array array_data
parse-array items rest few short =
    let t = to_string_ℕ (length items) in
    let line = b'*' ∷ t ++ crlf in
    let after = bulk_items items ++ rest in
    let written : Serializer.array items ≡ line ++ bulk_items items =
      append_items-bulk_items line items in
    rw written (
      ap parse (append_assoc line (bulk_items items) rest ∙ append_assoc (b'*' ∷ t) crlf after)
      ∙ parse-array_data t after (some (pos (length items))) (numeral_crlf b'*' (length items))
          (size_read (length items) few)
      ∙ ap (λ curr. parse_elements parse (b'*' ∷ t ++ 13 ∷ 10 ∷ after) (length items) curr nil)
          (omega (arith, length-append (b'*' ∷ t) crlf))
      ∙ ap (λ buf. parse_elements parse buf (length items) (length line) nil)
          (sym (append_assoc line (bulk_items items) rest ∙ append_assoc (b'*' ∷ t) crlf after))
      ∙ parse_elements-bulk_items line items rest nil short)
