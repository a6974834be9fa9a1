-- ===== src/Resp/Serializer.antt =====
-- `RespSerializer` of src/cpp/server/request_handler/resp_serializer.cpp.
pub mod RoundTrip
use chrono_cache.Shared.{[], ◌∷◌, ◌++◌, List, length}
use chrono_cache.Shared.Int.{ℤ}
use chrono_cache.Shared.Text.{Bytes, codes}
use chrono_cache.Resp.Number.{to_string_ℕ, to_string}

abbrev pub crlf : Bytes
crlf = 13 ∷ 10 ∷ []

unfoldable pub ok : Bytes
ok = codes "+OK" ++ crlf

unfoldable pub error : Bytes → Bytes
error msg = codes "-" ++ msg ++ crlf

unfoldable pub integer : ℤ → Bytes
integer n = codes ":" ++ to_string n ++ crlf

unfoldable pub bulk_string : Bytes → Bytes
bulk_string s = codes "$" ++ to_string_ℕ (length s) ++ crlf ++ s ++ crlf

unfoldable pub null_bulk : Bytes
null_bulk = codes "$-1" ++ crlf

-- The loop of `array`, which appends the items to `out`.
unfoldable pub append_items : Bytes → List Bytes → Bytes
append_items out [] = out
append_items out (item ∷ items) =
    append_items (out ++ codes "$" ++ to_string_ℕ (length item) ++ crlf ++ item ++ crlf) items

unfoldable pub array : List Bytes → Bytes
array items = append_items (codes "*" ++ to_string_ℕ (length items) ++ crlf) items
