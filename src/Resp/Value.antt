-- ===== src/Resp/Value.antt =====
-- `RespValue` and its factories, of src/cpp/server/request_handler/resp_value.h and resp_value.cpp: one
-- constructor a factory, so that a field a factory leaves alone has its default.
use chrono_cache.Shared.{ℕ, ◌-◌, ◌^◌, []}
use chrono_cache.Shared.Int.{ℤ}
use chrono_cache.Shared.Text.{Bytes}

-- `RespValue::kUnsetRespBytes`, `static_cast<size_t>(-1)`
abbrev pub k_unset_resp_bytes : ℕ
k_unset_resp_bytes = 2 ^ 64 - 1

mutual
  pub data RespValue : Type 0 where
    simple_string : Bytes → ℕ → RespValue
    error : Bytes → ℕ → RespValue
    integer : ℤ → ℕ → RespValue
    bulk_string : Bytes → ℕ → RespValue
    null_bulk : ℕ → RespValue
    null_array : ℕ → RespValue
    array_from_parts : Values → ℕ → RespValue

  -- `std::vector<RespValue>`
  pub data Values : Type 0 where
    nil : Values
    cons : RespValue → Values → Values

abbrev pub num_resp_bytes : RespValue → ℕ
num_resp_bytes (simple_string s n) = n
num_resp_bytes (error s n) = n
num_resp_bytes (integer i n) = n
num_resp_bytes (bulk_string s n) = n
num_resp_bytes (null_bulk n) = n
num_resp_bytes (null_array n) = n
num_resp_bytes (array_from_parts vs n) = n

-- `v.str_value`, empty where the factory does not set it
abbrev pub str_value : RespValue → Bytes
str_value (simple_string s n) = s
str_value (error s n) = s
str_value (integer i n) = []
str_value (bulk_string s n) = s
str_value (null_bulk n) = []
str_value (null_array n) = []
str_value (array_from_parts vs n) = []

-- `vs.push_back(v)`
abbrev pub push_back : Values → RespValue → Values
push_back nil v = cons v nil
push_back (cons w vs) v = cons w (push_back vs v)

-- `RespValue::error(msg)`: no number of bytes.
abbrev pub error_unset : Bytes → RespValue
error_unset msg = error msg k_unset_resp_bytes
