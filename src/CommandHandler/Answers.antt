-- ===== src/CommandHandler/Answers.antt =====
-- The form of what `CommandHandler::execute` (src/cpp/server/request_handler/command_handler.cpp) answers.
use chrono_cache.Shared.{
  ℕ, ◌≡◌, refl, ◌&&◌, Option, none, some, List, [], ◌∷◌, ◌++◌, ◌==◌, arith, Bool-cases,
  Option-cases, inl, inr,
}
use chrono_cache.Shared.Int.{pos}
use chrono_cache.Shared.Run.{ok}
use chrono_cache.Shared.Text.{Bytes, codes, same_bytes}
use chrono_cache.SortedList.{Order}
use chrono_cache.KvStore.Key.{Key}
use chrono_cache.SortedSets.{Score}
use chrono_cache.ChronoCache
use chrono_cache.ChronoCache.{ChronoCache}
use chrono_cache.Resp.Number.{to_upper}
use chrono_cache.Resp.Value.{
  RespValue, Values, cons, array_from_parts, str_value, null_array, simple_string, error, integer,
  bulk_string, null_bulk,
}
use chrono_cache.Resp.Parser.{find_crlf}
use chrono_cache.CommandHandler.{dispatch, execute, unknown_command, invalid_format}
use chrono_cache.CommandHandler.Keys.{Library, list}
use chrono_cache.CommandHandler.Sets.{
  cmd_zadd, cmd_zscore, cmd_zrem, cmd_zrank, score_or_null, rank_or_null,
}
use chrono_cache.CommandHandler.Replies.{
  IsOneReply, IsAnswer, IsAnswer-bind, IsAnswer-if, integral, bulk, null, complaint, wrong,
  one_if-IsOneReply, cmd_init-IsAnswer, cmd_ping-IsAnswer, cmd_set-IsAnswer, cmd_get-IsAnswer,
  cmd_del-IsAnswer, cmd_expire-IsAnswer, cmd_persist-IsAnswer, cmd_pttl-IsAnswer,
}

-- A quote behind a text brings in no line's end, nor does one in front.
quote_behind : (s : Bytes) → find_crlf s ≡ none → find_crlf (s ++ codes "'") ≡ none
unfolding find_crlf
quote_behind [] e = refl
quote_behind (c ∷ []) e = elim (Bool-cases (c == 13)) [ inl h ↦ rw h refl | inr h ↦ rw h refl ]
quote_behind (c ∷ d ∷ s) e = elim (Bool-cases (c == 13 && d == 10)) [
  | inl h ↦ absurd (ground (arith, e, h))
  | inr h ↦ elim (Option-cases (find_crlf (d ∷ s))) [
    | inl k ↦ rw (h, quote_behind (d ∷ s) k) refl
    | inr (j, k) ↦ absurd (ground (arith, e, h, k))
  ]
]

quote_before : (s : Bytes) → find_crlf s ≡ none → find_crlf (codes "'" ++ s) ≡ none
unfolding find_crlf
quote_before [] e = refl
quote_before (c ∷ s) e = rw e refl

-- The complaint about an unknown command is one line where the name is.
unknown_clear :
    (spelled : Bytes) → find_crlf spelled ≡ none → find_crlf (b'-' ∷ unknown_command spelled) ≡ none
unfolding find_crlf
unknown_clear spelled e = rw (quote_before (spelled ++ codes "'") (quote_behind spelled e)) refl

-- The name of the command, if the message is one, holds no line's end.
abbrev pub HasPlainName : RespValue → Type 0
HasPlainName (array_from_parts (cons v vs) n) = find_crlf (str_value v) ≡ none
HasPlainName (array_from_parts Values.nil n) = Unit
HasPlainName (null_array n) = Unit
HasPlainName (simple_string s n) = Unit
HasPlainName (error s n) = Unit
HasPlainName (integer i n) = Unit
HasPlainName (bulk_string s n) = Unit
HasPlainName (null_bulk n) = Unit

module _ {μ} {S : Type μ} ⦃key : Key Bytes⦄ ⦃members : Order Bytes⦄ ⦃scores : Score S⦄
    (lib : Library S) (c : ChronoCache S) where
  cmd_zadd-IsAnswer : (args : List RespValue) → IsAnswer (cmd_zadd lib args c)
  unfolding cmd_zadd find_crlf
  cmd_zadd-IsAnswer [] = wrong (codes "ZADD") refl
  cmd_zadd-IsAnswer (k ∷ []) = wrong (codes "ZADD") refl
  cmd_zadd-IsAnswer (k ∷ s ∷ []) = wrong (codes "ZADD") refl
  cmd_zadd-IsAnswer (k ∷ s ∷ m ∷ []) = IsAnswer-bind (lib.stod (str_value s)) _ λ score.
      IsAnswer-bind (ChronoCache.zadd (str_value k) score (str_value m) c) _
        λ r. one_if-IsOneReply r.0
  cmd_zadd-IsAnswer (k ∷ s ∷ m ∷ a ∷ more) = wrong (codes "ZADD") refl

  score_or_null-IsOneReply : (score : Option S) → IsOneReply (score_or_null lib score)
  score_or_null-IsOneReply none = null
  score_or_null-IsOneReply (some score) = bulk (lib.double_to_string score)

  cmd_zscore-IsAnswer : (args : List RespValue) → IsAnswer (cmd_zscore lib args c)
  unfolding cmd_zscore find_crlf
  cmd_zscore-IsAnswer [] = wrong (codes "ZSCORE") refl
  cmd_zscore-IsAnswer (k ∷ []) = wrong (codes "ZSCORE") refl
  cmd_zscore-IsAnswer (k ∷ m ∷ []) =
      IsAnswer-bind (ChronoCache.zscore (str_value k) (str_value m) c) _ score_or_null-IsOneReply
  cmd_zscore-IsAnswer (k ∷ m ∷ a ∷ more) = wrong (codes "ZSCORE") refl

  cmd_zrem-IsAnswer : (args : List RespValue) → IsAnswer (cmd_zrem lib args c)
  unfolding cmd_zrem find_crlf
  cmd_zrem-IsAnswer [] = wrong (codes "ZREM") refl
  cmd_zrem-IsAnswer (k ∷ []) = wrong (codes "ZREM") refl
  cmd_zrem-IsAnswer (k ∷ m ∷ []) =
      IsAnswer-bind (ChronoCache.zrem (str_value k) (str_value m) c) _ λ r. one_if-IsOneReply r.0
  cmd_zrem-IsAnswer (k ∷ m ∷ a ∷ more) = wrong (codes "ZREM") refl

  rank_or_null-IsOneReply : (rank : Option ℕ) → IsOneReply (rank_or_null lib rank)
  rank_or_null-IsOneReply none = null
  rank_or_null-IsOneReply (some rank) = integral (pos rank)

  cmd_zrank-IsAnswer : (args : List RespValue) → IsAnswer (cmd_zrank lib args c)
  unfolding cmd_zrank find_crlf
  cmd_zrank-IsAnswer [] = wrong (codes "ZRANK") refl
  cmd_zrank-IsAnswer (k ∷ []) = wrong (codes "ZRANK") refl
  cmd_zrank-IsAnswer (k ∷ m ∷ []) =
      IsAnswer-bind (ChronoCache.zrank (str_value k) (str_value m) c) _ rank_or_null-IsOneReply
  cmd_zrank-IsAnswer (k ∷ m ∷ a ∷ more) = wrong (codes "ZRANK") refl

  dispatch-IsAnswer :
      (name spelled : Bytes) (args : List RespValue)
      → find_crlf (b'-' ∷ unknown_command spelled) ≡ none
      → IsAnswer (dispatch lib name spelled args c)
  unfolding dispatch
  dispatch-IsAnswer name spelled args clear =
      IsAnswer-if (same_bytes name (codes "INIT")) _ _ (cmd_init-IsAnswer lib c args) (
        IsAnswer-if (same_bytes name (codes "PING")) _ _ (cmd_ping-IsAnswer lib c args) (
          IsAnswer-if (same_bytes name (codes "SET")) _ _ (cmd_set-IsAnswer lib c args) (
            IsAnswer-if (same_bytes name (codes "GET")) _ _ (cmd_get-IsAnswer lib c args) (
              IsAnswer-if (same_bytes name (codes "DEL")) _ _ (cmd_del-IsAnswer lib c args) (
                IsAnswer-if (same_bytes name (codes "EXPIRE")) _ _ (cmd_expire-IsAnswer lib c args)
                  (IsAnswer-if (same_bytes name (codes "PERSIST")) _ _
                    (cmd_persist-IsAnswer lib c args)
                    (IsAnswer-if (same_bytes name (codes "PTTL")) _ _ (cmd_pttl-IsAnswer lib c args)
                      (IsAnswer-if (same_bytes name (codes "ZADD")) _ _ (cmd_zadd-IsAnswer args) (
                        IsAnswer-if (same_bytes name (codes "ZSCORE")) _ _
                          (cmd_zscore-IsAnswer args)
                          (IsAnswer-if (same_bytes name (codes "ZREM")) _ _ (cmd_zrem-IsAnswer args)
                            (IsAnswer-if (same_bytes name (codes "ZRANK")) _ _
                              (cmd_zrank-IsAnswer args)
                              (complaint (unknown_command spelled) clear))))))))))))

  invalid : IsAnswer {S = S} (ok (invalid_format, c))
  unfolding find_crlf
  invalid = complaint (codes "ERR invalid command format") refl

  -- For every message whose command name, if it has one, holds no line end, and every state of
  -- the cache, what `execute` returns, where it returns, is exactly one reply of the serializer,
  -- and the text of an error is one line.
  pub execute-IsAnswer :
      (command : RespValue) → HasPlainName command → IsAnswer (execute lib command c)
  unfolding execute
  execute-IsAnswer (array_from_parts (cons v vs) n) plain =
      dispatch-IsAnswer (to_upper (str_value v)) (str_value v) (list vs)
        (unknown_clear (str_value v) plain)
  execute-IsAnswer (array_from_parts Values.nil n) plain = invalid
  execute-IsAnswer (null_array n) plain = invalid
  execute-IsAnswer (simple_string s n) plain = invalid
  execute-IsAnswer (error s n) plain = invalid
  execute-IsAnswer (integer i n) plain = invalid
  execute-IsAnswer (bulk_string s n) plain = invalid
  execute-IsAnswer (null_bulk n) plain = invalid
