-- ===== src/CommandHandler.antt =====
-- `CommandHandler::execute` of src/cpp/server/request_handler/command_handler.cpp; its commands are in the
-- modules below. An exception, of a conversion or of the cache, ends a command without a reply.
pub mod Keys
pub mod Sets
pub mod Sessions
pub mod Deletions
pub mod Start
pub mod Arity
pub mod Replies
pub mod Answers
use chrono_cache.Shared.{
  ℕ, ◌+◌, Bool, true, false, ◌&&◌, not, Option, none, some, List, [], ◌∷◌, ◌++◌, if◌then◌else◌,
}
use chrono_cache.Shared.Int.{ℤ, pos, leb_ℤ}
use chrono_cache.Shared.Run.{Run, ok, err, ◌>>=◌}
use chrono_cache.Shared.Text.{Bytes, codes, same_bytes}
use chrono_cache.SortedList.{Order}
use chrono_cache.KvStore.Key.{Key}
use chrono_cache.Events.{Event, Logger}
use chrono_cache.SortedSets.{Score}
use chrono_cache.Cache
use chrono_cache.Cache.{Cache}
use chrono_cache.Replay
use chrono_cache.ChronoCache
use chrono_cache.ChronoCache.{ChronoCache}
use chrono_cache.Resp.Number.{to_upper}
use chrono_cache.Resp.Value.{
  RespValue, Values, cons, array_from_parts, str_value, null_array, simple_string, error, integer,
  bulk_string, null_bulk,
}
use chrono_cache.Resp.Serializer
use chrono_cache.CommandHandler.Keys.{
  Library, list, cmd_init, cmd_ping, cmd_set, cmd_get, cmd_del, cmd_expire, cmd_persist, cmd_pttl,
}
use chrono_cache.CommandHandler.Sets.{cmd_zadd, cmd_zscore, cmd_zrem, cmd_zrank}

abbrev pub unknown_command : Bytes → Bytes
unknown_command spelled = codes "ERR unknown command '" ++ spelled ++ codes "'"

abbrev pub invalid_format : Bytes
invalid_format = Serializer.error (codes "ERR invalid command format")

module _ {μ} {S : Type μ} ⦃key : Key Bytes⦄ ⦃members : Order Bytes⦄ ⦃scores : Score S⦄
    (lib : Library S) where
  -- The choice of the command by its name in capitals; `spelled` is the name as it was sent.
  unfoldable pub dispatch :
      Bytes → Bytes → List RespValue → ChronoCache S → Run (Bytes × ChronoCache S)
  unfolding cmd_init cmd_ping cmd_set cmd_get cmd_del cmd_expire cmd_persist cmd_pttl cmd_zadd
      cmd_zscore cmd_zrem cmd_zrank
  dispatch name spelled args c =
      if same_bytes name (codes "INIT")
      then cmd_init lib args c
      else if same_bytes name (codes "PING")
      then cmd_ping lib args c
      else if same_bytes name (codes "SET")
      then cmd_set lib args c
      else if same_bytes name (codes "GET")
      then cmd_get lib args c
      else if same_bytes name (codes "DEL")
      then cmd_del lib args c
      else if same_bytes name (codes "EXPIRE")
      then cmd_expire lib args c
      else if same_bytes name (codes "PERSIST")
      then cmd_persist lib args c
      else if same_bytes name (codes "PTTL")
      then cmd_pttl lib args c
      else if same_bytes name (codes "ZADD")
      then cmd_zadd lib args c
      else if same_bytes name (codes "ZSCORE")
      then cmd_zscore lib args c
      else if same_bytes name (codes "ZREM")
      then cmd_zrem lib args c
      else if same_bytes name (codes "ZRANK")
      then cmd_zrank lib args c
      else ok (Serializer.error (unknown_command spelled), c)

  unfoldable pub execute : RespValue → ChronoCache S → Run (Bytes × ChronoCache S)
  unfolding dispatch to_upper
  execute (array_from_parts Values.nil n) c = ok (invalid_format, c)
  execute (array_from_parts (cons v vs) n) c =
      dispatch (to_upper (str_value v)) (str_value v) (list vs) c
  execute (null_array n) c = ok (invalid_format, c)
  execute (simple_string s n) c = ok (invalid_format, c)
  execute (error s n) c = ok (invalid_format, c)
  execute (integer i n) c = ok (invalid_format, c)
  execute (bulk_string s n) c = ok (invalid_format, c)
  execute (null_bulk n) c = ok (invalid_format, c)
