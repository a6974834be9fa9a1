-- ===== src/CommandHandler/Sets.antt =====
-- The commands of `CommandHandler` (src/cpp/server/request_handler/command_handler.cpp) on sorted sets.
use chrono_cache.Shared.{ℕ, Option, none, some, List, [], ◌∷◌}
use chrono_cache.Shared.Int.{pos}
use chrono_cache.Shared.Run.{Run, ok, ◌>>=◌}
use chrono_cache.Shared.Text.{Bytes, codes}
use chrono_cache.SortedList.{Order}
use chrono_cache.KvStore.Key.{Key}
use chrono_cache.SortedSets.{Score}
use chrono_cache.ChronoCache
use chrono_cache.ChronoCache.{ChronoCache}
use chrono_cache.Resp.Value.{RespValue, str_value}
use chrono_cache.Resp.Serializer
use chrono_cache.CommandHandler.Keys.{Library, wrong_number, one_if}

module _ {μ} {S : Type μ} ⦃key : Key Bytes⦄ ⦃members : Order Bytes⦄ ⦃scores : Score S⦄
    (lib : Library S) where
  unfoldable pub cmd_zadd : List RespValue → ChronoCache S → Run (Bytes × ChronoCache S)
  unfolding ChronoCache.zadd
  cmd_zadd [] c = ok (wrong_number (codes "ZADD"), c)
  cmd_zadd (k ∷ []) c = ok (wrong_number (codes "ZADD"), c)
  cmd_zadd (k ∷ s ∷ []) c = ok (wrong_number (codes "ZADD"), c)
  cmd_zadd (k ∷ s ∷ m ∷ []) c = do
    score ← lib.stod (str_value s)
    r ← ChronoCache.zadd (str_value k) score (str_value m) c
    ok (one_if r.0, r.1)
  cmd_zadd (k ∷ s ∷ m ∷ a ∷ more) c = ok (wrong_number (codes "ZADD"), c)

  abbrev pub score_or_null : Option S → Bytes
  score_or_null none = Serializer.null_bulk
  score_or_null (some score) = Serializer.bulk_string (lib.double_to_string score)

  unfoldable pub cmd_zscore : List RespValue → ChronoCache S → Run (Bytes × ChronoCache S)
  unfolding ChronoCache.zscore
  cmd_zscore [] c = ok (wrong_number (codes "ZSCORE"), c)
  cmd_zscore (k ∷ []) c = ok (wrong_number (codes "ZSCORE"), c)
  cmd_zscore (k ∷ m ∷ []) c = do
    score ← ChronoCache.zscore (str_value k) (str_value m) c
    ok (score_or_null score, c)
  cmd_zscore (k ∷ m ∷ a ∷ more) c = ok (wrong_number (codes "ZSCORE"), c)

  unfoldable pub cmd_zrem : List RespValue → ChronoCache S → Run (Bytes × ChronoCache S)
  unfolding ChronoCache.zrem
  cmd_zrem [] c = ok (wrong_number (codes "ZREM"), c)
  cmd_zrem (k ∷ []) c = ok (wrong_number (codes "ZREM"), c)
  cmd_zrem (k ∷ m ∷ []) c = do
    r ← ChronoCache.zrem (str_value k) (str_value m) c
    ok (one_if r.0, r.1)
  cmd_zrem (k ∷ m ∷ a ∷ more) c = ok (wrong_number (codes "ZREM"), c)

  abbrev pub rank_or_null : Option ℕ → Bytes
  rank_or_null none = Serializer.null_bulk
  rank_or_null (some rank) = Serializer.integer (pos rank)

  unfoldable pub cmd_zrank : List RespValue → ChronoCache S → Run (Bytes × ChronoCache S)
  unfolding ChronoCache.zrank
  cmd_zrank [] c = ok (wrong_number (codes "ZRANK"), c)
  cmd_zrank (k ∷ []) c = ok (wrong_number (codes "ZRANK"), c)
  cmd_zrank (k ∷ m ∷ []) c = do
    rank ← ChronoCache.zrank (str_value k) (str_value m) c
    ok (rank_or_null rank, c)
  cmd_zrank (k ∷ m ∷ a ∷ more) c = ok (wrong_number (codes "ZRANK"), c)
