-- ===== src/CommandHandler/Arity.antt =====
-- The commands of src/cpp/server/request_handler/command_handler.cpp that take a fixed number of arguments, when
-- they are given another number.
use chrono_cache.Shared.{
  Bool, true, false, ◌&&◌, ◌==◌, get_or, ◌++◌, append_assoc, Option, none, some, if◌then◌else◌,
  subst, arith, ◌↔◌, ℕ, suc, ◌≡◌, ◌≢◌, refl, sym, ap, ◌∙◌, List, [], ◌∷◌, length,
}
use chrono_cache.Shared.Int.{pos, leb_ℤ}
use chrono_cache.Shared.Run.{Run, ok, err, ◌>>=◌}
use chrono_cache.Resp.Serializer
use chrono_cache.Cache
use chrono_cache.Shared.Text.{Bytes, codes, same_bytes}
use chrono_cache.SortedList.{Order}
use chrono_cache.KvStore.Key.{Key}
use chrono_cache.SortedSets.{Score}
use chrono_cache.ChronoCache
use chrono_cache.ChronoCache.{ChronoCache}
use chrono_cache.Resp.Number.{to_upper}
use chrono_cache.Resp.Value.{RespValue, str_value}
use chrono_cache.Resp.Serializer.RoundTrip.{bulk_values}
use chrono_cache.CommandHandler.{dispatch, execute}
use chrono_cache.CommandHandler.Keys.{Library, list, cmd_get, bulk_or_null}
use chrono_cache.CommandHandler.Keys.{wrong_number, cmd_expire, cmd_persist, cmd_pttl}
use chrono_cache.CommandHandler.Sets.{
  cmd_zadd, cmd_zscore, cmd_zrem, cmd_zrank, score_or_null, rank_or_null,
}
use chrono_cache.CommandHandler.Sessions.{request}

-- A command with a fixed number of arguments.
pub data Fixed : Type 0 where
  get_command expire_command persist_command pttl_command zadd_command zscore_command zrem_command
        zrank_command :
      Fixed

abbrev pub name_of : Fixed → Bytes
name_of get_command = codes "GET"
name_of expire_command = codes "EXPIRE"
name_of persist_command = codes "PERSIST"
name_of pttl_command = codes "PTTL"
name_of zadd_command = codes "ZADD"
name_of zscore_command = codes "ZSCORE"
name_of zrem_command = codes "ZREM"
name_of zrank_command = codes "ZRANK"

abbrev pub arity : Fixed → ℕ
arity get_command = 1
arity expire_command = 2
arity persist_command = 1
arity pttl_command = 1
arity zadd_command = 3
arity zscore_command = 2
arity zrem_command = 2
arity zrank_command = 2

-- The line that complains of the number of arguments.
abbrev pub complaint : Bytes → Bytes
complaint name =
    codes "-ERR wrong number of arguments for '" ++ (name ++ (codes "' command" ++ 13 ∷ 10 ∷ []))

-- Whether a line starts as the complaint does, by two of its bytes.
abbrev complains : Bytes → Bool
complains line = (get_or line 0 0 == b'-') && (get_or line 5 0 == b'w')

wrong_number-complaint : (name : Bytes) → wrong_number name ≡ complaint name
unfolding Serializer.error
wrong_number-complaint name =
    ap (λ line. codes "-ERR wrong number of arguments for '" ++ line)
      (append_assoc name (codes "' command") Serializer.crlf)

module _ {μ} {S : Type μ} ⦃key : Key Bytes⦄ ⦃members : Order Bytes⦄ ⦃scores : Score S⦄
    (lib : Library S) (c : ChronoCache S) where
  dispatch-arity :
      (f : Fixed) (spelled : Bytes) (args : List RespValue)
      → length args ≢ arity f
      → dispatch lib (name_of f) spelled args c ≡ ok (wrong_number (name_of f), c)
  unfolding dispatch same_bytes cmd_get cmd_expire cmd_persist cmd_pttl cmd_zadd cmd_zscore cmd_zrem
      cmd_zrank
  dispatch-arity get_command spelled [] h = refl
  dispatch-arity get_command spelled (k ∷ []) h = absurd (h refl)
  dispatch-arity get_command spelled (k ∷ a ∷ more) h = refl
  dispatch-arity expire_command spelled [] h = refl
  dispatch-arity expire_command spelled (k ∷ []) h = refl
  dispatch-arity expire_command spelled (k ∷ a ∷ []) h = absurd (h refl)
  dispatch-arity expire_command spelled (k ∷ a ∷ b ∷ more) h = refl
  dispatch-arity persist_command spelled [] h = refl
  dispatch-arity persist_command spelled (k ∷ []) h = absurd (h refl)
  dispatch-arity persist_command spelled (k ∷ a ∷ more) h = refl
  dispatch-arity pttl_command spelled [] h = refl
  dispatch-arity pttl_command spelled (k ∷ []) h = absurd (h refl)
  dispatch-arity pttl_command spelled (k ∷ a ∷ more) h = refl
  dispatch-arity zadd_command spelled [] h = refl
  dispatch-arity zadd_command spelled (k ∷ []) h = refl
  dispatch-arity zadd_command spelled (k ∷ a ∷ []) h = refl
  dispatch-arity zadd_command spelled (k ∷ a ∷ b ∷ []) h = absurd (h refl)
  dispatch-arity zadd_command spelled (k ∷ a ∷ b ∷ d ∷ more) h = refl
  dispatch-arity zscore_command spelled [] h = refl
  dispatch-arity zscore_command spelled (k ∷ []) h = refl
  dispatch-arity zscore_command spelled (k ∷ a ∷ []) h = absurd (h refl)
  dispatch-arity zscore_command spelled (k ∷ a ∷ b ∷ more) h = refl
  dispatch-arity zrem_command spelled [] h = refl
  dispatch-arity zrem_command spelled (k ∷ []) h = refl
  dispatch-arity zrem_command spelled (k ∷ a ∷ []) h = absurd (h refl)
  dispatch-arity zrem_command spelled (k ∷ a ∷ b ∷ more) h = refl
  dispatch-arity zrank_command spelled [] h = refl
  dispatch-arity zrank_command spelled (k ∷ []) h = refl
  dispatch-arity zrank_command spelled (k ∷ a ∷ []) h = absurd (h refl)
  dispatch-arity zrank_command spelled (k ∷ a ∷ b ∷ more) h = refl

  length-list : (items : List Bytes) → length (list (bulk_values items)) ≡ length items
  length-list [] = refl
  length-list (item ∷ items) = ap suc (length-list items)

  abbrev IsOther : Run (Bytes × ChronoCache S) → Type 0
  IsOther (ok r) = complains r.0 ≡ false
  IsOther (err problem) = Unit

  IsOther-bind {ν} :
      {A : Type ν} (call : Run A) (rest : A → Run (Bytes × ChronoCache S))
      → ((value : A) → IsOther (rest value))
      → IsOther (call >>= rest)
  IsOther-bind (ok value) rest h = h value
  IsOther-bind (err problem) rest h = tt

  IsOther-if :
      (b : Bool) (x y : Run (Bytes × ChronoCache S))
      → IsOther x
      → IsOther y
      → IsOther (if b then x else y)
  IsOther-if true x y hx hy = hx
  IsOther-if false x y hx hy = hy

  bulk_or_null-other : (o : Option Bytes) → complains (bulk_or_null o) ≡ false
  unfolding Serializer.bulk_string Serializer.null_bulk
  bulk_or_null-other none = refl
  bulk_or_null-other (some v) = refl

  score_or_null-other : (o : Option S) → complains (score_or_null lib o) ≡ false
  unfolding Serializer.bulk_string Serializer.null_bulk
  score_or_null-other none = refl
  score_or_null-other (some v) = refl

  rank_or_null-other : (o : Option ℕ) → complains (rank_or_null lib o) ≡ false
  unfolding Serializer.integer Serializer.null_bulk
  rank_or_null-other none = refl
  rank_or_null-other (some v) = refl

  dispatch-IsOther :
      (f : Fixed) (spelled : Bytes) (args : List RespValue)
      → length args ≡ arity f
      → IsOther (dispatch lib (name_of f) spelled args c)
  unfolding dispatch same_bytes cmd_get cmd_expire cmd_persist cmd_pttl cmd_zadd cmd_zscore cmd_zrem
      cmd_zrank Serializer.integer Serializer.error
  dispatch-IsOther get_command spelled (k ∷ []) h =
      IsOther-bind (Cache.get lib.clock lib.produce (str_value k) c.cache) _
        λ r. bulk_or_null-other r.0
  dispatch-IsOther get_command spelled [] h = absurd (omega arith)
  dispatch-IsOther get_command spelled (k ∷ a ∷ more) h = absurd (omega arith)
  dispatch-IsOther expire_command spelled (k ∷ t ∷ []) h =
      IsOther-bind (lib.stoll (str_value t)) _ λ ms.
        IsOther-if (leb_ℤ ms (pos 0)) _ _ refl
          (IsOther-bind (Cache.expire lib.clock lib.produce (str_value k) ms c.cache) _ λ r. refl)
  dispatch-IsOther expire_command spelled [] h = absurd (omega arith)
  dispatch-IsOther expire_command spelled (k ∷ []) h = absurd (omega arith)
  dispatch-IsOther expire_command spelled (k ∷ a ∷ b ∷ more) h = absurd (omega arith)
  dispatch-IsOther persist_command spelled (k ∷ []) h =
      IsOther-bind (Cache.persist lib.clock lib.produce (str_value k) c.cache) _ λ r. refl
  dispatch-IsOther persist_command spelled [] h = absurd (omega arith)
  dispatch-IsOther persist_command spelled (k ∷ a ∷ more) h = absurd (omega arith)
  dispatch-IsOther pttl_command spelled (k ∷ []) h =
      IsOther-bind (Cache.pttl lib.clock lib.produce (str_value k) c.cache) _ λ r. refl
  dispatch-IsOther pttl_command spelled [] h = absurd (omega arith)
  dispatch-IsOther pttl_command spelled (k ∷ a ∷ more) h = absurd (omega arith)
  dispatch-IsOther zadd_command spelled (k ∷ s ∷ m ∷ []) h =
      IsOther-bind (lib.stod (str_value s)) _
        λ score. IsOther-bind (ChronoCache.zadd (str_value k) score (str_value m) c) _ λ r. refl
  dispatch-IsOther zadd_command spelled [] h = absurd (omega arith)
  dispatch-IsOther zadd_command spelled (k ∷ []) h = absurd (omega arith)
  dispatch-IsOther zadd_command spelled (k ∷ a ∷ []) h = absurd (omega arith)
  dispatch-IsOther zadd_command spelled (k ∷ a ∷ b ∷ d ∷ more) h = absurd (omega arith)
  dispatch-IsOther zscore_command spelled (k ∷ m ∷ []) h =
      IsOther-bind (ChronoCache.zscore (str_value k) (str_value m) c) _ score_or_null-other
  dispatch-IsOther zscore_command spelled [] h = absurd (omega arith)
  dispatch-IsOther zscore_command spelled (k ∷ []) h = absurd (omega arith)
  dispatch-IsOther zscore_command spelled (k ∷ a ∷ b ∷ more) h = absurd (omega arith)
  dispatch-IsOther zrem_command spelled (k ∷ m ∷ []) h =
      IsOther-bind (ChronoCache.zrem (str_value k) (str_value m) c) _ λ r. refl
  dispatch-IsOther zrem_command spelled [] h = absurd (omega arith)
  dispatch-IsOther zrem_command spelled (k ∷ []) h = absurd (omega arith)
  dispatch-IsOther zrem_command spelled (k ∷ a ∷ b ∷ more) h = absurd (omega arith)
  dispatch-IsOther zrank_command spelled (k ∷ m ∷ []) h =
      IsOther-bind (ChronoCache.zrank (str_value k) (str_value m) c) _ rank_or_null-other
  dispatch-IsOther zrank_command spelled [] h = absurd (omega arith)
  dispatch-IsOther zrank_command spelled (k ∷ []) h = absurd (omega arith)
  dispatch-IsOther zrank_command spelled (k ∷ a ∷ b ∷ more) h = absurd (omega arith)

  -- A command with a fixed number of arguments (GET, EXPIRE, PERSIST, PTTL, ZADD, ZSCORE, ZREM,
  -- ZRANK), its name in letters of either case, answers the line `-ERR wrong number of arguments
  -- for '...' command` with its name in capitals, and changes nothing, exactly where it is given
  -- another number of arguments.
  pub complaint_iff :
      (f : Fixed) (spelled : Bytes) (args : List Bytes)
      → to_upper spelled ≡ name_of f
      → (execute lib (request (spelled ∷ args)) c ≡ ok (complaint (name_of f), c))
        ↔ (length args ≢ arity f)
  unfolding execute
  complaint_iff f spelled args e =
      let items = list (bulk_values args) in
      let run : execute lib (request (spelled ∷ args)) c
          ≡ dispatch lib (name_of f) spelled items c =
        rw e refl in
      (
        λ said same.
            let other = dispatch-IsOther f spelled items (length-list args ∙ same) in
            absurd (cc (subst IsOther (sym run ∙ said) other)),
        λ h.
            run
            ∙ dispatch-arity f spelled items (λ same. h (sym (length-list args) ∙ same))
            ∙ ap (λ line. ok (line, c)) (wrong_number-complaint (name_of f)),
      )
