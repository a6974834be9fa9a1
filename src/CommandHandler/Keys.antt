-- ===== src/CommandHandler/Keys.antt =====
-- The commands of `CommandHandler` (src/cpp/server/request_handler/command_handler.cpp) on keys. A command reads the `str_value` of
-- each argument; an exception, of a conversion or of the cache, ends it without a reply.
use chrono_cache.Shared.{
  ℕ, ◌+◌, Bool, false, ◌&&◌, not, Option, none, some, List, [], ◌∷◌, ◌++◌, if◌then◌else◌,
}
use chrono_cache.Shared.Int.{ℤ, pos, leb_ℤ}
use chrono_cache.Shared.Run.{Run, ok, ◌>>=◌}
use chrono_cache.Shared.Text.{Bytes, codes, same_bytes}
use chrono_cache.SortedList.{Order}
use chrono_cache.KvStore.Key.{Key}
use chrono_cache.Events.{Event, Logger}
use chrono_cache.SortedSets.{Score}
use chrono_cache.Cache
use chrono_cache.Cache.{Cache}
use chrono_cache.Replay
use chrono_cache.ChronoCache.{ChronoCache}
use chrono_cache.Resp.Value.{RespValue, Values, cons, str_value}
use chrono_cache.Resp.Serializer

-- What the handler is given: the clock; the Kafka side of the cache, which may do anything here (the producer
-- of kafka_logging/producer.cpp, a new logger, and the events that consumer.cpp returns); and the conversions
-- of the C++ library.
pub record Library {μ} (S : Type μ) : Type μ where
  pub clock : ℕ → ℤ
  pub produce : Event Bytes Bytes → Run (Unit {0})
  pub new_logger : Logger Bytes Bytes
  pub consumed : Run (List (Event Bytes Bytes))
  pub stoll : Bytes → Run ℤ
  pub stod : Bytes → Run S
  -- `std::to_string(double)`
  pub double_to_string : S → Bytes

-- `std::vector<RespValue>` as the list of its elements
abbrev pub list : Values → List RespValue
list Values.nil = []
list (cons v vs) = v ∷ list vs

abbrev pub wrong_number : Bytes → Bytes
wrong_number name =
    Serializer.error (codes "ERR wrong number of arguments for '" ++ name ++ codes "' command")

abbrev pub syntax_error : Bytes
syntax_error = Serializer.error (codes "ERR syntax error")

-- `RespSerializer::integer(b ? 1 : 0)`
abbrev pub one_if : Bool → Bytes
one_if b = Serializer.integer (if b then pos 1 else pos 0)

-- The reply to a value that may be missing.
abbrev pub bulk_or_null : Option Bytes → Bytes
bulk_or_null none = Serializer.null_bulk
bulk_or_null (some value) = Serializer.bulk_string value

module _ {μ} {S : Type μ} ⦃key : Key Bytes⦄ ⦃members : Order Bytes⦄ ⦃scores : Score S⦄
    (lib : Library S) where
  -- An operation of the cache, and the reply to what it returns.
  abbrev pub on_cache {ν} :
      {A : Type ν}
      → Run (A × Cache Bytes Bytes)
      → (A → Bytes)
      → ChronoCache S
      → Run (Bytes × ChronoCache S)
  on_cache call reply c = do r ← call; ok (reply r.0, record c { cache = r.1 })

  -- `cache.init(with_replay)` and its reply
  unfoldable pub init_cache : Bool → ChronoCache S → Run (Bytes × ChronoCache S)
  unfolding Replay.init
  init_cache with_replay c =
      let r =
        Replay.init lib.clock lib.produce with_replay [] lib.new_logger lib.consumed c.cache in
      do
        result ← r.0
        ok (
          (if result then Serializer.ok else Serializer.error (codes "ERR replay failed")),
          record c { cache = r.1 },
        )

  unfoldable pub cmd_init : List RespValue → ChronoCache S → Run (Bytes × ChronoCache S)
  unfolding init_cache
  cmd_init [] c = init_cache false c
  cmd_init (a ∷ []) c =
      if not (same_bytes (str_value a) (codes "true"))
        && not (same_bytes (str_value a) (codes "false"))
      then ok (Serializer.error (codes "ERR invalid argument for 'INIT' command"), c)
      else init_cache (same_bytes (str_value a) (codes "true")) c
  cmd_init (a ∷ b ∷ more) c = ok (wrong_number (codes "INIT"), c)

  unfoldable pub cmd_ping : List RespValue → ChronoCache S → Run (Bytes × ChronoCache S)
  cmd_ping [] c = ok (codes "+PONG" ++ 13 ∷ 10 ∷ [], c)
  cmd_ping (a ∷ more) c = ok (Serializer.bulk_string (str_value a), c)

  -- `cache.set(key, value, ttl)` and its reply
  unfoldable pub set_entry :
      RespValue → RespValue → Option ℤ → ChronoCache S → Run (Bytes × ChronoCache S)
  unfolding Cache.set
  set_entry k v ttl c =
      on_cache (Cache.set lib.clock lib.produce (str_value k) (str_value v) ttl c.cache)
        (λ stored. Serializer.ok) c

  unfoldable pub cmd_set : List RespValue → ChronoCache S → Run (Bytes × ChronoCache S)
  unfolding set_entry
  cmd_set [] c = ok (wrong_number (codes "SET"), c)
  cmd_set (k ∷ []) c = ok (wrong_number (codes "SET"), c)
  cmd_set (k ∷ v ∷ []) c = set_entry k v none c
  cmd_set (k ∷ v ∷ o ∷ []) c = ok (syntax_error, c)
  cmd_set (k ∷ v ∷ o ∷ t ∷ []) c =
      if not (same_bytes (str_value o) (codes "EX")) && not (same_bytes (str_value o) (codes "ex"))
      then ok (syntax_error, c)
      else (do
        ms ← lib.stoll (str_value t)
        (if leb_ℤ ms (pos 0)
            then ok (Serializer.error (codes "ERR invalid expire time in 'SET' command"), c)
            else set_entry k v (some ms) c))
  cmd_set (k ∷ v ∷ o ∷ t ∷ a ∷ more) c = ok (syntax_error, c)

  unfoldable pub cmd_get : List RespValue → ChronoCache S → Run (Bytes × ChronoCache S)
  unfolding Cache.get
  cmd_get [] c = ok (wrong_number (codes "GET"), c)
  cmd_get (k ∷ []) c =
      on_cache (Cache.get lib.clock lib.produce (str_value k) c.cache) bulk_or_null c
  cmd_get (k ∷ a ∷ more) c = ok (wrong_number (codes "GET"), c)

  -- The loop of `cmd_del`, with the keys deleted before.
  unfoldable pub del_all : List RespValue → ℕ → ChronoCache S → Run (ℕ × ChronoCache S)
  unfolding Cache.del
  del_all [] count c = ok (count, c)
  del_all (k ∷ keys) count c = do
    r ← Cache.del lib.clock lib.produce [] (str_value k) c.cache
    del_all keys (if r.0 then count + 1 else count) (record c { cache = r.1 })

  unfoldable pub cmd_del : List RespValue → ChronoCache S → Run (Bytes × ChronoCache S)
  unfolding del_all
  cmd_del [] c = ok (wrong_number (codes "DEL"), c)
  cmd_del (k ∷ keys) c = do r ← del_all (k ∷ keys) 0 c; ok (Serializer.integer (pos r.0), r.1)

  unfoldable pub cmd_expire : List RespValue → ChronoCache S → Run (Bytes × ChronoCache S)
  unfolding Cache.expire
  cmd_expire [] c = ok (wrong_number (codes "EXPIRE"), c)
  cmd_expire (k ∷ []) c = ok (wrong_number (codes "EXPIRE"), c)
  cmd_expire (k ∷ t ∷ []) c = do
    ms ← lib.stoll (str_value t)
    (if leb_ℤ ms (pos 0)
        then ok (Serializer.error (codes "ERR invalid expire time in 'EXPIRE' command"), c)
        else on_cache (Cache.expire lib.clock lib.produce (str_value k) ms c.cache) one_if c)
  cmd_expire (k ∷ t ∷ a ∷ more) c = ok (wrong_number (codes "EXPIRE"), c)

  unfoldable pub cmd_persist : List RespValue → ChronoCache S → Run (Bytes × ChronoCache S)
  unfolding Cache.persist
  cmd_persist [] c = ok (wrong_number (codes "PERSIST"), c)
  cmd_persist (k ∷ []) c =
      on_cache (Cache.persist lib.clock lib.produce (str_value k) c.cache) one_if c
  cmd_persist (k ∷ a ∷ more) c = ok (wrong_number (codes "PERSIST"), c)

  unfoldable pub cmd_pttl : List RespValue → ChronoCache S → Run (Bytes × ChronoCache S)
  unfolding Cache.pttl
  cmd_pttl [] c = ok (wrong_number (codes "PTTL"), c)
  cmd_pttl (k ∷ []) c =
      on_cache (Cache.pttl lib.clock lib.produce (str_value k) c.cache) Serializer.integer c
  cmd_pttl (k ∷ a ∷ more) c = ok (wrong_number (codes "PTTL"), c)
