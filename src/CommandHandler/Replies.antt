-- ===== src/CommandHandler/Replies.antt =====
-- The form of what `CommandHandler` (src/cpp/server/request_handler/command_handler.cpp) answers: one reply, whose error text, if it has
-- one, is one line.
use chrono_cache.Shared.{
  ◌≡◌, refl, Bool, true, false, not, ◌&&◌, Option, none, some, List, [], ◌∷◌, ◌++◌, if◌then◌else◌,
}
use chrono_cache.Shared.Int.{leb_ℤ, ℤ, pos}
use chrono_cache.Shared.Run.{Run, ok, err, ◌>>=◌}
use chrono_cache.Shared.Text.{Bytes, codes, same_bytes}
use chrono_cache.SortedList.{Order}
use chrono_cache.KvStore.Key.{Key}
use chrono_cache.SortedSets.{Score}
use chrono_cache.Cache
use chrono_cache.Cache.{Cache}
use chrono_cache.Replay
use chrono_cache.ChronoCache.{ChronoCache}
use chrono_cache.Resp.Value.{RespValue, str_value}
use chrono_cache.Resp.Serializer
use chrono_cache.Resp.Parser.{find_crlf}
use chrono_cache.CommandHandler.Keys.{
  Library, cmd_init, cmd_ping, cmd_set, cmd_get, cmd_del, cmd_expire, cmd_persist, cmd_pttl,
  init_cache, set_entry, del_all, on_cache, bulk_or_null, one_if, wrong_number,
}
use chrono_cache.Resp.Reply.{Reply, done, pong, failed, number, text, nothing, serialize}

-- An error text is one line.
abbrev pub IsOneLine : Reply → Type 0
IsOneLine done = Unit
IsOneLine pong = Unit
IsOneLine (failed msg) = find_crlf (b'-' ∷ msg) ≡ none
IsOneLine (number n) = Unit
IsOneLine (text s) = Unit
IsOneLine nothing = Unit

-- The bytes of one reply.
abbrev pub IsOneReply : Bytes → Type 0
IsOneReply out = (r : Reply) × (out ≡ serialize r) × IsOneLine r

module _ {μ} {S : Type μ} where
  -- Where the call returns, it returns one reply.
  abbrev pub IsAnswer : Run (Bytes × ChronoCache S) → Type 0
  IsAnswer (ok r) = IsOneReply r.0
  IsAnswer (err problem) = Unit

  pub IsAnswer-bind {ν} :
      {A : Type ν} (call : Run A) (rest : A → Run (Bytes × ChronoCache S))
      → ((value : A) → IsAnswer (rest value))
      → IsAnswer (call >>= rest)
  IsAnswer-bind (ok value) rest h = h value
  IsAnswer-bind (err problem) rest h = tt

  pub IsAnswer-if :
      (b : Bool) (x y : Run (Bytes × ChronoCache S))
      → IsAnswer x
      → IsAnswer y
      → IsAnswer (if b then x else y)
  IsAnswer-if true x y hx hy = hx
  IsAnswer-if false x y hx hy = hy

pub fine : IsOneReply Serializer.ok
fine = (done, refl, tt)

pub integral : (n : ℤ) → IsOneReply (Serializer.integer n)
integral n = (number n, refl, tt)

pub bulk : (s : Bytes) → IsOneReply (Serializer.bulk_string s)
bulk s = (text s, refl, tt)

pub null : IsOneReply Serializer.null_bulk
null = (nothing, refl, tt)

pub complaint : (msg : Bytes) → find_crlf (b'-' ∷ msg) ≡ none → IsOneReply (Serializer.error msg)
complaint msg clear = (failed msg, refl, clear)

syntax : IsOneReply (Serializer.error (codes "ERR syntax error"))
unfolding find_crlf
syntax = complaint (codes "ERR syntax error") refl

-- The complaint about the number of arguments.
pub wrong :
    (name : Bytes)
    → find_crlf (codes "-ERR wrong number of arguments for '" ++ name ++ codes "' command") ≡ none
    → IsOneReply (wrong_number name)
wrong name clear =
    complaint (codes "ERR wrong number of arguments for '" ++ name ++ codes "' command") clear

pub one_if-IsOneReply : (b : Bool) → IsOneReply (one_if b)
one_if-IsOneReply b = integral (if b then pos 1 else pos 0)

replayed :
    (result : Bool)
    → IsOneReply (if result then Serializer.ok else Serializer.error (codes "ERR replay failed"))
unfolding find_crlf
replayed true = fine
replayed false = complaint (codes "ERR replay failed") refl

module _ {μ} {S : Type μ} ⦃key : Key Bytes⦄ ⦃members : Order Bytes⦄ ⦃scores : Score S⦄
    (lib : Library S) (c : ChronoCache S) where
  on_cache-IsAnswer {ν} :
      {A : Type ν} (call : Run (A × Cache Bytes Bytes)) (reply : A → Bytes)
      → ((value : A) → IsOneReply (reply value))
      → IsAnswer (on_cache lib call reply c)
  on_cache-IsAnswer call reply h = IsAnswer-bind call _ λ r. h r.0

  init_cache-IsAnswer : (with_replay : Bool) → IsAnswer (init_cache lib with_replay c)
  unfolding init_cache find_crlf
  init_cache-IsAnswer with_replay =
      IsAnswer-bind
        (Replay.init lib.clock lib.produce with_replay [] lib.new_logger lib.consumed c.cache).0 _
        λ result. replayed result

  pub cmd_init-IsAnswer : (args : List RespValue) → IsAnswer (cmd_init lib args c)
  unfolding cmd_init find_crlf
  cmd_init-IsAnswer [] = init_cache-IsAnswer false
  cmd_init-IsAnswer (a ∷ []) =
      IsAnswer-if
        (not (same_bytes (str_value a) (codes "true"))
          && not (same_bytes (str_value a) (codes "false")))
        _ _ (complaint (codes "ERR invalid argument for 'INIT' command") refl)
        (init_cache-IsAnswer (same_bytes (str_value a) (codes "true")))
  cmd_init-IsAnswer (a ∷ b ∷ more) = wrong (codes "INIT") refl

  pub cmd_ping-IsAnswer : (args : List RespValue) → IsAnswer (cmd_ping lib args c)
  unfolding cmd_ping
  cmd_ping-IsAnswer [] = (pong, refl, tt)
  cmd_ping-IsAnswer (a ∷ more) = bulk (str_value a)

  set_entry-IsAnswer : (k v : RespValue) (ttl : Option ℤ) → IsAnswer (set_entry lib k v ttl c)
  unfolding set_entry
  set_entry-IsAnswer k v ttl =
      on_cache-IsAnswer (Cache.set lib.clock lib.produce (str_value k) (str_value v) ttl c.cache) _
        λ stored. fine

  pub cmd_set-IsAnswer : (args : List RespValue) → IsAnswer (cmd_set lib args c)
  unfolding cmd_set find_crlf
  cmd_set-IsAnswer [] = wrong (codes "SET") refl
  cmd_set-IsAnswer (k ∷ []) = wrong (codes "SET") refl
  cmd_set-IsAnswer (k ∷ v ∷ []) = set_entry-IsAnswer k v none
  cmd_set-IsAnswer (k ∷ v ∷ o ∷ []) = syntax
  cmd_set-IsAnswer (k ∷ v ∷ o ∷ t ∷ []) =
      IsAnswer-if
        (not (same_bytes (str_value o) (codes "EX")) && not (same_bytes (str_value o) (codes "ex")))
        _ _ syntax
        (IsAnswer-bind (lib.stoll (str_value t)) _ λ ms.
          IsAnswer-if (leb_ℤ ms (pos 0)) _ _
            (complaint (codes "ERR invalid expire time in 'SET' command") refl)
            (set_entry-IsAnswer k v (some ms)))
  cmd_set-IsAnswer (k ∷ v ∷ o ∷ t ∷ a ∷ more) = syntax

  bulk_or_null-IsOneReply : (value : Option Bytes) → IsOneReply (bulk_or_null value)
  bulk_or_null-IsOneReply none = null
  bulk_or_null-IsOneReply (some value) = bulk value

  pub cmd_get-IsAnswer : (args : List RespValue) → IsAnswer (cmd_get lib args c)
  unfolding cmd_get find_crlf
  cmd_get-IsAnswer [] = wrong (codes "GET") refl
  cmd_get-IsAnswer (k ∷ []) =
      on_cache-IsAnswer (Cache.get lib.clock lib.produce (str_value k) c.cache) _
        bulk_or_null-IsOneReply
  cmd_get-IsAnswer (k ∷ a ∷ more) = wrong (codes "GET") refl

  pub cmd_del-IsAnswer : (args : List RespValue) → IsAnswer (cmd_del lib args c)
  unfolding cmd_del find_crlf
  cmd_del-IsAnswer [] = wrong (codes "DEL") refl
  cmd_del-IsAnswer (k ∷ keys) = IsAnswer-bind (del_all lib (k ∷ keys) 0 c) _ λ r. integral (pos r.0)

  pub cmd_expire-IsAnswer : (args : List RespValue) → IsAnswer (cmd_expire lib args c)
  unfolding cmd_expire find_crlf
  cmd_expire-IsAnswer [] = wrong (codes "EXPIRE") refl
  cmd_expire-IsAnswer (k ∷ []) = wrong (codes "EXPIRE") refl
  cmd_expire-IsAnswer (k ∷ t ∷ []) = IsAnswer-bind (lib.stoll (str_value t)) _ λ ms.
      IsAnswer-if (leb_ℤ ms (pos 0)) _ _
        (complaint (codes "ERR invalid expire time in 'EXPIRE' command") refl)
        (on_cache-IsAnswer (Cache.expire lib.clock lib.produce (str_value k) ms c.cache) _
          one_if-IsOneReply)
  cmd_expire-IsAnswer (k ∷ t ∷ a ∷ more) = wrong (codes "EXPIRE") refl

  pub cmd_persist-IsAnswer : (args : List RespValue) → IsAnswer (cmd_persist lib args c)
  unfolding cmd_persist find_crlf
  cmd_persist-IsAnswer [] = wrong (codes "PERSIST") refl
  cmd_persist-IsAnswer (k ∷ []) =
      on_cache-IsAnswer (Cache.persist lib.clock lib.produce (str_value k) c.cache) _
        one_if-IsOneReply
  cmd_persist-IsAnswer (k ∷ a ∷ more) = wrong (codes "PERSIST") refl

  pub cmd_pttl-IsAnswer : (args : List RespValue) → IsAnswer (cmd_pttl lib args c)
  unfolding cmd_pttl find_crlf
  cmd_pttl-IsAnswer [] = wrong (codes "PTTL") refl
  cmd_pttl-IsAnswer (k ∷ []) =
      on_cache-IsAnswer (Cache.pttl lib.clock lib.produce (str_value k) c.cache) _ integral
  cmd_pttl-IsAnswer (k ∷ a ∷ more) = wrong (codes "PTTL") refl
