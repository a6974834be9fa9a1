-- ===== src/EventLoop/Server.antt =====
-- The command handler of src/cpp/server/request_handler/command_handler.cpp behind the loop of
-- src/cpp/server/event_loop.cpp.
use chrono_cache.Shared.{
  ◌^◌, ◌<◌, ◌≡◌, sym, ap, ◌∙◌, some, List, [], ◌∷◌, ◌++◌, refl, append-nil, length,
}
use chrono_cache.Shared.Run.{Run, ok, err, exception, aborted, undefined, out_of_fuel, ◌>>=◌}
use chrono_cache.Shared.Text.{Bytes, codes}
use chrono_cache.SortedList.{Order}
use chrono_cache.KvStore.Key.{Key}
use chrono_cache.SortedSets.{Score}
use chrono_cache.ChronoCache.{ChronoCache}
use chrono_cache.Resp.Serializer
use chrono_cache.Resp.Serializer.RoundTrip.{AreShort, parse-array}
use chrono_cache.Resp.Parser.{parse}
use chrono_cache.CommandHandler.{execute}
use chrono_cache.CommandHandler.Keys.{Library}
use chrono_cache.CommandHandler.Sessions.{request}
use chrono_cache.EventLoop.{Handler, reply_to, caught, reply_to_command}

module _ {μ} {S : Type μ} ⦃key : Key Bytes⦄ ⦃members : Order Bytes⦄ ⦃scores : Score S⦄
    (lib : Library S) (after_throw : ChronoCache S → ChronoCache S) where
  -- The handler of the server
  abbrev pub server : Handler (ChronoCache S)
  server = record { execute = execute lib; after_throw = after_throw }

  -- The bytes and the cache behind a command: what it returns, or a line with the error that it throws.
  abbrev pub answered : ChronoCache S → Run (Bytes × ChronoCache S) → Run (Bytes × ChronoCache S)
  answered c (ok r) = ok r
  answered c (err (exception what)) =
      ok (codes "-ERR " ++ codes what ++ 13 ∷ 10 ∷ [], after_throw c)
  answered c (err aborted) = err aborted
  answered c (err undefined) = err undefined
  answered c (err out_of_fuel) = err out_of_fuel

  caught-answered :
      (c : ChronoCache S) (call : Run (Bytes × ChronoCache S))
      → caught server c call ≡ answered c call
  unfolding Serializer.error
  caught-answered c (ok r) = refl
  caught-answered c (err (exception what)) = refl
  caught-answered c (err aborted) = refl
  caught-answered c (err undefined) = refl
  caught-answered c (err out_of_fuel) = refl

  -- A message of fewer than 2 ^ 31 items, each shorter than 2 ^ 31 bytes, that a client writes as
  -- an array of bulk strings is answered by what the command of those items returns; where the
  -- command throws an exception, the reply is the line `-ERR ` with the text of the exception.
  pub reply_to-request :
      (items : List Bytes) (c : ChronoCache S)
      → length items < 2 ^ 31
      → AreShort items
      → reply_to server (Serializer.array items) c ≡ answered c (execute lib (request items) c)
  unfolding reply_to
  reply_to-request items c few short =
      let read : parse (Serializer.array items) ≡ ok (some (request items)) =
        ap parse (sym (append-nil (Serializer.array items))) ∙ parse-array items [] few short in
      ap (λ call. call >>= reply_to_command server c) read
      ∙ caught-answered c (execute lib (request items) c)
