-- ===== src/Tests/Server.antt =====
-- The server on small requests, with a hash by length, numbers for scores, and the conversions of the C++
-- library on plain numbers.
use chrono_cache.Shared.{
  ℕ, ◌*◌, ◌%◌, ◌^◌, ◌<◌, ◌≡◌, ◌≢◌, ◌↔◌, refl, true, Option, none, some, List, [], ◌∷◌, length, ltb,
  ◌==◌, if◌then◌else◌, arith,
}
use chrono_cache.Shared.Int.{ℤ, pos, pos_part}
use chrono_cache.Shared.Run.{Run, ok, err, exception, ◌>>=◌, Returns}
use chrono_cache.Shared.Text.{Bytes, codes, same_bytes, same_bytes_iff}
use chrono_cache.SortedList.{Order}
use chrono_cache.KvStore.Key.{Key, ◌≈◌}
use chrono_cache.KvStore.Store.Invariant.{view}
use chrono_cache.KvStore.Store.Blank.{new_store-IsValid}
use chrono_cache.KvStore.Store.{is_power_of_2}
use chrono_cache.SortedSets.{Score, default_threshold}
use chrono_cache.ChronoCache.{ChronoCache, new_chrono_cache}
use chrono_cache.Events.{Logger}
use chrono_cache.Resp.Number.{
  parse_string_as_int, to_string_ℕ, to_upper, to_upper_char, scan, scan_behind_sign,
}
use chrono_cache.Resp.Serializer
use chrono_cache.Resp.Parser.{find_crlf}
use chrono_cache.CommandHandler.{execute, dispatch}
use chrono_cache.CommandHandler.Keys.{Library, cmd_expire}
use chrono_cache.CommandHandler.Replies.{IsAnswer}
use chrono_cache.CommandHandler.Answers.{execute-IsAnswer}
use chrono_cache.CommandHandler.Sessions.{request, get_answer, set_get}
use chrono_cache.CommandHandler.Deletions.{count_stored, is_named, stored_in, IsUp, del_counts}
use chrono_cache.CommandHandler.Arity.{zadd_command, complaint, complaint_iff}
use chrono_cache.CommandHandler.Start.{start-IsUp}
use chrono_cache.EventLoop.{reply_to, caught}
use chrono_cache.EventLoop.Server.{server, answered, reply_to-request}

instance abbrev bytes_key : Key Bytes
bytes_key = record {
  equal = same_bytes;
  equal_iff = same_bytes_iff;
  hash = λ s. length s % 2 ^ 64;
  hash-lt = λ s. omega arith;
}

instance abbrev bytes_order : Order Bytes
bytes_order = record { less = λ s t. ltb (length s) (length t) }

instance abbrev nat_scores : Score ℕ
nat_scores = record { same = λ a b. a == b; below = ltb }

sixteen : is_power_of_2 16 ≡ true
unfolding is_power_of_2
sixteen = refl

abbrev fresh_logger : Logger Bytes Bytes
fresh_logger = record {
  seq_counters = (new_store-IsValid 16 default_threshold sixteen (omega arith)).0;
  produced = [];
}

abbrev number_or_throw : Option ℤ → Run ℤ
number_or_throw none = err (exception "stoll")
number_or_throw (some n) = ok n

abbrev lib : Library ℕ
lib = record {
  clock = λ n. pos (n * 1000000000);
  produce = λ e. ok tt;
  new_logger = fresh_logger;
  consumed = ok [];
  stoll = λ s. parse_string_as_int s >>= number_or_throw;
  stod = λ s. parse_string_as_int s >>= number_or_throw >>= λ n. ok (pos_part n);
  double_to_string = to_string_ℕ;
}

start-IsUp_example : Returns (new_chrono_cache {S = ℕ} true) λ c.
    Returns (execute lib (request (codes "INIT" ∷ [])) c) λ r.
      (r.0 ≡ Serializer.ok)
      × IsUp lib r.1
      × (r.1.cache.hash_map.capacity ≡ 16)
      × ((q : Bytes) → view r.1.cache.hash_map q ≡ none)
start-IsUp_example = start-IsUp lib

-- The cache after INIT.
abbrev started : ChronoCache ℕ
started = (start-IsUp lib).2.0.1

started-IsUp : IsUp lib started
started-IsUp = (start-IsUp lib).2.2.1

started_narrow : started.cache.hash_map.capacity < 2 ^ 30
started_narrow = omega (arith, (start-IsUp lib).2.2.2)

abbrev apple : Bytes
apple = codes "apple"

set_get_example :
    Returns (execute lib (request (codes "SET" ∷ apple ∷ codes "1" ∷ [])) started) λ r.
      (r.0 ≡ Serializer.ok)
      × ((q : Bytes)
          → Returns (execute lib (request (codes "GET" ∷ q ∷ [])) r.1) λ t. t.0 ≡ (
              if apple ≈ q
              then Serializer.bulk_string (codes "1")
              else get_answer
                  (lib.clock started.cache.world.ticks)
                  (view started.cache.hash_map q)))
set_get_example =
    set_get lib started started-IsUp.valid started-IsUp.accepting started-IsUp.off apple (codes "1")
      started_narrow

del_counts_example : Returns (execute lib (request (codes "DEL" ∷ apple ∷ apple ∷ [])) started) λ r.
    (r.0 ≡ Serializer.integer (pos (count_stored (stored_in lib started) (apple ∷ apple ∷ []))))
    × IsUp lib r.1
    × ((q : Bytes)
        → view r.1.cache.hash_map q
          ≡ (if is_named q (apple ∷ apple ∷ []) then none else view started.cache.hash_map q))
del_counts_example = del_counts lib apple (apple ∷ []) started started-IsUp

zadd_in_capitals : to_upper (codes "zAdd") ≡ codes "ZADD"
unfolding to_upper to_upper_char
zadd_in_capitals = refl

complaint_iff_example :
    (execute lib (request (codes "zAdd" ∷ apple ∷ codes "1" ∷ [])) started
      ≡ ok (complaint (codes "ZADD"), started))
    ↔ (length (apple ∷ codes "1" ∷ []) ≢ 3)
complaint_iff_example =
    complaint_iff lib started zadd_command (codes "zAdd") (apple ∷ codes "1" ∷ []) zadd_in_capitals

apple_plain : find_crlf apple ≡ none
unfolding find_crlf
apple_plain = refl

execute-IsAnswer_example : IsAnswer (execute lib (request (apple ∷ [])) started)
execute-IsAnswer_example = execute-IsAnswer lib started (request (apple ∷ [])) apple_plain

-- A command whose number the C++ library does not read.
abbrev bad_expiry_request : List Bytes
bad_expiry_request = codes "EXPIRE" ∷ apple ∷ codes "x" ∷ []

reply_to-request_example :
    reply_to (server lib λ c. c) (Serializer.array bad_expiry_request) started
    ≡ answered lib (λ c. c) started (execute lib (request bad_expiry_request) started)
reply_to-request_example =
    reply_to-request lib (λ c. c) bad_expiry_request started (omega arith)
      (omega arith, (omega arith, (omega arith, tt)))

-- A conversion that throws becomes an error reply, and the cache stays.
bad_expiry :
    caught
      (server lib λ c. c)
      started
      (execute lib (request (codes "EXPIRE" ∷ apple ∷ codes "x" ∷ [])) started)
    ≡ ok (Serializer.error (codes "ERR stoll"), started)
unfolding execute dispatch cmd_expire to_upper to_upper_char same_bytes parse_string_as_int
    scan_behind_sign scan
bad_expiry = refl
