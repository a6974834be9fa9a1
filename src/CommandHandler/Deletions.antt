-- ===== src/CommandHandler/Deletions.antt =====
-- The command DEL of src/cpp/server/request_handler/command_handler.cpp on several keys.
use chrono_cache.Shared.{
  ℕ, ◌+◌, ◌≡◌, refl, ap, ◌∙◌, fun_ext, Bool, true, false, Option, none, List, [], ◌∷◌, map,
  if◌then◌else◌, arith,
}
use chrono_cache.Shared.Int.{pos, negsuc}
use chrono_cache.Shared.Run.{Returns}
use chrono_cache.Shared.Text.{Bytes, codes, same_bytes}
use chrono_cache.SortedList.{Order}
use chrono_cache.KvStore.Key.{Key}
use chrono_cache.SortedSets.{Score}
use chrono_cache.ChronoCache.{ChronoCache}
use chrono_cache.Resp.Number.{to_upper}
use chrono_cache.Resp.Value.{RespValue, str_value}
use chrono_cache.Resp.Serializer
use chrono_cache.KvStore.Key.{◌≈◌}
use chrono_cache.KvStore.Store.Invariant.{IsValid, view}
use chrono_cache.Cache.{is_accepting_ops, Entry}
use chrono_cache.Resp.Number.{to_upper_char}
use chrono_cache.Resp.Serializer.RoundTrip.{bulk_values}
use chrono_cache.KvStore.Store.Methods.{is_some}
use chrono_cache.HashMap.Laws.{remove_with-Writes}
use chrono_cache.Events.{delete_event}
use chrono_cache.Cache.{del, check_accepting_ops, log_if_allowed, check_logging_allowed}
use chrono_cache.CommandHandler.{dispatch, execute}
use chrono_cache.CommandHandler.Keys.{Library, list}
use chrono_cache.CommandHandler.Keys.{del_all, cmd_del}
use chrono_cache.CommandHandler.Sessions.{request}

-- How many of the keys are stored, where each is gone once it was counted.
abbrev pub count_stored : ⦃key : Key Bytes⦄ → (Bytes → Bool) → List Bytes → ℕ
count_stored stored [] = 0
count_stored stored (k ∷ keys) =
    (if stored k then 1 else 0) + count_stored (λ q. if k ≈ q then false else stored q) keys

-- Whether `q` is one of the keys.
abbrev pub is_named : ⦃key : Key Bytes⦄ → Bytes → List Bytes → Bool
is_named q [] = false
is_named q (k ∷ keys) = if k ≈ q then true else is_named q keys

module _ {μ} {S : Type μ} ⦃key : Key Bytes⦄ ⦃members : Order Bytes⦄ ⦃scores : Score S⦄
    (lib : Library S) where
  -- A cache that takes commands, with logging off and a valid map.
  pub record IsUp (c : ChronoCache S) : Type μ where
    pub valid : IsValid c.cache.hash_map
    pub accepting : is_accepting_ops c.cache.state ≡ true
    pub off : c.cache.disable_event_logging ≡ true

  del_one :
      (k : Bytes) (c : ChronoCache S)
      → IsUp c
      → Returns (del lib.clock lib.produce [] k c.cache) λ r.
        (r.0 ≡ is_some (view c.cache.hash_map k))
        × IsUp (record c { cache = r.1 })
        × ((q : Bytes) → view r.1.hash_map q ≡ (if k ≈ q then none else view c.cache.hash_map q))
  unfolding del check_accepting_ops log_if_allowed check_logging_allowed
  del_one k c up =
      let (r, run, (found, w, world)) =
        remove_with-Writes up.valid k
          (log_if_allowed lib.clock lib.produce c.cache.state c.cache.disable_event_logging
            delete_event k [] (negsuc 0))
          c.cache.world c.cache.world (λ h. rw up.off refl) (λ h. refl) in
      (
        (r.0, record c.cache { hash_map = r.1; world = r.2 }),
        rw (up.accepting, run) refl,
        (found, record { valid = w.valid; accepting = up.accepting; off = up.off }, w.reads),
      )

  -- The count goes up where the key was stored.
  counted : (b : Bool) (n m : ℕ) → (if b then n + 1 else n) + m ≡ n + ((if b then 1 else 0) + m)
  counted true n m = omega arith
  counted false n m = omega arith

  stored_after :
      (b : Bool) (o : Option (Entry Bytes))
      → is_some (if b then none else o) ≡ (if b then false else is_some o)
  stored_after true o = refl
  stored_after false o = refl

  named_after :
      (a b : Bool) (o : Option (Entry Bytes))
      → (if b then none else if a then none else o) ≡ (if (if a then true else b) then none else o)
  named_after true true o = refl
  named_after true false o = refl
  named_after false true o = refl
  named_after false false o = refl

  -- The keys that are stored in the cache.
  abbrev pub stored_in : ChronoCache S → Bytes → Bool
  stored_in c q = is_some (view c.cache.hash_map q)

  del_all-Deleted :
      (keys : List RespValue) (count : ℕ) (c : ChronoCache S)
      → IsUp c
      → Returns (del_all lib keys count c) λ r.
        (r.0 ≡ count + count_stored (stored_in c) (map str_value keys))
        × IsUp r.1
        × ((q : Bytes)
            → view r.1.cache.hash_map q
              ≡ (if is_named q (map str_value keys) then none else view c.cache.hash_map q))
  unfolding del_all
  del_all-Deleted [] count c up = ((count, c), refl, (omega arith, up, λ q. refl))
  del_all-Deleted (k ∷ keys) count c up =
      let (r, run, (found, up', reads)) = del_one (str_value k) c up in
      let c' = record c { cache = r.1 } in
      let (t, rest, (total, up'', gone)) =
        del_all-Deleted keys (if r.0 then count + 1 else count) c' up' in
      let stored : stored_in c' ≡ (λ q. if str_value k ≈ q then false else stored_in c q) =
        fun_ext
          λ q. ap is_some (reads q) ∙ stored_after (str_value k ≈ q) (view c.cache.hash_map q) in
      (
        t,
        rw run rest,
        (
          total
              ∙ ap (λ p. (if r.0 then count + 1 else count) + count_stored p (map str_value keys))
                  stored
              ∙ counted r.0 count _
              ∙ ap
                  (λ b.
                    count
                    + ((if b then 1 else 0)
                        + count_stored (λ q. if str_value k ≈ q then false else stored_in c q)
                            (map str_value keys)))
                  found,
          up'',
          λ q.
              gone q
              ∙ ap (λ o. if is_named q (map str_value keys) then none else o) (reads q)
              ∙ named_after (str_value k ≈ q) (is_named q (map str_value keys))
                  (view c.cache.hash_map q),
        ),
      )

  texts : (keys : List Bytes) → map str_value (list (bulk_values keys)) ≡ keys
  texts [] = refl
  texts (k ∷ keys) = ap (λ rest. k ∷ rest) (texts keys)

  -- In a cache that takes commands, with logging off and a valid map, DEL with one key at least
  -- answers how many of the keys are stored, a key that is named again counting once, and leaves
  -- such a cache, in which the named keys are gone and every other key keeps its entry.
  pub del_counts :
      (k : Bytes) (keys : List Bytes) (c : ChronoCache S)
      → IsUp c
      → Returns (execute lib (request (codes "DEL" ∷ k ∷ keys)) c) λ r.
        (r.0 ≡ Serializer.integer (pos (count_stored (stored_in c) (k ∷ keys))))
        × IsUp r.1
        × ((q : Bytes)
            → view r.1.cache.hash_map q
              ≡ (if is_named q (k ∷ keys) then none else view c.cache.hash_map q))
  unfolding execute dispatch cmd_del to_upper to_upper_char same_bytes
  del_counts k keys c up =
      let (t, run, (total, up', gone)) = del_all-Deleted (list (bulk_values (k ∷ keys))) 0 c up in
      let named = texts (k ∷ keys) in
      (
        (Serializer.integer (pos t.0), t.1),
        rw run refl,
        (
          ap (λ n. Serializer.integer (pos n))
              (total ∙ omega arith ∙ ap (count_stored (stored_in c)) named),
          up',
          λ q. gone q ∙ ap (λ ks. if is_named q ks then none else view c.cache.hash_map q) named,
        ),
      )
