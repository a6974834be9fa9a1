-- ===== src/CommandHandler/Sessions.antt =====
-- Commands one after the other, through `CommandHandler::execute`
-- (src/cpp/server/request_handler/command_handler.cpp), in the form in which the parser gives them.
use chrono_cache.Shared.{
  ◌^◌, ◌<◌, ◌≡◌, refl, ap, ◌∙◌, Bool, true, false, Option, none, some, List, [], ◌∷◌, length,
  if◌then◌else◌,
}
use chrono_cache.Shared.Int.{ℤ}
use chrono_cache.Shared.Run.{Returns}
use chrono_cache.Shared.Text.{Bytes, codes, same_bytes}
use chrono_cache.SortedList.{Order}
use chrono_cache.KvStore.Key.{Key}
use chrono_cache.SortedSets.{Score}
use chrono_cache.ChronoCache.{ChronoCache}
use chrono_cache.Resp.Number.{to_upper}
use chrono_cache.Resp.Value.{RespValue, array_from_parts}
use chrono_cache.Resp.Serializer
use chrono_cache.KvStore.Key.{◌≈◌}
use chrono_cache.KvStore.Store.Invariant.{IsValid, view}
use chrono_cache.Cache.{is_accepting_ops, new_entry, Entry}
use chrono_cache.Cache.Laws.{set-Stored, get-Reads, swept, value_at}
use chrono_cache.Resp.Number.{to_upper_char}
use chrono_cache.Resp.Serializer.RoundTrip.{bulk_values}
use chrono_cache.CommandHandler.{dispatch, execute}
use chrono_cache.CommandHandler.Keys.{Library, cmd_set, cmd_get, set_entry, bulk_or_null}

-- The command that the parser makes of a request of bulk strings.
abbrev pub request : List Bytes → RespValue
request items = array_from_parts (bulk_values items) (length (Serializer.array items))

-- What GET answers of the entry that a key has, at the time `now`.
abbrev pub get_answer : ℤ → Option (Entry Bytes) → Bytes
get_answer now o = bulk_or_null (value_at (swept now o))

get_answer_if :
    (now : ℤ) (b : Bool) (v : Bytes) (o : Option (Entry Bytes))
    → get_answer now (if b then some (record { value = v; expires_at = none }) else o)
      ≡ (if b then Serializer.bulk_string v else get_answer now o)
get_answer_if now true v o = refl
get_answer_if now false v o = refl

module _ {μ} {S : Type μ} ⦃key : Key Bytes⦄ ⦃members : Order Bytes⦄ ⦃scores : Score S⦄
    (lib : Library S) (c : ChronoCache S) (valid : IsValid c.cache.hash_map)
    (accepting : is_accepting_ops c.cache.state ≡ true) where
  -- GET answers the value of the key as a bulk string, or null where it has none or is expired.
  pub get_reply :
      (k : Bytes)
      → Returns
          (execute lib (request (codes "GET" ∷ k ∷ [])) c)
          λ r. r.0 ≡ get_answer (lib.clock c.cache.world.ticks) (view c.cache.hash_map k)
  unfolding execute dispatch cmd_get to_upper to_upper_char same_bytes
  get_reply k =
      let (r, run, (answer, w, e)) = get-Reads lib.clock lib.produce c.cache valid k accepting in
      ((bulk_or_null r.0, record c { cache = r.1 }), rw run refl, ap (bulk_or_null) answer)

  set_reply :
      (k v : Bytes)
      → c.cache.disable_event_logging ≡ true
      → c.cache.hash_map.capacity < 2 ^ 30
      → Returns (execute lib (request (codes "SET" ∷ k ∷ v ∷ [])) c) λ r.
        (r.0 ≡ Serializer.ok)
        × IsValid r.1.cache.hash_map
        × (is_accepting_ops r.1.cache.state ≡ true)
        × (r.1.cache.world ≡ c.cache.world)
        × ((q : Bytes)
            → view r.1.cache.hash_map q ≡ (
                if k ≈ q
                then some (record { value = v; expires_at = none })
                else view c.cache.hash_map q))
  unfolding execute dispatch cmd_set set_entry to_upper to_upper_char same_bytes new_entry
  set_reply k v off small =
      let (r, run, (answer, stored, world, state)) =
        set-Stored lib.clock lib.produce c.cache valid k accepting v none
          (record { value = v; expires_at = none }, c.cache.world) refl off small in
      (
        (Serializer.ok, record c { cache = r.1 }),
        rw run refl,
        (refl, stored.valid, rw state accepting, world, stored.reads),
      )

module _ {μ} {S : Type μ} ⦃key : Key Bytes⦄ ⦃members : Order Bytes⦄ ⦃scores : Score S⦄
    (lib : Library S) (c : ChronoCache S) (valid : IsValid c.cache.hash_map)
    (accepting : is_accepting_ops c.cache.state ≡ true)
    (off : c.cache.disable_event_logging ≡ true) where
  -- In an accepting cache with logging off and a valid map of fewer than 2 ^ 30 buckets, SET with
  -- a key and a value answers OK, and GET of any key then answers: the new value for that key,
  -- and for every other key its value if it has one whose deadline has not passed, else null.
  pub set_get :
      (k v : Bytes)
      → c.cache.hash_map.capacity < 2 ^ 30
      → Returns (execute lib (request (codes "SET" ∷ k ∷ v ∷ [])) c) λ r.
        (r.0 ≡ Serializer.ok)
        × ((q : Bytes)
            → Returns (execute lib (request (codes "GET" ∷ q ∷ [])) r.1) λ t. t.0 ≡ (
                if k ≈ q
                then Serializer.bulk_string v
                else get_answer (lib.clock c.cache.world.ticks) (view c.cache.hash_map q)))
  set_get k v small =
      let (r, run, (answer, still_valid, still_up, world, reads)) =
        set_reply lib c valid accepting k v off small in
      (
        r,
        run,
        (
          answer,
          λ q.
              let (t, got, e) = get_reply lib r.1 still_valid still_up q in
              (
                t,
                got,
                e
                    ∙ ap (λ w. get_answer (lib.clock w.ticks) (view r.1.cache.hash_map q)) world
                    ∙ ap (get_answer (lib.clock c.cache.world.ticks)) (reads q)
                    ∙ get_answer_if (lib.clock c.cache.world.ticks) (k ≈ q) v
                        (view c.cache.hash_map q),
              ),
        ),
      )
