-- ===== src/Replay/Revival.antt =====
-- A replay (src/cpp/cache/chrono_cache.cpp) of a key that is stored and then given a deadline which has passed.
use chrono_cache.Shared.{
  ℕ, ◌+◌, ◌^◌, ◌<◌, ◌≤◌, ◌≡◌, refl, ap, ◌∙◌, true, false, none, some, [], ◌∷◌, arith, leb,
  if◌then◌else◌,
}
use chrono_cache.Shared.Int.{ℤ, pos, negsuc, leb_ℤ, add_ℤ}
use chrono_cache.Shared.Run.{Run, ok, int64, Returns}
use chrono_cache.KvStore.Key.{Key, ◌≈◌}
use chrono_cache.KvStore.Store.Invariant.{IsValid, view}
use chrono_cache.Events.{set_event, expire_event, Event}
use chrono_cache.Cache.{Cache, is_accepting_ops, new_entry}
use chrono_cache.Cache.Laws.{set-Stored}
use chrono_cache.Cache.Expiry.{int64_pos, add_pos}
use chrono_cache.Replay.{
  Seqs, seq_of, put_seq, set_remaining, set_forever, apply_event, replay_events,
}
use chrono_cache.Replay.Laws.{seq_of-put_seq}

module _ {ℓ κ} {K : Type ℓ} {V : Type κ} (k : K) (v : V) where
  -- `SET k v` without a ttl, as `log_set` logs it
  abbrev pub stored_event : ℕ → ℤ → Event K V
  stored_event seq at = record {
    type = set_event;
    key = k;
    value = v;
    ttl_ms = negsuc 0;
    seq = seq;
    timestamp = at;
  }

  -- `EXPIRE k ms` at the time `at`, in milliseconds
  abbrev pub expiry_event : ℕ → ℕ → ℕ → Event K V
  expiry_event seq at ms = record {
    type = expire_event;
    key = k;
    value = v;
    ttl_ms = pos ms;
    seq = seq;
    timestamp = pos at;
  }

module _ {ℓ κ} {K : Type ℓ} {V : Type κ} ⦃key : Key K⦄ (clock : ℕ → ℤ)
    (produce : Event K V → Run (Unit {0})) (empty_value : V) (k : K) (v : V) where
  apply_event-expired :
      (now seq at ms : ℕ) (c : Cache K V)
      → now < 2 ^ 63
      → at + ms ≤ now
      → apply_event clock produce empty_value (pos now) (expiry_event k v seq at ms) c ≡ ok c
  unfolding apply_event set_remaining
  apply_event-expired now seq at ms c small past =
      let sum : int64 (add_ℤ (pos at) (pos ms)) ≡ ok (pos (at + ms)) =
        ap int64 (add_pos at ms) ∙ int64_pos (at + ms) (omega arith) in
      let late : leb_ℤ (pos (at + ms)) (pos now) ≡ true = ground arith in rw (sum, late) refl

  module _ (c : Cache K V) (valid : IsValid c.hash_map)
      (accepting : is_accepting_ops c.state ≡ true) (off : c.disable_event_logging ≡ true) where
    apply_event-stored :
        (now : ℤ) (seq : ℕ) (at : ℤ)
        → c.hash_map.capacity < 2 ^ 30
        → Returns (apply_event clock produce empty_value now (stored_event k v seq at) c) λ r.
          IsValid r.hash_map
          × ((q : K)
              → view r.hash_map q ≡ (
                  if k ≈ q
                  then some (record { value = v; expires_at = none })
                  else view c.hash_map q))
    unfolding apply_event set_forever new_entry
    apply_event-stored now seq at small =
        let (r, run, (answer, stored, world, state)) =
          set-Stored clock produce c valid k accepting v none
            (record { value = v; expires_at = none }, c.world) refl off small in
        (r.1, rw run refl, (stored.valid, stored.reads))

    -- In an accepting cache with logging off and a valid map of fewer than 2 ^ 30 buckets,
    -- replaying the SET event of a key without a ttl and then a newer EXPIRE event of that key,
    -- whose deadline is not after the start of the replay, returns a valid map in which the key
    -- has the value of the SET and no deadline, and every other key keeps its entry.
    pub replay_events_revives :
        (now first second at ms : ℕ) (stored_at : ℤ) (last : Seqs K)
        → c.hash_map.capacity < 2 ^ 30
        → seq_of k last < first
        → first < second
        → now < 2 ^ 63
        → at + ms ≤ now
        → Returns
            (replay_events clock produce empty_value
              (pos now)
              (stored_event k v first stored_at ∷ expiry_event k v second at ms ∷ [])
              last
              c)
            λ r.
              IsValid r.1.hash_map
              × ((q : K)
                  → view r.1.hash_map q ≡ (
                      if k ≈ q
                      then some (record { value = v; expires_at = none })
                      else view c.hash_map q))
    unfolding replay_events
    replay_events_revives now first second at ms stored_at last narrow fresh newer small past =
        let (r, run, done) = apply_event-stored (pos now) first stored_at narrow in
        let unseen : leb first (seq_of k last) ≡ false = ground arith in
        let next : leb second first ≡ false = ground arith in
        (
          (put_seq k second (put_seq k first last), r),
          rw
              (
                unseen,
                run,
                seq_of-put_seq k first last,
                next,
                apply_event-expired now second at ms r small past,
              )
              refl,
          done,
        )
