-- ===== src/Replay/Laws.antt =====
-- `replay` and `init` of src/cpp/cache/chrono_cache.cpp: repeated events, and the
-- states that `init` leaves.
use chrono_cache.Shared.{
  ℕ, ◌≡◌, ◌↔◌, refl, ap, Bool, true, false, some, List, [], ◌∷◌, arith, leb, Bool-cases, inl, inr,
  if◌then◌else◌,
}
use chrono_cache.Shared.Int.{ℤ}
use chrono_cache.Shared.Run.{Run, ok, err, exception, aborted, undefined, out_of_fuel, ◌>>=◌}
use chrono_cache.KvStore.Key.{Key, ◌≈◌}
use chrono_cache.Events.{Event, Logger}
use chrono_cache.Cache.{
  CacheState, uninitialized, replaying, replay_failed, replay_success, ready, Cache,
}
use chrono_cache.Replay.{
  Seqs, seq_of, put_seq, replay_events, replay, finish_replay, init_uninitialized, init_from, init,
}

module _ {ℓ} {K : Type ℓ} ⦃key : Key K⦄ where
  pub seq_of-put_seq : (k : K) (n : ℕ) (m : Seqs K) → seq_of k (put_seq k n m) ≡ n
  unfolding seq_of put_seq
  seq_of-put_seq k n [] = rw ((key.equal_iff k k).1 refl)
  seq_of-put_seq k n ((q, i) ∷ m) = elim (Bool-cases (q ≈ k)) [
    | inl p ↦ rw (p, p)
    | inr p ↦ rw (p, p) (seq_of-put_seq k n m)
  ]

  put_seq-put_seq : (k : K) (n : ℕ) (m : Seqs K) → put_seq k n (put_seq k n m) ≡ put_seq k n m
  unfolding put_seq
  put_seq-put_seq k n [] = rw ((key.equal_iff k k).1 refl)
  put_seq-put_seq k n ((q, i) ∷ m) = elim (Bool-cases (q ≈ k)) [
    | inl p ↦ rw (p, p)
    | inr p ↦ rw (p, p) (ap (λ rest. (q, i) ∷ rest) (put_seq-put_seq k n m))
  ]

module _ {ℓ κ} {K : Type ℓ} {V : Type κ} ⦃key : Key K⦄ (clock : ℕ → ℤ)
    (produce : Event K V → Run (Unit {0})) (empty_value : V) where
  -- For every cache and every record of applied sequence numbers, replaying an event twice in a
  -- row and then the rest gives what replaying it once and then the rest gives.
  pub replay_events_duplicate :
      (now_ms : ℤ) (e : Event K V) (events : List (Event K V)) (last : Seqs K) (c : Cache K V)
      → replay_events clock produce empty_value now_ms (e ∷ e ∷ events) last c
        ≡ replay_events clock produce empty_value now_ms (e ∷ events) last c
  unfolding replay_events
  replay_events_duplicate now_ms e events last c =
      let n = seq_of e.key last in
      elim (Bool-cases (leb e.seq n)) [
        | inl old ↦ rw (seq_of-put_seq e.key n last, old, put_seq-put_seq e.key n last)
        | inr new ↦
            let same : leb e.seq e.seq ≡ true = ground arith in
            rw (new, seq_of-put_seq e.key e.seq last, same, put_seq-put_seq e.key e.seq last)
      ]

  -- A failed `finish_replay` leaves the cache in another state.
  finish_replay-ready :
      (c : Cache K V) (r : Run (Cache K V))
      → ((finish_replay clock produce c r).0 ≡ ok true)
        ↔ ((finish_replay clock produce c r).1.state ≡ ready)
  unfolding finish_replay
  finish_replay-ready c (ok c') = (λ _. refl, λ _. refl)
  finish_replay-ready c (err (exception what)) = (λ e. cc e, λ e. cc e)
  finish_replay-ready c (err aborted) = (λ e. cc e, λ e. cc e)
  finish_replay-ready c (err undefined) = (λ e. cc e, λ e. cc e)
  finish_replay-ready c (err out_of_fuel) = (λ e. cc e, λ e. cc e)

  init_uninitialized-ready :
      (with_replay : Bool) (logger : Logger K V) (consumed : Run (List (Event K V))) (c : Cache K V)
      → ((init_uninitialized clock produce with_replay empty_value logger consumed c).0 ≡ ok true)
        ↔ ((init_uninitialized clock produce with_replay empty_value logger consumed c).1.state
            ≡ ready)
  unfolding init_uninitialized
  init_uninitialized-ready true logger consumed c =
      let logging =
        if c.disable_event_logging
        then c
        else record c { world = record c.world { cache_event_logger = some logger } } in
      finish_replay-ready logging (
        consumed >>= λ events.
        replay clock produce empty_value events (record logging { state = replaying }))
  init_uninitialized-ready false logger consumed c = (λ _. refl, λ _. refl)

  init_from-ready :
      (state : CacheState) (with_replay : Bool) (logger : Logger K V)
      (consumed : Run (List (Event K V))) (c : Cache K V)
      → c.state ≡ state
      → ((init_from clock produce state with_replay empty_value logger consumed c).0 ≡ ok true) ↔ (
          (init_from clock produce state with_replay empty_value logger consumed c).1.state ≡ ready)
  unfolding init_from
  init_from-ready ready with_replay logger consumed c e = (λ _. e, λ _. refl)
  init_from-ready uninitialized with_replay logger consumed c e =
      init_uninitialized-ready with_replay logger consumed c
  init_from-ready replaying with_replay logger consumed c e = (λ h. cc h, λ h. cc (h, e))
  init_from-ready replay_failed with_replay logger consumed c e = (λ h. cc h, λ h. cc (h, e))
  init_from-ready replay_success with_replay logger consumed c e = (λ h. cc h, λ h. cc (h, e))

  -- `init`, from any state, with or without a replay and whatever the consumer and the replay do,
  -- returns true exactly where it leaves the cache ready.
  pub init-ready :
      (with_replay : Bool) (logger : Logger K V) (consumed : Run (List (Event K V))) (c : Cache K V)
      → ((init clock produce with_replay empty_value logger consumed c).0 ≡ ok true)
        ↔ ((init clock produce with_replay empty_value logger consumed c).1.state ≡ ready)
  unfolding init
  init-ready with_replay logger consumed c =
      init_from-ready c.state with_replay logger consumed c refl
