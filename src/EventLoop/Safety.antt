-- ===== src/EventLoop/Safety.antt =====
-- What a client's part of the loop of src/cpp/server/event_loop.cpp keeps true of its connection.
use chrono_cache.Shared.{
  ℕ, ◌%◌, ◌^◌, ◌≡◌, refl, sym, ap, ◌∙◌, subst, Bool, true, false, not, ◌&&◌, ◌||◌, Option, none,
  some, List, [], ◌∷◌, ◌++◌, map, length, drop, ◌==◌, if◌then◌else◌, arith, Bool-cases, inl, inr,
  if_true, if_false, length-append,
}
use chrono_cache.Shared.Run.{
  Run, ok, err, exception, aborted, undefined, out_of_fuel, ◌>>=◌, IsSafe, IsSafe-bind,
  IsSafe-weaken, IsSafe-if,
}
use chrono_cache.Shared.Text.{Bytes}
use chrono_cache.Resp.Value.{RespValue}
use chrono_cache.Resp.Parser.{parse}
use chrono_cache.Resp.Parser.Bounds.{IsWithin}
use chrono_cache.Resp.Parser.Total.{parse-IsBounded}
use chrono_cache.Connection.{
  Connection, WriteResult, write_would_block, write_failed, written, handle_write, write_done,
  handle_accept, enqueue_response, htonl,
}
use chrono_cache.Connection.Framing.{request_of}
use chrono_cache.Connection.Reads.{IsDrained, handle_read-Returns}
use chrono_cache.EventLoop.{
  Handler, Ready, reply_to, reply_to_command, caught, serve, client_in, client_out, handle_client,
}

-- Whether nothing is to be written.
abbrev pub nothing_out : Connection → Bool
nothing_out conn = length conn.outgoing == 0

-- A connection asks to be read where nothing is to be written, and to be written else; it holds no whole
-- request unless it is to be closed.
pub record IsCoherent (conn : Connection) : Type 0 where
  pub reads : conn.want_read ≡ nothing_out conn
  pub writes : conn.want_write ≡ not (nothing_out conn)
  pub drained : IsDrained conn

-- A call that ends by a value or an exception, or is undefined.
abbrev pub MayThrow {ℓ} : {A : Type ℓ} → Run A → Type 0
MayThrow (ok value) = Unit
MayThrow (err (exception what)) = Unit
MayThrow (err aborted) = ⊥
MayThrow (err undefined) = Unit
MayThrow (err out_of_fuel) = ⊥

-- A handler whose commands fail by exceptions only.
abbrev pub IsTame {μ} : {State : Type μ} → Handler State → Type μ
IsTame {State} handler =
    (command : RespValue) (state : State) → MayThrow (handler.execute command state)

-- A coherent connection of a descriptor.
abbrev pub IsAt : ℕ → Connection → Type 0
IsAt fd conn = (conn.fd ≡ fd) × IsCoherent conn

pub handle_accept-IsAt : (connfd : ℕ) {fd : ℕ} → connfd ≡ fd → IsAt fd (handle_accept connfd)
unfolding handle_accept
handle_accept-IsAt connfd same =
    (same, record { reads = refl; writes = refl; drained = inr (inl (omega arith)) })

enqueue_response-IsAt :
    (reply : Bytes) (fd : ℕ) (conn : Connection)
    → IsAt fd conn
    → IsAt fd (enqueue_response reply conn)
unfolding enqueue_response htonl
enqueue_response-IsAt reply fd conn (same, c) =
    let head = htonl (length reply % 2 ^ 32) in
    let full : (length (conn.outgoing ++ head ++ reply) == 0) ≡ false =
      ground
        (arith, length-append (conn.outgoing ++ head) reply, length-append conn.outgoing head) in
    (same, record { reads = sym full; writes = sym (ap not full); drained = c.drained })

-- A connection that wants to be written has something to write.
something_out :
    (conn : Connection) → IsCoherent conn → conn.want_write ≡ true → nothing_out conn ≡ false
something_out conn c wanted = elim (Bool-cases (nothing_out conn)) [
  | inl h ↦ absurd (cc (sym wanted ∙ c.writes ∙ ap not h))
  | inr h ↦ h
]

write_done-IsAt :
    (conn : Connection) (n : ℕ)
    → IsCoherent conn
    → nothing_out conn ≡ false
    → IsAt conn.fd (write_done (record conn { outgoing = drop n conn.outgoing }))
write_done-IsAt conn n c full = elim (Bool-cases (length (drop n conn.outgoing) == 0)) [
  | inl h ↦ rw h (refl, record { reads = sym h; writes = sym (ap not h); drained = c.drained })
  | inr h ↦ rw h (
    refl,
    record {
      reads = c.reads ∙ full ∙ sym h;
      writes = c.writes ∙ ap not full ∙ sym (ap not h);
      drained = c.drained;
    },
  )
]

handle_write-IsSafe :
    (result : WriteResult) (conn : Connection)
    → IsCoherent conn
    → conn.want_write ≡ true
    → IsSafe (IsAt conn.fd) (handle_write result conn)
unfolding handle_write
handle_write-IsSafe write_would_block conn c wanted = rw (something_out conn c wanted) (refl, c)
handle_write-IsSafe write_failed conn c wanted =
    rw (something_out conn c wanted)
      (refl, record { reads = c.reads; writes = c.writes; drained = inl refl })
handle_write-IsSafe (written n) conn c wanted =
    let full = something_out conn c wanted in rw full (write_done-IsAt conn n c full)

-- What is left of a client.
abbrev pub IsClientAt : ℕ → Option Connection → Type 0
IsClientAt fd none = Unit
IsClientAt fd (some conn) = IsAt fd conn

IsClientAt-if :
    (b : Bool) (fd : ℕ) (conn : Connection)
    → IsAt fd conn
    → IsClientAt fd (if b then none else some conn)
IsClientAt-if true fd conn c = tt
IsClientAt-if false fd conn c = c

-- `poll` reports only what was asked for.
pub record IsAsked (ready : Ready) (conn : Connection) : Type 0 where
  pub asked_in : ready.pollin ≡ true → conn.want_read ≡ true
  pub asked_out : ready.pollout ≡ true → conn.want_write ≡ true

module _ {μ} {State : Type μ} (handler : Handler State) (tame : IsTame handler) where
  -- Any pair.
  abbrev Any {ν} : {A : Type ν} → A → Type 0
  Any x = Unit

  caught-IsSafe :
      (state : State) (call : Run (Bytes × State))
      → MayThrow call
      → IsSafe Any (caught handler state call)
  caught-IsSafe state (ok r) tame = tt
  caught-IsSafe state (err (exception what)) tame = tt
  caught-IsSafe state (err aborted) tame = absurd tame
  caught-IsSafe state (err undefined) tame = tt
  caught-IsSafe state (err out_of_fuel) tame = absurd tame

  reply_to_command-IsSafe :
      (state : State) (command : Option RespValue)
      → IsSafe Any (reply_to_command handler state command)
  reply_to_command-IsSafe state none = tt
  reply_to_command-IsSafe state (some command) =
      caught-IsSafe state (handler.execute command state) (tame command state)

  reply_to-IsSafe : (message : Bytes) (state : State) → IsSafe Any (reply_to handler message state)
  unfolding reply_to
  reply_to-IsSafe message state =
      IsSafe-bind (IsWithin message) Any (parse message) _ (parse-IsBounded message)
        λ command _. reply_to_command-IsSafe state command

  serve-IsSafe :
      (messages : List Bytes) (fd : ℕ) (conn : Connection) (state : State)
      → IsAt fd conn
      → IsSafe (λ r. IsAt fd r.0) (serve handler (map request_of messages) conn state)
  unfolding serve
  serve-IsSafe [] fd conn state c = c
  serve-IsSafe (message ∷ messages) fd conn state c =
      IsSafe-bind Any (λ r. IsAt fd r.0) (reply_to handler message state) _
        (reply_to-IsSafe message state)
        λ r _.
          serve-IsSafe messages fd (enqueue_response r.0 conn) r.1
            (enqueue_response-IsAt r.0 fd conn c)

  -- The part for reading, on a connection that asks for it.
  client_in-IsSafe :
      (ready : Ready) (conn : Connection) (state : State)
      → IsCoherent conn
      → ready.pollin ≡ true
      → conn.want_read ≡ true
      → IsSafe (λ r. IsAt conn.fd r.0) (client_in handler ready conn state)
  unfolding client_in
  client_in-IsSafe ready conn state c polled wanted =
      let (r, run, (messages, all, keep, drained)) =
        handle_read-Returns ready.read_result conn c.drained in
      let after : IsCoherent r.1 = record {
        reads = keep.want_read ∙ c.reads ∙ sym (ap (λ out. length out == 0) keep.outgoing);
        writes = keep.want_write ∙ c.writes ∙ sym (ap (λ out. not (length out == 0)) keep.outgoing);
        drained = drained;
      } in
      subst (IsSafe λ t. IsAt conn.fd t.0)
        (sym (
          if_true ready.pollin _ _ polled
          ∙ if_true conn.want_read _ _ wanted
          ∙ ap (λ call. call >>= λ t. serve handler t.0 t.1 state) run
          ∙ ap (λ requests. serve handler requests r.1 state) all))
        (serve-IsSafe messages conn.fd r.1 state (keep.fd, after))

  -- After the part for reading, a client that is ready to be written still asks for it.
  client_in-asks :
      (ready : Ready) (conn : Connection) (state : State)
      → IsCoherent conn
      → IsAsked ready conn
      → IsSafe
          (λ r. IsAt conn.fd r.0 × (ready.pollout ≡ true → r.0.want_write ≡ true))
          (client_in handler ready conn state)
  unfolding client_in
  client_in-asks ready conn state c asked = elim (Bool-cases ready.pollin) [
    | inl reading ↦
        let wanted = asked.asked_in reading in
        IsSafe-weaken (λ r. IsAt conn.fd r.0)
          (λ r. IsAt conn.fd r.0 × (ready.pollout ≡ true → r.0.want_write ≡ true))
          (client_in handler ready conn state)
          (λ r here. (
            here,
            λ out.
                absurd (cc (sym (asked.asked_out out) ∙ c.writes ∙ ap not (sym c.reads ∙ wanted))),
          ))
          (client_in-IsSafe ready conn state c reading wanted)
    | inr idle ↦
        subst (IsSafe λ r. IsAt conn.fd r.0 × (ready.pollout ≡ true → r.0.want_write ≡ true))
          (sym (if_false ready.pollin _ _ idle)) ((refl, c), asked.asked_out)
  ]

  client_out-IsSafe :
      (ready : Ready) (fd : ℕ) (conn : Connection)
      → IsAt fd conn
      → (ready.pollout ≡ true → conn.want_write ≡ true)
      → IsSafe (IsAt fd) (client_out ready conn)
  unfolding client_out
  client_out-IsSafe ready fd conn (same, c) asked = elim (Bool-cases ready.pollout) [
    | inl out ↦
        IsSafe-if (IsAt fd) (not conn.want_close && ready.pollout) _ _
          (subst (IsSafe (IsAt fd)) (sym (if_true conn.want_write _ _ (asked out))) (
            subst (λ n. IsSafe (IsAt n) (handle_write ready.write_result conn)) same
              (handle_write-IsSafe ready.write_result conn c (asked out))))
          (same, c)
    | inr idle ↦
        subst (IsSafe (IsAt fd))
          (sym (if_false (not conn.want_close && ready.pollout) _ _ (ground (arith, idle))))
          (same, c)
  ]

  pub handle_client-IsSafe :
      (ready : Ready) (conn : Connection) (state : State)
      → IsCoherent conn
      → IsAsked ready conn
      → IsSafe (λ r. IsClientAt conn.fd r.0) (handle_client handler ready conn state)
  unfolding handle_client
  handle_client-IsSafe ready conn state c asked =
      IsSafe-bind (λ r. IsAt conn.fd r.0 × (ready.pollout ≡ true → r.0.want_write ≡ true))
        (λ r. IsClientAt conn.fd r.0) (client_in handler ready conn state) _
        (client_in-asks ready conn state c asked)
        λ r (here, asks).
          IsSafe-bind (IsAt conn.fd) (λ r. IsClientAt conn.fd r.0) (client_out ready r.0) _
            (client_out-IsSafe ready conn.fd r.0 here asks)
            λ conn' there.
              IsClientAt-if (ready.pollerr_or_hup || conn'.want_close) conn.fd conn' there
