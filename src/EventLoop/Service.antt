-- ===== src/EventLoop/Service.antt =====
-- The replies that src/cpp/server/event_loop.cpp queues for the requests of one client.
use chrono_cache.Shared.{
  suc, ◌%◌, ◌^◌, ◌≡◌, refl, sym, ap, ◌∙◌, true, false, List, [], ◌∷◌, ◌++◌, map, append-nil,
  append_assoc, length, if_true,
}
use chrono_cache.Shared.Run.{Run, ok, ◌>>=◌, bind_ext, bind_assoc, bind_ok}
use chrono_cache.Shared.Text.{Bytes}
use chrono_cache.Connection.{Connection, received, handle_read, enqueue_response, htonl}
use chrono_cache.Connection.Framing.{frames, request_of, AreAllowed, IsPartial, handle_read-frames}
use chrono_cache.EventLoop.{Handler, Ready, reply_to, serve, client_in}

module _ {μ} {State : Type μ} (handler : Handler State) where
  -- The replies to messages, one after the other.
  abbrev pub replies_to : List Bytes → State → Run (List Bytes × State)
  replies_to [] state = ok ([], state)
  replies_to (message ∷ messages) state = do
    r ← reply_to handler message state
    more ← replies_to messages r.1
    ok (r.0 ∷ more.0, more.1)

  -- The bytes that a reply takes on the wire; its length is a `uint32_t`.
  abbrev pub reply_frame : Bytes → Bytes
  reply_frame reply = htonl (length reply % 2 ^ 32) ++ reply

  abbrev pub reply_frames : List Bytes → Bytes
  reply_frames [] = []
  reply_frames (reply ∷ replies) = reply_frame reply ++ reply_frames replies

  -- A connection with replies behind what was to be written.
  abbrev pub queued : List Bytes → Connection → Connection
  queued [] conn = conn
  queued (reply ∷ replies) conn = record conn {
    outgoing = conn.outgoing ++ reply_frames (reply ∷ replies);
    want_read = false;
    want_write = true;
  }

  queued-enqueue :
      (reply : Bytes) (replies : List Bytes) (conn : Connection)
      → queued replies (enqueue_response reply conn) ≡ queued (reply ∷ replies) conn
  unfolding enqueue_response
  queued-enqueue reply [] conn =
      ap (λ out. record conn { outgoing = out; want_read = false; want_write = true })
        (append_assoc conn.outgoing (htonl (length reply % 2 ^ 32)) reply
          ∙ ap (λ tail. conn.outgoing ++ tail) (sym (append-nil (reply_frame reply))))
  queued-enqueue reply (next ∷ replies) conn =
      ap (λ out. record conn { outgoing = out; want_read = false; want_write = true })
        (ap (λ out. out ++ reply_frames (next ∷ replies))
            (append_assoc conn.outgoing (htonl (length reply % 2 ^ 32)) reply)
          ∙ append_assoc conn.outgoing (reply_frame reply) (reply_frames (next ∷ replies)))

  -- The loop answers each message that it is given, in order.
  serve-replies_to :
      (messages : List Bytes) (conn : Connection) (state : State)
      → serve handler (map request_of messages) conn state
        ≡ (do r ← replies_to messages state; ok (queued r.0 conn, r.1))
  unfolding serve
  serve-replies_to [] conn state = refl
  serve-replies_to (message ∷ messages) conn state =
      bind_ext (reply_to handler message state) _ _ (λ r _.
        serve-replies_to messages (enqueue_response r.0 conn) r.1
        ∙ bind_ext (replies_to messages r.1) _ _
            (λ more _. ap (λ conn'. ok (conn', more.1)) (queued-enqueue r.0 more.0 conn))
        ∙ sym (
            bind_assoc (replies_to messages r.1) (λ more. ok (r.0 ∷ more.0, more.1))
              λ m. ok (queued m.0 conn, m.1)))
      ∙ sym (bind_assoc (reply_to handler message state) _ _)

  -- There is one reply a message.
  length-replies_to :
      (messages : List Bytes) (state : State) (r : List Bytes × State)
      → replies_to messages state ≡ ok r
      → length r.0 ≡ length messages
  length-replies_to [] state r e =
      let same : ([], state) ≡ r = cc e in ap (λ x. length x.0) (sym same)
  length-replies_to (message ∷ messages) state r e =
      let (v, answered, e') = bind_ok (reply_to handler message state) _ r e in
      let (w, more, e'') = bind_ok (replies_to messages v.1) _ r e' in
      let same : (v.0 ∷ w.0, w.1) ≡ r = cc e'' in
      ap (λ x. length x.0) (sym same) ∙ ap suc (length-replies_to messages v.1 w more)

  -- Where a client that is ready to be read sends bytes that end a number of whole requests, none
  -- larger than 32 MiB, and the commands return, there is one reply a request; the part of the
  -- loop for that client returns, and the replies are queued in the order of the requests, each
  -- behind its length.
  pub client_in-serves :
      (ready : Ready) (conn : Connection) (state : State) (buf : Bytes) (messages : List Bytes)
      (rest : Bytes) (r : List Bytes × State)
      → ready.pollin ≡ true
      → conn.want_read ≡ true
      → ready.read_result ≡ received buf
      → AreAllowed messages
      → IsPartial rest
      → conn.incoming ++ buf ≡ frames messages ++ rest
      → replies_to messages state ≡ ok r
      → (client_in handler ready conn state
          ≡ ok (queued r.0 (record conn { incoming = rest }), r.1))
        × (length r.0 ≡ length messages)
  unfolding client_in
  client_in-serves ready conn state buf messages rest r polled wanted read allowed partial e
        answered =
      (
        if_true ready.pollin _ _ polled
            ∙ if_true conn.want_read _ _ wanted
            ∙ ap (λ result. handle_read result conn >>= λ t. serve handler t.0 t.1 state) read
            ∙ rw
                (
                  handle_read-frames buf messages rest conn allowed partial e,
                  serve-replies_to messages (record conn { incoming = rest }) state,
                  answered,
                )
                refl,
        length-replies_to messages state r answered,
      )
