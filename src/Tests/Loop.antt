-- ===== src/Tests/Loop.antt =====
-- Connections and a round of the loop on a few bytes, with a handler that answers OK.
use chrono_cache.Shared.{
  ℕ, ◌+◌, ◌≡◌, refl, true, false, Option, none, some, List, [], ◌∷◌, ◌++◌, map, length, arith, inl,
  inr,
}
use chrono_cache.Shared.Run.{ok, IsSafe, Returns}
use chrono_cache.Shared.Text.{Bytes, codes}
use chrono_cache.Resp.Parser.{parse, parse_within, parse_body, parse_simple_string, find_crlf}
use chrono_cache.Resp.Serializer
use chrono_cache.Connection.{Connection, received, write_would_block, handle_read, htonl}
use chrono_cache.Connection.Framing.{frame, frames, request_of, IsPartial, AreAllowed}
use chrono_cache.Connection.Pieces.{read_all, join, read_all-frames}
use chrono_cache.Connection.Reads.{IsRead, handle_read-Returns}
use chrono_cache.EventLoop.{Handler, Ready, client_in, round, reply_to}
use chrono_cache.EventLoop.Service.{replies_to, queued, client_in-serves}
use chrono_cache.EventLoop.Safety.{IsTame, IsCoherent}
use chrono_cache.EventLoop.Rounds.{AreFrom, IsPolled, IsNew, round-IsSafe}

-- It counts the commands.
abbrev counting : Handler ℕ
counting = record {
  execute = λ command n. ok (codes "+OK" ++ 13 ∷ 10 ∷ [], n + 1);
  after_throw = λ n. n;
}

counting-IsTame : IsTame counting
counting-IsTame command n = tt

abbrev quiet : Connection
quiet = record {
  fd = 1;
  want_read = true;
  want_write = false;
  want_close = false;
  incoming = [];
  outgoing = [];
}

abbrev hi : Bytes
hi = codes "+a"

-- Two requests and the first byte of a third, in two pieces.
abbrev pieces : List Bytes
pieces = (0 ∷ 0 ∷ []) ∷ (0 ∷ 2 ∷ hi ++ 0 ∷ 0 ∷ 0 ∷ 2 ∷ hi ++ 0 ∷ []) ∷ []

hi_twice : join pieces ≡ frames (hi ∷ hi ∷ []) ++ 0 ∷ []
unfolding htonl
hi_twice = refl

hi_allowed : AreAllowed (hi ∷ hi ∷ [])
hi_allowed = (omega arith, (omega arith, tt))

byte-IsPartial : IsPartial (0 ∷ [])
byte-IsPartial = inl (omega arith)

nothing-IsPartial : IsPartial []
nothing-IsPartial = inl (omega arith)

read_all-frames_example :
    read_all pieces quiet ≡ ok (map request_of (hi ∷ hi ∷ []), record quiet { incoming = 0 ∷ [] })
read_all-frames_example =
    read_all-frames pieces (hi ∷ hi ∷ []) (0 ∷ []) quiet hi_allowed byte-IsPartial nothing-IsPartial
      hi_twice

handle_read-Returns_example :
    Returns (handle_read (received (255 ∷ 255 ∷ 255 ∷ 255 ∷ [])) quiet) (IsRead quiet)
handle_read-Returns_example =
    handle_read-Returns (received (255 ∷ 255 ∷ 255 ∷ 255 ∷ [])) quiet (inr nothing-IsPartial)

-- What the system does for the client: it is ready to be read, and one request comes.
abbrev ready : Ready
ready = record {
  ready_fd = 1;
  pollin = true;
  pollout = false;
  pollerr_or_hup = false;
  read_result = received (frame hi);
  write_result = write_would_block;
}

abbrev answers : List Bytes × ℕ
answers = (Serializer.error (codes "ERR invalid RESP message") ∷ [], 7)

answered : replies_to counting (hi ∷ []) 7 ≡ ok answers
unfolding reply_to parse parse_within parse_body parse_simple_string find_crlf
answered = refl

hi_whole : [] ++ frame hi ≡ frames (hi ∷ []) ++ []
unfolding htonl
hi_whole = refl

client_in-serves_example :
    (client_in counting ready quiet 7
      ≡ ok (queued counting answers.0 (record quiet { incoming = [] }), 7))
    × (length answers.0 ≡ 1)
client_in-serves_example =
    client_in-serves counting ready quiet 7 (frame hi) (hi ∷ []) [] answers refl refl refl
      (omega arith, tt) nothing-IsPartial hi_whole answered

abbrev table : List (Option Connection)
table = none ∷ some quiet ∷ []

quiet-IsCoherent : IsCoherent quiet
quiet-IsCoherent = record { reads = refl; writes = refl; drained = inr nothing-IsPartial }

table-AreFrom : AreFrom 0 table
table-AreFrom = (tt, ((refl, quiet-IsCoherent), tt))

ready-IsPolled : IsPolled table ready
ready-IsPolled = record {
  conn = quiet;
  stands = refl;
  asked = record { asked_in = λ h. refl; asked_out = λ h. absurd (cc h) };
}

accepted_two : IsNew (ready ∷ []) (some 2)
accepted_two = (λ h. omega arith, tt)

round-IsSafe_example : IsSafe (λ r. AreFrom 0 r.0) (round counting (some 2) (ready ∷ []) table 7)
round-IsSafe_example =
    round-IsSafe counting counting-IsTame (some 2) (ready ∷ []) table 7 table-AreFrom
      (ready-IsPolled, tt, tt) accepted_two
