-- ===== src/EventLoop/Rounds.antt =====
-- A whole round of the loop of src/cpp/server/event_loop.cpp over its table of connections.
use chrono_cache.Shared.{
  ℕ, zero, suc, ◌+◌, ◌≡◌, ◌≢◌, refl, sym, ap, ◌∙◌, subst, not, ◌&&◌, Option, none, some, List, [],
  ◌∷◌, arith, get_elem?, set,
}
use chrono_cache.Shared.Run.{IsSafe, IsSafe-bind, IsSafe-if}
use chrono_cache.Connection.{Connection, handle_accept}
use chrono_cache.EventLoop.{
  Handler, Ready, grown, accept_client, handle_client, put_client, at_client, handle_clients, round,
}
use chrono_cache.EventLoop.Safety.{
  IsTame, IsAt, IsClientAt, IsAsked, handle_accept-IsAt, handle_client-IsSafe,
}

-- Every connection stands at its descriptor and is coherent; the first place is that of `i`.
abbrev pub AreFrom : ℕ → List (Option Connection) → Type 0
AreFrom i [] = Unit
AreFrom i (client ∷ fd2conn) = IsClientAt i client × AreFrom (suc i) fd2conn

get-AreFrom :
    (i j : ℕ) (fd2conn : List (Option Connection)) (client : Option Connection)
    → AreFrom i fd2conn
    → get_elem? fd2conn j ≡ some client
    → IsClientAt (i + j) client
get-AreFrom i j [] client all e = absurd (cc e)
get-AreFrom i zero (c ∷ fd2conn) client (here, all) e =
    let same : c ≡ client = cc e in
    let there : i ≡ i + 0 = omega arith in
    subst (λ n. IsClientAt n client) there (subst (IsClientAt i) same here)
get-AreFrom i (suc j) (c ∷ fd2conn) client (here, all) e =
    let there : suc i + j ≡ i + suc j = omega arith in
    subst (λ n. IsClientAt n client) there (get-AreFrom (suc i) j fd2conn client all e)

set-AreFrom :
    (i j : ℕ) (fd2conn : List (Option Connection)) (client : Option Connection)
    → AreFrom i fd2conn
    → IsClientAt (i + j) client
    → AreFrom i (set fd2conn j client)
set-AreFrom i j [] client all new = tt
set-AreFrom i zero (c ∷ fd2conn) client (here, all) new =
    let there : i + 0 ≡ i = omega arith in (subst (λ n. IsClientAt n client) there new, all)
set-AreFrom i (suc j) (c ∷ fd2conn) client (here, all) new =
    let there : i + suc j ≡ suc i + j = omega arith in
    (here, set-AreFrom (suc i) j fd2conn client all (subst (λ n. IsClientAt n client) there new))

grown-AreFrom :
    (i n : ℕ) (fd2conn : List (Option Connection)) → AreFrom i fd2conn → AreFrom i (grown n fd2conn)
grown-AreFrom i zero fd2conn all = all
grown-AreFrom i (suc n) [] all = (tt, grown-AreFrom (suc i) n [] tt)
grown-AreFrom i (suc n) (c ∷ fd2conn) (here, all) = (here, grown-AreFrom (suc i) n fd2conn all)

-- A write elsewhere.
get-set_apart :
    (fd2conn : List (Option Connection)) (i j : ℕ) (client : Option Connection)
    → i ≢ j
    → get_elem? (set fd2conn j client) i ≡ get_elem? fd2conn i
get-set_apart [] i j client apart = refl
get-set_apart (c ∷ fd2conn) zero zero client apart = absurd (apart refl)
get-set_apart (c ∷ fd2conn) zero (suc j) client apart = refl
get-set_apart (c ∷ fd2conn) (suc i) zero client apart = refl
get-set_apart (c ∷ fd2conn) (suc i) (suc j) client apart =
    get-set_apart fd2conn i j client λ same. apart (ap suc same)

get-grown :
    (n i : ℕ) (fd2conn : List (Option Connection)) (client : Option Connection)
    → get_elem? fd2conn i ≡ some client
    → get_elem? (grown n fd2conn) i ≡ some client
get-grown zero i fd2conn client e = e
get-grown (suc n) i [] client e = absurd (cc e)
get-grown (suc n) zero (c ∷ fd2conn) client e = e
get-grown (suc n) (suc i) (c ∷ fd2conn) client e = get-grown n i fd2conn client e

-- No other client has this descriptor.
abbrev pub IsApart : ℕ → List Ready → Type 0
IsApart fd [] = Unit
IsApart fd (ready ∷ others) = (ready.ready_fd ≢ fd) × IsApart fd others

-- A client that `poll` reports, and for which it was asked.
pub record IsPolled (fd2conn : List (Option Connection)) (ready : Ready) : Type 0 where
  pub conn : Connection
  pub stands : get_elem? fd2conn ready.ready_fd ≡ some (some conn)
  pub asked : IsAsked ready conn

-- What `poll` reports: clients of the table, each once.
abbrev pub ArePolled : List (Option Connection) → List Ready → Type 0
ArePolled fd2conn [] = Unit
ArePolled fd2conn (ready ∷ others) =
    IsPolled fd2conn ready × IsApart ready.ready_fd others × ArePolled fd2conn others

-- A table that differs at one descriptor only.
abbrev SameElsewhere : ℕ → List (Option Connection) → List (Option Connection) → Type 0
SameElsewhere fd fd2conn fd2conn' =
    (i : ℕ) (client : Option Connection)
    → i ≢ fd
    → get_elem? fd2conn i ≡ some client
    → get_elem? fd2conn' i ≡ some client

ArePolled-elsewhere :
    (fd : ℕ) (fd2conn fd2conn' : List (Option Connection)) (clients : List Ready)
    → SameElsewhere fd fd2conn fd2conn'
    → IsApart fd clients
    → ArePolled fd2conn clients
    → ArePolled fd2conn' clients
ArePolled-elsewhere fd fd2conn fd2conn' [] same apart polled = tt
ArePolled-elsewhere fd fd2conn fd2conn' (ready ∷ others) same (away, apart) (p, q, polled) = (
  record {
    conn = p.conn;
    stands = same ready.ready_fd (some p.conn) away p.stands;
    asked = p.asked;
  },
  q,
  ArePolled-elsewhere fd fd2conn fd2conn' others same apart polled,
)

-- `accept` gives a descriptor that no open client has.
abbrev pub IsNew : List Ready → Option ℕ → Type 0
IsNew clients none = Unit
IsNew clients (some connfd) = IsApart connfd clients

-- The table after `accept`.
accept_client-AreFrom :
    (accepted : Option ℕ) (clients : List Ready) (fd2conn : List (Option Connection))
    → AreFrom 0 fd2conn
    → ArePolled fd2conn clients
    → IsNew clients accepted
    → AreFrom 0 (accept_client accepted fd2conn)
      × ArePolled (accept_client accepted fd2conn) clients
unfolding accept_client
accept_client-AreFrom none clients fd2conn all polled new = (all, polled)
accept_client-AreFrom (some connfd) clients fd2conn all polled new =
    let wide = grown (suc connfd) fd2conn in
    (
      set-AreFrom 0 connfd wide (some (handle_accept connfd))
          (grown-AreFrom 0 (suc connfd) fd2conn all) (handle_accept-IsAt connfd (omega arith)),
      ArePolled-elsewhere connfd fd2conn (accept_client (some connfd) fd2conn) clients
          (λ i client apart e.
            get-set_apart wide i connfd (some (handle_accept connfd)) apart
            ∙ get-grown (suc connfd) i fd2conn client e)
          new polled,
    )

-- Putting back a client of `fd`, or taking it out.
put_client-AreFrom :
    (fd2conn : List (Option Connection)) (fd : ℕ) (conn : Connection) (client : Option Connection)
    → AreFrom 0 fd2conn
    → conn.fd ≡ fd
    → IsClientAt conn.fd client
    → AreFrom 0 (put_client fd2conn fd conn client)
      × SameElsewhere fd fd2conn (put_client fd2conn fd conn client)
put_client-AreFrom fd2conn fd conn none all same here = (
  set-AreFrom 0 conn.fd fd2conn none all tt,
  λ i client apart e. get-set_apart fd2conn i conn.fd none (λ h. apart (h ∙ same)) ∙ e,
)
put_client-AreFrom fd2conn fd conn (some conn') all same here =
    let there : conn.fd ≡ 0 + fd = same ∙ omega arith in
    (
      set-AreFrom 0 fd fd2conn (some conn') all (subst (λ n. IsAt n conn') there here),
      λ i client apart e. get-set_apart fd2conn i fd (some conn') apart ∙ e,
    )

module _ {μ} {State : Type μ} (handler : Handler State) (tame : IsTame handler) where
  handle_clients-IsSafe :
      (clients : List Ready) (fd2conn : List (Option Connection)) (state : State)
      → AreFrom 0 fd2conn
      → ArePolled fd2conn clients
      → IsSafe (λ r. AreFrom 0 r.0) (handle_clients handler clients fd2conn state)
  unfolding handle_clients
  handle_clients-IsSafe [] fd2conn state all polled = all
  handle_clients-IsSafe (ready ∷ others) fd2conn state all (p, apart, polled) =
      let after = λ (r : List (Option Connection) × State).
        AreFrom 0 r.0 × SameElsewhere ready.ready_fd fd2conn r.0 in
      let (same, coherent) =
        subst (λ n. IsAt n p.conn) (omega arith)
          (get-AreFrom 0 ready.ready_fd fd2conn (some p.conn) all p.stands) in
      IsSafe-bind after (λ r. AreFrom 0 r.0) _ _
        (IsSafe-if after (not ready.pollin && not ready.pollout && not ready.pollerr_or_hup) _ _
          (all, λ i client away e. e)
          (subst (λ place. IsSafe after (at_client handler fd2conn state ready place))
            (sym p.stands)
            (IsSafe-bind (λ r. IsClientAt p.conn.fd r.0) after
              (handle_client handler ready p.conn state) _
              (handle_client-IsSafe handler tame ready p.conn state coherent p.asked)
              λ r here. put_client-AreFrom fd2conn ready.ready_fd p.conn r.0 all same here)))
        λ r (all', elsewhere).
          handle_clients-IsSafe others r.0 r.1 all'
            (ArePolled-elsewhere ready.ready_fd fd2conn r.0 others elsewhere apart polled)

  -- In a table in which every connection stands at its descriptor, asks to be read where nothing
  -- is to be written and to be written else, and holds no whole request unless it is to be
  -- closed: where `poll` reports each client once and only what was asked for, `accept` gives a
  -- new descriptor, and commands fail by exceptions only, a round of the loop throws no
  -- exception, fails no assertion, and leaves such a table; it may only meet undefined behaviour.
  pub round-IsSafe :
      (accepted : Option ℕ) (clients : List Ready) (fd2conn : List (Option Connection))
      (state : State)
      → AreFrom 0 fd2conn
      → ArePolled fd2conn clients
      → IsNew clients accepted
      → IsSafe (λ r. AreFrom 0 r.0) (round handler accepted clients fd2conn state)
  unfolding round
  round-IsSafe accepted clients fd2conn state all polled new =
      let (all', polled') = accept_client-AreFrom accepted clients fd2conn all polled new in
      handle_clients-IsSafe clients (accept_client accepted fd2conn) state all' polled'
