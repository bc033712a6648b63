-- ===== src/Tcp/Connector/Ledger/Starting.antt =====
-- startInLoop and what leads to it, in src/network/tcp/TcpConnector.cc.
use atc2025_poby.Base.{
  ℕ, ◌≡◌, refl, sym, ap, subst, ◌∙◌, Bool, true, false, some, ◌∷◌, arith, some_eq,
}
use atc2025_poby.Tcp.Connector.{
  States, disconnected, connecting, connected, Channel, no_channel, watched, removed, start_task,
  Verdict, under_way, try_again, give_up, verdict, Attempt, TcpConnector, init_retry_delay_ms,
  start_watching, attempted, connect, start_at, start_in_loop, start, restart,
}
use atc2025_poby.Tcp.Connector.Ledger.{
  held, to_reset, is_watched, is_connecting, Sound, one, Watches, Steady, close-Sound, retry-Steady,
  queued-Steady, with_connect-Steady,
}

start_watching-Steady :
    (ch : Channel) (sockfd : ℕ) (c c' : TcpConnector)
    → c.channel ≡ ch
    → Sound (one sockfd) c
    → start_watching ch sockfd c ≡ some c'
    → Steady c'
start_watching-Steady no_channel sockfd c c' empty s e = subst Steady (some_eq e) (
  record {
    accounts = λ fd.
        let idle : held fd c.channel ≡ 0 = ap (held fd) empty in omega (arith, s.accounts fd, idle);
    resetting = s.resetting ∙ ap to_reset empty;
    delay = s.delay;
    delays = s.delays;
  },
  refl,
)
start_watching-Steady (watched x) sockfd c c' empty s e = absurd cc
start_watching-Steady (removed x) sockfd c c' empty s e = absurd cc

attempted-Steady :
    (v : Verdict) (sockfd : ℕ) (c c' : TcpConnector)
    → Sound (one sockfd) c
    → Watches c
    → is_connecting c.state ≡ false
    → attempted v sockfd c ≡ some c'
    → Steady c'
attempted-Steady under_way sockfd c c' s w idle e =
    start_watching-Steady c.channel sockfd c c' refl s e
attempted-Steady try_again sockfd c c' s w idle e =
    subst Steady (some_eq e) (retry-Steady sockfd c s (sym w ∙ idle))
attempted-Steady give_up sockfd c c' s w idle e =
    subst Steady (some_eq e) (close-Sound sockfd c s, w)

start_at-Steady :
    (st : States) (b : Bool) (a : Attempt) (c c' : TcpConnector)
    → c.state ≡ st
    → Steady c
    → start_at st b a c ≡ some c'
    → Steady c'
unfolding connect
start_at-Steady disconnected true a c c' at (s, w) e =
    let new_one : Sound (one a.sockfd) (record c { made = a.sockfd ∷ c.made }) = record {
      accounts = λ fd. omega (arith, s.accounts fd);
      resetting = s.resetting;
      delay = s.delay;
      delays = s.delays;
    } in
    attempted-Steady (verdict a.result) a.sockfd (record c { made = a.sockfd ∷ c.made }) c' new_one
      w (ap is_connecting at) e
start_at-Steady disconnected false a c c' at steady e = subst Steady (some_eq e) steady
start_at-Steady connecting true a c c' at steady e = absurd cc
start_at-Steady connecting false a c c' at steady e = absurd cc
start_at-Steady connected true a c c' at steady e = absurd cc
start_at-Steady connected false a c c' at steady e = absurd cc

pub start_in_loop-Steady :
    (a : Attempt) (c c' : TcpConnector) → Steady c → start_in_loop a c ≡ some c' → Steady c'
unfolding start_in_loop
start_in_loop-Steady a c c' steady e = start_at-Steady c.state c.connect_ a c c' refl steady e

pub start-Steady :
    (in_loop : Bool) (a : Attempt) (c c' : TcpConnector)
    → Steady c
    → start in_loop a c ≡ some c'
    → Steady c'
unfolding start
start-Steady true a c c' steady e =
    start_in_loop-Steady a (record c { connect_ = true }) c' (with_connect-Steady true c steady) e
start-Steady false a c c' steady e =
    subst Steady (some_eq e) (queued-Steady true start_task c refl steady)

pub restart-Steady :
    (a : Attempt) (c c' : TcpConnector)
    → c.state ≡ connected
    → Steady c
    → restart a c ≡ some c'
    → Steady c'
unfolding restart
restart-Steady a c c' at (s, w) e =
    let idle : false ≡ is_watched c.channel = sym (ap is_connecting at) ∙ w in
    start_in_loop-Steady a
      (record c { state = disconnected; retry_delay_ms = init_retry_delay_ms; connect_ = true }) c'
      (
        record {
          accounts = s.accounts;
          resetting = s.resetting;
          delay = (omega arith, omega arith);
          delays = s.delays;
        },
        idle,
      )
      e
