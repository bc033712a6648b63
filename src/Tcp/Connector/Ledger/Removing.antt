-- ===== src/Tcp/Connector/Ledger/Removing.antt =====
-- The ends of connecting, in src/network/tcp/TcpConnector.cc.
use atc2025_poby.Base.{
  ℕ, ◌≡◌, refl, sym, ap, subst, ◌∙◌, Bool, true, false, some, [], ◌∷◌, ◌++◌, arith, ◌>>=◌, some_eq,
}
use atc2025_poby.Tcp.Connector.{
  States, disconnected, connecting, connected, Channel, no_channel, watched, removed, reset_task,
  TcpConnector, retry, removed_at, remove_and_reset_channel, stop_at, hand_over, concluded,
  writable_at, error_at,
}
use atc2025_poby.Tcp.Connector.Ledger.{
  held, resets, to_reset, is_watched, is_connecting, Sound, nothing, one, Watches, Steady,
  resets-append, close-Sound, retry-Steady,
}

module _ (use_of : ℕ → TcpConnector → TcpConnector)
    (use_of-Steady : (fd : ℕ) (d : TcpConnector)
      → Sound (one fd) d
      → is_watched d.channel ≡ false
      → Steady (use_of fd d)) where
  -- The watched socket is taken from its channel, and used.
  removal-Steady :
      (ch : Channel) (c c' : TcpConnector)
      → c.channel ≡ ch
      → is_watched ch ≡ true
      → Sound nothing c
      → (removed_at ch c >>= λ r. some (use_of r.0 r.1)) ≡ some c'
      → Steady c'
  removal-Steady no_channel c c' at watch s e = absurd cc
  removal-Steady (removed x) c c' at watch s e = absurd cc
  removal-Steady (watched x) c c' at watch s e =
      let c'' = record c { channel = removed x; queue = c.queue ++ reset_task ∷ [] } in
      let loose : Sound (one x) c'' = record {
        accounts = λ fd.
            let holds : held fd c.channel ≡ one x fd = ap (held fd) at in
            omega (arith, s.accounts fd, holds);
        resetting =
            let none_yet : resets c.queue ≡ 0 = s.resetting ∙ ap to_reset at in
            omega (arith, resets-append c.queue reset_task, none_yet);
        delay = s.delay;
        delays = s.delays;
      } in
      subst Steady (some_eq e) (use_of-Steady x c'' loose refl)

hand_over-Sound :
    (b : Bool) (sockfd : ℕ) (c : TcpConnector)
    → Sound (one sockfd) c
    → Sound nothing (hand_over b sockfd c)
hand_over-Sound true sockfd c s = record {
  accounts = λ fd. omega (arith, s.accounts fd);
  resetting = s.resetting;
  delay = s.delay;
  delays = s.delays;
}
hand_over-Sound false sockfd c s = close-Sound sockfd c s

hand_over-Watches :
    (b : Bool) (sockfd : ℕ) (c : TcpConnector) → Watches c → Watches (hand_over b sockfd c)
hand_over-Watches true sockfd c w = w
hand_over-Watches false sockfd c w = w

concluded-Steady :
    (failed self_connect : Bool) (sockfd : ℕ) (c : TcpConnector)
    → Sound (one sockfd) c
    → is_watched c.channel ≡ false
    → Steady (concluded failed self_connect sockfd c)
concluded-Steady true self_connect sockfd c s idle = retry-Steady sockfd c s idle
concluded-Steady false true sockfd c s idle = retry-Steady sockfd c s idle
concluded-Steady false false sockfd c s idle =
    let c' = record c { state = connected } in
    let s' : Sound (one sockfd) c' = record {
      accounts = s.accounts;
      resetting = s.resetting;
      delay = s.delay;
      delays = s.delays;
    } in
    (hand_over-Sound c.connect_ sockfd c' s', hand_over-Watches c.connect_ sockfd c' (sym idle))

pub writable_at-Steady :
    (st : States) (failed self_connect : Bool) (c c' : TcpConnector)
    → c.state ≡ st
    → Steady c
    → writable_at st failed self_connect c ≡ some c'
    → Steady c'
unfolding remove_and_reset_channel
writable_at-Steady connecting failed self_connect c c' at (s, w) e =
    removal-Steady (concluded failed self_connect) (concluded-Steady failed self_connect) c.channel
      c c' refl (sym w ∙ ap is_connecting at) s e
writable_at-Steady disconnected failed self_connect c c' at steady e =
    subst Steady (some_eq e) steady
writable_at-Steady connected failed self_connect c c' at steady e = absurd cc

pub error_at-Steady :
    (st : States) (c c' : TcpConnector)
    → c.state ≡ st
    → Steady c
    → error_at st c ≡ some c'
    → Steady c'
unfolding remove_and_reset_channel
error_at-Steady connecting c c' at (s, w) e =
    removal-Steady retry retry-Steady c.channel c c' refl (sym w ∙ ap is_connecting at) s e
error_at-Steady disconnected c c' at steady e = subst Steady (some_eq e) steady
error_at-Steady connected c c' at steady e = subst Steady (some_eq e) steady

with_state-Sound :
    (st : States) (c : TcpConnector) → Sound nothing c → Sound nothing (record c { state = st })
with_state-Sound st c s = record {
  accounts = s.accounts;
  resetting = s.resetting;
  delay = s.delay;
  delays = s.delays;
}

pub stop_at-Steady :
    (st : States) (c c' : TcpConnector)
    → c.state ≡ st
    → Steady c
    → stop_at st c ≡ some c'
    → Steady c'
unfolding remove_and_reset_channel
stop_at-Steady connecting c c' at (s, w) e =
    removal-Steady retry retry-Steady c.channel (record c { state = disconnected }) c' refl
      (sym w ∙ ap is_connecting at) (with_state-Sound disconnected c s) e
stop_at-Steady disconnected c c' at steady e = subst Steady (some_eq e) steady
stop_at-Steady connected c c' at steady e = subst Steady (some_eq e) steady
