-- ===== src/Tcp/Connector/Ledger/Run.antt =====
-- The sockets and the delays of the connector in src/network/tcp/TcpConnector.cc, in every run.
use atc2025_poby.Base.{
  ℕ, ◌+◌, ◌≡◌, refl, sym, ap, subst, ◌∙◌, false, some, List, [], ◌∷◌, ◌++◌, arith, All, All-append,
  All-prefix, All-suffix, some_eq,
}
use atc2025_poby.Tcp.Connector.{
  Channel, no_channel, watched, removed, Functor, start_task, stop_task, reset_task, Attempt,
  TcpConnector, stop, reset_channel, stop_in_loop, handle_write, handle_error,
}
use atc2025_poby.Tcp.Connector.Ledger.{
  count, held, resets, to_reset, is_watched, Within, Steady, new-Steady, queued-Steady,
}
use atc2025_poby.Tcp.Connector.Steps.{
  run_functor, Step, starting, stopping, restarting, running, firing, writing, failing, Reach, new,
  then_step,
}
use atc2025_poby.Tcp.Connector.Ledger.Starting.{start_in_loop-Steady, start-Steady, restart-Steady}
use atc2025_poby.Tcp.Connector.Ledger.Removing.{writable_at-Steady, error_at-Steady, stop_at-Steady}

-- A reset is queued, so the socket was removed from its channel.
reset-Steady :
    (ch : Channel) (c : TcpConnector) (rest : List Functor)
    → c.channel ≡ ch
    → c.queue ≡ reset_task ∷ rest
    → Steady c
    → Steady (reset_channel (record c { queue = rest }))
unfolding reset_channel
reset-Steady no_channel c rest at front (s, w) =
    let n : resets c.queue ≡ 1 + resets rest = ap resets front in
    absurd (let m : resets c.queue ≡ 0 = s.resetting ∙ ap to_reset at in omega (arith, n, m))
reset-Steady (watched x) c rest at front (s, w) =
    let n : resets c.queue ≡ 1 + resets rest = ap resets front in
    absurd (let m : resets c.queue ≡ 0 = s.resetting ∙ ap to_reset at in omega (arith, n, m))
reset-Steady (removed x) c rest at front (s, w) =
    let n : resets c.queue ≡ 1 + resets rest = ap resets front in
    let m : resets c.queue ≡ 1 = s.resetting ∙ ap to_reset at in
    (
      record {
        accounts = λ fd.
            let idle : held fd c.channel ≡ 0 = ap (held fd) at in
            omega (arith, s.accounts fd, idle);
        resetting = omega (arith, n, m);
        delay = s.delay;
        delays = s.delays;
      },
      w ∙ ap is_watched at,
    )

popped-Steady :
    (f : Functor) (c : TcpConnector) (rest : List Functor)
    → c.queue ≡ f ∷ rest
    → resets (f ∷ []) ≡ 0
    → Steady c
    → Steady (record c { queue = rest })
popped-Steady reset_task c rest front other steady = absurd (omega (arith, other))
popped-Steady start_task c rest front other (s, w) = (
  record {
    accounts = s.accounts;
    resetting = sym (ap resets front) ∙ s.resetting;
    delay = s.delay;
    delays = s.delays;
  },
  w,
)
popped-Steady stop_task c rest front other (s, w) = (
  record {
    accounts = s.accounts;
    resetting = sym (ap resets front) ∙ s.resetting;
    delay = s.delay;
    delays = s.delays;
  },
  w,
)

run_functor-Steady :
    (f : Functor) (a : Attempt) (c c' : TcpConnector) (rest : List Functor)
    → c.queue ≡ f ∷ rest
    → Steady c
    → run_functor f a (record c { queue = rest }) ≡ some c'
    → Steady c'
unfolding run_functor stop_in_loop
run_functor-Steady start_task a c c' rest front steady e =
    start_in_loop-Steady a (record c { queue = rest }) c'
      (popped-Steady start_task c rest front refl steady) e
run_functor-Steady stop_task a c c' rest front steady e =
    stop_at-Steady c.state (record c { queue = rest }) c' refl
      (popped-Steady stop_task c rest front refl steady) e
run_functor-Steady reset_task a c c' rest front steady e =
    subst Steady (some_eq e) (reset-Steady c.channel c rest refl front steady)

fired-Steady :
    (c : TcpConnector) (before : List ℕ) (delay : ℕ) (after : List ℕ)
    → c.timers ≡ before ++ delay ∷ after
    → Steady c
    → Steady (record c { timers = before ++ after })
fired-Steady c before delay after split (s, w) =
    let all : All Within (before ++ delay ∷ after) = subst (All Within) split s.delays in
    (
      record {
        accounts = s.accounts;
        resetting = s.resetting;
        delay = s.delay;
        delays =
            All-append Within before after (All-prefix Within before (delay ∷ after) all)
              (All-suffix Within before (delay ∷ after) all).1;
      },
      w,
    )

Step-Steady : (c c' : TcpConnector) → Step c c' → Steady c → Steady c'
unfolding stop handle_write handle_error
Step-Steady c c' (starting _ _ in_loop a e) steady = start-Steady in_loop a c c' steady e
Step-Steady c c' (stopping _ _ e) steady =
    subst Steady e (queued-Steady false stop_task c refl steady)
Step-Steady c c' (restarting _ _ a at e) steady = restart-Steady a c c' at steady e
Step-Steady c c' (running _ _ f rest a front e) steady =
    run_functor-Steady f a c c' rest front steady e
Step-Steady c c' (firing _ _ before delay after a split e) steady =
    start_in_loop-Steady a (record c { timers = before ++ after }) c'
      (fired-Steady c before delay after split steady) e
Step-Steady c c' (writing _ _ fd failed self_connect held_by e) steady =
    writable_at-Steady c.state failed self_connect c c' refl steady e
Step-Steady c c' (failing _ _ fd held_by e) steady = error_at-Steady c.state c c' refl steady e

Reach-Steady : (c : TcpConnector) → Reach c → Steady c
Reach-Steady c (new _ e) = subst Steady (sym e) new-Steady
Reach-Steady c' (then_step c _ r s) = Step-Steady c c' s (Reach-Steady c r)

-- In every run of a connector, a socket was closed or handed on as often as it was made, less the one that
-- the poller watches.
pub sockets_accounted :
    (c : TcpConnector)
    → Reach c
    → (fd : ℕ) → count fd c.made ≡ count fd c.closed + count fd c.handed + held fd c.channel
sockets_accounted c r fd = omega (arith, (Reach-Steady c r).0.accounts fd)

-- In every run, the delay of the next retry and those of the timers are between half a second and thirty.
pub delays_bounded : (c : TcpConnector) → Reach c → Within c.retry_delay_ms × All Within c.timers
delays_bounded c r = let steady = Reach-Steady c r in (steady.0.delay, steady.0.delays)
