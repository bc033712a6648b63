-- ===== src/Tcp/Connector/Ledger.antt =====
-- Where the sockets of the connector in src/network/tcp/TcpConnector.cc are, and its delays.
pub mod Starting
pub mod Removing
pub mod Run
use atc2025_poby.Base.{
  ℕ, ◌+◌, ◌*◌, ◌≤◌, ◌≡◌, refl, sym, ap, subst, ◌∙◌, Bool, true, false, Option, none, some, List, [],
  ◌∷◌, ◌++◌, ◌==◌, arith, if◌then◌else◌, ◌>>=◌, min, All, All-append, All-prefix, All-suffix,
  Bool-cases, some_eq,
}
use atc2025_poby.Tcp.Connector.{
  States, disconnected, connecting, connected, Channel, no_channel, watched, removed, Functor,
  start_task, stop_task, reset_task, Verdict, under_way, try_again, give_up, verdict, Attempt,
  TcpConnector, init_retry_delay_ms, max_retry_delay_ms, new_connector, close, retry_when, retry,
  start_watching, attempted, connect, start_at, start_in_loop, start, stop, restart, removed_at,
  remove_and_reset_channel, reset_channel, stop_at, stop_in_loop, hand_over, concluded, writable_at,
  handle_write, error_at, handle_error,
}

abbrev pub count : ℕ → List ℕ → ℕ
count fd [] = 0
count fd (x ∷ xs) = (if x == fd then 1 else 0) + count fd xs

-- The socket that the poller watches.
abbrev pub held : ℕ → Channel → ℕ
held fd no_channel = 0
held fd (watched x) = if x == fd then 1 else 0
held fd (removed x) = 0

abbrev pub resets : List Functor → ℕ
resets [] = 0
resets (reset_task ∷ fs) = 1 + resets fs
resets (start_task ∷ fs) = resets fs
resets (stop_task ∷ fs) = resets fs

abbrev pub to_reset : Channel → ℕ
to_reset no_channel = 0
to_reset (watched x) = 0
to_reset (removed x) = 1

abbrev pub is_watched : Channel → Bool
is_watched (watched x) = true
is_watched _ = false

abbrev pub is_connecting : States → Bool
is_connecting connecting = true
is_connecting _ = false

abbrev pub Within : ℕ → Type 0
Within delay = (init_retry_delay_ms ≤ delay) × (delay ≤ max_retry_delay_ms)

-- `extra` counts a socket that is on its way from one place to the next.
pub record Sound (extra : ℕ → ℕ) (c : TcpConnector) : Type 0 where
  pub accounts :
      (fd : ℕ)
      → count fd c.made ≡ count fd c.closed + count fd c.handed + held fd c.channel + extra fd
  pub resetting : resets c.queue ≡ to_reset c.channel
  pub delay : Within c.retry_delay_ms
  pub delays : All Within c.timers

abbrev pub nothing : ℕ → ℕ
nothing fd = 0

abbrev pub one : ℕ → ℕ → ℕ
one sockfd fd = if sockfd == fd then 1 else 0

-- The poller watches the socket exactly while the connector connects.
abbrev pub Watches : TcpConnector → Type 0
Watches c = is_connecting c.state ≡ is_watched c.channel

abbrev pub Steady : TcpConnector → Type 0
Steady c = Sound nothing c × Watches c

pub resets-append :
    (fs : List Functor) (f : Functor) → resets (fs ++ f ∷ []) ≡ resets fs + resets (f ∷ [])
resets-append [] f = omega arith
resets-append (reset_task ∷ fs) f = omega (arith, resets-append fs f)
resets-append (start_task ∷ fs) f = resets-append fs f
resets-append (stop_task ∷ fs) f = resets-append fs f

pub new-Steady : Steady new_connector
unfolding new_connector
new-Steady = (
  record {
    accounts = λ fd. refl;
    resetting = refl;
    delay = (omega arith, omega arith);
    delays = tt;
  },
  refl,
)

pub close-Sound :
    (sockfd : ℕ) (c : TcpConnector) → Sound (one sockfd) c → Sound nothing (close sockfd c)
close-Sound sockfd c s = record {
  accounts = λ fd. omega (arith, s.accounts fd);
  resetting = s.resetting;
  delay = s.delay;
  delays = s.delays;
}

retry_when-Sound : (b : Bool) (c : TcpConnector) → Sound nothing c → Sound nothing (retry_when b c)
retry_when-Sound true c s = record {
  accounts = s.accounts;
  resetting = s.resetting;
  delay = ground (arith, s.delay.0, s.delay.1);
  delays = All-append Within c.timers (c.retry_delay_ms ∷ []) s.delays (s.delay, tt);
}
retry_when-Sound false c s = s

retry_when-Watches : (b : Bool) (c : TcpConnector) → Watches c → Watches (retry_when b c)
retry_when-Watches true c w = w
retry_when-Watches false c w = w

pub retry-Steady :
    (sockfd : ℕ) (c : TcpConnector)
    → Sound (one sockfd) c
    → is_watched c.channel ≡ false
    → Steady (retry sockfd c)
unfolding retry
retry-Steady sockfd c s idle =
    let c' = record (close sockfd c) { state = disconnected } in
    let s' : Sound nothing c' = record {
      accounts = λ fd. omega (arith, s.accounts fd);
      resetting = s.resetting;
      delay = s.delay;
      delays = s.delays;
    } in
    (retry_when-Sound c.connect_ c' s', retry_when-Watches c.connect_ c' (sym idle))

-- A functor that resets nothing is queued.
pub queued-Steady :
    (b : Bool) (f : Functor) (c : TcpConnector)
    → resets (f ∷ []) ≡ 0
    → Steady c
    → Steady (record c { connect_ = b; queue = c.queue ++ f ∷ [] })
queued-Steady b f c other (s, w) = (
  record {
    accounts = s.accounts;
    resetting = omega (arith, resets-append c.queue f, other, s.resetting);
    delay = s.delay;
    delays = s.delays;
  },
  w,
)

pub with_connect-Steady :
    (b : Bool) (c : TcpConnector) → Steady c → Steady (record c { connect_ = b })
with_connect-Steady b c (s, w) = (
  record { accounts = s.accounts; resetting = s.resetting; delay = s.delay; delays = s.delays },
  w,
)
