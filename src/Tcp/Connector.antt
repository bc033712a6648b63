-- ===== src/Tcp/Connector.antt =====
-- src/network/tcp/TcpConnector.cc: a client's connector makes sockets until one is connected, which it
-- hands on. `none` is a failed assertion, or a null channel that is used.
pub mod Steps
pub mod Ledger
pub mod Retries
use atc2025_poby.Base.{
  ℕ, ◌+◌, ◌*◌, Bool, true, false, Option, none, some, List, [], ◌∷◌, ◌++◌, ◌==◌, if◌then◌else◌,
  ◌>>=◌, min,
}

pub data States : Type 0 where
  disconnected connecting connected : States

-- `channel_`: null, or of a socket, while the poller has it and after `remove`.
pub data Channel : Type 0 where
  no_channel : Channel
  watched removed : ℕ → Channel

-- What the connector puts in the queue of the loop.
pub data Functor : Type 0 where
  start_task stop_task reset_task : Functor

-- The result of `connect`, by its `errno`, or `success`.
pub data ConnectResult : Type 0 where
  success einprogress eintr eisconn : ConnectResult
  eagain eaddrinuse eaddrnotavail econnrefused enetunreach : ConnectResult
  eacces eperm eafnosupport ealready ebadf efault enotsock unexpected : ConnectResult

-- What the system answers when a socket is made and connected.
pub record Attempt : Type 0 where
  pub sockfd : ℕ
  pub result : ConnectResult

-- `queue` has the functors that the loop is to run, and `timers` the delays, in milliseconds, after which
-- it runs startInLoop. `made`, `closed` and `handed` are the sockets made, closed, and given to the
-- callback for a new connection, the last one first.
pub record TcpConnector : Type 0 where
  pub connect_ : Bool
  pub state : States
  pub channel : Channel
  pub retry_delay_ms : ℕ
  pub queue : List Functor
  pub timers : List ℕ
  pub made : List ℕ
  pub closed : List ℕ
  pub handed : List ℕ

abbrev pub init_retry_delay_ms : ℕ
init_retry_delay_ms = 500

abbrev pub max_retry_delay_ms : ℕ
max_retry_delay_ms = 30000

unfoldable pub new_connector : TcpConnector
new_connector = record {
  connect_ = false;
  state = disconnected;
  channel = no_channel;
  retry_delay_ms = init_retry_delay_ms;
  queue = [];
  timers = [];
  made = [];
  closed = [];
  handed = [];
}

abbrev pub close : ℕ → TcpConnector → TcpConnector
close sockfd c = record c { closed = sockfd ∷ c.closed }

abbrev pub retry_when : Bool → TcpConnector → TcpConnector
retry_when true c = record c {
  timers = c.timers ++ c.retry_delay_ms ∷ [];
  retry_delay_ms = min (c.retry_delay_ms * 2) max_retry_delay_ms;
}
retry_when false c = c

unfoldable pub retry : ℕ → TcpConnector → TcpConnector
retry sockfd c = retry_when c.connect_ (record (close sockfd c) { state = disconnected })

abbrev pub start_watching : Channel → ℕ → TcpConnector → Option TcpConnector
start_watching no_channel sockfd c =
    some (record c { state = connecting; channel = watched sockfd })
start_watching _ sockfd c = none

-- The groups of labels of the switch.
pub data Verdict : Type 0 where
  under_way try_again give_up : Verdict

abbrev pub verdict : ConnectResult → Verdict
verdict success = under_way
verdict einprogress = under_way
verdict eintr = under_way
verdict eisconn = under_way
verdict eagain = try_again
verdict eaddrinuse = try_again
verdict eaddrnotavail = try_again
verdict econnrefused = try_again
verdict enetunreach = try_again
verdict _ = give_up

abbrev pub attempted : Verdict → ℕ → TcpConnector → Option TcpConnector
attempted under_way sockfd c = start_watching c.channel sockfd c
attempted try_again sockfd c = some (retry sockfd c)
attempted give_up sockfd c = some (close sockfd c)

unfoldable pub connect : Attempt → TcpConnector → Option TcpConnector
connect a c = attempted (verdict a.result) a.sockfd (record c { made = a.sockfd ∷ c.made })

abbrev pub start_at : States → Bool → Attempt → TcpConnector → Option TcpConnector
start_at disconnected true a c = connect a c
start_at disconnected false a c = some c
start_at _ _ a c = none

unfoldable pub start_in_loop : Attempt → TcpConnector → Option TcpConnector
start_in_loop a c = start_at c.state c.connect_ a c

-- `runInLoop` runs the functor at once in the thread of the loop, and else queues it.
unfoldable pub start : Bool → Attempt → TcpConnector → Option TcpConnector
start true a c = start_in_loop a (record c { connect_ = true })
start false a c = some (record c { connect_ = true; queue = c.queue ++ start_task ∷ [] })

unfoldable pub stop : TcpConnector → TcpConnector
stop c = record c { connect_ = false; queue = c.queue ++ stop_task ∷ [] }

unfoldable pub restart : Attempt → TcpConnector → Option TcpConnector
restart a c =
    start_in_loop a
      (record c { state = disconnected; retry_delay_ms = init_retry_delay_ms; connect_ = true })

abbrev pub removed_at : Channel → TcpConnector → Option (ℕ × TcpConnector)
removed_at no_channel c = none
removed_at (watched fd) c =
    some (fd, record c { channel = removed fd; queue = c.queue ++ reset_task ∷ [] })
removed_at (removed fd) c =
    some (fd, record c { channel = removed fd; queue = c.queue ++ reset_task ∷ [] })

unfoldable pub remove_and_reset_channel : TcpConnector → Option (ℕ × TcpConnector)
remove_and_reset_channel c = removed_at c.channel c

unfoldable pub reset_channel : TcpConnector → TcpConnector
reset_channel c = record c { channel = no_channel }

abbrev pub stop_at : States → TcpConnector → Option TcpConnector
stop_at connecting c =
    remove_and_reset_channel (record c { state = disconnected }) >>= λ r. some (retry r.0 r.1)
stop_at _ c = some c

unfoldable pub stop_in_loop : TcpConnector → Option TcpConnector
stop_in_loop c = stop_at c.state c

abbrev pub hand_over : Bool → ℕ → TcpConnector → TcpConnector
hand_over true sockfd c = record c { handed = sockfd ∷ c.handed }
hand_over false sockfd c = close sockfd c

abbrev pub concluded : Bool → Bool → ℕ → TcpConnector → TcpConnector
concluded true self_connect sockfd c = retry sockfd c
concluded false true sockfd c = retry sockfd c
concluded false false sockfd c = hand_over c.connect_ sockfd (record c { state = connected })

abbrev pub writable_at : States → Bool → Bool → TcpConnector → Option TcpConnector
writable_at connecting failed self_connect c =
    remove_and_reset_channel c >>= λ r. some (concluded failed self_connect r.0 r.1)
writable_at disconnected failed self_connect c = some c
writable_at connected failed self_connect c = none

-- Whether `getSocketError` gives an error, and `isSelfConnect` holds.
unfoldable pub handle_write : Bool → Bool → TcpConnector → Option TcpConnector
handle_write failed self_connect c = writable_at c.state failed self_connect c

abbrev pub error_at : States → TcpConnector → Option TcpConnector
error_at connecting c = remove_and_reset_channel c >>= λ r. some (retry r.0 r.1)
error_at _ c = some c

unfoldable pub handle_error : TcpConnector → Option TcpConnector
handle_error c = error_at c.state c
