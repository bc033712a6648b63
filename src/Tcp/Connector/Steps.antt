-- ===== src/Tcp/Connector/Steps.antt =====
-- The runs of the connector in src/network/tcp/TcpConnector.cc.
use atc2025_poby.Base.{ℕ, ◌≡◌, Bool, Option, some, List, ◌∷◌, ◌++◌}
use atc2025_poby.Tcp.Connector.{
  connected, watched, Functor, start_task, stop_task, reset_task, Attempt, TcpConnector,
  new_connector, start_in_loop, start, stop, restart, reset_channel, stop_in_loop, handle_write,
  handle_error,
}

-- The loop runs the functor at the front of its queue.
unfoldable pub run_functor : Functor → Attempt → TcpConnector → Option TcpConnector
unfolding start_in_loop stop_in_loop reset_channel
run_functor start_task a c = start_in_loop a c
run_functor stop_task a c = stop_in_loop c
run_functor reset_task a c = some (reset_channel c)

-- What the user, the loop, or the poller does next. A restart follows the end of a connection.
pub data Step : TcpConnector → TcpConnector → Type 0 where
  starting :
      (c c' : TcpConnector) (in_loop : Bool) (a : Attempt) → start in_loop a c ≡ some c' → Step c c'
  stopping : (c c' : TcpConnector) → stop c ≡ c' → Step c c'
  restarting :
      (c c' : TcpConnector) (a : Attempt) → c.state ≡ connected → restart a c ≡ some c' → Step c c'
  running :
      (c c' : TcpConnector) (f : Functor) (rest : List Functor) (a : Attempt)
      → c.queue ≡ f ∷ rest
      → run_functor f a (record c { queue = rest }) ≡ some c'
      → Step c c'
  firing :
      (c c' : TcpConnector) (before : List ℕ) (delay : ℕ) (after : List ℕ) (a : Attempt)
      → c.timers ≡ before ++ delay ∷ after
      → start_in_loop a (record c { timers = before ++ after }) ≡ some c'
      → Step c c'
  writing :
      (c c' : TcpConnector) (fd : ℕ) (failed self_connect : Bool)
      → c.channel ≡ watched fd
      → handle_write failed self_connect c ≡ some c'
      → Step c c'
  failing :
      (c c' : TcpConnector) (fd : ℕ) → c.channel ≡ watched fd → handle_error c ≡ some c' → Step c c'

pub data Reach : TcpConnector → Type 0 where
  new : (c : TcpConnector) → c ≡ new_connector → Reach c
  then_step : (c c' : TcpConnector) → Reach c → Step c c' → Reach c'
