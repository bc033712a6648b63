-- ===== src/Tests/Connecting.antt =====
-- TCP connectors at concrete inputs.
use atc2025_poby.Base.{ℕ, ◌+◌, ◌≡◌, refl, true, none, some, [], ◌∷◌, ◌>>=◌}
use atc2025_poby.Tcp.Connector.{
  disconnected, connecting, no_channel, watched, econnrefused, einprogress, Attempt, TcpConnector,
  new_connector, start, connect, retry, start_in_loop,
}
use atc2025_poby.Tcp.Connector.Steps.{starting, firing, Reach, new, then_step}
use atc2025_poby.Tcp.Connector.Ledger.{count, held, Within}
use atc2025_poby.Tcp.Connector.Ledger.Run.{sockets_accounted, delays_bounded}
use atc2025_poby.Tcp.Connector.Retries.{fires, backoff, fires-backoff}

abbrev refused : ℕ → Attempt
refused fd = record { sockfd = fd; result = econnrefused }

abbrev begun : ℕ → Attempt
begun fd = record { sockfd = fd; result = einprogress }

abbrev waiting : TcpConnector
waiting = record {
  connect_ = true;
  state = disconnected;
  channel = no_channel;
  retry_delay_ms = 1000;
  queue = [];
  timers = 500 ∷ [];
  made = 7 ∷ [];
  closed = 7 ∷ [];
  handed = [];
}

abbrev under_way : TcpConnector
under_way = record waiting {
  state = connecting;
  channel = watched 8;
  timers = [];
  made = 8 ∷ 7 ∷ [];
}

-- The first attempt is refused, and the second is under way.
Reach-under_way : Reach under_way
unfolding start start_in_loop connect retry new_connector
Reach-under_way =
    then_step waiting under_way
      (then_step new_connector waiting (new new_connector refl)
        (starting new_connector waiting true (refused 7) refl))
      (firing waiting under_way [] 500 [] (begun 8) refl refl)

sockets_accounted_example :
    count 8 under_way.made
    ≡ count 8 under_way.closed + count 8 under_way.handed + held 8 under_way.channel
sockets_accounted_example = sockets_accounted under_way Reach-under_way 8

delays_bounded_example : Within waiting.retry_delay_ms × (Within 500 × Unit {0})
unfolding start start_in_loop connect retry new_connector
delays_bounded_example = delays_bounded waiting (
    then_step new_connector waiting (new new_connector refl)
      (starting new_connector waiting true (refused 7) refl))

fires-backoff_example :
    (c : TcpConnector) × (start true (refused 7) new_connector
        >>= fires (refused 8 ∷ refused 9 ∷ [])
      ≡ some c)
    × (c.timers ≡ backoff 2 ∷ [])
    × (c.state ≡ disconnected)
fires-backoff_example =
    fires-backoff (refused 7) (refused 8 ∷ refused 9 ∷ []) refl (refl, (refl, tt))

-- The seventh delay is cut to thirty seconds.
backoff_cut : backoff 6 ≡ 30000
backoff_cut = refl

-- A second start while a retry waits: the timer then finds the connector connecting, and the assertion
-- fails.
started_twice : start true (begun 8) waiting >>= start_in_loop (begun 9) ≡ none
unfolding start start_in_loop connect retry
started_twice = refl
