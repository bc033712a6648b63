-- ===== src/Tcp/Connector/Retries.antt =====
-- The delays of the connector in src/network/tcp/TcpConnector.cc while every attempt is refused.
use atc2025_poby.Base.{
  ℕ, suc, ◌+◌, ◌*◌, ◌^◌, ◌≡◌, refl, ap, ap₂, subst, ◌∙◌, true, Option, none, some, List, [], ◌∷◌,
  ◌++◌, arith, ◌>>=◌, min, All, length,
}
use atc2025_poby.Tcp.Connector.{
  disconnected, try_again, verdict, Attempt, TcpConnector, init_retry_delay_ms, max_retry_delay_ms,
  new_connector, retry, retry_when, attempted, connect, start_at, start_in_loop, start,
}

-- The first of the timers runs out, and its functor runs.
abbrev pub fire : List ℕ → Attempt → TcpConnector → Option TcpConnector
fire [] a c = none
fire (delay ∷ rest) a c = start_in_loop a (record c { timers = rest })

abbrev pub fires : List Attempt → TcpConnector → Option TcpConnector
fires [] c = some c
fires (a ∷ rest) c = fire c.timers a c >>= fires rest

abbrev pub Refused : Attempt → Type 0
Refused a = verdict a.result ≡ try_again

abbrev pub backoff : ℕ → ℕ
backoff n = min (init_retry_delay_ms * 2 ^ n) max_retry_delay_ms

pow_suc : (n : ℕ) → 2 ^ suc n ≡ 2 * 2 ^ n
pow_suc n = omega arith

backoff-suc : (n : ℕ) → min (backoff n * 2) max_retry_delay_ms ≡ backoff (suc n)
backoff-suc n = ground (arith, pow_suc n)

-- The last attempt was refused, after `n` before it.
record Waiting (n : ℕ) (c : TcpConnector) : Type 0 where
  on : c.connect_ ≡ true
  resting : c.state ≡ disconnected
  timer : c.timers ≡ backoff n ∷ []
  next : c.retry_delay_ms ≡ backoff (suc n)

start_in_loop-Waiting :
    (n : ℕ) (a : Attempt) (c : TcpConnector)
    → c.connect_ ≡ true
    → c.state ≡ disconnected
    → c.timers ≡ []
    → c.retry_delay_ms ≡ backoff n
    → Refused a
    → (c' : TcpConnector) × (start_in_loop a c ≡ some c') × Waiting n c'
unfolding start_in_loop connect retry
start_in_loop-Waiting n a c on rest empty delay refused =
    let tried = record c { made = a.sockfd ∷ c.made } in
    let closed = record tried { closed = a.sockfd ∷ c.closed; state = disconnected } in
    (
      retry_when true closed,
      ap₂ (λ st b. start_at st b a c) rest on
          ∙ ap (λ v. attempted v a.sockfd tried) refused
          ∙ ap (λ b. some (retry_when b closed)) on,
      record {
        on = on;
        resting = refl;
        timer = ap₂ (λ ts d. ts ++ d ∷ []) empty delay;
        next = ap (λ d. min (d * 2) max_retry_delay_ms) delay ∙ backoff-suc n;
      },
    )

fire-Waiting :
    (n : ℕ) (a : Attempt) (c : TcpConnector)
    → Waiting n c
    → Refused a
    → (c' : TcpConnector) × (fire c.timers a c ≡ some c') × Waiting (suc n) c'
fire-Waiting n a c w refused =
    let (c', e, w') =
      start_in_loop-Waiting (suc n) a (record c { timers = [] }) w.on w.resting refl w.next
        refused in
    (c', ap (λ ts. fire ts a c) w.timer ∙ e, w')

fires-Waiting :
    (attempts : List Attempt) (n : ℕ) (c : TcpConnector)
    → Waiting n c
    → All Refused attempts
    → (c' : TcpConnector) × (fires attempts c ≡ some c') × Waiting (length attempts + n) c'
fires-Waiting [] n c w all = (c, refl, subst (λ k. Waiting k c) (omega arith) w)
fires-Waiting (a ∷ rest) n c w (refused, all) =
    let (c', e, w') = fire-Waiting n a c w refused in
    let (c'', e', w'') = fires-Waiting rest (suc n) c' w' all in
    (c'', ap (λ o. o >>= fires rest) e ∙ e', subst (λ k. Waiting k c'') (omega arith) w'')

-- However many attempts are refused in a row, the connector does not fail: it waits for one timer, of half
-- a second doubled for each attempt after the first, and of thirty seconds at most.
pub fires-backoff :
    (a : Attempt) (attempts : List Attempt)
    → Refused a
    → All Refused attempts
    → (c : TcpConnector) × (start true a new_connector >>= fires attempts ≡ some c)
      × (c.timers ≡ backoff (length attempts) ∷ [])
      × (c.state ≡ disconnected)
unfolding start new_connector
fires-backoff a attempts refused all =
    let (c, e, w) =
      start_in_loop-Waiting 0 a (record new_connector { connect_ = true }) refl refl refl
        (omega arith) refused in
    let (c', e', w') = fires-Waiting attempts 0 c w all in
    (
      c',
      ap (λ o. o >>= fires attempts) e ∙ e',
      w'.timer ∙ ap (λ k. backoff k ∷ []) (omega arith),
      w'.resting,
    )
