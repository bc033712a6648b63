-- ===== src/Rdma/Connector.antt =====
-- src/network/rdma/RdmaConnector.cc: the exchange over TCP that connects two queue pairs. `none` is a failed
-- assertion.
pub mod Halves
pub mod Receiving
pub mod Sides
pub mod Handshake
use atc2025_poby.Base.{
  ℕ, Bool, true, false, Option, none, some, List, [], ◌∷◌, ◌++◌, ltb, ◌==◌, if◌then◌else◌, ◌>>=◌,
  assert, length, take, drop,
}

-- `State`; the code never sets kRdmaRTR.
pub data ConnectorState : Type 0 where
  not_init init rts connected : ConnectorState

-- `local_info` is the RdmaExchangeInfo as it is sent, and `buffer` what the TCP connection has to read,
-- whose `connected()` is `tcp_open`. `remote` is the info that the queue pair is connected with, `made` tells
-- that the callback of new connections is called, and `told` the connected callback.
pub record RdmaConnector : Type 0 where
  pub state : ConnectorState
  pub local_info : List ℕ
  pub buffer : List ℕ
  pub tcp_open : Bool
  pub remote : Option (List ℕ)
  pub made : Bool
  pub told : Bool

unfoldable pub new_connector : RdmaConnector
new_connector = record {
  state = not_init;
  local_info = [];
  buffer = [];
  tcp_open = true;
  remote = none;
  made = false;
  told = false;
}

abbrev pub handshake_complete_msg : ℕ
handshake_complete_msg = 42

-- With the info of the RdmaConnection, where one can be created; and what is sent.
unfoldable pub initial_rdma_resource : Option (List ℕ) → RdmaConnector → RdmaConnector × List ℕ
initial_rdma_resource none c = (record c { tcp_open = false }, [])
initial_rdma_resource (some info) c = (record c { state = init; local_info = info }, info)

-- The second half of `handshakeQp`, in the state kRdmaRTS.
abbrev pub complete : RdmaConnector → List ℕ → Option RdmaConnector
complete c [] = some c
complete c (b ∷ rest) =
    assert (b == handshake_complete_msg)
      (some (record c { buffer = rest; state = connected; told = true; tcp_open = false }))

abbrev pub with_sent : List ℕ → RdmaConnector → Option (RdmaConnector × List ℕ)
with_sent sent c = some (c, sent)

-- The info is whole. `size` is that of the info, and `connects` tells whether `connectQp` succeeds.
abbrev pub handshake_long : ℕ → Bool → RdmaConnector → Option (RdmaConnector × List ℕ)
handshake_long size connects c =
    let rest = drop size c.buffer in
    if connects
    then (complete
          (record c { buffer = rest; remote = some (take size c.buffer); state = rts; made = true })
          rest
        >>= with_sent (handshake_complete_msg ∷ []))
    else some (record c { buffer = rest; tcp_open = false }, [])

abbrev pub handshake_at :
    ConnectorState → ℕ → Bool → RdmaConnector → Option (RdmaConnector × List ℕ)
handshake_at init size connects c =
    if ltb (length c.buffer) size then some (c, []) else handshake_long size connects c
handshake_at rts size connects c = complete c c.buffer >>= with_sent []
handshake_at not_init size connects c = some (c, [])
handshake_at connected size connects c = some (c, [])

unfoldable pub handshake_qp : ℕ → Bool → RdmaConnector → Option (RdmaConnector × List ℕ)
handshake_qp size connects c = handshake_at c.state size connects c

-- `RdmaServer::onTcpMessage` and `RdmaClient::onTcpMessage`, for bytes that arrive.
unfoldable pub on_tcp_message : ℕ → Bool → List ℕ → RdmaConnector → Option (RdmaConnector × List ℕ)
unfolding handshake_qp
on_tcp_message size connects bytes c =
    let read = record c { buffer = c.buffer ++ bytes } in
    if c.tcp_open then handshake_qp size connects read else some (read, [])
