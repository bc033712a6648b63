-- ===== src/Host/Command.antt =====
-- src/host/client/command_server.cc, and `CommandClient` of client_cli.cc: a request to create a
-- container, over TCP.
pub mod Delivery
use atc2025_poby.Base.{
  ℕ, Bool, true, false, ◌&&◌, Option, none, some, List, [], ◌∷◌, ◌++◌, String, ◌>>=◌,
}
use atc2025_poby.Wire.Codec.{Codec}
use atc2025_poby.Tcp.Buffer.{Buffer, read_fd}
use atc2025_poby.Wire.TcpFrame.{receive_tcp_pb_msg, send_tcp_pb_msg}

pub record CreateContainerRequest : Type 0 where
  pub image_name_tag : String

pub record CreateContainerResponse : Type 0 where
  pub success : Bool
  pub duration : ℕ
  pub path : String

-- `conn` names the TCP connection that the request came over.
pub record OffloadElement : Type 0 where
  pub image_name_tag : String
  pub conn : ℕ

-- `offloaded` holds what was handed to `OffloadClientEpoll::offload`, in order.
unfoldable pub pull_image : List OffloadElement → String → ℕ → List OffloadElement
pull_image offloaded image_name_tag conn =
    offloaded ++ record { image_name_tag = image_name_tag; conn = conn } ∷ []

module _ (requests : Codec CreateContainerRequest) where
  abbrev received :
      ℕ
      → List OffloadElement
      → (Bool × CreateContainerRequest) × Buffer
      → List OffloadElement × Buffer
  received conn offloaded ((false, request), b) = (offloaded, b)
  received conn offloaded ((true, request), b) =
      (pull_image offloaded request.image_name_tag conn, b)

  unfoldable pub on_message :
      ℕ → Buffer → List OffloadElement → Option (List OffloadElement × Buffer)
  unfolding pull_image receive_tcp_pb_msg
  on_message conn b offloaded =
      receive_tcp_pb_msg requests b requests.blank >>= λ r. some (received conn offloaded r)

  -- `handleRead` of the connection, with this message callback, for every chunk that arrives.
  unfoldable pub read_chunks :
      ℕ → List (List ℕ) → Buffer → List OffloadElement → Option (List OffloadElement × Buffer)
  unfolding read_fd on_message
  read_chunks conn [] b offloaded = some (offloaded, b)
  read_chunks conn (chunk ∷ chunks) b offloaded = read_fd b (some chunk) >>= λ filled.
      on_message conn filled offloaded >>= λ done. read_chunks conn chunks done.1 done.0

-- The client, when its connection is up.
unfoldable pub on_connection :
    Codec CreateContainerRequest → Bool → CreateContainerRequest → List (List ℕ)
unfolding send_tcp_pb_msg
on_connection requests true request = send_tcp_pb_msg requests request
on_connection requests false request = []

-- Whether the client is done: it shuts the connection and quits its loop.
unfoldable pub on_response : Codec CreateContainerResponse → Buffer → Option (Bool × Buffer)
unfolding receive_tcp_pb_msg
on_response responses b = do
  r ← receive_tcp_pb_msg responses b responses.blank
  some (r.0.0 && r.0.1.success, r.1)
