-- ===== src/Content/Session.antt =====
-- The registry and one `ContentClient`, joined by a reliable connection that keeps the order of
-- messages. An answer leaves the registry before its next request is handled, with what the memory has then,
-- and a message is received where it fits the receive buffers; `ContentFetcher::fetch` adds requests at any time, for each layer
-- of an image once. `catalog` tells the layers that are ever fetched.
pub mod Invariant
pub mod Delivery
pub mod Start
use atc2025_poby.Base.{
  ◌≤◌, ℕ, ◌≡◌, Bool, true, false, ◌||◌, some, List, [], ◌∷◌, ◌++◌, String, length,
}
use atc2025_poby.Memory.{Memory, load}
use atc2025_poby.Wire.Codec.{Codec}
use atc2025_poby.Rdma.Connection.{RdmaConnection, SendWr, Verbs}
use atc2025_poby.BlobPool.{BlobPool}
use atc2025_poby.Content.Messages.{GetLayerRequest, GetLayerResponse}
use atc2025_poby.Content.Client.{ContentClient, enqueue_request, try_send_requests}
use atc2025_poby.Content.Client
use atc2025_poby.Content.Order.{Key, names}
use atc2025_poby.Content.Server.{FileSystem}
use atc2025_poby.Content.Server

pub record Session : Type 0 where
  pub client : ContentClient
  pub pool : BlobPool
  pub server : RdmaConnection
  pub fetched : List Key

-- `k` is among the layers fetched so far.
abbrev pub known : Key → List Key → Bool
known k [] = false
known k (f ∷ fs) = names k f.layer f.image || known k fs

-- The request that `ContentFetcher::fetch` makes.
abbrev pub first_request : String → String → GetLayerRequest
first_request layer image = record {
  layer = layer;
  image_name_tag = image;
  index = 0;
  total_segments = 0;
}

-- What a posted send takes from the memory.
abbrev pub bytes_of : RdmaConnection → SendWr → List ℕ
bytes_of conn wr = load conn.mem wr.addr wr.len

module _ (v : Verbs) (requests : Codec GetLayerRequest) (responses : Codec GetLayerResponse)
    (fs : FileSystem) (layer_is_compressed : Bool) (registry_path : String)
    (request_room answer_room : ℕ) (catalog : String → String → Bool) where
  pub data Step : Session → Session → Type 0 where
    fetch :
        (s : Session) (layer image : String) (c : ContentClient)
        → catalog layer image ≡ true
        → known (record { layer = layer; image = image }) s.fetched ≡ false
        → try_send_requests v requests responses
            (enqueue_request s.client (first_request layer image))
          ≡ some c
        → Step s
            (record s { client = c; fetched = record { layer = layer; image = image } ∷ s.fetched })
    answer :
        (s : Session) (conn served : RdmaConnection) (wr reply : SendWr) (rest : List SendWr)
        (server_mem client_mem : Memory) (server_buf client_buf : ℕ) (c : ContentClient)
        (p : BlobPool)
        → s.client.conn ≡ some conn
        → conn.sq ≡ wr ∷ rest
        → length wr.payload ≤ request_room
        → load server_mem server_buf (length wr.payload) ≡ wr.payload
        → Server.on_recv_success v requests responses fs layer_is_compressed registry_path
            (record s.server { mem = server_mem })
            server_buf
            (length wr.payload)
          ≡ some served
        → served.sq ≡ s.server.sq ++ reply ∷ []
        → length (bytes_of served reply) ≤ answer_room
        → load client_mem client_buf (length (bytes_of served reply)) ≡ bytes_of served reply
        → Client.on_recv_success v requests responses
            (record s.client { conn = some (record conn { mem = client_mem; sq = rest }) })
            s.pool
            (record conn { mem = client_mem; sq = rest })
            client_buf
            (length (bytes_of served reply))
          ≡ some (c, p)
        → Step s (record {
          client = c;
          pool = p;
          server = record served { sq = s.server.sq };
          fetched = s.fetched;
        })

  pub data Reach (s : Session) : Session → Type 0 where
    here : Reach s s
    next : {t u : Session} → Reach s t → Step t u → Reach s u
