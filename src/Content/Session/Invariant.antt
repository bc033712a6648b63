-- ===== src/Content/Session/Invariant.antt =====
-- What holds throughout a session.
pub mod Registry
pub mod Settle
pub mod Fetch
pub mod Answer
use atc2025_poby.Base.{
  ℕ, ◌+◌, ◌≤◌, ◌<◌, ◌≡◌, ◌⊎◌, Bool, some, List, [], ◌∷◌, ◌++◌, String, length, All,
}
use atc2025_poby.Wire.Codec.{Codec}
use atc2025_poby.Rdma.Connection.{RdmaConnection, SendWr, Verbs, bufpair_at}
use atc2025_poby.BlobPool.Supply.{Suffices}
use atc2025_poby.Content.Messages.{GetLayerRequest, GetLayerResponse, ContentElement}
use atc2025_poby.Content.Client.Sending.{Carry, HasRoom}
use atc2025_poby.Content.Order.{Key, asked, got}
use atc2025_poby.Content.Order.Whole.{InOrder}
use atc2025_poby.Content.Server.{FileSystem}
use atc2025_poby.Content.Session.{Session, known}
use Registry.{Setting, IsListed}

module _ (v : Verbs) (requests : Codec GetLayerRequest) (responses : Codec GetLayerResponse)
    (fs : FileSystem) (layer_is_compressed : Bool) (registry_path : String) (g : Setting) where
  -- `conn` is the client's connection, and `flight` are the requests in flight, oldest first.
  pub record Steady (s : Session) (conn : RdmaConnection) (flight : List GetLayerRequest)
      : Type 0 where
    pub connected : s.client.conn ≡ some conn
    pub carried : Carry v requests responses conn.sq flight
    pub counted : length s.client.inflight_sends ≡ length flight
    pub room : HasRoom v requests responses g.size conn
    pub room_back : All (λ id. g.size ≤ (bufpair_at conn id).send_cap) s.client.inflight_sends
    pub bufs : length conn.free_bufpairs + length s.client.inflight_sends ≡ g.bufs
    pub listed :
        All
          (IsListed v requests responses fs layer_is_compressed registry_path g)
          (flight ++ s.client.unsend_reqs)
    pub ordered :
        (k : Key)
        → InOrder
            (known k s.fetched)
            (g.segments k.layer)
            (got k s.client.submitted)
            (asked k (flight ++ s.client.unsend_reqs))
    pub genuine : All (λ e. e.segment.bytes ≡ g.content e.layer e.segment_idx) s.client.submitted
    pub blobs : Suffices g.limit s.pool
    pub server_room :
        All (λ id. g.server_size ≤ (bufpair_at s.server id).send_cap) s.server.free_bufpairs
    pub server_idle : s.server.sq ≡ []
    pub server_free : 0 < length s.server.free_bufpairs

  -- Between steps, moreover, requests wait only where no buffer is free.
  pub record Inv (s : Session) (conn : RdmaConnection) (flight : List GetLayerRequest)
      : Type 0 where
    pub steady : Steady s conn flight
    pub settled : (s.client.unsend_reqs ≡ []) ⊎ (conn.free_bufpairs ≡ [])
