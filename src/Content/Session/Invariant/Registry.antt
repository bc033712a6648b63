-- ===== src/Content/Session/Invariant/Registry.antt =====
-- What the registry holds, and the sizes for which the connection was set up.
use atc2025_poby.Base.{ℕ, ◌+◌, ◌^◌, ◌≤◌, ◌<◌, ◌≡◌, Bool, List, String, length}
use atc2025_poby.Wire.Codec.{Codec}
use atc2025_poby.Wire.RdmaFrame.RoundTrip.{Fits}
use atc2025_poby.Rdma.Connection.{Verbs}
use atc2025_poby.Content.Messages.{GetLayerRequest, GetLayerResponse}
use atc2025_poby.Content.Client.Sending.{Sendable}
use atc2025_poby.Content.Server.{FileSystem, get_int_from_file, total_segments_path}
use atc2025_poby.Content.Server.Answering.{Holds, response_to}

-- The registry's layers, by name and index; the size that a request can have, by the client's send buffers
-- and the registry's receive buffers, and an answer, by the other ones; the number of the client's send
-- buffers; the largest segment.
pub record Setting : Type 0 where
  pub segments : String → ℕ
  pub content : String → ℕ → List ℕ
  pub size : ℕ
  pub server_size : ℕ
  pub bufs : ℕ
  pub limit : ℕ

module _ (v : Verbs) (requests : Codec GetLayerRequest) (responses : Codec GetLayerResponse)
    (fs : FileSystem) (layer_is_compressed : Bool) (registry_path : String) (g : Setting) where
  abbrev pub request : String → String → ℕ → ℕ → GetLayerRequest
  request layer image index total = record {
    layer = layer;
    image_name_tag = image;
    index = index;
    total_segments = total;
  }

  -- The registry has the layer whole, and its messages fit the buffers.
  pub record Listed (layer image : String) : Type 0 where
    pub sendable :
        (index total : ℕ)
        → index < g.segments layer
        → total ≤ g.segments layer
        → Sendable v requests responses g.size (request layer image index total)
    pub counts : get_int_from_file fs (total_segments_path registry_path layer) ≡ g.segments layer
    pub some_segment : 0 < g.segments layer
    pub few_segments : g.segments layer < 2 ^ 31
    pub holds :
        (index total : ℕ)
        → index < g.segments layer
        → Holds v requests responses fs layer_is_compressed registry_path
            (request layer image index total)
            (g.content layer index)
    pub answerable :
        (index total : ℕ)
        → index < g.segments layer
        → (bytes : List ℕ) × Fits responses
            (response_to v requests responses fs layer_is_compressed registry_path
              (request layer image index total)
              (length (g.content layer index)))
            bytes
          × (4 + length bytes + length (g.content layer index) + 1 ≤ g.server_size)
          × (4 + length bytes + length (g.content layer index) < 2 ^ 32)
    pub small : (index : ℕ) → length (g.content layer index) ≤ g.limit

  -- The request is for a segment of a layer that the registry has.
  abbrev pub IsListed : GetLayerRequest → Type 0
  IsListed r =
      Listed r.layer r.image_name_tag
      × (r.index < g.segments r.layer)
      × (r.total_segments ≤ g.segments r.layer)
