-- ===== src/Dpu/Decompress/State.antt =====
-- The messages and the state of src/dpu/decompress_client_epoll.h and .cc. What DOCA answers is a parameter.
use atc2025_poby.Base.{ℕ, Bool, false, Option, none, List, [], String, take}
use atc2025_poby.Rdma.Connection.{RdmaConnection}
use atc2025_poby.BlobPool.{Blob, BlobPool}
use atc2025_poby.Content.Messages.{ContentElement}
use atc2025_poby.Doca.CompressEngine.{CompressEngine}

pub record DecompressFinishRequest : Type 0 where
  pub layer_name : String
  pub image_name_tag : String
  pub segment_size : ℕ
  pub segment_idx : ℕ
  pub total_segments : ℕ
  pub bufpair_id : ℕ
  pub data_inline : Bool

pub record DecompressFinishResponse : Type 0 where
  pub success : Bool
  pub layer_name : String
  pub segment_idx : ℕ
  pub data_inline : Bool
  pub bufpair_id : ℕ

pub record MmapInfoRequest : Type 0 where
  pub mmap_num : ℕ

pub record MmapInfoElement : Type 0 where
  pub addr : ℕ
  pub len : ℕ
  pub export_desc : List ℕ

pub record MmapInfoResponse : Type 0 where
  pub mmaps : List MmapInfoElement

-- `MsgType`, as it is written.
abbrev pub mmap_info : ℕ
mmap_info = 0

abbrev pub decompress_finish : ℕ
decompress_finish = 1

pub record JobInfo : Type 0 where
  pub image_name_tag : String
  pub layer : String
  pub bufpair_id : ℕ
  pub total_segments : ℕ
  pub segment_idx : ℕ

pub record RdmaInfo : Type 0 where
  pub image_name_tag : String
  pub layer : String
  pub total_segments : ℕ
  pub segment_idx : ℕ
  pub dst_len : ℕ
  pub mmap_id : ℕ
  pub data_inline : Bool
  pub segment : Blob

pub record DecompressClient : Type 0 where
  pub compress_engine : CompressEngine
  pub blob_pool : BlobPool
  pub pending_compress_jobs : List ContentElement
  pub pending_rdma_jobs : List RdmaInfo
  pub inflight_sends : List ℕ
  pub decompress_busy : Bool
  pub dma_busy : Bool
  pub connected : Bool
  pub conn : Option RdmaConnection
  pub wr_id : ℕ
  pub job_id : ℕ
  pub compress_job : JobInfo

-- The constructor.
abbrev pub new_client : CompressEngine → BlobPool → DecompressClient
new_client engine pool = record {
  compress_engine = engine;
  blob_pool = pool;
  pending_compress_jobs = [];
  pending_rdma_jobs = [];
  inflight_sends = [];
  decompress_busy = false;
  dma_busy = false;
  connected = false;
  conn = none;
  wr_id = 0;
  job_id = 0;
  compress_job = record {
    image_name_tag = "";
    layer = "";
    bufpair_id = 0;
    total_segments = 0;
    segment_idx = 0;
  };
}

-- The bytes that a blob is filled with.
abbrev pub data_of : Blob → List ℕ
data_of b = take b.size b.bytes

-- What DOCA answers: to `set_data_by_offset`, and to the mappings of the source and of the exported
-- destination buffers. `moved_from` is what a string is after it was moved from.
pub record Doca : Type 0 where
  pub data_set : List ℕ → Bool
  pub src_started : Bool
  pub dst_created : List MmapInfoElement → Bool
  pub moved_from : String → String
