-- ===== src/Content/Messages.antt =====
-- pb/content.proto and src/dpu/metadata.h. An `int32` is its 32-bit pattern.
use atc2025_poby.Base.{ℕ, String, Bool}
use atc2025_poby.BlobPool.{Blob}

pub record GetLayerRequest : Type 0 where
  pub layer : String
  pub image_name_tag : String
  pub index : ℕ
  pub total_segments : ℕ

pub record GetLayerResponse : Type 0 where
  pub layer : String
  pub image_name_tag : String
  pub index : ℕ
  pub total_segments : ℕ
  pub segment_size : ℕ
  pub is_compressed : Bool

pub record ContentElement : Type 0 where
  pub segment : Blob
  pub segment_idx : ℕ
  pub total_segments : ℕ
  pub layer : String
  pub image_name_tag : String
  pub is_compressed : Bool
