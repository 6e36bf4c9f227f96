-- ===== src/Backend.antt =====
-- src/backends/backend.h: the types that the backends and their clients share.
use Prim.Native.String.{String}
use mac_kinect_native.Base.{ℕ, List, [], Bool}

pub data KinectGeneration : Type 0 where
  v1 v2 : KinectGeneration

unfoldable pub kinect_generation_label : KinectGeneration → String
kinect_generation_label v1 = "Kinect v1"
kinect_generation_label v2 = "Kinect v2"

pub record ProbeResult : Type 0 where
  pub available : Bool
  pub detail : String

pub record PreviewResult : Type 0 where
  pub success : Bool
  pub detail : String
  pub color_frames : ℕ
  pub depth_frames : ℕ

pub record DeviceInfo : Type 0 where
  pub generation : KinectGeneration
  pub serial : String
  pub name : String

pub data StreamKind : Type 0 where
  rgb ir depth : StreamKind

pub record FrameData : Type 0 where
  pub rgb : List ℕ
  pub depth : List ℕ
  pub ir : List ℕ
  pub width : ℕ
  pub height : ℕ
  pub timestamp : ℕ

abbrev pub empty_frame : FrameData
empty_frame = record { rgb = []; depth = []; ir = []; width = 0; height = 0; timestamp = 0 }

abbrev pub same_stream : StreamKind → StreamKind → Bool
same_stream rgb rgb = Bool.true
same_stream ir ir = Bool.true
same_stream depth depth = Bool.true
same_stream _ _ = Bool.false
