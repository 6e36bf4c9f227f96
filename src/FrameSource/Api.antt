-- ===== src/FrameSource/Api.antt =====
-- The interfaces `KinectBackend` and `KinectDevice` of src/backends/backend.h, as far as
-- `KinectFrameSource` of src/dal_plugin/KinectCameraDALPlugin.cpp calls them, and the law on frames
-- that it relies on.
use Prim.Native.String.{String}
use mac_kinect_native.Base.{ℕ, ◌*◌, ◌≡◌, ◌⊎◌, Bool, Option, none, some, List}
use mac_kinect_native.Base.Lists.{length}
use mac_kinect_native.Backend.{StreamKind, FrameData, DeviceInfo, ProbeResult}

pub record KinectApi : Type 1 where
  pub Backend : Type 0
  pub Device : Type 0
  -- `CreateKinectV1Backend` or `CreateKinectV2Backend`: never null.
  pub create : Backend
  pub probe : Backend → Backend × ProbeResult
  pub list_devices : Backend → Backend × List DeviceInfo
  -- `none` is null.
  pub open_device : String → Backend → Backend × Option Device
  pub set_stream_kind : StreamKind → Device → Device
  pub start : Device → Device × Bool
  pub stop : Device → Device × Bool
  pub update : Device → Device × Bool
  pub get_frame : Device → Device × Option FrameData
  -- The destructor.
  pub destroy : Device → Device

-- A color image has three bytes for each pixel of the frame's size.
abbrev pub IsRgbSized : Option FrameData → Type 0
IsRgbSized none = Unit
IsRgbSized (some f) = (length f.rgb ≡ 0) ⊎ (length f.rgb ≡ f.width * f.height * 3)

-- A depth image has one sample for each pixel of the frame's size.
abbrev pub IsDepthSized : Option FrameData → Type 0
IsDepthSized none = Unit
IsDepthSized (some f) = (length f.depth ≡ 0) ⊎ (length f.depth ≡ f.width * f.height)

abbrev pub HoldsIf : {A : Type 0} → (A → Type 0) → Option A → Type 0
HoldsIf P none = Unit
HoldsIf P (some a) = P a

-- What holds of every device that was opened, and makes its frames sized, each with a width and a
-- height of which Q holds.
pub record IsSizedApi (Q : ℕ → ℕ → Type 0) (k : KinectApi) : Type 1 where
  pub Good : k.Device → Type 0
  pub opened : (serial : String) (b : k.Backend) → HoldsIf Good (k.open_device serial b).1
  pub kind_set : (kind : StreamKind) (d : k.Device) → Good d → Good (k.set_stream_kind kind d)
  pub started : (d : k.Device) → Good d → Good (k.start d).0
  pub updated : (d : k.Device) → Good d → Good (k.update d).0
  pub taken : (d : k.Device) → Good d → Good (k.get_frame d).0
  pub rgb_sized : (d : k.Device) → Good d → IsRgbSized (k.get_frame d).1
  pub depth_sized : (d : k.Device) → Good d → IsDepthSized (k.get_frame d).1
  pub size_holds :
      (d : k.Device) → Good d → HoldsIf (λ (f : FrameData). Q f.width f.height) (k.get_frame d).1
