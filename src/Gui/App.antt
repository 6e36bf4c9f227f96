-- ===== src/Gui/App.antt =====
-- `RunGuiApp` and `Idle` of src/gui/app.cpp over the two backends. `none` is undefined: a read outside
-- of a frame's data, or an `int` that overflows.
use mac_kinect_native.Base.{
  ℕ, zero, suc, ◌+◌, ◌*◌, ◌/◌, ◌%◌, ◌^◌, not, Option, none, some, List, [], ◌∷◌, ◌++◌,
}
use mac_kinect_native.Base.Tests.{ltb, ◌==◌, if◌then◌else◌}
use mac_kinect_native.Base.Lists.{length, take, drop, is_empty}
use mac_kinect_native.Base.Int.{as_int}
use mac_kinect_native.Backend.{FrameData, DeviceInfo}
use mac_kinect_native.FrameSource.Api.{KinectApi}
use mac_kinect_native.FrameSource.Source.{Held, hold_v1, hold_first}
use mathlib.Core.Option.{map, bind}

-- A texture after `glTexImage2D`: three bytes for each pixel.
pub record Texture : Type 0 where
  pub width : ℕ
  pub height : ℕ
  pub bytes : List ℕ

-- The fields of `AppState` that are drawn, and how often the window was asked to draw again.
pub record Textures : Type 0 where
  pub rgb_tex : Option Texture
  pub depth_tex : Option Texture
  pub depth_buffer_visual : List ℕ
  pub redisplays : ℕ

abbrev pub no_textures : Textures
no_textures = record { rgb_tex = none; depth_tex = none; depth_buffer_visual = []; redisplays = 0 }

-- The bytes from a row to the next: OpenGL takes each row to begin at a multiple of 4, since
-- `GL_UNPACK_ALIGNMENT` keeps its initial value.
unfoldable pub row_stride : ℕ → ℕ
row_stride width = (width * 3 + 3) / 4 * 4

-- How many bytes `glTexImage2D` reads for this width and height.
unfoldable pub bytes_read : ℕ → ℕ → ℕ
unfolding row_stride
bytes_read width zero = 0
bytes_read width (suc rows) = if width == 0 then 0 else rows * row_stride width + width * 3

-- The rows that it reads.
unfoldable pub unpack_rows : ℕ → ℕ → ℕ → List ℕ → List ℕ
unpack_rows zero stride size pixels = []
unpack_rows (suc rows) stride size pixels =
    take size pixels ++ unpack_rows rows stride size (drop stride pixels)

-- `UpdateTexture`.
unfoldable pub update_texture : ℕ → ℕ → List ℕ → Option Texture
unfolding bytes_read unpack_rows row_stride
update_texture width height pixels =
    if ltb (length pixels) (bytes_read width height)
    then none
    else some (record {
      width = width;
      height = height;
      bytes = unpack_rows height (row_stride width) (width * 3) pixels;
    })

-- The loop over the pixels that are left: each depth as three bytes.
unfoldable pub shades : ℕ → List ℕ → Option (List ℕ)
shades zero depth = some []
shades (suc n) [] = none
shades (suc n) (d ∷ depth) =
    let val = d / 16 % 2 ^ 8 in map (λ rest. val ∷ val ∷ val ∷ rest) (shades n depth)

unfoldable pub show_rgb : FrameData → Textures → Option Textures
unfolding update_texture
show_rgb f t =
    if is_empty f.rgb
    then some t
    else map (λ tex. record t { rgb_tex = some tex }) (update_texture f.width f.height f.rgb)

-- The buffer has three bytes for each pixel, so the loop sets all of it. The count of the pixels is
-- a product of `int`.
unfoldable pub show_depth : FrameData → Textures → Option Textures
unfolding update_texture shades as_int
show_depth f t =
    if is_empty f.depth
    then some t
    else bind (as_int (f.width * f.height)) (λ pixel_count.
      bind (shades pixel_count f.depth) (λ visual.
        map (λ tex. record t { depth_tex = some tex; depth_buffer_visual = visual })
          (update_texture f.width f.height visual)))

unfoldable pub show_frame : Option FrameData → Textures → Option Textures
unfolding show_rgb show_depth
show_frame none t = some t
show_frame (some f) t =
    map {A = Textures} (λ t2. record t2 { redisplays = t2.redisplays + 1 })
      (bind (show_rgb f t) (λ t1. show_depth f t1))

module _ (k : KinectApi) where
  -- `Idle` with a device.
  unfoldable pub idle_device : k.Device → Textures → Option (k.Device × Textures)
  unfolding show_frame
  idle_device d t =
      let (d1, frame) = k.get_frame d in map (λ t1. ((k.update d1).0, t1)) (show_frame frame t)

  unfoldable pub start_device : k.Backend → Option k.Device → Option (k.Backend × k.Device)
  start_device b none = none
  start_device b (some d) = some (b, (k.start d).0)

  unfoldable pub open_front : k.Backend → List DeviceInfo → Option (k.Backend × k.Device)
  unfolding start_device
  open_front b [] = none
  open_front b (front ∷ devices) =
      let (b1, device) = k.open_device front.serial b in start_device b1 device

  -- The first device of an available backend, started; the answer of `start` is not read.
  unfoldable pub open_first : k.Backend → Option (k.Backend × k.Device)
  unfolding open_front
  open_first b = let (b1, devices) = k.list_devices b in open_front b1 devices

module _ (k1 k2 : KinectApi) where
  -- The device is kept with its backend.
  pub record App : Type 0 where
    pub held : Held k1 k2
    pub textures : Textures

  unfoldable pub open_app : Held k1 k2
  unfolding open_first
  open_app =
      let (b2, probe2) = k2.probe k2.create in
      let (b1, probe1) = k1.probe k1.create in
      if probe2.available
      then hold_first k1 k2 (open_first k2 b2) none
      else if not probe1.available
      then Held.no_device
      else hold_v1 k1 k2 (open_first k1 b1)

  -- `RunGuiApp` until the loop of GLUT.
  unfoldable pub run_gui_app : App
  unfolding open_app
  run_gui_app = record { held = open_app; textures = no_textures }

  -- `Idle`, by what is held.
  abbrev pub idle_held : App → Held k1 k2 → Option App
  idle_held a Held.no_device = some a
  idle_held a (Held.holds_v1 b d) =
      map (λ r. record { held = Held.holds_v1 b r.0; textures = r.1 }) (idle_device k1 d a.textures)
  idle_held a (Held.holds_v2 b d) =
      map (λ r. record { held = Held.holds_v2 b r.0; textures = r.1 }) (idle_device k2 d a.textures)

  unfoldable pub idle : App → Option App
  idle a = idle_held a a.held

  -- So many calls of `Idle` by GLUT.
  unfoldable pub idles : ℕ → App → Option App
  unfolding idle
  idles zero a = some a
  idles (suc n) a = bind (idle a) (λ a1. idles n a1)
