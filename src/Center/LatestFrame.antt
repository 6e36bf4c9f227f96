-- ===== src/Center/LatestFrame.antt =====
-- The frame buffers of src/control_center_v1.cpp against a screen that shows, for each kind of
-- image, the latest complete frame before the last drawing.
use mac_kinect_native.Base.{
  ℕ, ◌+◌, ◌%◌, ◌^◌, ◌≡◌, ◌≢◌, refl, sym, Option, none, some, List, [], ◌∷◌, arith,
}
use mac_kinect_native.Base.Tests.{if◌then◌else◌}
use mac_kinect_native.Base.Lists.{tabulate}
use mac_kinect_native.Float32.{Float32}
use mac_kinect_native.Center.Formats.{VideoFormat}
use mac_kinect_native.Center.FalseColor.{false_colors}
use mac_kinect_native.Center.Buffers.{
  k_frame_pixels, store, Display, count_color, take_over, rgb_cb, depth_cb, must_wait,
  take_depth_frame, take_color_frame, wake_drawing, DisplayEvent, receive, step_display,
  run_display,
}
use mathlib.Core.Option.{bind, map}

-- A cell of a screen: the image shown, and the complete frame that waits to be shown.
pub record Cell (Image : Type 0) : Type 0 where
  pub shown : Image
  pub pending : Option Image

abbrev pub DepthImage : Type 0
DepthImage = List ℕ × List ℕ

pub record Screen : Type 0 where
  pub color : Cell (List ℕ)
  pub depth : Cell DepthImage
  pub color_count : ℕ
  pub depth_count : ℕ

abbrev pub deliver : {A : Type 0} → A → Cell A → Cell A
deliver image c = record c { pending = some image }

abbrev pub show_pending : {A : Type 0} → Option A → Cell A → Cell A
show_pending none c = c
show_pending (some image) c = record { shown = image; pending = none }

module _ (fl : Float32) where
  -- The screen knows no buffers: a partial frame and the choice of a buffer are nothing to it.
  unfoldable pub step_screen : DisplayEvent → Screen → Screen
  step_screen (DisplayEvent.receives bytes) s = s
  step_screen (DisplayEvent.completes_color format image) s = record s {
    color = deliver image s.color;
    color_count = (s.color_count + 1) % 2 ^ 64;
  }
  step_screen (DisplayEvent.completes_depth depth) s =
      let image = tabulate k_frame_pixels 0 depth in
      record s {
        depth = deliver (image, false_colors fl image) s.depth;
        depth_count = (s.depth_count + 1) % 2 ^ 64;
      }
  step_screen DisplayEvent.sets_video_buffer s = s
  step_screen DisplayEvent.draws s = record s {
    color = show_pending s.color.pending s.color;
    depth = show_pending s.depth.pending s.depth;
  }

  unfoldable pub run_screen : List DisplayEvent → Screen → Screen
  unfolding step_screen
  run_screen [] s = s
  run_screen (e ∷ es) s = run_screen es (step_screen e s)

-- What the buffers show, and what they hold ready.
unfoldable pub view : Display → Screen
view d = record {
  color = record {
    shown = d.color_heap d.rgb_front;
    pending = if d.got_rgb then some (d.color_heap d.rgb_mid) else none;
  };
  depth = record {
    shown = (d.mm_heap d.depth_mm_front, d.false_heap d.depth_rgb_front);
    pending =
        if d.got_depth then some (d.mm_heap d.depth_mm_mid, d.false_heap d.depth_rgb_mid) else none;
  };
  color_count = d.rgb_frames;
  depth_count = d.depth_frames;
}

-- The buffers of a kind are different, and libfreenect fills the back one.
pub record IsSeparate (d : Display) : Type 0 where
  pub back-mid : d.rgb_back ≢ d.rgb_mid
  pub back-front : d.rgb_back ≢ d.rgb_front
  pub mid-front : d.rgb_mid ≢ d.rgb_front
  pub mm_mid-front : d.depth_mm_mid ≢ d.depth_mm_front
  pub false_mid-front : d.depth_rgb_mid ≢ d.depth_rgb_front
  pub fills_back : d.video_buffer ≡ d.rgb_back

store-same : (p : ℕ) (image : List ℕ) (h : ℕ → List ℕ) → store p image h p ≡ image
store-same p image h = ground arith

store-other : (p q : ℕ) (image : List ℕ) (h : ℕ → List ℕ) → q ≢ p → store p image h q ≡ h q
store-other p q image h ne = ground arith

-- A step keeps the buffers apart, and does to the view what the screen does.
pub record Refines (fl : Float32) (e : DisplayEvent) (d d' : Display) : Type 0 where
  pub separate : IsSeparate d'
  pub same_view : view d' ≡ step_screen fl e (view d)

module _ (fl : Float32) where
  wake-Refines : (d : Display) → IsSeparate d → Refines fl DisplayEvent.draws d (wake_drawing d)
  unfolding wake_drawing must_wait take_depth_frame take_color_frame view step_screen
  wake-Refines d h = ground arith

  receive-Refines :
      (bytes : List ℕ) (d : Display)
      → IsSeparate d
      → Refines fl (DisplayEvent.receives bytes) d (receive bytes d)
  unfolding view step_screen
  receive-Refines bytes d h = ground arith

  depth_cb-Refines :
      (depth : ℕ → ℕ) (d : Display)
      → IsSeparate d
      → Refines fl (DisplayEvent.completes_depth depth) d (depth_cb fl depth d)
  unfolding view step_screen depth_cb
  depth_cb-Refines depth d h = ground arith

  buffer-Refines :
      (d : Display)
      → IsSeparate d
      → Refines fl DisplayEvent.sets_video_buffer d (record d { video_buffer = d.rgb_back })
  unfolding view step_screen
  buffer-Refines d h = ground arith

  abbrev pub RefinesOption : DisplayEvent → Display → Option Display → Type 0
  RefinesOption e d r = (d' : Display) × (r ≡ some d') × Refines fl e d d'

  -- The two branches of `rgb_cb`, after the frame is received.
  take_over-Refines :
      (format : VideoFormat) (image : List ℕ) (d : Display)
      → IsSeparate d
      → RefinesOption
          (DisplayEvent.completes_color format image)
          d
          (take_over d.video_buffer (receive image d))
  unfolding view step_screen take_over
  take_over-Refines format image d h = (
    count_color (record (receive image d) {
      rgb_back = d.rgb_mid;
      video_buffer = d.rgb_mid;
      rgb_mid = d.video_buffer;
    }),
    ground arith,
    ground arith,
  )

  copy-Refines :
      (format : VideoFormat) (image : List ℕ) (d : Display)
      → IsSeparate d
      → let r = receive image d in
        Refines fl (DisplayEvent.completes_color format image) d (
          count_color
            (record r { color_heap = store d.rgb_mid (r.color_heap d.video_buffer) r.color_heap }))
  unfolding view step_screen
  copy-Refines format image d h = ground arith

  rgb_cb-Refines :
      (format : VideoFormat) (image : List ℕ) (d : Display)
      → IsSeparate d
      → RefinesOption
          (DisplayEvent.completes_color format image)
          d
          (rgb_cb format d.video_buffer (receive image d))
  unfolding rgb_cb
  rgb_cb-Refines VideoFormat.rgb image d h = take_over-Refines VideoFormat.rgb image d h
  rgb_cb-Refines VideoFormat.yuv_rgb image d h = take_over-Refines VideoFormat.yuv_rgb image d h
  rgb_cb-Refines VideoFormat.ir_8bit image d h =
      (_, refl, copy-Refines VideoFormat.ir_8bit image d h)
  rgb_cb-Refines VideoFormat.other image d h = (_, refl, copy-Refines VideoFormat.other image d h)

  pub step-Refines :
      (e : DisplayEvent) (d : Display) → IsSeparate d → RefinesOption e d (step_display fl e d)
  unfolding step_display
  step-Refines (DisplayEvent.receives bytes) d h = (_, refl, receive-Refines bytes d h)
  step-Refines (DisplayEvent.completes_color format image) d h = rgb_cb-Refines format image d h
  step-Refines (DisplayEvent.completes_depth depth) d h = (_, refl, depth_cb-Refines depth d h)
  step-Refines DisplayEvent.sets_video_buffer d h = (_, refl, buffer-Refines d h)
  step-Refines DisplayEvent.draws d h = (_, refl, wake-Refines d h)

  -- From buffers that are apart, with libfreenect filling the back one, any sequence of partial and
  -- complete frames, drawings and changes of the video mode succeeds (the `assert` of `rgb_cb` never
  -- fails), and shows what the screen shows that keeps only the latest complete frame of each kind:
  -- no drawing shows a partial frame, an older frame than the latest, or a depth image beside the
  -- false colors of another.
  pub run_display-view :
      (events : List DisplayEvent) (d : Display)
      → IsSeparate d
      → map view (run_display fl events d) ≡ some (run_screen fl events (view d))
  unfolding run_display run_screen bind
  run_display-view [] d h = refl
  run_display-view (e ∷ es) d h =
      let (d', made, r) = step-Refines e d h in
      rw (made, sym r.same_view) (run_display-view es d' r.separate)
