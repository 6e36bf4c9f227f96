-- ===== src/Center/Buffers.antt =====
-- The frame buffers of src/control_center_v1.cpp: the callbacks of libfreenect that fill them, and the
-- swaps of `DrawGLScene`. A buffer is a pointer into the heap of its kind of image; every access is
-- under `g_frame_mutex`, so the threads' steps are whole.
use mac_kinect_native.Base.{
  ℕ, ◌+◌, ◌*◌, ◌%◌, ◌^◌, Bool, true, false, not, ◌&&◌, Option, none, some, List, [], ◌∷◌,
}
use mac_kinect_native.Base.Tests.{◌==◌, if◌then◌else◌}
use mac_kinect_native.Base.Lists.{tabulate, replicate}
use mac_kinect_native.Float32.{Float32}
use mac_kinect_native.Center.Formats.{VideoFormat}
use mac_kinect_native.Center.FalseColor.{false_colors}
use mathlib.Core.Option.{bind}

abbrev pub k_frame_width : ℕ
k_frame_width = 640

abbrev pub k_frame_height : ℕ
k_frame_height = 480

abbrev pub k_frame_pixels : ℕ
k_frame_pixels = k_frame_width * k_frame_height

abbrev pub k_frame_rgb_bytes : ℕ
k_frame_rgb_bytes = k_frame_pixels * 3

abbrev pub Heap : Type 0
Heap = ℕ → List ℕ

-- A write of the whole buffer at a pointer.
abbrev pub store : ℕ → List ℕ → Heap → Heap
store p image heap q = if q == p then image else heap q

pub record Display : Type 0 where
  pub rgb_back : ℕ
  pub rgb_mid : ℕ
  pub rgb_front : ℕ
  pub depth_mm_mid : ℕ
  pub depth_mm_front : ℕ
  pub depth_rgb_mid : ℕ
  pub depth_rgb_front : ℕ
  pub got_rgb : Bool
  pub got_depth : Bool
  pub rgb_frames : ℕ
  pub depth_frames : ℕ
  -- The buffer that libfreenect fills: the last that `freenect_set_video_buffer` gave it.
  pub video_buffer : ℕ
  pub color_heap : Heap
  pub mm_heap : Heap
  pub false_heap : Heap

-- The buffers that `main` allocates and clears, and the first `freenect_set_video_buffer`.
unfoldable pub allocated : ℕ → ℕ → ℕ → ℕ → ℕ → ℕ → ℕ → Display
allocated depth_mm_mid depth_mm_front depth_rgb_mid depth_rgb_front rgb_back rgb_mid rgb_front =
    record {
      rgb_back = rgb_back;
      rgb_mid = rgb_mid;
      rgb_front = rgb_front;
      depth_mm_mid = depth_mm_mid;
      depth_mm_front = depth_mm_front;
      depth_rgb_mid = depth_rgb_mid;
      depth_rgb_front = depth_rgb_front;
      got_rgb = false;
      got_depth = false;
      rgb_frames = 0;
      depth_frames = 0;
      video_buffer = rgb_back;
      color_heap = λ p. replicate k_frame_rgb_bytes 0;
      mm_heap = λ p. replicate k_frame_pixels 0;
      false_heap = λ p. replicate k_frame_rgb_bytes 0;
    }

abbrev pub count_color : Display → Display
count_color d = record d { got_rgb = true; rgb_frames = (d.rgb_frames + 1) % 2 ^ 64 }

-- The buffers when the filled one is taken over: libfreenect goes on with the middle one.
unfoldable pub take_over : ℕ → Display → Option Display
take_over rgb d =
    if d.rgb_back == rgb
    then some
        (count_color (record d { rgb_back = d.rgb_mid; video_buffer = d.rgb_mid; rgb_mid = rgb }))
    else none

-- `rgb_cb` on the buffer that libfreenect passes. `none` is a failed `assert`.
unfoldable pub rgb_cb : VideoFormat → ℕ → Display → Option Display
unfolding take_over
rgb_cb VideoFormat.rgb rgb d = take_over rgb d
rgb_cb VideoFormat.yuv_rgb rgb d = take_over rgb d
rgb_cb _ rgb d =
    some (count_color (record d { color_heap = store d.rgb_mid (d.color_heap rgb) d.color_heap }))

module _ (fl : Float32) where
  -- `depth_cb` on the pixels that libfreenect passes.
  unfoldable pub depth_cb : (ℕ → ℕ) → Display → Display
  unfolding false_colors
  depth_cb depth d =
      let image = tabulate k_frame_pixels 0 depth in
      record d {
        mm_heap = store d.depth_mm_mid image d.mm_heap;
        false_heap = store d.depth_rgb_mid (false_colors fl image) d.false_heap;
        got_depth = true;
        depth_frames = (d.depth_frames + 1) % 2 ^ 64;
      }

-- Whether `DrawGLScene` waits for a signal.
unfoldable pub must_wait : Display → Bool
must_wait d = not d.got_depth && not d.got_rgb

unfoldable pub take_depth_frame : Display → Display
take_depth_frame d =
    if d.got_depth
    then record d {
      depth_mm_front = d.depth_mm_mid;
      depth_mm_mid = d.depth_mm_front;
      depth_rgb_front = d.depth_rgb_mid;
      depth_rgb_mid = d.depth_rgb_front;
      got_depth = false;
    }
    else d

unfoldable pub take_color_frame : Display → Display
take_color_frame d =
    if d.got_rgb
    then record d { rgb_front = d.rgb_mid; rgb_mid = d.rgb_front; got_rgb = false }
    else d

-- `DrawGLScene` under the mutex, when it is woken: it goes on waiting, or it takes the new frames.
unfoldable pub wake_drawing : Display → Display
unfolding must_wait take_depth_frame take_color_frame
wake_drawing d = if must_wait d then d else take_color_frame (take_depth_frame d)

-- What happens to the buffers, in any order.
pub data DisplayEvent : Type 0 where
  -- libfreenect writes some packets of a frame into its buffer: it then holds these bytes.
  receives : List ℕ → DisplayEvent
  -- The last packets, and the callback in this format.
  completes_color : VideoFormat → List ℕ → DisplayEvent
  completes_depth : (ℕ → ℕ) → DisplayEvent
  -- `freenect_set_video_buffer(g_dev, g_rgb_back)`, when the thread changes the video mode.
  sets_video_buffer : DisplayEvent
  draws : DisplayEvent

abbrev pub receive : List ℕ → Display → Display
receive bytes d = record d { color_heap = store d.video_buffer bytes d.color_heap }

module _ (fl : Float32) where
  unfoldable pub step_display : DisplayEvent → Display → Option Display
  unfolding rgb_cb depth_cb wake_drawing
  step_display (DisplayEvent.receives bytes) d = some (receive bytes d)
  step_display (DisplayEvent.completes_color format image) d =
      rgb_cb format d.video_buffer (receive image d)
  step_display (DisplayEvent.completes_depth depth) d = some (depth_cb fl depth d)
  step_display DisplayEvent.sets_video_buffer d = some (record d { video_buffer = d.rgb_back })
  step_display DisplayEvent.draws d = some (wake_drawing d)

  unfoldable pub run_display : List DisplayEvent → Display → Option Display
  unfolding step_display bind
  run_display [] d = some d
  run_display (e ∷ es) d = bind (step_display e d) (run_display es)

-- The buffers that `ShutdownAndExit` frees, in order.
unfoldable pub freed_buffers : Display → List ℕ
freed_buffers d =
    d.depth_mm_mid ∷ d.depth_mm_front ∷ d.depth_rgb_mid ∷ d.depth_rgb_front ∷ d.rgb_back ∷ d.rgb_mid
    ∷ d.rgb_front ∷ []
