-- ===== src/Center/Captures/Save.antt =====
-- `SaveColorPpm`, `SaveDepthPgm16`, `SavePointCloudPly` and `CaptureFrameBundle` of
-- src/control_center_v1.cpp. A file is what was written to it, if it could be opened.
use mac_kinect_native.Base.{
  ℕ, zero, suc, ◌+◌, ◌*◌, ◌/◌, ◌%◌, ◌^◌, Bool, false, not, ◌&&◌, ◌||◌, Option, none, some, List, [],
  ◌∷◌, ◌++◌,
}
use mac_kinect_native.Base.Tests.{leb, ltb, ◌==◌, if◌then◌else◌}
use mac_kinect_native.Base.Lists.{get_or}
use mac_kinect_native.Center.Buffers.{k_frame_width, k_frame_height, Display}

-- "P6\n640 480\n255\n"
abbrev pub ppm_header : List ℕ
ppm_header =
    b'P' ∷ b'6' ∷ b'\n' ∷ b'6' ∷ b'4' ∷ b'0' ∷ b' ' ∷ b'4' ∷ b'8' ∷ b'0' ∷ b'\n' ∷ b'2' ∷ b'5'
    ∷ b'5' ∷ b'\n' ∷ []

-- "P5\n640 480\n65535\n"
abbrev pub pgm_header : List ℕ
pgm_header =
    b'P' ∷ b'5' ∷ b'\n' ∷ b'6' ∷ b'4' ∷ b'0' ∷ b' ' ∷ b'4' ∷ b'8' ∷ b'0' ∷ b'\n' ∷ b'6' ∷ b'5'
    ∷ b'5' ∷ b'3' ∷ b'5' ∷ b'\n' ∷ []

-- The two bytes of each value, the high one first.
unfoldable pub put_pixels : List ℕ → List ℕ
put_pixels [] = []
put_pixels (value ∷ depth) = (value / 2 ^ 8 % 256) ∷ (value % 256) ∷ put_pixels depth

-- Whether a stream opens, and whether it is `good()` after the writes.
pub record Stream : Type 0 where
  pub is_open : Bool
  pub good : Bool

-- The file, and what the function returns.
unfoldable pub save_color_ppm : Stream → List ℕ → Option (List ℕ) × Bool
save_color_ppm out rgb =
    if not out.is_open then (none, false) else (some (ppm_header ++ rgb), out.good)

unfoldable pub save_depth_pgm16 : Stream → List ℕ → Option (List ℕ) × Bool
unfolding put_pixels
save_depth_pgm16 out depth =
    if not out.is_open then (none, false) else (some (pgm_header ++ put_pixels depth), out.good)

abbrev pub is_valid : ℕ → Bool
is_valid d = leb 350 d && leb d 6000

unfoldable pub count_valid : List ℕ → ℕ
count_valid [] = 0
count_valid (d ∷ depth) = if is_valid d then 1 + count_valid depth else count_valid depth

module _ (World : Type 0) (camera_to_world : ℕ → ℕ → ℕ → World × World) where
  -- A line: the coordinates x, y and z, and the color.
  pub record Vertex : Type 0 where
    pub wx : World
    pub wy : World
    pub wz : ℕ
    pub red : ℕ
    pub green : ℕ
    pub blue : ℕ

  -- A text with the properties x, y, z, red, green and blue of each vertex.
  pub record Ply : Type 0 where
    pub element_vertex : ℕ
    pub vertices : List Vertex

  module _ (depth rgb : List ℕ) where
    -- One round of the inner loop: no line, or one.
    unfoldable pub write_vertex : ℕ → ℕ → List Vertex
    write_vertex y x =
        let index = y * k_frame_width + x in
        let d = get_or depth index 0 in
        let (wx, wy) = camera_to_world x y d in
        if ltb d 350 || ltb 6000 d
        then []
        else record {
          wx = wx;
          wy = wy;
          wz = d;
          red = get_or rgb (index * 3 + 0) 0;
          green = get_or rgb (index * 3 + 1) 0;
          blue = get_or rgb (index * 3 + 2) 0;
        }
          ∷ []

    -- n columns from the x-th.
    unfoldable pub write_row : ℕ → ℕ → ℕ → List Vertex
    unfolding write_vertex
    write_row y zero x = []
    write_row y (suc n) x = write_vertex y x ++ write_row y n (suc x)

    -- n rows from the y-th.
    unfoldable pub write_rows : ℕ → ℕ → List Vertex
    write_rows zero y = []
    write_rows (suc n) y = write_row y k_frame_width 0 ++ write_rows n (suc y)

  -- The file, and the number of points returned.
  unfoldable pub save_point_cloud_ply : Bool → Stream → List ℕ → List ℕ → Option Ply × ℕ
  unfolding count_valid write_rows
  save_point_cloud_ply has_dev out depth rgb =
      let valid_points = count_valid depth in
      let file : Ply = record {
        element_vertex = valid_points;
        vertices = write_rows depth rgb k_frame_height 0;
      } in
      if not has_dev
      then (none, 0)
      else if not out.is_open
      then (none, 0)
      else (some file, valid_points)

  -- The files of a capture, and the three values of the message.
  pub record Capture : Type 0 where
    pub color_file : Option (List ℕ)
    pub depth_file : Option (List ℕ)
    pub scan_file : Option Ply
    pub color_ok : Bool
    pub depth_ok : Bool
    pub points : ℕ

  -- The pointer 0 is null. `none` is that there was no frame buffer.
  unfoldable pub capture_frame_bundle : Bool → Stream → Stream → Stream → Display → Option Capture
  unfolding save_color_ppm save_depth_pgm16 save_point_cloud_ply
  capture_frame_bundle has_dev color_out depth_out scan_out d =
      let rgb = d.color_heap d.rgb_front in
      let depth = d.mm_heap d.depth_mm_front in
      let (color_file, color_ok) = save_color_ppm color_out rgb in
      let (depth_file, depth_ok) = save_depth_pgm16 depth_out depth in
      let (scan_file, points) = save_point_cloud_ply has_dev scan_out depth rgb in
      if (d.rgb_front == 0) || (d.depth_mm_front == 0)
      then none
      else some (record {
        color_file = color_file;
        depth_file = depth_file;
        scan_file = scan_file;
        color_ok = color_ok;
        depth_ok = depth_ok;
        points = points;
      })
