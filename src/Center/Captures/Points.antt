-- ===== src/Center/Captures/Points.antt =====
-- The point cloud of src/control_center_v1.cpp: its header against its lines.
use mac_kinect_native.Base.{ℕ, zero, suc, ◌+◌, ◌≡◌, Option, none, some, List}
use mac_kinect_native.Base.Tests.{if◌then◌else◌}
use mac_kinect_native.Base.Lists.{length, get_or}
use mac_kinect_native.Center.Captures.Save.{is_valid, Ply}

abbrev point : ℕ → ℕ
point d = if is_valid d then 1 else 0

-- The points among n pixels from the i-th.
unfoldable count_from : List ℕ → ℕ → ℕ → ℕ
count_from depth zero i = 0
count_from depth (suc n) i = point (get_or depth i 0) + count_from depth n (suc i)

module _ (World : Type 0) (camera_to_world : ℕ → ℕ → ℕ → World × World) (depth rgb : List ℕ) where
  -- A file announces as many vertices as it has lines, and the points returned are these; without a
  -- file no points are returned.
  abbrev pub IsHeaded : Option (Ply World camera_to_world) × ℕ → Type 0
  IsHeaded (none, points) = points ≡ 0
  IsHeaded (some file, points) =
      (file.element_vertex ≡ length file.vertices) × (points ≡ length file.vertices)
