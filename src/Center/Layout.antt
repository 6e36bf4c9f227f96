-- ===== src/Center/Layout.antt =====
-- Where `DrawGLScene` of src/control_center_v1.cpp draws its two panels, in the window that
-- `ReSizeGLScene` leaves. A window is at least 320 by 240, so no difference is negative.
use Prim.Native.Nat.{max}
use mac_kinect_native.Base.{ℕ, ◌+◌, ◌-◌, ◌*◌, ◌/◌, ◌≤◌, ◌≡◌, List, [], ◌∷◌, arith}
use mac_kinect_native.Base.Tests.{ltb, if◌then◌else◌}
use mac_kinect_native.Base.Int.{ℤ, pos, pos_part, max_ℤ}

pub record Window : Type 0 where
  pub window_width : ℕ
  pub window_height : ℕ

abbrev pub initial_window : Window
initial_window = record { window_width = 1280; window_height = 640 }

-- `ReSizeGLScene`, on what GLUT passes.
unfoldable pub resize : ℤ → ℤ → Window
resize width height = record {
  window_width = pos_part (max_ℤ (pos 320) width);
  window_height = pos_part (max_ℤ (pos 240) height);
}

pub record Panels : Type 0 where
  pub panel_width : ℕ
  pub panel_height : ℕ
  pub left_x : ℕ
  pub right_x : ℕ
  pub panel_y : ℕ

abbrev margin : ℕ
margin = 10

abbrev info_height : ℕ
info_height = 150

unfoldable pub available_height : Window → ℕ
available_height w = max 200 (w.window_height - info_height - 2 * margin)

unfoldable pub panels : Window → Panels
unfolding available_height
panels w =
    let available = available_height w in
    let full_width = (w.window_width - 3 * margin) / 2 in
    let full_height = full_width * 3 / 4 in
    let too_high = ltb available full_height in
    let height = if too_high then available else full_height in
    let width = if too_high then height * 4 / 3 else full_width in
    record {
      panel_width = width;
      panel_height = height;
      left_x = w.window_width / 2 - width - margin / 2;
      right_x = w.window_width / 2 + margin / 2;
      panel_y = info_height + (available - height) / 2;
    }

-- The sizes that GLUT has reported, the last first.
abbrev pub window_after : List (ℤ × ℤ) → Window
window_after [] = initial_window
window_after ((width, height) ∷ earlier) = resize width height

pub record IsLaidOut (w : Window) (p : Panels) : Type 0 where
  pub left_inside : 10 ≤ p.left_x
  pub apart : p.left_x + p.panel_width + 10 ≡ p.right_x
  pub right_inside : p.right_x + p.panel_width + 10 ≤ w.window_width
  pub above_text : 150 ≤ p.panel_y
  pub below_top : 370 ≤ w.window_height → p.panel_y + p.panel_height + 20 ≤ w.window_height
  pub not_wide : 3 * p.panel_width ≤ 4 * p.panel_height + 3
  pub not_high : 4 * p.panel_height ≤ 3 * p.panel_width + 2

panels-IsLaidOut : (w : Window) → 320 ≤ w.window_width → IsLaidOut w (panels w)
unfolding panels available_height
panels-IsLaidOut w wide = ground arith

window_after-wide : (sizes : List (ℤ × ℤ)) → 320 ≤ (window_after sizes).window_width
unfolding resize
window_after-wide [] = omega arith
window_after-wide ((width, height) ∷ earlier) = ground arith

-- Whatever sizes GLUT reports, the panels are side by side and 10 apart, at least 10 from the left
-- and the right of the window, and above the 150 lines of text; each is 4 by 3 up to rounding. In a
-- window of 370 lines or more they end at least 20 below its top.
pub window_after-IsLaidOut :
    (sizes : List (ℤ × ℤ)) → IsLaidOut (window_after sizes) (panels (window_after sizes))
window_after-IsLaidOut sizes = panels-IsLaidOut (window_after sizes) (window_after-wide sizes)
