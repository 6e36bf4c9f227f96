-- ===== src/Center/Formats.antt =====
-- The formats, flags and labels of src/control_center_v1.cpp.
use Prim.Native.String.{String}
use mac_kinect_native.Base.{Bool, true, false}

-- The values of libfreenect's enumerations that the file names; `other` stands for the rest.
pub data VideoFormat : Type 0 where
  rgb yuv_rgb ir_8bit other : VideoFormat

pub data DepthFormat : Type 0 where
  registered mm raw_11bit other : DepthFormat

pub data Led : Type 0 where
  off green red yellow blink_green blink_red_yellow : Led

abbrev pub is_rgb : VideoFormat → Bool
is_rgb VideoFormat.rgb = true
is_rgb _ = false

abbrev pub same_video : VideoFormat → VideoFormat → Bool
same_video VideoFormat.rgb VideoFormat.rgb = true
same_video VideoFormat.yuv_rgb VideoFormat.yuv_rgb = true
same_video VideoFormat.ir_8bit VideoFormat.ir_8bit = true
same_video VideoFormat.other VideoFormat.other = true
same_video _ _ = false

abbrev pub is_registered : DepthFormat → Bool
is_registered DepthFormat.registered = true
is_registered _ = false

abbrev pub same_depth : DepthFormat → DepthFormat → Bool
same_depth DepthFormat.registered DepthFormat.registered = true
same_depth DepthFormat.mm DepthFormat.mm = true
same_depth DepthFormat.raw_11bit DepthFormat.raw_11bit = true
same_depth DepthFormat.other DepthFormat.other = true
same_depth _ _ = false

unfoldable pub video_format_label : VideoFormat → String
video_format_label VideoFormat.rgb = "RGB"
video_format_label VideoFormat.yuv_rgb = "YUV->RGB"
video_format_label VideoFormat.ir_8bit = "IR8"
video_format_label VideoFormat.other = "Other"

unfoldable pub depth_format_label : DepthFormat → String
depth_format_label DepthFormat.registered = "REGISTERED(mm)"
depth_format_label DepthFormat.mm = "MM"
depth_format_label DepthFormat.raw_11bit = "RAW11"
depth_format_label DepthFormat.other = "Other"

unfoldable pub on_off_label : Bool → String
on_off_label true = "on"
on_off_label false = "off"
