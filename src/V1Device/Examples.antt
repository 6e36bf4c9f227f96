-- ===== src/V1Device/Examples.antt =====
-- The theorems on a Kinect v1 device at concrete libraries and calls.

use mac_kinect_native.Base.{◌≡◌, refl, true, false, none, some, List, [], ◌∷◌}
use mac_kinect_native.Base.Int.{pos}
use mac_kinect_native.Backend.{StreamKind}
use mac_kinect_native.V1Device.Calls.{Call, Library, Log, Rc, success, failure, opened, depth_frame}
use mac_kinect_native.V1Device.State.{Device, new_device, is_synthetic_index_serial}
use mac_kinect_native.V1Device.Streaming.{
  open_device, open_call, register_callbacks, issue, start, stop, apply_video_mode,
  stop_video_if_started, start_video_if_needed, send, set_running, set_audio_enabled, video_format,
}
use mac_kinect_native.V1Device.Frames.{
  get_frame, update, switch_if_requested, run_callbacks, run_callback, on_depth_frame,
}
use mac_kinect_native.V1Device.Methods.{Method, call_method, call_methods}
use mac_kinect_native.V1Device.Invariant.{Inv}
use mac_kinect_native.V1Device.Reachable.{opened_device-Inv}
use mac_kinect_native.V1Device.Lifecycle.{failed_start_leaks}
use mac_kinect_native.V1Device.Commands.{IsSafe, call_methods-IsSafe}
use mac_kinect_native.V1Device.Preview.{preview_rounds, preview_counts_stale_color}
use mac_kinect_native.V1Device.Shapes.{IsImage, IsFull, get_frame-IsFull}

-- Every call succeeds, and each round of events brings a depth frame of zeros.
abbrev willing : Library
willing = record {
  answer = λ log c. success;
  gives_device = λ log c. true;
  delivers = λ log. depth_frame (some (λ i. 0)) 7 ∷ [];
  depth_mode_is_valid = true;
  video_mode_is_valid = λ f. true;
}

-- The same, but the depth stream does not start.
abbrev depthless_answer : Log → Call → Rc
depthless_answer log Call.start_depth = failure
depthless_answer log _ = success

abbrev depthless : Library
depthless = record willing { answer = depthless_answer }

abbrev camera : Library → Device
camera lib = (open_device lib (new_device true (pos 0) "A001" true)).0

abbrev session : List Method
session =
    Method.starts
    ∷ Method.sets_audio true
    ∷ Method.updates
    ∷ Method.sets_tilt (pos 90)
    ∷ Method.sets_stream StreamKind.ir
    ∷ Method.updates
    ∷ []

opened_device-Inv_example : Inv (call_methods willing session (camera willing))
opened_device-Inv_example = opened_device-Inv willing true (pos 0) "A001" true session

abbrev frame_session : List Method
frame_session = Method.starts ∷ Method.updates ∷ []

abbrev running_camera : Device
running_camera = call_methods willing (Method.starts ∷ []) (camera willing)

camera_has_dev : (camera willing).has_dev ≡ true
unfolding new_device open_device open_call register_callbacks issue send is_synthetic_index_serial
camera_has_dev = refl

running_camera_has_dev : running_camera.has_dev ≡ true
unfolding new_device open_device open_call register_callbacks issue send is_synthetic_index_serial
    call_methods call_method start apply_video_mode stop_video_if_started start_video_if_needed
    set_running set_audio_enabled video_format
running_camera_has_dev = refl

camera_log-IsSafe : IsSafe (camera willing).log
unfolding new_device open_device open_call register_callbacks issue send is_synthetic_index_serial
camera_log-IsSafe = (tt, (tt, (tt, (tt, (tt, tt)))))

running_camera-Inv : Inv running_camera
running_camera-Inv = opened_device-Inv willing true (pos 0) "A001" true (Method.starts ∷ [])

camera-Inv : (lib : Library) → Inv (camera lib)
unfolding call_methods
camera-Inv lib = opened_device-Inv lib true (pos 0) "A001" true []

failed_start_leaks_example :
    let d = (start depthless (camera depthless)).0 in
    ((stop depthless d).1 ≡ true)
    × ((stop depthless d).0.log ≡ d.log)
    × ((opened (stop depthless d).0.log).video_open ≡ true)
unfolding new_device open_device open_call register_callbacks issue send is_synthetic_index_serial
    call_methods call_method start apply_video_mode stop_video_if_started start_video_if_needed
    set_running set_audio_enabled video_format
failed_start_leaks_example =
    failed_start_leaks depthless (camera depthless) (camera-Inv depthless) refl refl refl

call_methods-IsSafe_example : IsSafe (call_methods willing session (camera willing)).log
call_methods-IsSafe_example = call_methods-IsSafe willing session (camera willing) camera_log-IsSafe

get_frame-IsFull_example :
    let d = call_methods willing frame_session (camera willing) in
    IsImage d.frame × IsFull d.frame × ((get_frame (get_frame d).0).1 ≡ none)
unfolding new_device open_device open_call register_callbacks issue send is_synthetic_index_serial
    call_methods call_method start apply_video_mode stop_video_if_started start_video_if_needed
    set_running set_audio_enabled video_format update switch_if_requested run_callbacks run_callback
    on_depth_frame get_frame
get_frame-IsFull_example = get_frame-IsFull willing true (pos 0) "A001" true frame_session refl

-- A running camera that stored and handed out a color image before.
abbrev seen_color : Device
seen_color = record running_camera {
  frame = record { rgb = 9 ∷ []; depth = []; ir = []; width = 640; height = 480; timestamp = 1 };
  has_new_frame = false;
}

preview_counts_stale_color_example :
    let n =
      (preview_rounds willing 3 seen_color (record { color_frames = 0; depth_frames = 0 })).1 in
    n.color_frames ≡ n.depth_frames
preview_counts_stale_color_example =
    preview_counts_stale_color willing (λ log. (tt, tt)) 3 seen_color refl refl
