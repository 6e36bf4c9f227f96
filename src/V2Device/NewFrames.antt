-- ===== src/V2Device/NewFrames.antt =====
-- What holds of the frames that a Kinect v2 device hands out
-- (src/backends/freenect_v2_backend.cpp), if it holds of each that is chosen.
use Prim.Native.String.{String}
use mac_kinect_native.Base.{◌≡◌, Bool, true, false, not, Option, none, some, List, [], ◌∷◌, arith}
use mac_kinect_native.Base.Tests.{if_rule, not-false}
use mac_kinect_native.Backend.{StreamKind, FrameData}
use mac_kinect_native.Float32.{Float32}
use mac_kinect_native.V2Device.State.{DeviceLog, FrameMap, Freenect2, Device, new_device}
use mac_kinect_native.V2Device.Pictures.{color_picture, depth_picture, ir_picture, choose_frame}
use mac_kinect_native.V2Device.Methods.{
  get_frame, open_handle, start, stop, assign_next, take_frames, received, update, Method,
  call_method, call_methods,
}

module _ (P : FrameData → Type 0) where
  abbrev pub HoldsOf : Option FrameData → Type 0
  HoldsOf none = Unit
  HoldsOf (some f) = P f

  -- A device whose new frame, if it has one, has the property.
  abbrev pub NewHolds : Device → Type 0
  NewHolds d = d.has_new_frame ≡ true → P d.frame

  pub get_frame_keeps : (d : Device) → NewHolds d → NewHolds (get_frame d).0
  unfolding get_frame
  get_frame_keeps d h =
      if_rule {A = Device × Option FrameData} (λ r. NewHolds r.0) (not d.has_new_frame) (d, none)
        (λ _. h) (λ _ e. h (ground arith))

  pub get_frame_holds : (d : Device) → NewHolds d → HoldsOf (get_frame d).1
  unfolding get_frame
  get_frame_holds d h =
      if_rule {A = Device × Option FrameData} (λ r. HoldsOf r.1) (not d.has_new_frame) (d, none)
        (λ _. tt) (λ new. h (not-false d.has_new_frame new))

  -- The frame that would be chosen of these has the property.
  abbrev pub ChosenHolds : (fl : Float32) → FrameMap fl → Type 0
  ChosenHolds fl frames =
      (selected : StreamKind)
      → HoldsOf (
          choose_frame selected (color_picture frames.color) (depth_picture fl frames.depth)
            (ir_picture fl frames.ir))

  abbrev pub AllChosenHold : (fl : Float32) → Option (FrameMap fl) → Type 0
  AllChosenHold fl none = Unit
  AllChosenHold fl (some frames) = ChosenHolds fl frames

module _ (fl : Float32) (lib : Freenect2 fl) (P : FrameData → Type 0)
    (chosen : (log : DeviceLog) → AllChosenHold P fl (lib.new_frames log)) where
  take_frames_keeps :
      (frames : FrameMap fl) (d : Device)
      → ChosenHolds P fl frames
      → NewHolds P d
      → NewHolds P (take_frames fl lib frames d).0
  unfolding take_frames
  take_frames_keeps frames d c h = by_choice _ (c d.selected_stream)
    where
      by_choice : (next : Option FrameData) → HoldsOf P next → NewHolds P (assign_next d next).0
      by_choice none holds = h
      by_choice (some f) holds = λ _. holds

  pub update_keeps : (d : Device) → NewHolds P d → NewHolds P (update fl lib d).0
  unfolding update
  update_keeps d h =
      if_rule {A = Device × Bool} (λ r. NewHolds P r.0) (not d.running) (d, false) (λ _. h)
        (λ _. by_arrival (lib.new_frames d.log) (chosen d.log))
    where
      by_arrival :
          (arrived : Option (FrameMap fl))
          → AllChosenHold P fl arrived
          → NewHolds P (received fl lib d arrived).0
      by_arrival none c = h
      by_arrival (some frames) c = take_frames_keeps frames _ c h

  start_same :
      (d : Device)
      → ((start fl lib d).0.frame ≡ d.frame) × ((start fl lib d).0.has_new_frame ≡ d.has_new_frame)
  unfolding start
  start_same d = ground arith

  pub start_keeps : (d : Device) → NewHolds P d → NewHolds P (start fl lib d).0
  start_keeps d h = rw ((start_same d).0, (start_same d).1) h

  stop_same :
      (d : Device)
      → ((stop fl lib d).0.frame ≡ d.frame) × ((stop fl lib d).0.has_new_frame ≡ d.has_new_frame)
  unfolding stop
  stop_same d = ground arith

  pub stop_keeps : (d : Device) → NewHolds P d → NewHolds P (stop fl lib d).0
  stop_keeps d h = rw ((stop_same d).0, (stop_same d).1) h

  pub open_handle_holds :
      (ctx : Bool) (serial : String) → NewHolds P (open_handle fl lib (new_device ctx serial)).0
  unfolding open_handle new_device
  open_handle_holds ctx serial e = absurd (ground arith)

  call_method_keeps : (m : Method) (d : Device) → NewHolds P d → NewHolds P (call_method fl lib m d)
  unfolding call_method
  call_method_keeps Method.starts d h = start_keeps d h
  call_method_keeps Method.stops d h = stop_keeps d h
  call_method_keeps Method.updates d h = update_keeps d h
  call_method_keeps Method.gets_frame d h = get_frame_keeps P d h
  call_method_keeps (Method.sets_stream kind) d h = h
  call_method_keeps Method.sets_tilt d h = h
  call_method_keeps Method.sets_led d h = h

  pub call_methods_keeps :
      (ms : List Method) (d : Device) → NewHolds P d → NewHolds P (call_methods fl lib ms d)
  unfolding call_methods
  call_methods_keeps [] d h = h
  call_methods_keeps (m ∷ ms) d h =
      call_methods_keeps ms (call_method fl lib m d) (call_method_keeps m d h)
