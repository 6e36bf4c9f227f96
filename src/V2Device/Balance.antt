-- ===== src/V2Device/Balance.antt =====
-- The order of the calls that a Kinect v2 device makes of libfreenect2
-- (src/backends/freenect_v2_backend.cpp), against an automaton.
use Prim.Native.String.{String}
use mac_kinect_native.Base.{◌≡◌, Bool, true, false, not, Option, none, some, List, [], ◌∷◌, arith}
use mac_kinect_native.Base.Tests.{if◌then◌else◌}
use mac_kinect_native.Float32.{Float32}
use mac_kinect_native.V2Device.State.{DeviceCall, DeviceLog, Freenect2, Device, new_device}
use mac_kinect_native.V2Device.Methods.{
  get_frame, open_handle, start, stop, destroy, take_frames, update, Method, call_method,
  call_methods, device_after,
}

-- What libfreenect2 lets a client do with a device: it must be open to be started, started to wait
-- for frames, and frames must be released before the next wait, a stop or a close.
pub data Phase : Type 0 where
  closed : Phase
  idle : Phase
  streaming : Phase
  holding : Phase
  gone : Phase

unfoldable pub follow : DeviceCall → Bool → Phase → Option Phase
follow (DeviceCall.opens serial) true Phase.closed = some Phase.idle
follow (DeviceCall.opens serial) false Phase.closed = some Phase.closed
follow DeviceCall.sets_color_listener ok Phase.idle = some Phase.idle
follow DeviceCall.sets_depth_listener ok Phase.idle = some Phase.idle
follow DeviceCall.starts_device true Phase.idle = some Phase.streaming
follow DeviceCall.starts_device false Phase.idle = some Phase.idle
follow DeviceCall.gets_frames ok Phase.streaming = some Phase.holding
follow DeviceCall.times_out ok Phase.streaming = some Phase.streaming
follow DeviceCall.releases ok Phase.holding = some Phase.streaming
follow DeviceCall.stops_device ok Phase.streaming = some Phase.idle
follow DeviceCall.closes ok Phase.idle = some Phase.gone
follow c ok phase = none

abbrev pub follow_if : DeviceCall → Bool → Option Phase → Option Phase
follow_if c ok none = none
follow_if c ok (some phase) = follow c ok phase

-- The phase after these calls; `none` is that one of them came out of order.
unfoldable pub replay : DeviceLog → Option Phase
unfolding follow
replay [] = some Phase.closed
replay ((c, ok) ∷ log) = follow_if c ok (replay log)

abbrev pub phase_of : Device → Phase
phase_of d = if d.has_dev then (if d.running then Phase.streaming else Phase.idle) else Phase.closed

pub record Follows (d : Device) : Type 0 where
  pub replayed : replay d.log ≡ some (phase_of d)
  pub running_dev : d.running ≡ true → d.has_dev ≡ true

pub get_frame_dev : (d : Device) → (get_frame d).0.has_dev ≡ d.has_dev
unfolding get_frame
get_frame_dev d = ground arith

pub get_frame-Follows : (d : Device) → Follows d → Follows (get_frame d).0
unfolding get_frame
get_frame-Follows d h = ground arith

module _ (fl : Float32) (lib : Freenect2 fl) where
  pub open_handle-Follows :
      (ctx : Bool) (serial : String) → Follows (open_handle fl lib (new_device ctx serial)).0
  unfolding open_handle new_device replay follow
  open_handle-Follows ctx serial = ground arith

  pub start-Follows : (d : Device) → Follows d → Follows (start fl lib d).0
  unfolding start replay follow
  start-Follows d h = ground arith

  pub stop-Follows : (d : Device) → Follows d → Follows (stop fl lib d).0
  unfolding stop replay follow
  stop-Follows d h = ground arith

  pub update-Follows : (d : Device) → Follows d → Follows (update fl lib d).0
  unfolding update take_frames replay follow
  update-Follows d h = ground arith

  -- What the methods leave open.
  pub start_dev : (d : Device) → (start fl lib d).0.has_dev ≡ d.has_dev
  unfolding start
  start_dev d = ground arith

  pub stop_dev : (d : Device) → (stop fl lib d).0.has_dev ≡ d.has_dev
  unfolding stop
  stop_dev d = ground arith

  pub update_dev : (d : Device) → (update fl lib d).0.has_dev ≡ d.has_dev
  unfolding update take_frames
  update_dev d = ground arith

  pub opened_dev :
      (serial : String)
      → let (d, opened) = open_handle fl lib (new_device true serial) in
        not opened ≡ false → d.has_dev ≡ true
  unfolding open_handle new_device
  opened_dev serial opened = ground arith

  call_method-Follows : (m : Method) (d : Device) → Follows d → Follows (call_method fl lib m d)
  unfolding call_method
  call_method-Follows Method.starts d h = start-Follows d h
  call_method-Follows Method.stops d h = stop-Follows d h
  call_method-Follows Method.updates d h = update-Follows d h
  call_method-Follows Method.gets_frame d h = get_frame-Follows d h
  call_method-Follows (Method.sets_stream kind) d h = record {
    replayed = h.replayed;
    running_dev = h.running_dev;
  }
  call_method-Follows Method.sets_tilt d h = h
  call_method-Follows Method.sets_led d h = h

  call_methods-Follows :
      (ms : List Method) (d : Device) → Follows d → Follows (call_methods fl lib ms d)
  unfolding call_methods
  call_methods-Follows [] d h = h
  call_methods-Follows (m ∷ ms) d h =
      call_methods-Follows ms (call_method fl lib m d) (call_method-Follows m d h)

  pub destroy-replay :
      (d : Device)
      → Follows d
      → replay (destroy fl lib d).log ≡ some (if d.has_dev then Phase.gone else Phase.closed)
  unfolding destroy stop replay follow
  destroy-replay d h = ground arith

  -- Whatever libfreenect2 answers, a device that is made, opened and used by any calls of its methods
  -- makes its calls in an order that the automaton of libfreenect2 accepts: it waits only while
  -- started, releases what it got before anything else, and never starts or stops twice. It is
  -- streaming exactly if the device says that it is open and running; and its destructor leaves a
  -- device that was open stopped and closed.
  pub device_after-replay :
      (ctx : Bool) (serial : String) (ms : List Method)
      → let d = device_after fl lib (new_device ctx serial) ms in
        (replay d.log ≡ some (phase_of d))
        × (replay (destroy fl lib d).log ≡ some (if d.has_dev then Phase.gone else Phase.closed))
  device_after-replay ctx serial ms =
      let h = call_methods-Follows ms _ (open_handle-Follows ctx serial) in
      (h.replayed, destroy-replay _ h)
