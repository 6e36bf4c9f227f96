-- ===== src/V1Backend/Examples.antt =====
-- The theorems on the Kinect v1 backend at a concrete library.

use mac_kinect_native.Base.{◌≡◌, refl, true, none, some, [], ◌∷◌, arith}
use mac_kinect_native.Base.Tests.{is_some}
use mac_kinect_native.Base.Int.{pos}
use mac_kinect_native.V1Device.Calls.{Library, success}
use mac_kinect_native.V1Device.State.{new_device, is_synthetic_index_serial}
use mac_kinect_native.V1Device.Streaming.{
  open_device as open_handle, open_call, register_callbacks, issue, send,
}
use mac_kinect_native.V1Backend.Context.{Freenect1, ContextState}
use mac_kinect_native.Base.Decimal.{to_string}
use mac_kinect_native.V1Backend.Serials.{index_serial}
use mac_kinect_native.V1Backend.Requests.{opens_by_index, open_device-index_serial}
use mac_kinect_native.V1Backend.Opening.{requested, try_open, attempt, open_device}
use mac_kinect_native.V1Backend.Previews.{preview, IsReported, preview-IsReported}
use mac_kinect_native.V1Backend.Found.{OpensByIndex, open_device_found}

abbrev willing : Library
willing = record {
  answer = λ log c. success;
  gives_device = λ log c. true;
  delivers = λ log. [];
  depth_mode_is_valid = true;
  video_mode_is_valid = λ f. true;
}

-- Two devices without serials.
abbrev two_devices : Freenect1
two_devices = record {
  count_answer = λ log. pos 2;
  attributes_answer = λ log. record { count = pos 2; nodes = some (none ∷ none ∷ []) };
  device_library = λ log. willing;
}

abbrev ready : ContextState
ready = record { has_ctx = true; has_audio_firmware = true; log = [] }

second_opens : OpensByIndex two_devices 1 "DeviceIndex-1"
unfolding try_open open_handle new_device open_call register_callbacks issue send
    is_synthetic_index_serial
second_opens c = refl

open_device_found_example :
    (is_some (open_device two_devices "DeviceIndex-1" ready).1 ≡ true)
    × ((open_device two_devices "DeviceIndex-1" ready).1
        ≡ (attempt two_devices "DeviceIndex-1" ready).1)
open_device_found_example =
    open_device_found two_devices 1 "DeviceIndex-1" 2 ready refl (λ log. refl) (omega arith)
      second_opens

second_opens_when_counted : is_some (opens_by_index two_devices 1 (omega arith) ready).1 ≡ true
unfolding index_serial to_string
second_opens_when_counted = second_opens _

open_device-index_serial_example :
    (requested two_devices (index_serial 1) ready ≡ (ready, pos 1 ∷ []))
    × (open_device two_devices (index_serial 1) ready
        ≡ opens_by_index two_devices 1 (omega arith) ready)
open_device-index_serial_example =
    open_device-index_serial two_devices 1 (omega arith) ready refl second_opens_when_counted

-- A preview opens the first device, which brings no frames.
preview-IsReported_example : IsReported 3 (preview two_devices willing 3 ready).1
preview-IsReported_example = preview-IsReported two_devices willing 3 ready
