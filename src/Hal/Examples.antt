-- ===== src/Hal/Examples.antt =====
-- The theorems on the audio device at a concrete CoreAudio.

use mac_kinect_native.Base.{
  ℕ, ◌+◌, ◌*◌, ◌/◌, ◌^◌, ◌%◌, ◌≡◌, refl, inl, none, some, true, List, [], ◌∷◌, arith,
}
use mac_kinect_native.Hal.Types.{
  CoreAudio, PlugInSelector, DeviceSelector, StreamSelector, Scope, Address, object_of,
  k_object_id_device, k_object_id_stream_input, number, float, format, stores,
}
use mac_kinect_native.Hal.DataSize.{driver_get_property_data_size}
use mac_kinect_native.Hal.Driver.{Driver, InData, initial_driver, driver_set_property_data}
use mac_kinect_native.Hal.Data.{driver_get_property_data, make_format}
use mac_kinect_native.Hal.Consistent.{FitsSize, is_exempt, get_property_data-FitsSize}
use mac_kinect_native.Hal.Settings.{get-set-rate}
use mac_kinect_native.Hal.Settable.{SettableOrRefused, set_property-settable}
use mac_kinect_native.Hal.Clients.{IoEvent, run_io, device_is_running}

-- Whole numbers stand for `Float64`, and the host clock ticks in nanoseconds.
abbrev audio : CoreAudio
audio = record {
  Float64 = ℕ;
  literal = λ n. n;
  sample_time = λ ticks rate. ticks * rate / 1000000000;
  size_of_string_ref = 8;
  size_of_value_range = 16;
  size_of_stream_description = 40;
  size_of_ranged_description = 56;
}

abbrev address : DeviceSelector → Address
address s = record {
  plug_in_selector = PlugInSelector.other;
  device_selector = s;
  stream_selector = StreamSelector.virtual_format;
  scope = Scope.input;
}

abbrev rate_address : Address
rate_address = address DeviceSelector.nominal_sample_rate

abbrev rates : InData ℕ
rates = record { as_float64 = 44100; as_u32 = 44100; as_description_rate = 22050 }

get_property_data-FitsSize_example :
    FitsSize audio
      (driver_get_property_data_size audio k_object_id_device (some rate_address) true).1
      4
      (is_exempt audio (object_of k_object_id_device) rate_address)
      (driver_get_property_data audio 4 k_object_id_device
        (some rate_address)
        0
        none
        true
        (initial_driver audio))
get_property_data-FitsSize_example =
    get_property_data-FitsSize audio k_object_id_device 4 0 none rate_address (initial_driver audio)

-- The buffer frame size takes four bytes and is read back into four.
set_property-settable_example :
    SettableOrRefused audio k_object_id_device 4 4 0 none
      (address DeviceSelector.buffer_frame_size)
      rates
      (initial_driver audio)
set_property-settable_example =
    set_property-settable audio k_object_id_device 4 4 0 none
      (address DeviceSelector.buffer_frame_size) rates (initial_driver audio)

get-set-rate_example :
    let d = initial_driver audio in
    let read_rate = λ (s : Driver ℕ).
      driver_get_property_data audio 8 k_object_id_device (some rate_address) 0 none true s in
    let read_format = λ (s : Driver ℕ).
      driver_get_property_data audio 40 k_object_id_stream_input
        (some rate_address)
        0
        none
        true
        s in
    let (d1, _) =
      driver_set_property_data audio k_object_id_device (some rate_address) 8 (some rates) d in
    let (d2, _) =
      driver_set_property_data audio k_object_id_stream_input
        (some rate_address)
        40
        (some rates)
        d in
    (read_rate d1 ≡ stores 8 (float 44100))
    × (read_format d1 ≡ stores 40 (format (make_format audio 44100)))
    × (read_rate d2 ≡ stores 8 (float 22050))
    × (read_format d2 ≡ stores 40 (format (make_format audio 22050)))
    × (d1.zero_time_stamp_seed ≡ (d.zero_time_stamp_seed + 1) % 2 ^ 64)
    × (d2.zero_time_stamp_seed ≡ (d.zero_time_stamp_seed + 1) % 2 ^ 64)
get-set-rate_example =
    get-set-rate audio 8 40 8 40 0 none rate_address rate_address rates (initial_driver audio) refl
      (inl refl) (omega arith) (omega arith) (omega arith) (omega arith)

abbrev io_history : List IoEvent
io_history = IoEvent.stops_io ∷ IoEvent.starts_io ∷ IoEvent.starts_io ∷ IoEvent.stops_io ∷ []

device_is_running_example :
    let d = run_io audio io_history (initial_driver audio) in
    (d.running_io_clients ≡ 1)
    × (driver_get_property_data audio 4 k_object_id_device
          (some (address DeviceSelector.device_is_running))
          0
          none
          true
          d
        ≡ stores 4 (number 1))
device_is_running_example =
    device_is_running audio io_history 4 0 none (address DeviceSelector.device_is_running)
      (omega arith) refl (omega arith)
