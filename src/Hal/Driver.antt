-- ===== src/Hal/Driver.antt =====
-- The state of src/hal_plugin/KinectAudioHALPlugin.cpp and the operations that change it. The mutex
-- is held over each operation on the state, so each is one step.
use mac_kinect_native.Base.{
  ℕ, zero, suc, ◌+◌, ◌-◌, ◌*◌, ◌%◌, ◌^◌, Bool, true, false, ◌&&◌, Option, none, some, List, [], ◌∷◌,
}
use mac_kinect_native.Base.Tests.{ltb, ◌==◌, if◌then◌else◌}
use mac_kinect_native.Hal.Types.{
  CoreAudio, object_of, is_device, is_stream_input, Address, Status, no_error, illegal_operation,
  bad_property_size, unsupported_operation, size_of_u32, size_of_float64, DeviceSelector,
  StreamSelector,
}

pub record Driver (F : Type 0) : Type 0 where
  pub ref_count : ℕ
  pub sample_rate : F
  pub buffer_frame_size : ℕ
  pub running_io_clients : ℕ
  pub zero_time_stamp_seed : ℕ
  pub zero_host_time : ℕ
  pub zero_sample_time : F

-- What `in_data` points at, as each type that the code casts the pointer to reads it.
pub record InData (F : Type 0) : Type 0 where
  pub as_float64 : F
  pub as_u32 : ℕ
  pub as_description_rate : F

abbrev is_virtual_or_physical : StreamSelector → Bool
is_virtual_or_physical StreamSelector.virtual_format = true
is_virtual_or_physical StreamSelector.physical_format = true
is_virtual_or_physical _ = false

abbrev is_nominal_rate : DeviceSelector → Bool
is_nominal_rate DeviceSelector.nominal_sample_rate = true
is_nominal_rate _ = false

abbrev is_buffer_size : DeviceSelector → Bool
is_buffer_size DeviceSelector.buffer_frame_size = true
is_buffer_size _ = false

module _ (ca : CoreAudio) where
  open ca use {Float64, literal, sample_time, size_of_stream_description}

  unfoldable pub initial_driver : Driver Float64
  initial_driver = record {
    ref_count = 1;
    sample_rate = literal 48000;
    buffer_frame_size = 480;
    running_io_clients = 0;
    zero_time_stamp_seed = 1;
    zero_host_time = 0;
    zero_sample_time = literal 0;
  }

  -- `ULONG` is 32 bits wide.
  unfoldable pub driver_add_ref : Driver Float64 → Driver Float64 × ℕ
  driver_add_ref d = let n = (d.ref_count + 1) % 2 ^ 32 in (record d { ref_count = n }, n)

  unfoldable pub driver_release : Driver Float64 → Driver Float64 × ℕ
  driver_release d =
      let n = (d.ref_count + (2 ^ 32 - 1)) % 2 ^ 32 in (record d { ref_count = n }, n)

  -- `now` is `AudioGetCurrentHostTime()`.
  unfoldable pub driver_initialize : ℕ → Driver Float64 → Driver Float64
  driver_initialize now d = record d {
    zero_host_time = now;
    zero_sample_time = literal 0;
    zero_time_stamp_seed = 1;
  }

  unfoldable pub set_rate : Float64 → Driver Float64 → Driver Float64
  set_rate rate d = record d {
    sample_rate = rate;
    zero_time_stamp_seed = (d.zero_time_stamp_seed + 1) % 2 ^ 64;
  }

  -- `data` is `none` for a null pointer.
  unfoldable pub driver_set_property_data :
      ℕ → Option Address → ℕ → Option (InData Float64) → Driver Float64 → Driver Float64 × Status
  unfolding set_rate
  driver_set_property_data id none size v d = (d, illegal_operation)
  driver_set_property_data id (some a) size none d = (d, illegal_operation)
  driver_set_property_data id (some a) size (some v) d =
      if is_device (object_of id) && is_nominal_rate a.device_selector
      then (if ltb size size_of_float64
          then (d, bad_property_size)
          else (set_rate v.as_float64 d, no_error))
      else if is_device (object_of id) && is_buffer_size a.device_selector
      then (if ltb size size_of_u32
          then (d, bad_property_size)
          else (record d { buffer_frame_size = v.as_u32 }, no_error))
      else if is_stream_input (object_of id) && is_virtual_or_physical a.stream_selector
      then (if ltb size size_of_stream_description
          then (d, bad_property_size)
          else (set_rate v.as_description_rate d, no_error))
      else (d, unsupported_operation)

  unfoldable pub driver_start_io : Driver Float64 → Driver Float64
  driver_start_io d = record d { running_io_clients = (d.running_io_clients + 1) % 2 ^ 32 }

  unfoldable pub driver_stop_io : Driver Float64 → Driver Float64
  driver_stop_io d =
      if ltb 0 d.running_io_clients
      then record d { running_io_clients = d.running_io_clients - 1 }
      else d

  pub record ZeroTimeStamp : Type 0 where
    pub out_sample_time : Float64
    pub out_host_time : ℕ
    pub out_seed : ℕ

  -- `has_outs` is that none of the three pointers is null. The host clock is 64 bits wide.
  unfoldable pub driver_get_zero_time_stamp :
      Bool → ℕ → Driver Float64 → Driver Float64 × Option ZeroTimeStamp
  driver_get_zero_time_stamp false now d = (d, none)
  driver_get_zero_time_stamp true now d =
      let d1 = if d.zero_host_time == 0 then record d { zero_host_time = now } else d in
      let elapsed = (now + 2 ^ 64 - d1.zero_host_time) % 2 ^ 64 in
      let time = sample_time elapsed d1.sample_rate in
      (
        record d1 { zero_sample_time = time },
        some (record {
          out_sample_time = time;
          out_host_time = now;
          out_seed = d1.zero_time_stamp_seed;
        }),
      )

-- `*out_will_do` and `*out_will_do_in_place`.
unfoldable pub driver_will_do_io_operation : Bool → Bool → Status × Option (ℕ × ℕ)
driver_will_do_io_operation false is_read_input = (illegal_operation, none)
driver_will_do_io_operation true is_read_input =
    (no_error, some ((if is_read_input then 1 else 0), 1))

-- `std::memset(buffer, 0, n)`.
unfoldable pub zero_prefix : ℕ → List ℕ → List ℕ
zero_prefix zero buffer = buffer
zero_prefix (suc n) [] = []
zero_prefix (suc n) (b ∷ buffer) = 0 ∷ zero_prefix n buffer

-- The bytes of the main buffer after the operation; `none` is a null buffer.
unfoldable pub driver_do_io_operation : Bool → ℕ → Option (List ℕ) → Option (List ℕ)
driver_do_io_operation is_read_input frames none = none
driver_do_io_operation false frames (some buffer) = some buffer
driver_do_io_operation true frames (some buffer) = some (zero_prefix (frames * 4) buffer)
