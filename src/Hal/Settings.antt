-- ===== src/Hal/Settings.antt =====
-- What can be set on the device of src/hal_plugin/KinectAudioHALPlugin.cpp, and reading it back.
use Prim.Native.String.{String}
use mac_kinect_native.Base.{
  ℕ, ◌+◌, ◌%◌, ◌^◌, ◌≤◌, ◌≡◌, ◌⊎◌, refl, inl, inr, true, Option, some, arith,
}
use mac_kinect_native.Hal.Types.{
  CoreAudio, DeviceSelector, StreamSelector, object_of, Address, no_error, k_object_id_device,
  k_object_id_stream_input, size_of_float64, float, format, stores,
}
use mac_kinect_native.Hal.Driver.{Driver, InData, set_rate, driver_set_property_data}
use mac_kinect_native.Hal.Data.{
  driver_get_property_data, object_data, device_data, stream_data, make_format,
}

module _ (ca : CoreAudio) where
  get_rate :
      (room qsize : ℕ) (q : Option (Option String)) (a : Address) (d : Driver ca.Float64)
      → a.device_selector ≡ DeviceSelector.nominal_sample_rate
      → size_of_float64 ≤ room
      → driver_get_property_data ca room k_object_id_device (some a) qsize q true d
        ≡ stores size_of_float64 (float d.sample_rate)
  unfolding driver_get_property_data object_data object_of device_data
  get_rate room qsize q a d e h = rw (e, device_data) (ground arith)

  get_format :
      (room qsize : ℕ) (q : Option (Option String)) (b : Address) (d : Driver ca.Float64)
      → (b.stream_selector ≡ StreamSelector.virtual_format)
        ⊎ (b.stream_selector ≡ StreamSelector.physical_format)
      → ca.size_of_stream_description ≤ room
      → driver_get_property_data ca room k_object_id_stream_input (some b) qsize q true d
        ≡ stores ca.size_of_stream_description (format (make_format ca d.sample_rate))
  unfolding driver_get_property_data object_data object_of stream_data
  get_format room qsize q b d (inl e) h = rw (e, stream_data) (ground arith)
  get_format room qsize q b d (inr e) h = rw (e, stream_data) (ground arith)

  set_device_rate :
      (size : ℕ) (a : Address) (v : InData ca.Float64) (d : Driver ca.Float64)
      → a.device_selector ≡ DeviceSelector.nominal_sample_rate
      → size_of_float64 ≤ size
      → driver_set_property_data ca k_object_id_device (some a) size (some v) d
        ≡ (set_rate ca v.as_float64 d, no_error)
  unfolding driver_set_property_data object_of
  set_device_rate size a v d e h = rw (e, driver_set_property_data) (ground arith)

  set_stream_rate :
      (size : ℕ) (b : Address) (v : InData ca.Float64) (d : Driver ca.Float64)
      → (b.stream_selector ≡ StreamSelector.virtual_format)
        ⊎ (b.stream_selector ≡ StreamSelector.physical_format)
      → ca.size_of_stream_description ≤ size
      → driver_set_property_data ca k_object_id_stream_input (some b) size (some v) d
        ≡ (set_rate ca v.as_description_rate d, no_error)
  unfolding driver_set_property_data object_of
  set_stream_rate size b v d (inl e) h = ground arith
  set_stream_rate size b v d (inr e) h = ground arith

  -- A sample rate set on the device is read back unchanged, whatever it is, from the device and in
  -- both formats of the stream, and a rate set through a format of the stream likewise; either
  -- increments the 64-bit seed of the zero time stamps. Each set and each read needs only the bytes
  -- of its own type: 8 for the rate, a stream description for a format.
  pub get-set-rate :
      (rate_size format_size rate_room format_room qsize : ℕ) (q : Option (Option String))
      (a b : Address) (v : InData ca.Float64) (d : Driver ca.Float64)
      → a.device_selector ≡ DeviceSelector.nominal_sample_rate
      → (b.stream_selector ≡ StreamSelector.virtual_format)
        ⊎ (b.stream_selector ≡ StreamSelector.physical_format)
      → size_of_float64 ≤ rate_size
      → ca.size_of_stream_description ≤ format_size
      → size_of_float64 ≤ rate_room
      → ca.size_of_stream_description ≤ format_room
      → let read_rate = λ (s : Driver ca.Float64).
        driver_get_property_data ca rate_room k_object_id_device (some a) qsize q true s in
        let read_format = λ (s : Driver ca.Float64).
          driver_get_property_data ca format_room k_object_id_stream_input
            (some b)
            qsize
            q
            true
            s in
        let (d1, _) =
          driver_set_property_data ca k_object_id_device (some a) rate_size (some v) d in
        let (d2, _) =
          driver_set_property_data ca k_object_id_stream_input (some b) format_size (some v) d in
        (read_rate d1 ≡ stores size_of_float64 (float v.as_float64))
        × (read_format d1
            ≡ stores ca.size_of_stream_description (format (make_format ca v.as_float64)))
        × (read_rate d2 ≡ stores size_of_float64 (float v.as_description_rate))
        × (read_format d2
            ≡ stores ca.size_of_stream_description (format (make_format ca v.as_description_rate)))
        × (d1.zero_time_stamp_seed ≡ (d.zero_time_stamp_seed + 1) % 2 ^ 64)
        × (d2.zero_time_stamp_seed ≡ (d.zero_time_stamp_seed + 1) % 2 ^ 64)
  unfolding set_rate
  get-set-rate rate_size format_size rate_room format_room qsize q a b v d ea eb hs ks hr kr =
      rw (set_device_rate rate_size a v d ea hs, set_stream_rate format_size b v d eb ks)
        (
          get_rate rate_room qsize q a (set_rate ca v.as_float64 d) ea hr,
          get_format format_room qsize q b (set_rate ca v.as_float64 d) eb kr,
          get_rate rate_room qsize q a (set_rate ca v.as_description_rate d) ea hr,
          get_format format_room qsize q b (set_rate ca v.as_description_rate d) eb kr,
          refl,
          refl,
        )
