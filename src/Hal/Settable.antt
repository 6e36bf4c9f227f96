-- ===== src/Hal/Settable.antt =====
-- Which properties of src/hal_plugin/KinectAudioHALPlugin.cpp can be set, and that a set property is
-- read back.
use Prim.Native.String.{String}
use mac_kinect_native.Base.{ℕ, ◌≤◌, ◌<◌, ◌≡◌, ◌⊎◌, refl, inl, inr, true, false, Option, some, arith}
use mac_kinect_native.Hal.Types.{
  CoreAudio, DeviceSelector, StreamSelector, Object, object_of, Address, no_error,
  unsupported_operation, bad_property_size, size_of_float64, size_of_u32, Value, float, format,
  number, stores,
}
use mac_kinect_native.Hal.Selectors.{driver_is_property_settable}
use mac_kinect_native.Hal.DataSize.{
  driver_get_property_data_size, object_size, device_size, stream_size,
}
use mac_kinect_native.Hal.Driver.{Driver, InData, set_rate, driver_set_property_data}
use mac_kinect_native.Hal.Data.{
  driver_get_property_data, object_data, device_data, stream_data, make_format,
}

module _ (ca : CoreAudio) where
  -- What the data mean for a property that can be set: a rate or a count of frames on the device, a
  -- description of a format on the stream.
  abbrev pub device_value : DeviceSelector → InData ca.Float64 → Value ca.Float64
  device_value DeviceSelector.nominal_sample_rate v = float v.as_float64
  device_value _ v = number v.as_u32

  abbrev pub value_in : Object → Address → InData ca.Float64 → Value ca.Float64
  value_in Object.device a v = device_value a.device_selector v
  value_in _ a v = format (make_format ca v.as_description_rate)

  -- A property of n bytes is settable, and is set to the value, which is read back, by n bytes or
  -- more; fewer are refused.
  pub record IsSettable (id size room qsize : ℕ) (q : Option (Option String)) (a : Address)
      (v : InData ca.Float64) (d : Driver ca.Float64) (n : ℕ) : Type 0 where
    pub settable : driver_is_property_settable id (some a) true ≡ (no_error, some true)
    pub promised : driver_get_property_data_size ca id (some a) true ≡ (no_error, some n)
    pub refused :
        size < n → driver_set_property_data ca id (some a) size (some v) d ≡ (d, bad_property_size)
    pub succeeds : n ≤ size → (driver_set_property_data ca id (some a) size (some v) d).1 ≡ no_error
    pub read_back :
        n ≤ size
        → n ≤ room
        → driver_get_property_data ca room id
            (some a)
            qsize
            q
            true
            (driver_set_property_data ca id (some a) size (some v) d).0
          ≡ stores n (value_in (object_of id) a v)

  module _ (id size room qsize : ℕ) (q : Option (Option String)) (a : Address)
      (v : InData ca.Float64) (d : Driver ca.Float64) where
    abbrev pub SettableOrRefused : Type 0
    SettableOrRefused =
        ((n : ℕ) × IsSettable id size room qsize q a v d n)
        ⊎ ((driver_is_property_settable id (some a) true ≡ (no_error, some false))
            × (driver_set_property_data ca id (some a) size (some v) d
                ≡ (d, unsupported_operation)))

    rate_IsSettable :
        object_of id ≡ Object.device
        → a.device_selector ≡ DeviceSelector.nominal_sample_rate
        → IsSettable id size room qsize q a v d size_of_float64
    unfolding driver_is_property_settable driver_get_property_data_size object_size device_size
        driver_set_property_data set_rate driver_get_property_data object_data device_data
    rate_IsSettable eo es = record {
      settable = rw (eo, es) refl;
      promised = rw (eo, es) refl;
      refused = λ h. rw (eo, es) (ground arith);
      succeeds = λ h. rw (eo, es) (ground arith);
      read_back = λ h k. rw (eo, es) (ground arith);
    }

    buffer_IsSettable :
        object_of id ≡ Object.device
        → a.device_selector ≡ DeviceSelector.buffer_frame_size
        → IsSettable id size room qsize q a v d size_of_u32
    unfolding driver_is_property_settable driver_get_property_data_size object_size device_size
        driver_set_property_data driver_get_property_data object_data device_data
    buffer_IsSettable eo es = record {
      settable = rw (eo, es) refl;
      promised = rw (eo, es) refl;
      refused = λ h. rw (eo, es) (ground arith);
      succeeds = λ h. rw (eo, es) (ground arith);
      read_back = λ h k. rw (eo, es) (ground arith);
    }

    format_IsSettable :
        object_of id ≡ Object.stream_input
        → (a.stream_selector ≡ StreamSelector.virtual_format)
          ⊎ (a.stream_selector ≡ StreamSelector.physical_format)
        → IsSettable id size room qsize q a v d ca.size_of_stream_description
    unfolding driver_is_property_settable driver_get_property_data_size object_size stream_size
        driver_set_property_data set_rate driver_get_property_data object_data stream_data
    format_IsSettable eo (inl es) = record {
      settable = rw (eo, es) refl;
      promised = rw (eo, es) refl;
      refused = λ h. rw (eo, es) (ground arith);
      succeeds = λ h. rw (eo, es) (ground arith);
      read_back = λ h k. rw (eo, es) (ground arith);
    }
    format_IsSettable eo (inr es) = record {
      settable = rw (eo, es) refl;
      promised = rw (eo, es) refl;
      refused = λ h. rw (eo, es) (ground arith);
      succeeds = λ h. rw (eo, es) (ground arith);
      read_back = λ h k. rw (eo, es) (ground arith);
    }

    by_object : (o : Object) → object_of id ≡ o → SettableOrRefused
    unfolding driver_is_property_settable driver_set_property_data
    by_object Object.device eo = by_device a.device_selector refl
      where
        by_device : (s : DeviceSelector) → a.device_selector ≡ s → SettableOrRefused
        by_device DeviceSelector.nominal_sample_rate es = inl (_, rate_IsSettable eo es)
        by_device DeviceSelector.buffer_frame_size es = inl (_, buffer_IsSettable eo es)
        by_device _ es = inr (rw (eo, es) refl, rw (eo, es) refl)
    by_object Object.stream_input eo = by_stream a.stream_selector refl
      where
        by_stream : (s : StreamSelector) → a.stream_selector ≡ s → SettableOrRefused
        by_stream StreamSelector.virtual_format es = inl (_, format_IsSettable eo (inl es))
        by_stream StreamSelector.physical_format es = inl (_, format_IsSettable eo (inr es))
        by_stream _ es = inr (rw (eo, es) refl, rw (eo, es) refl)
    by_object _ eo = inr (rw eo refl, rw eo refl)

    -- `DriverIsPropertySettable` answers on every object and selector. If it says that a property can
    -- be set, then `DriverGetPropertyDataSize` promises some n bytes for it, `DriverSetPropertyData`
    -- refuses fewer with the size error and no change, and takes n or more; then a buffer of n bytes
    -- or more reads back the value that the data hold: the rate, the count of frames or the format
    -- with the rate. If it says no, setting is refused as unsupported and changes nothing.
    pub set_property-settable : SettableOrRefused
    set_property-settable = by_object (object_of id) refl
