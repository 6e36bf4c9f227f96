-- ===== src/Hal/DataSize.antt =====
-- `DriverGetPropertyDataSize` of src/hal_plugin/KinectAudioHALPlugin.cpp.
use mac_kinect_native.Base.{ℕ, Bool, true, false, Option, none, some}
use mac_kinect_native.Hal.Types.{
  CoreAudio, PlugInSelector, DeviceSelector, StreamSelector, Object, object_of, Address, Status,
  no_error, illegal_operation, unknown_property, size_of_u32, size_of_float64,
}

module _ (ca : CoreAudio) where
  open ca use {
    size_of_string_ref, size_of_value_range, size_of_stream_description, size_of_ranged_description,
  }

  -- The size that is stored, or `none` for `UnknownProperty()`.
  unfoldable pub plug_in_size : PlugInSelector → Option ℕ
  plug_in_size PlugInSelector.base_class = some size_of_u32
  plug_in_size PlugInSelector.class = some size_of_u32
  plug_in_size PlugInSelector.manufacturer = some size_of_string_ref
  plug_in_size PlugInSelector.resource_bundle = some size_of_string_ref
  plug_in_size PlugInSelector.owned_objects = some size_of_u32
  plug_in_size PlugInSelector.device_list = some size_of_u32
  plug_in_size PlugInSelector.translate_uid_to_device = some size_of_u32
  plug_in_size PlugInSelector.other = none

  unfoldable pub device_size : DeviceSelector → Option ℕ
  device_size DeviceSelector.base_class = some size_of_u32
  device_size DeviceSelector.class = some size_of_u32
  device_size DeviceSelector.owner = some size_of_u32
  device_size DeviceSelector.transport_type = some size_of_u32
  device_size DeviceSelector.device_is_alive = some size_of_u32
  device_size DeviceSelector.device_is_running = some size_of_u32
  device_size DeviceSelector.latency = some size_of_u32
  device_size DeviceSelector.buffer_frame_size = some size_of_u32
  device_size DeviceSelector.name = some size_of_string_ref
  device_size DeviceSelector.manufacturer = some size_of_string_ref
  device_size DeviceSelector.device_uid = some size_of_string_ref
  device_size DeviceSelector.model_uid = some size_of_string_ref
  device_size DeviceSelector.owned_objects = some size_of_u32
  device_size DeviceSelector.streams = some size_of_u32
  device_size DeviceSelector.nominal_sample_rate = some size_of_float64
  device_size DeviceSelector.available_nominal_sample_rates = some size_of_value_range
  device_size DeviceSelector.buffer_frame_size_range = some size_of_value_range
  device_size DeviceSelector.other = none

  unfoldable pub stream_size : StreamSelector → Option ℕ
  stream_size StreamSelector.base_class = some size_of_u32
  stream_size StreamSelector.class = some size_of_u32
  stream_size StreamSelector.owner = some size_of_u32
  stream_size StreamSelector.direction = some size_of_u32
  stream_size StreamSelector.terminal_type = some size_of_u32
  stream_size StreamSelector.starting_channel = some size_of_u32
  stream_size StreamSelector.name = some size_of_string_ref
  stream_size StreamSelector.virtual_format = some size_of_stream_description
  stream_size StreamSelector.physical_format = some size_of_stream_description
  stream_size StreamSelector.available_virtual_formats = some size_of_ranged_description
  stream_size StreamSelector.available_physical_formats = some size_of_ranged_description
  stream_size StreamSelector.other = none

  abbrev pub or_unknown : Option ℕ → Status × Option ℕ
  or_unknown none = (unknown_property, none)
  or_unknown (some n) = (no_error, some n)

  unfoldable pub object_size : Object → Address → Option ℕ
  object_size Object.plug_in a = plug_in_size a.plug_in_selector
  object_size Object.device a = device_size a.device_selector
  object_size Object.stream_input a = stream_size a.stream_selector
  object_size Object.no_object a = none

  -- The status and what is stored in `*out_data_size`. `has_out` is that the pointer is not null.
  unfoldable pub driver_get_property_data_size : ℕ → Option Address → Bool → Status × Option ℕ
  driver_get_property_data_size id none has_out = (illegal_operation, none)
  driver_get_property_data_size id (some a) false = (illegal_operation, none)
  driver_get_property_data_size id (some a) true = or_unknown (object_size (object_of id) a)
