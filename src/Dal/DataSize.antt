-- ===== src/Dal/DataSize.antt =====
-- `PlugInObjectGetPropertyDataSize` of src/dal_plugin/KinectCameraDALPlugin.cpp.
use mac_kinect_native.Base.{ℕ, ◌+◌, Bool, true, false, Option, none, some}
use mac_kinect_native.Base.Tests.{◌==◌, if◌then◌else◌}
use mac_kinect_native.Dal.Types.{
  CoreMedia, PlugInSelector, DeviceSelector, StreamSelector, Address, Status, no_error,
  illegal_operation, unknown_property, bad_object, Plugin, Object, object_of, is_input_scope,
  has_stream, size_of_u32, size_of_float64, unknown_id,
}

module _ (cm : CoreMedia) where
  open cm use {
    size_of_string_ref, size_of_array_ref, size_of_format_ref, size_of_value_range,
    size_of_stream_configuration,
  }

  -- The size that is stored, or `none` for the unknown-property error.
  unfoldable pub plug_in_size : Plugin → PlugInSelector → Option ℕ
  plug_in_size p PlugInSelector.class = some size_of_u32
  plug_in_size p PlugInSelector.owner = some size_of_u32
  plug_in_size p PlugInSelector.creator = some size_of_string_ref
  plug_in_size p PlugInSelector.name = some size_of_string_ref
  plug_in_size p PlugInSelector.manufacturer = some size_of_string_ref
  plug_in_size p PlugInSelector.bundle_id = some size_of_string_ref
  plug_in_size p PlugInSelector.owned_objects =
      some (if p.device_object_id == unknown_id then 0 else size_of_u32)
  plug_in_size p PlugInSelector.is_extension = some size_of_u32
  plug_in_size p PlugInSelector.other = none

  unfoldable pub device_size : Plugin → Address → DeviceSelector → Option ℕ
  unfolding has_stream
  device_size p a DeviceSelector.class = some size_of_u32
  device_size p a DeviceSelector.owner = some size_of_u32
  device_size p a DeviceSelector.transport_type = some size_of_u32
  device_size p a DeviceSelector.is_alive = some size_of_u32
  device_size p a DeviceSelector.is_running = some size_of_u32
  device_size p a DeviceSelector.is_running_somewhere = some size_of_u32
  device_size p a DeviceSelector.suspended_by_user = some size_of_u32
  device_size p a DeviceSelector.hog_mode = some size_of_u32
  device_size p a DeviceSelector.latency = some size_of_u32
  device_size p a DeviceSelector.can_process_avc = some size_of_u32
  device_size p a DeviceSelector.can_process_rs422 = some size_of_u32
  device_size p a DeviceSelector.exclude_non_dal = some size_of_u32
  device_size p a DeviceSelector.creator = some size_of_string_ref
  device_size p a DeviceSelector.name = some size_of_string_ref
  device_size p a DeviceSelector.manufacturer = some size_of_string_ref
  device_size p a DeviceSelector.device_uid = some size_of_string_ref
  device_size p a DeviceSelector.model_uid = some size_of_string_ref
  device_size p a DeviceSelector.owned_objects =
      some (if p.stream_object_id == unknown_id then 0 else size_of_u32)
  device_size p a DeviceSelector.streams = some (if has_stream p a then size_of_u32 else 0)
  device_size p a DeviceSelector.stream_configuration = some (
      if is_input_scope a
      then size_of_stream_configuration + size_of_u32
      else size_of_stream_configuration)
  device_size p a DeviceSelector.other = none

  unfoldable pub stream_size : StreamSelector → Option ℕ
  stream_size StreamSelector.class = some size_of_u32
  stream_size StreamSelector.owner = some size_of_u32
  stream_size StreamSelector.direction = some size_of_u32
  stream_size StreamSelector.terminal_type = some size_of_u32
  stream_size StreamSelector.starting_channel = some size_of_u32
  stream_size StreamSelector.latency = some size_of_u32
  stream_size StreamSelector.no_data_event_count = some size_of_u32
  stream_size StreamSelector.no_data_timeout = some size_of_u32
  stream_size StreamSelector.can_process_deck = some size_of_u32
  stream_size StreamSelector.end_of_data = some size_of_u32
  stream_size StreamSelector.creator = some size_of_string_ref
  stream_size StreamSelector.name = some size_of_string_ref
  stream_size StreamSelector.manufacturer = some size_of_string_ref
  stream_size StreamSelector.owned_objects = some 0
  stream_size StreamSelector.format_description = some size_of_format_ref
  stream_size StreamSelector.format_descriptions = some size_of_array_ref
  stream_size StreamSelector.frame_rate = some size_of_float64
  stream_size StreamSelector.frame_rates = some size_of_float64
  stream_size StreamSelector.frame_rate_ranges = some size_of_value_range
  stream_size StreamSelector.other = none

  abbrev pub or_unknown : Option ℕ → Status × Option ℕ
  or_unknown none = (unknown_property, none)
  or_unknown (some n) = (no_error, some n)

  unfoldable pub object_size : Plugin → Object → Address → Status × Option ℕ
  object_size p Object.plug_in a = or_unknown (plug_in_size p a.plug_in_selector)
  object_size p Object.device a = or_unknown (device_size p a a.device_selector)
  object_size p Object.stream a = or_unknown (stream_size a.stream_selector)
  object_size p Object.no_object a = (bad_object, none)

  -- The status and what is stored in `*data_size`. `has_out` is that the pointer is not null.
  unfoldable pub plug_in_object_get_property_data_size :
      Plugin → ℕ → Option Address → Bool → Status × Option ℕ
  plug_in_object_get_property_data_size p id none has_out = (illegal_operation, none)
  plug_in_object_get_property_data_size p id (some a) false = (illegal_operation, none)
  plug_in_object_get_property_data_size p id (some a) true = object_size p (object_of p id) a
