-- ===== src/Hal/Selectors.antt =====
-- Which properties the objects of src/hal_plugin/KinectAudioHALPlugin.cpp have.
use mac_kinect_native.Base.{ℕ, Bool, true, false, ◌&&◌, Option, none, some}
use mac_kinect_native.Base.Tests.{if◌then◌else◌}
use mac_kinect_native.Hal.Types.{
  PlugInSelector, DeviceSelector, StreamSelector, Scope, Object, object_of, is_device,
  is_stream_input, Address, Status, no_error, illegal_operation,
}

unfoldable pub is_input_scope : Option Address → Bool
is_input_scope none = false
is_input_scope (some a) = elim a.scope [
  | Scope.input ↦ true
  | Scope.global ↦ true
  | Scope.elsewhere ↦ false
]

unfoldable pub plug_in_has : PlugInSelector → Bool
plug_in_has PlugInSelector.base_class = true
plug_in_has PlugInSelector.class = true
plug_in_has PlugInSelector.manufacturer = true
plug_in_has PlugInSelector.owned_objects = true
plug_in_has PlugInSelector.device_list = true
plug_in_has PlugInSelector.translate_uid_to_device = true
plug_in_has PlugInSelector.resource_bundle = true
plug_in_has PlugInSelector.other = false

unfoldable pub device_has : DeviceSelector → Bool
device_has DeviceSelector.base_class = true
device_has DeviceSelector.class = true
device_has DeviceSelector.owner = true
device_has DeviceSelector.name = true
device_has DeviceSelector.manufacturer = true
device_has DeviceSelector.owned_objects = true
device_has DeviceSelector.device_uid = true
device_has DeviceSelector.model_uid = true
device_has DeviceSelector.transport_type = true
device_has DeviceSelector.streams = true
device_has DeviceSelector.nominal_sample_rate = true
device_has DeviceSelector.available_nominal_sample_rates = true
device_has DeviceSelector.buffer_frame_size = true
device_has DeviceSelector.buffer_frame_size_range = true
device_has DeviceSelector.device_is_alive = true
device_has DeviceSelector.device_is_running = true
device_has DeviceSelector.latency = true
device_has DeviceSelector.other = false

unfoldable pub stream_has : StreamSelector → Bool
stream_has StreamSelector.base_class = true
stream_has StreamSelector.class = true
stream_has StreamSelector.owner = true
stream_has StreamSelector.name = true
stream_has StreamSelector.direction = true
stream_has StreamSelector.terminal_type = true
stream_has StreamSelector.starting_channel = true
stream_has StreamSelector.virtual_format = true
stream_has StreamSelector.available_virtual_formats = true
stream_has StreamSelector.physical_format = true
stream_has StreamSelector.available_physical_formats = true
stream_has StreamSelector.other = false

unfoldable pub object_has : Object → Address → Bool
object_has Object.plug_in a = plug_in_has a.plug_in_selector
object_has Object.device a = device_has a.device_selector
object_has Object.stream_input a = stream_has a.stream_selector
object_has Object.no_object a = false

unfoldable pub driver_has_property : ℕ → Option Address → Bool
driver_has_property id none = false
driver_has_property id (some a) = object_has (object_of id) a

unfoldable pub device_settable : DeviceSelector → Bool
device_settable DeviceSelector.nominal_sample_rate = true
device_settable DeviceSelector.buffer_frame_size = true
device_settable _ = false

unfoldable pub stream_settable : StreamSelector → Bool
stream_settable StreamSelector.virtual_format = true
stream_settable StreamSelector.physical_format = true
stream_settable _ = false

-- The status, and what is stored in `*out_is_settable` (`none` if nothing is). `has_out` is that
-- this pointer is not null.
unfoldable pub driver_is_property_settable : ℕ → Option Address → Bool → Status × Option Bool
unfolding device_settable stream_settable
driver_is_property_settable id none has_out = (illegal_operation, none)
driver_is_property_settable id (some a) false = (illegal_operation, none)
driver_is_property_settable id (some a) true =
    if is_device (object_of id) && device_settable a.device_selector
    then (no_error, some true)
    else if is_stream_input (object_of id) && stream_settable a.stream_selector
    then (no_error, some true)
    else (no_error, some false)
