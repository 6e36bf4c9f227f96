-- ===== src/Dal/Selectors.antt =====
-- Which properties the objects of src/dal_plugin/KinectCameraDALPlugin.cpp have, and setting them.
use mac_kinect_native.Base.{ℕ, Bool, true, false, not, ◌&&◌, Option, none, some}
use mac_kinect_native.Base.Tests.{◌==◌, if◌then◌else◌}
use mac_kinect_native.Dal.Types.{
  PlugInSelector, DeviceSelector, StreamSelector, Address, Status, no_error, illegal_operation,
  unknown_property, bad_object, unsupported_operation, Plugin, Object, object_of,
}

unfoldable pub has_property_for_plug_in : PlugInSelector → Bool
has_property_for_plug_in PlugInSelector.class = true
has_property_for_plug_in PlugInSelector.owner = true
has_property_for_plug_in PlugInSelector.creator = true
has_property_for_plug_in PlugInSelector.name = true
has_property_for_plug_in PlugInSelector.manufacturer = true
has_property_for_plug_in PlugInSelector.owned_objects = true
has_property_for_plug_in PlugInSelector.bundle_id = true
has_property_for_plug_in PlugInSelector.is_extension = true
has_property_for_plug_in PlugInSelector.other = false

unfoldable pub has_property_for_device : DeviceSelector → Bool
has_property_for_device DeviceSelector.class = true
has_property_for_device DeviceSelector.owner = true
has_property_for_device DeviceSelector.creator = true
has_property_for_device DeviceSelector.name = true
has_property_for_device DeviceSelector.manufacturer = true
has_property_for_device DeviceSelector.owned_objects = true
has_property_for_device DeviceSelector.device_uid = true
has_property_for_device DeviceSelector.model_uid = true
has_property_for_device DeviceSelector.transport_type = true
has_property_for_device DeviceSelector.is_alive = true
has_property_for_device DeviceSelector.is_running = true
has_property_for_device DeviceSelector.is_running_somewhere = true
has_property_for_device DeviceSelector.suspended_by_user = true
has_property_for_device DeviceSelector.hog_mode = true
has_property_for_device DeviceSelector.latency = true
has_property_for_device DeviceSelector.streams = true
has_property_for_device DeviceSelector.stream_configuration = true
has_property_for_device DeviceSelector.can_process_avc = true
has_property_for_device DeviceSelector.can_process_rs422 = true
has_property_for_device DeviceSelector.exclude_non_dal = true
has_property_for_device DeviceSelector.other = false

unfoldable pub has_property_for_stream : StreamSelector → Bool
has_property_for_stream StreamSelector.class = true
has_property_for_stream StreamSelector.owner = true
has_property_for_stream StreamSelector.creator = true
has_property_for_stream StreamSelector.name = true
has_property_for_stream StreamSelector.manufacturer = true
has_property_for_stream StreamSelector.owned_objects = true
has_property_for_stream StreamSelector.direction = true
has_property_for_stream StreamSelector.terminal_type = true
has_property_for_stream StreamSelector.starting_channel = true
has_property_for_stream StreamSelector.latency = true
has_property_for_stream StreamSelector.format_description = true
has_property_for_stream StreamSelector.format_descriptions = true
has_property_for_stream StreamSelector.frame_rate = true
has_property_for_stream StreamSelector.frame_rates = true
has_property_for_stream StreamSelector.frame_rate_ranges = true
has_property_for_stream StreamSelector.no_data_event_count = true
has_property_for_stream StreamSelector.no_data_timeout = true
has_property_for_stream StreamSelector.can_process_deck = true
has_property_for_stream StreamSelector.end_of_data = true
has_property_for_stream StreamSelector.other = false

unfoldable pub object_has : Object → Address → Bool
object_has Object.plug_in a = has_property_for_plug_in a.plug_in_selector
object_has Object.device a = has_property_for_device a.device_selector
object_has Object.stream a = has_property_for_stream a.stream_selector
object_has Object.no_object a = false

unfoldable pub plug_in_object_has_property : Plugin → ℕ → Option Address → Bool
plug_in_object_has_property p id none = false
plug_in_object_has_property p id (some a) = object_has (object_of p id) a

-- The status, and what is stored in `*is_settable`. `has_out` is that the pointer is not null.
unfoldable pub plug_in_object_is_property_settable :
    Plugin → ℕ → Option Address → Bool → Status × Option Bool
plug_in_object_is_property_settable p id none has_out = (illegal_operation, none)
plug_in_object_is_property_settable p id (some a) false = (illegal_operation, none)
plug_in_object_is_property_settable p id (some a) true =
    if not (plug_in_object_has_property p id (some a))
    then (unknown_property, none)
    else (no_error, some false)

unfoldable pub plug_in_object_set_property_data : Plugin → ℕ → Option Address → Status
plug_in_object_set_property_data p id none = illegal_operation
plug_in_object_set_property_data p id (some a) =
    if not (id == p.plug_in_object_id)
      && (not (id == p.device_object_id) && not (id == p.stream_object_id))
    then bad_object
    else if a.is_listener
    then no_error
    else unsupported_operation
