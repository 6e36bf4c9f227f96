-- ===== src/Dal/Data.antt =====
-- `PlugInObjectGetPropertyData` of src/dal_plugin/KinectCameraDALPlugin.cpp, with its globals as
-- state. The strings and the array that CoreFoundation makes are taken to be made.
use Prim.Native.String.{String}
use mac_kinect_native.Base.{ℕ, ◌+◌, Bool, true, false, not, ◌||◌, Option, none, some, [], ◌∷◌}
use mac_kinect_native.Base.Tests.{ltb, ◌==◌, if◌then◌else◌}
use mac_kinect_native.Dal.Types.{
  CoreMedia, PlugInSelector, DeviceSelector, StreamSelector, Address, illegal_operation,
  unknown_property, bad_property_size, bad_object, unspecified, Plugin, Object, object_of,
  is_input_scope, size_of_u32, size_of_float64, unknown_id, plug_in_class, device_class,
  stream_class, Value, class_id, object_id, system_object, string, virtual_transport, number, range,
  configuration, the_format, array_of_the_format, Reply, stores, stores_nothing, fails,
}

abbrev pub k_plugin_bundle_id : String
k_plugin_bundle_id = "com.mackinect.cameradal"

abbrev pub k_plugin_name : String
k_plugin_name = "macKinect Camera DAL"

abbrev pub k_manufacturer_name : String
k_manufacturer_name = "macKinect"

abbrev pub k_device_uid : String
k_device_uid = "com.mackinect.cameradal.device"

abbrev pub k_model_uid : String
k_model_uid = "com.mackinect.cameradal.model"

abbrev pub k_output_fps : ℕ
k_output_fps = 30

-- `WriteScalar`, and the same test and store where a case writes them out.
unfoldable pub write_scalar : ℕ → ℕ → Value → Reply
write_scalar data_size size v =
    if ltb data_size size then fails bad_property_size else stores size v

-- `EnsureFormatDescriptionLocked`, and one more reference for the caller; `creates` is that
-- `CMVideoFormatDescriptionCreate` would succeed. `none` is failure.
unfoldable pub ensure_format_description : Bool → Option ℕ → Option ℕ
ensure_format_description creates (some refs) = some refs
ensure_format_description true none = some 1
ensure_format_description false none = none

-- The reply, and the state after it, of the two properties that hand out the format.
unfoldable pub hand_out_format : Option ℕ → ℕ → Value → Plugin → Reply × Plugin
hand_out_format none size v p = (fails unspecified, p)
hand_out_format (some refs) size v p = (stores size v, record p { format_refs = some (refs + 1) })

module _ (cm : CoreMedia) where
  open cm use {
    size_of_string_ref, size_of_array_ref, size_of_format_ref, size_of_value_range,
    size_of_stream_configuration,
  }

  module _ (data_size : ℕ) (p : Plugin) where
    abbrev written : ℕ → Value → Reply
    written size v = write_scalar data_size size v

    unfoldable pub plug_in_data : PlugInSelector → Reply
    unfolding write_scalar
    plug_in_data PlugInSelector.class = written size_of_u32 (class_id plug_in_class)
    plug_in_data PlugInSelector.owner = written size_of_u32 system_object
    plug_in_data PlugInSelector.creator = written size_of_string_ref (string k_plugin_bundle_id)
    plug_in_data PlugInSelector.bundle_id = written size_of_string_ref (string k_plugin_bundle_id)
    plug_in_data PlugInSelector.name = written size_of_string_ref (string k_plugin_name)
    plug_in_data PlugInSelector.manufacturer =
        written size_of_string_ref (string k_manufacturer_name)
    plug_in_data PlugInSelector.owned_objects =
        if p.device_object_id == unknown_id
        then stores_nothing
        else written size_of_u32 (object_id p.device_object_id)
    plug_in_data PlugInSelector.is_extension = written size_of_u32 (number 0)
    plug_in_data PlugInSelector.other = fails unknown_property

    unfoldable pub device_data : Address → DeviceSelector → Reply
    unfolding write_scalar is_input_scope
    device_data a DeviceSelector.class = written size_of_u32 (class_id device_class)
    device_data a DeviceSelector.owner = written size_of_u32 (object_id p.plug_in_object_id)
    device_data a DeviceSelector.creator = written size_of_string_ref (string k_plugin_bundle_id)
    device_data a DeviceSelector.name = written size_of_string_ref (string "Kinect Camera")
    device_data a DeviceSelector.manufacturer =
        written size_of_string_ref (string k_manufacturer_name)
    device_data a DeviceSelector.owned_objects =
        if p.stream_object_id == unknown_id
        then stores_nothing
        else written size_of_u32 (object_id p.stream_object_id)
    device_data a DeviceSelector.device_uid = written size_of_string_ref (string k_device_uid)
    device_data a DeviceSelector.model_uid = written size_of_string_ref (string k_model_uid)
    device_data a DeviceSelector.transport_type = written size_of_u32 virtual_transport
    device_data a DeviceSelector.is_alive = written size_of_u32 (number 1)
    device_data a DeviceSelector.is_running =
        written size_of_u32 (number (if ltb 0 p.running_clients then 1 else 0))
    device_data a DeviceSelector.is_running_somewhere =
        written size_of_u32 (number (if ltb 0 p.running_clients then 1 else 0))
    device_data a DeviceSelector.suspended_by_user = written size_of_u32 (number 0)
    device_data a DeviceSelector.hog_mode = written size_of_u32 (number 0)
    device_data a DeviceSelector.latency = written size_of_u32 (number 0)
    device_data a DeviceSelector.can_process_avc = written size_of_u32 (number 0)
    device_data a DeviceSelector.can_process_rs422 = written size_of_u32 (number 0)
    device_data a DeviceSelector.exclude_non_dal = written size_of_u32 (number 0)
    device_data a DeviceSelector.streams =
        if not (is_input_scope a) || (p.stream_object_id == unknown_id)
        then stores_nothing
        else written size_of_u32 (object_id p.stream_object_id)
    device_data a DeviceSelector.stream_configuration =
        if not (is_input_scope a)
        then written size_of_stream_configuration (configuration 0 [])
        else written (size_of_stream_configuration + size_of_u32) (configuration 1 (1 ∷ []))
    device_data a DeviceSelector.other = fails unknown_property

    unfoldable pub stream_data : Bool → StreamSelector → Reply × Plugin
    unfolding write_scalar ensure_format_description hand_out_format
    stream_data creates StreamSelector.class = (written size_of_u32 (class_id stream_class), p)
    stream_data creates StreamSelector.owner =
        (written size_of_u32 (object_id p.device_object_id), p)
    stream_data creates StreamSelector.creator =
        (written size_of_string_ref (string k_plugin_bundle_id), p)
    stream_data creates StreamSelector.name =
        (written size_of_string_ref (string "Kinect RGB Stream"), p)
    stream_data creates StreamSelector.manufacturer =
        (written size_of_string_ref (string k_manufacturer_name), p)
    stream_data creates StreamSelector.owned_objects = (stores_nothing, p)
    stream_data creates StreamSelector.direction = (written size_of_u32 (number 1), p)
    stream_data creates StreamSelector.terminal_type = (written size_of_u32 (number 0), p)
    stream_data creates StreamSelector.starting_channel = (written size_of_u32 (number 1), p)
    stream_data creates StreamSelector.latency = (written size_of_u32 (number 0), p)
    stream_data creates StreamSelector.no_data_event_count = (written size_of_u32 (number 0), p)
    stream_data creates StreamSelector.no_data_timeout = (written size_of_u32 (number 2000), p)
    stream_data creates StreamSelector.can_process_deck = (written size_of_u32 (number 0), p)
    stream_data creates StreamSelector.end_of_data = (written size_of_u32 (number 0), p)
    stream_data creates StreamSelector.format_description =
        if ltb data_size size_of_format_ref
        then (fails bad_property_size, p)
        else hand_out_format (ensure_format_description creates p.format_refs) size_of_format_ref
            the_format p
    stream_data creates StreamSelector.format_descriptions =
        if ltb data_size size_of_array_ref
        then (fails bad_property_size, p)
        else hand_out_format (ensure_format_description creates p.format_refs) size_of_array_ref
            array_of_the_format p
    stream_data creates StreamSelector.frame_rate =
        (written size_of_float64 (number k_output_fps), p)
    stream_data creates StreamSelector.frame_rates =
        (written size_of_float64 (number k_output_fps), p)
    stream_data creates StreamSelector.frame_rate_ranges =
        (written size_of_value_range (range k_output_fps k_output_fps), p)
    stream_data creates StreamSelector.other = (fails unknown_property, p)

    unfoldable pub object_data : Bool → Object → Address → Reply × Plugin
    object_data creates Object.plug_in a = (plug_in_data a.plug_in_selector, p)
    object_data creates Object.device a = (device_data a a.device_selector, p)
    object_data creates Object.stream a = stream_data creates a.stream_selector
    object_data creates Object.no_object a = (fails bad_object, p)

    -- `has_data` is that the pointer is not null.
    unfoldable pub plug_in_object_get_property_data :
        Bool → ℕ → Option Address → Bool → Reply × Plugin
    plug_in_object_get_property_data creates id none has_data = (fails illegal_operation, p)
    plug_in_object_get_property_data creates id (some a) false = (fails illegal_operation, p)
    plug_in_object_get_property_data creates id (some a) true =
        object_data creates (object_of p id) a
