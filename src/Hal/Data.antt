-- ===== src/Hal/Data.antt =====
-- `DriverGetPropertyData` of src/hal_plugin/KinectAudioHALPlugin.cpp. The strings that CoreFoundation
-- makes are taken to be made: `CFStringCreateWithCString` fails on no literal.
use Prim.Native.String.{String}
use text.Mathlib.Text.{◌==◌ as str_eq}
use mac_kinect_native.Base.{ℕ, Bool, true, false, not, ◌&&◌, Option, none, some}
use mac_kinect_native.Base.Tests.{ltb, ◌==◌, if◌then◌else◌}
use mac_kinect_native.Hal.Types.{
  CoreAudio, PlugInSelector, DeviceSelector, StreamSelector, Object, object_of, Address,
  illegal_operation, unknown_property, bad_property_size, size_of_u32, size_of_float64,
  k_audio_object_plug_in_object, k_object_id_device, k_object_id_stream_input,
  k_audio_object_unknown, object_class, plug_in_class, device_class, stream_class,
  StreamDescription, Value, class_id, object_id, string, null_string, virtual_transport,
  microphone_terminal, number, float, range, format, ranged_format, Reply, stores, stores_nothing,
  fails,
}
use mac_kinect_native.Hal.Selectors.{is_input_scope}
use mac_kinect_native.Hal.Driver.{Driver}

abbrev pub k_plug_in_name : String
k_plug_in_name = "macKinect Audio HAL"

abbrev pub k_manufacturer_name : String
k_manufacturer_name = "macKinect"

abbrev pub k_device_uid : String
k_device_uid = "com.mackinect.audiohal.device"

abbrev pub k_model_uid : String
k_model_uid = "com.mackinect.audiohal.model"

-- `if (in_data_size < size) return kAudioHardwareBadPropertySizeError;`, then the store.
unfoldable pub store_if_fits : {F : Type 0} → ℕ → ℕ → Value F → Reply F
store_if_fits data_size size v =
    if ltb data_size size then fails bad_property_size else stores size v

-- The UID that a qualifier names: `none` is a null qualifier, `some none` one that holds a null
-- string.
unfoldable pub translate_uid : Bool → Option (Option String) → ℕ
translate_uid fits none = k_audio_object_unknown
translate_uid fits (some none) = k_audio_object_unknown
translate_uid fits (some (some uid)) =
    if fits && str_eq uid k_device_uid then k_object_id_device else k_audio_object_unknown

module _ (ca : CoreAudio) where
  open ca use {
    Float64, literal, size_of_string_ref, size_of_value_range, size_of_stream_description,
    size_of_ranged_description,
  }

  unfoldable pub make_format : Float64 → StreamDescription Float64
  make_format rate = record {
    sample_rate = rate;
    bytes_per_packet = 4;
    frames_per_packet = 1;
    bytes_per_frame = 4;
    channels_per_frame = 1;
    bits_per_channel = 32;
  }

  module _ (data_size : ℕ) where
    abbrev stored : ℕ → Value Float64 → Reply Float64
    stored size v = store_if_fits data_size size v

    unfoldable pub plug_in_data : ℕ → Option (Option String) → PlugInSelector → Reply Float64
    unfolding store_if_fits translate_uid
    plug_in_data qsize q PlugInSelector.base_class = stored size_of_u32 (class_id object_class)
    plug_in_data qsize q PlugInSelector.class = stored size_of_u32 (class_id plug_in_class)
    plug_in_data qsize q PlugInSelector.manufacturer =
        stored size_of_string_ref (string k_manufacturer_name)
    plug_in_data qsize q PlugInSelector.owned_objects =
        stored size_of_u32 (object_id k_object_id_device)
    plug_in_data qsize q PlugInSelector.device_list =
        stored size_of_u32 (object_id k_object_id_device)
    plug_in_data qsize q PlugInSelector.translate_uid_to_device =
        stored size_of_u32 (object_id (translate_uid (qsize == size_of_string_ref) q))
    plug_in_data qsize q PlugInSelector.resource_bundle = stored size_of_string_ref null_string
    plug_in_data qsize q PlugInSelector.other = fails unknown_property

    unfoldable pub device_streams : Option Address → Reply Float64
    unfolding store_if_fits is_input_scope
    device_streams a =
        if not (is_input_scope a)
        then stores_nothing
        else stored size_of_u32 (object_id k_object_id_stream_input)

    unfoldable pub device_data : Driver Float64 → Option Address → DeviceSelector → Reply Float64
    unfolding store_if_fits device_streams
    device_data d a DeviceSelector.base_class = stored size_of_u32 (class_id object_class)
    device_data d a DeviceSelector.class = stored size_of_u32 (class_id device_class)
    device_data d a DeviceSelector.owner =
        stored size_of_u32 (object_id k_audio_object_plug_in_object)
    device_data d a DeviceSelector.name = stored size_of_string_ref (string k_plug_in_name)
    device_data d a DeviceSelector.manufacturer =
        stored size_of_string_ref (string k_manufacturer_name)
    device_data d a DeviceSelector.owned_objects = device_streams a
    device_data d a DeviceSelector.streams = device_streams a
    device_data d a DeviceSelector.device_uid = stored size_of_string_ref (string k_device_uid)
    device_data d a DeviceSelector.model_uid = stored size_of_string_ref (string k_model_uid)
    device_data d a DeviceSelector.transport_type = stored size_of_u32 virtual_transport
    device_data d a DeviceSelector.nominal_sample_rate =
        stored size_of_float64 (float d.sample_rate)
    device_data d a DeviceSelector.available_nominal_sample_rates =
        stored size_of_value_range (range (literal 16000) (literal 48000))
    device_data d a DeviceSelector.buffer_frame_size =
        stored size_of_u32 (number d.buffer_frame_size)
    device_data d a DeviceSelector.buffer_frame_size_range =
        stored size_of_value_range (range (literal 64) (literal 4096))
    device_data d a DeviceSelector.device_is_alive = stored size_of_u32 (number 1)
    device_data d a DeviceSelector.device_is_running =
        stored size_of_u32 (number (if ltb 0 d.running_io_clients then 1 else 0))
    device_data d a DeviceSelector.latency = stored size_of_u32 (number 0)
    device_data d a DeviceSelector.other = fails unknown_property

    unfoldable pub stream_data : Driver Float64 → StreamSelector → Reply Float64
    unfolding store_if_fits make_format
    stream_data d StreamSelector.base_class = stored size_of_u32 (class_id object_class)
    stream_data d StreamSelector.class = stored size_of_u32 (class_id stream_class)
    stream_data d StreamSelector.owner = stored size_of_u32 (object_id k_object_id_device)
    stream_data d StreamSelector.name = stored size_of_string_ref (string "Kinect Mic Stream")
    stream_data d StreamSelector.direction = stored size_of_u32 (number 1)
    stream_data d StreamSelector.terminal_type = stored size_of_u32 microphone_terminal
    stream_data d StreamSelector.starting_channel = stored size_of_u32 (number 1)
    stream_data d StreamSelector.virtual_format =
        stored size_of_stream_description (format (make_format d.sample_rate))
    stream_data d StreamSelector.physical_format =
        stored size_of_stream_description (format (make_format d.sample_rate))
    stream_data d StreamSelector.available_virtual_formats =
        stored size_of_ranged_description
          (ranged_format (make_format (literal 48000)) (literal 16000) (literal 48000))
    stream_data d StreamSelector.available_physical_formats =
        stored size_of_ranged_description
          (ranged_format (make_format (literal 48000)) (literal 16000) (literal 48000))
    stream_data d StreamSelector.other = fails unknown_property

    unfoldable pub object_data :
        Object → Address → ℕ → Option (Option String) → Driver Float64 → Reply Float64
    object_data Object.plug_in a qsize q d = plug_in_data qsize q a.plug_in_selector
    object_data Object.device a qsize q d = device_data d (some a) a.device_selector
    object_data Object.stream_input a qsize q d = stream_data d a.stream_selector
    object_data Object.no_object a qsize q d = fails unknown_property

    -- `has_outs` is that neither out pointer is null.
    unfoldable pub driver_get_property_data :
        ℕ → Option Address → ℕ → Option (Option String) → Bool → Driver Float64 → Reply Float64
    driver_get_property_data id none qsize q has_outs d = fails illegal_operation
    driver_get_property_data id (some a) qsize q false d = fails illegal_operation
    driver_get_property_data id (some a) qsize q true d = object_data (object_of id) a qsize q d
