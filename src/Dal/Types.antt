-- ===== src/Dal/Types.antt =====
-- The types and the state of src/dal_plugin/KinectCameraDALPlugin.cpp. CoreMediaIO is a parameter:
-- the sizes of its structures. The constants of its headers are names here.
use Prim.Native.String.{String}
use mac_kinect_native.Base.{ℕ, Bool, true, false, not, ◌&&◌, Option, List}
use mac_kinect_native.Base.Tests.{◌==◌, if◌then◌else◌}

pub record CoreMedia : Type 0 where
  pub size_of_string_ref : ℕ
  pub size_of_array_ref : ℕ
  pub size_of_format_ref : ℕ
  pub size_of_value_range : ℕ
  pub size_of_stream_configuration : ℕ

-- `UInt32`, and `CMIOObjectID` and `CMIOClassID`, which are `UInt32`; `Float64`.
abbrev pub size_of_u32 : ℕ
size_of_u32 = 4

abbrev pub size_of_float64 : ℕ
size_of_float64 = 8

-- `kCMIOObjectUnknown`, `kCMIODeviceUnknown` and `kCMIOStreamUnknown`.
abbrev pub unknown_id : ℕ
unknown_id = 0

-- A selector as the `switch` of each object tells it from others; `other` is its `default`.
pub data PlugInSelector : Type 0 where
  class owner creator name manufacturer owned_objects : PlugInSelector
  bundle_id is_extension other : PlugInSelector

pub data DeviceSelector : Type 0 where
  class owner creator name manufacturer owned_objects : DeviceSelector
  device_uid model_uid transport_type is_alive is_running is_running_somewhere : DeviceSelector
  suspended_by_user hog_mode latency streams stream_configuration : DeviceSelector
  can_process_avc can_process_rs422 exclude_non_dal other : DeviceSelector

pub data StreamSelector : Type 0 where
  class owner creator name manufacturer owned_objects : StreamSelector
  direction terminal_type starting_channel latency : StreamSelector
  format_description format_descriptions frame_rate frame_rates : StreamSelector
  frame_rate_ranges no_data_event_count no_data_timeout : StreamSelector
  can_process_deck end_of_data other : StreamSelector

pub data Scope : Type 0 where
  input global elsewhere : Scope

-- `CMIOObjectPropertyAddress`, with its selector as each object reads it; `is_listener` is that it
-- is `ListenerAdded` or `ListenerRemoved`.
pub record Address : Type 0 where
  pub plug_in_selector : PlugInSelector
  pub device_selector : DeviceSelector
  pub stream_selector : StreamSelector
  pub is_listener : Bool
  pub scope : Scope

pub data Status : Type 0 where
  no_error illegal_operation unknown_property bad_property_size bad_object : Status
  bad_device bad_stream unspecified unsupported_operation : Status
  -- A return code of CoreMediaIO, passed on.
  host_error : ℕ → Status

pub data ClassId : Type 0 where
  plug_in_class device_class stream_class : ClassId

pub data Value : Type 0 where
  class_id : ClassId → Value
  object_id : ℕ → Value
  system_object : Value
  string : String → Value
  virtual_transport : Value
  number : ℕ → Value
  range : ℕ → ℕ → Value
  -- `mNumberStreams`, and the channels of each stream.
  configuration : ℕ → List ℕ → Value
  the_format array_of_the_format : Value

-- What `PlugInObjectGetPropertyData` does: it stores a value and its size; or the size 0 alone; or
-- nothing, and returns an error. (The size is stored only if `data_used` is not null.)
pub data Reply : Type 0 where
  stores : ℕ → Value → Reply
  stores_nothing : Reply
  fails : Status → Reply

-- What the host is told about objects: they are created, published below an owner, or have died.
pub data HostCall : Type 0 where
  creates : ℕ → HostCall
  publishes kills : ℕ → ℕ → HostCall

-- The globals, but for the queue of samples.
pub record Plugin : Type 0 where
  pub ref_count : ℕ
  pub has_plug_in_ref : Bool
  pub plug_in_object_id : ℕ
  pub device_object_id : ℕ
  pub stream_object_id : ℕ
  pub has_queue_altered_proc : Bool
  -- `gFormatDescription`: the references taken on it since it was made; `none` is null.
  pub format_refs : Option ℕ
  pub producer_running : Bool
  -- `gProducerThread` is joinable.
  pub has_thread : Bool
  pub running_clients : ℕ
  pub frame_counter : ℕ
  -- `gKinectSource` has a started device.
  pub source_started : Bool
  -- How often the host was told that the device's running changed; and the other calls to it,
  -- newest first.
  pub running_notices : ℕ
  pub host_calls : List HostCall

pub data Object : Type 0 where
  plug_in device stream no_object : Object

-- The chain of tests on an object's number.
unfoldable pub object_of : Plugin → ℕ → Object
object_of p id =
    if id == p.plug_in_object_id
    then Object.plug_in
    else if id == p.device_object_id
    then Object.device
    else if id == p.stream_object_id
    then Object.stream
    else Object.no_object

unfoldable pub is_input_scope : Address → Bool
is_input_scope a = elim a.scope [
  | Scope.input ↦ true
  | Scope.global ↦ true
  | Scope.elsewhere ↦ false
]

-- Whether a stream object is published for this scope.
unfoldable pub has_stream : Plugin → Address → Bool
unfolding is_input_scope
has_stream p a = is_input_scope a && not (p.stream_object_id == unknown_id)
