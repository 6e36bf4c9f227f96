-- ===== src/Hal/Types.antt =====
-- The types of src/hal_plugin/KinectAudioHALPlugin.cpp. CoreAudio and the floating-point numbers are
-- parameters: the sizes of its structures, its clock, and the type `Float64` with what is computed
-- on it.
use Prim.Native.String.{String}
use mac_kinect_native.Base.{ℕ, Bool, true, false}
use mac_kinect_native.Base.Tests.{◌==◌, if◌then◌else◌}

pub record CoreAudio : Type 1 where
  pub Float64 : Type 0
  -- A literal such as `48000.0`.
  pub literal : ℕ → Float64
  -- `AudioConvertHostTimeToNanos(ticks) / 1.0e9 * sample_rate`.
  pub sample_time : ℕ → Float64 → Float64
  pub size_of_string_ref : ℕ
  pub size_of_value_range : ℕ
  pub size_of_stream_description : ℕ
  pub size_of_ranged_description : ℕ

-- `UInt32`, and `AudioClassID` and `AudioObjectID`, which are `UInt32`.
abbrev pub size_of_u32 : ℕ
size_of_u32 = 4

abbrev pub size_of_float64 : ℕ
size_of_float64 = 8

-- The objects: the plug-in is `kAudioObjectPlugInObject` of CoreAudio.
abbrev pub k_audio_object_plug_in_object : ℕ
k_audio_object_plug_in_object = 1

abbrev pub k_object_id_device : ℕ
k_object_id_device = 2

abbrev pub k_object_id_stream_input : ℕ
k_object_id_stream_input = 3

abbrev pub k_audio_object_unknown : ℕ
k_audio_object_unknown = 0

-- The labels of `switch (in_object_id)`, and the object that a number names.
pub data Object : Type 0 where
  plug_in device stream_input no_object : Object

unfoldable pub object_of : ℕ → Object
object_of id =
    if id == k_audio_object_plug_in_object
    then Object.plug_in
    else if id == k_object_id_device
    then Object.device
    else if id == k_object_id_stream_input
    then Object.stream_input
    else Object.no_object

abbrev pub is_device : Object → Bool
is_device Object.device = true
is_device _ = false

abbrev pub is_stream_input : Object → Bool
is_stream_input Object.stream_input = true
is_stream_input _ = false

-- A selector as the `switch` of each object tells it from others; `other` is its `default`.
pub data PlugInSelector : Type 0 where
  base_class class manufacturer owned_objects device_list : PlugInSelector
  translate_uid_to_device resource_bundle other : PlugInSelector

pub data DeviceSelector : Type 0 where
  base_class class owner name manufacturer owned_objects : DeviceSelector
  device_uid model_uid transport_type streams nominal_sample_rate : DeviceSelector
  available_nominal_sample_rates buffer_frame_size buffer_frame_size_range : DeviceSelector
  device_is_alive device_is_running latency other : DeviceSelector

pub data StreamSelector : Type 0 where
  base_class class owner name direction terminal_type starting_channel : StreamSelector
  virtual_format available_virtual_formats physical_format : StreamSelector
  available_physical_formats other : StreamSelector

pub data Scope : Type 0 where
  input global elsewhere : Scope

-- `AudioObjectPropertyAddress`, with its selector as each object reads it.
pub record Address : Type 0 where
  pub plug_in_selector : PlugInSelector
  pub device_selector : DeviceSelector
  pub stream_selector : StreamSelector
  pub scope : Scope

pub data Status : Type 0 where
  no_error illegal_operation unknown_property bad_property_size unsupported_operation : Status

pub data ClassId : Type 0 where
  object_class plug_in_class device_class stream_class : ClassId

-- `AudioStreamBasicDescription`; the format ID and flags are those of packed native 32-bit floats.
pub record StreamDescription (F : Type 0) : Type 0 where
  pub sample_rate : F
  pub bytes_per_packet : ℕ
  pub frames_per_packet : ℕ
  pub bytes_per_frame : ℕ
  pub channels_per_frame : ℕ
  pub bits_per_channel : ℕ

-- What a property holds.
pub data Value (F : Type 0) : Type 0 where
  class_id : ClassId → Value F
  object_id : ℕ → Value F
  string : String → Value F
  null_string : Value F
  virtual_transport : Value F
  microphone_terminal : Value F
  number : ℕ → Value F
  float : F → Value F
  range : F → F → Value F
  format : StreamDescription F → Value F
  ranged_format : StreamDescription F → F → F → Value F

-- What `DriverGetPropertyData` does: it stores a value and its size and returns `noErr`; or it
-- stores the size 0 alone and returns `noErr`; or it stores nothing and returns an error.
pub data Reply (F : Type 0) : Type 0 where
  stores : ℕ → Value F → Reply F
  stores_nothing : Reply F
  fails : Status → Reply F
