-- ===== src/Dal/Events.antt =====
-- Histories of src/dal_plugin/KinectCameraDALPlugin.cpp: the host's calls that change the state, the
-- frames of the producer and the clients' dequeues, in any order.
use mac_kinect_native.Base.{ℕ, suc, Bool, Option, none, some, List, [], ◌∷◌}
use mac_kinect_native.Dal.Types.{Plugin, Status}
use mac_kinect_native.Dal.Queue.{SimpleQueue}
use mac_kinect_native.Dal.Objects.{
  HostAnswers, plug_in_initialize, plug_in_initialize_with_object_id, plug_in_add_ref,
  plug_in_release,
}
use mac_kinect_native.Dal.Producer.{
  Camera, FrameAnswers, plug_in_device_start_stream, plug_in_device_stop_stream,
  plug_in_device_suspend, plug_in_stream_copy_buffer_queue, plug_in_teardown, produce, client_takes,
}

pub data Event : Type 0 where
  adds_ref releases_ref initializes : Event
  initializes_with_object_id : HostAnswers → ℕ → Event
  -- Whether a Kinect starts; the device and the stream.
  starts_stream : Bool → ℕ → ℕ → Event
  stops_stream : ℕ → ℕ → Event
  suspends : ℕ → Event
  copies_queue : Bool → Bool → Bool → ℕ → Event
  tears_down : Event
  frame : FrameAnswers → Event
  client_takes_sample : Event

abbrev pub starts_from : Event → ℕ → ℕ
starts_from (Event.starts_stream _ _ _) n = suc n
starts_from _ n = n

-- How many events start a stream.
abbrev pub starts : List Event → ℕ
starts [] = 0
starts (e ∷ es) = starts_from e (starts es)

module _ (sq : SimpleQueue) where
  abbrev pub camera_of : Option (Camera sq × Status) → Option (Camera sq)
  camera_of none = none
  camera_of (some (c, status)) = some c

  unfoldable pub with_plugin : Plugin → Camera sq → Camera sq
  with_plugin p c = record c { plugin = p }

  -- The camera after an event; `none` is that the process is terminated.
  unfoldable pub step : Event → Camera sq → Option (Camera sq)
  unfolding with_plugin
  step Event.adds_ref c = some (with_plugin (plug_in_add_ref c.plugin).0 c)
  step Event.releases_ref c = some (with_plugin (plug_in_release c.plugin).0 c)
  step Event.initializes c = some (with_plugin (plug_in_initialize c.plugin) c)
  step (Event.initializes_with_object_id h id) c =
      some (with_plugin (plug_in_initialize_with_object_id h id c.plugin).0 c)
  step (Event.starts_stream source_starts device stream) c =
      camera_of (plug_in_device_start_stream sq source_starts device stream c)
  step (Event.stops_stream device stream) c = some (plug_in_device_stop_stream sq device stream c).0
  step (Event.suspends device) c = some (plug_in_device_suspend sq device c).0
  step (Event.copies_queue makes has_out has_proc stream) c =
      some (plug_in_stream_copy_buffer_queue sq makes has_out has_proc stream c).0
  step Event.tears_down c = some (plug_in_teardown sq c)
  step (Event.frame f) c = some (produce sq f c)
  step Event.client_takes_sample c = some (client_takes sq c)

  unfoldable pub run : List Event → Camera sq → Option (Camera sq)
  run [] c = some c
  run (e ∷ es) c = elim (step e c) [ none ↦ none | some c1 ↦ run es c1 ]
