-- ===== src/Dal/Examples.antt =====
-- The theorems on the virtual camera at a concrete CoreMediaIO and queue.
use mac_kinect_native.Base.{
  ◌-◌, ◌^◌, ℕ, ◌≡◌, refl, none, some, Option, true, false, List, [], ◌∷◌, ◌++◌, arith,
}
use mac_kinect_native.Base.Tests.{ltb, if◌then◌else◌}
use mac_kinect_native.Base.Lists.{length}
use mac_kinect_native.Dal.Types.{
  CoreMedia, PlugInSelector, DeviceSelector, StreamSelector, Scope, Address, Plugin, creates,
  publishes, kills, object_of, no_error, host_error, unknown_id,
}
use mac_kinect_native.Dal.DataSize.{plug_in_object_get_property_data_size}
use mac_kinect_native.Dal.Data.{plug_in_object_get_property_data}
use mac_kinect_native.Dal.Consistent.{ObjectFits, object_get_property_data-ObjectFits}
use mac_kinect_native.Dal.Queue.{SimpleQueue, IsSimpleQueue}
use mac_kinect_native.Dal.Store.{queued}
use mac_kinect_native.Dal.Objects.{
  Created, initial_plugin, plug_in_initialize_with_object_id, forget_objects,
}
use mac_kinect_native.Dal.Race.{stop_streams_at_once, stop_race}
use mac_kinect_native.Dal.Producer.{start_producing_if_needed}
use mac_kinect_native.Dal.Producer.{Camera, FrameAnswers, initial_camera, plug_in_device_suspend}
use mac_kinect_native.Dal.Events.{Event, run}
use mac_kinect_native.Dal.Invariant.{Inv, running_view}
use mac_kinect_native.Dal.Promises.{run-IsConsistent, suspend_stops_all}
use mac_kinect_native.Dal.Ownership.{all_well, initialize-forget, retry_leaks_device}
use mac_kinect_native.Dal.Pixels.{IsDrawn, fill_from_rgb, fill_from_rgb-IsDrawn}

abbrev media : CoreMedia
media = record {
  size_of_string_ref = 8;
  size_of_array_ref = 8;
  size_of_format_ref = 8;
  size_of_value_range = 16;
  size_of_stream_configuration = 8;
}

-- A queue as its capacity and its elements.
abbrev dequeue_list : List ℕ → Option ℕ × List ℕ
dequeue_list [] = (none, [])
dequeue_list (x ∷ xs) = (some x, xs)

abbrev lists : SimpleQueue
lists = record {
  Queue = ℕ × List ℕ;
  create = λ n. (n, []);
  get_count = λ q. length q.1;
  dequeue = λ q. ((dequeue_list q.1).0, (q.0, (dequeue_list q.1).1));
  enqueue = λ x q. if ltb (length q.1) q.0 then (true, (q.0, q.1 ++ (x ∷ []))) else (false, q);
  capacity = λ q. q.0;
  contents = λ q. q.1;
}

lists-IsSimpleQueue : IsSimpleQueue lists
lists-IsSimpleQueue = record {
  contents-create = λ n. refl;
  capacity-create = λ n. refl;
  get_count_lem = λ q. refl;
  dequeue_cons = λ q x xs e. rw e (refl, refl);
  dequeue_empty = λ q e. rw e (refl, refl);
  capacity-dequeue = λ q. refl;
  enqueue_room = λ x q h. ground arith;
  capacity-enqueue = λ x q. ground arith;
}

abbrev good_frame : FrameAnswers
good_frame = record {
  pixel_buffer_made = true;
  locks = true;
  format_made = true;
  sample_made = true;
}

abbrev history : List Event
history =
    Event.initializes_with_object_id (all_well 5 6) 1
    ∷ Event.copies_queue true true true 6
    ∷ Event.starts_stream true 5 6
    ∷ Event.frame good_frame
    ∷ Event.frame good_frame
    ∷ Event.client_takes_sample
    ∷ Event.starts_stream true 5 6
    ∷ Event.frame good_frame
    ∷ []

run-IsConsistent_example :
    (c : Camera lists) × (run lists history (initial_camera lists) ≡ some c) × Inv lists 0 c
run-IsConsistent_example = run-IsConsistent lists lists-IsSimpleQueue history (omega arith)

abbrev reached : Camera lists
reached = (run-IsConsistent lists lists-IsSimpleQueue history (omega arith)).0

suspend_stops_all_example :
    let r = plug_in_device_suspend lists reached.plugin.device_object_id reached in
    (r.1 ≡ no_error)
    × (running_view r.0.plugin ≡ (false, false, 0, false))
    × (queued lists r.0.sample_queue ≡ [])
suspend_stops_all_example =
    suspend_stops_all lists lists-IsSimpleQueue 0 reached
      (run-IsConsistent lists lists-IsSimpleQueue history (omega arith)).2

initialize-forget_example :
    let r = plug_in_initialize_with_object_id (all_well 5 6) 1 initial_plugin in
    let r' = plug_in_initialize_with_object_id (all_well 7 8) 2 r.0 in
    let p = forget_objects r'.0 in
    (r.1 ≡ no_error)
    × (r' ≡ (record r.0 { plug_in_object_id = 2 }, no_error))
    × (p.host_calls
        ≡ kills 2 5 ∷ kills 5 6 ∷ publishes 5 6 ∷ publishes 1 5 ∷ creates 6 ∷ creates 5 ∷ [])
    × (p.device_object_id ≡ unknown_id)
    × (p.stream_object_id ≡ unknown_id)
initialize-forget_example =
    initialize-forget 5 6 1 2 (all_well 7 8) (λ e. absurd (omega arith)) (λ e. absurd (omega arith))

retry_leaks_device_example :
    let refusing = record (all_well 5 6) { stream = Created.refused 9 } in
    let r = plug_in_initialize_with_object_id refusing 1 initial_plugin in
    let r' = plug_in_initialize_with_object_id (all_well 7 6) 1 r.0 in
    (r.1 ≡ host_error 9)
    × (r'.1 ≡ no_error)
    × ((forget_objects r'.0).host_calls
        ≡ kills 1 7
          ∷ kills 7 6
          ∷ publishes 7 6
          ∷ publishes 1 7
          ∷ creates 6
          ∷ creates 7
          ∷ creates 5
          ∷ [])
retry_leaks_device_example =
    retry_leaks_device 5 7 6 1 9 (λ e. absurd (omega arith)) (λ e. absurd (omega arith))
      (λ e. absurd (omega arith))

abbrev camera_plugin : Plugin
camera_plugin = (plug_in_initialize_with_object_id (all_well 5 6) 1 initial_plugin).0

abbrev streams_address : Address
streams_address = record {
  plug_in_selector = PlugInSelector.other;
  device_selector = DeviceSelector.streams;
  stream_selector = StreamSelector.format_description;
  is_listener = false;
  scope = Scope.input;
}

object_get_property_data-ObjectFits_example :
    ObjectFits media true camera_plugin streams_address.stream_selector
      (object_of camera_plugin 6)
      (plug_in_object_get_property_data_size media camera_plugin 6 (some streams_address) true).1
      8
      (plug_in_object_get_property_data media 8 camera_plugin true 6 (some streams_address) true).0
object_get_property_data-ObjectFits_example =
    object_get_property_data-ObjectFits media true 6 8 streams_address camera_plugin

fill_from_rgb-IsDrawn_example : IsDrawn 640 480 (fill_from_rgb (1 ∷ 2 ∷ 3 ∷ 4 ∷ 5 ∷ 6 ∷ []) 2 1 7)
fill_from_rgb-IsDrawn_example =
    fill_from_rgb-IsDrawn (1 ∷ 2 ∷ 3 ∷ 4 ∷ 5 ∷ 6 ∷ []) 2 1 7
      (record { bytes = omega arith; wide = omega arith; high = omega arith })

-- A camera with one client.
abbrev one_client : Camera lists
one_client = record (initial_camera lists) {
  plugin = record initial_plugin {
    has_plug_in_ref = true;
    device_object_id = 5;
    stream_object_id = 6;
    producer_running = true;
    has_thread = true;
    running_clients = 1;
    source_started = true;
  };
}

stop_race_example :
    let d = stop_streams_at_once lists one_client in
    (running_view d.plugin ≡ (false, false, 2 ^ 32 - 1, false))
    × (e : Camera lists) × (start_producing_if_needed lists true d ≡ some e)
    × (running_view e.plugin ≡ (false, false, 0, false))
stop_race_example = stop_race lists true one_client refl
