-- ===== src/Dal/Producer.antt =====
-- The producer of src/dal_plugin/KinectCameraDALPlugin.cpp: streams, clients, the queue, and the
-- life of the objects. Each operation is one step: the host's calls come one after another, and a
-- frame of the producer's loop, or a client's dequeue, is between two of them.
use mac_kinect_native.Base.{
  ℕ, zero, suc, ◌+◌, ◌-◌, ◌%◌, ◌^◌, Bool, true, false, not, Option, none, some, List, [], ◌∷◌, ◌++◌,
  ◌&&◌,
}
use mac_kinect_native.Base.Tests.{ltb, ◌==◌, if◌then◌else◌, is_some}
use mac_kinect_native.Dal.Types.{
  Plugin, Status, no_error, bad_device, bad_stream, illegal_operation, unspecified,
}
use mac_kinect_native.Dal.Data.{ensure_format_description}
use mac_kinect_native.Dal.Queue.{SimpleQueue, Fate, k_queue_capacity}
use mac_kinect_native.Dal.Store.{flush, enqueue, take}
use mac_kinect_native.Dal.Objects.{initial_plugin, notify_device_running_changed, forget_objects}

-- What CoreVideo and CoreMedia answer while a sample is made.
pub record FrameAnswers : Type 0 where
  pub pixel_buffer_made : Bool
  pub locks : Bool
  pub format_made : Bool
  pub sample_made : Bool

-- `CreateSampleBuffer`, without the pixels: whether there is a sample, and the format after it.
unfoldable pub create_sample_buffer : FrameAnswers → Option ℕ → Bool × Option ℕ
unfolding ensure_format_description
create_sample_buffer f format =
    if not f.pixel_buffer_made
    then (false, format)
    else if not f.locks
    then (false, format)
    else elim (ensure_format_description f.format_made format) [
      | none ↦ (false, format)
      | some refs ↦ (f.sample_made, some refs)
    ]

module _ (sq : SimpleQueue) where
  -- The globals with the queue, whose sample buffers are named by their frame indices; the samples
  -- that were made, what became of those that left, and those that the altered proc was told of.
  pub record Camera : Type 0 where
    pub plugin : Plugin
    pub sample_queue : Option sq.Queue
    pub made : List ℕ
    pub left : List Fate
    pub announced : List ℕ

  unfoldable pub initial_camera : Camera
  initial_camera = record {
    plugin = initial_plugin;
    sample_queue = none;
    made = [];
    left = [];
    announced = [];
  }

  -- `FlushQueueLocked`.
  unfoldable pub flush_queue : Camera → Camera
  unfolding flush
  flush_queue c =
      let h = flush sq (c.sample_queue, c.left) in record c { sample_queue = h.0; left = h.1 }

  -- The part of the loop under the lock, and the release of a sample that was not queued.
  unfoldable pub enqueue_sample : ℕ → Camera → Camera
  unfolding enqueue
  enqueue_sample n c =
      let h = enqueue sq n (c.sample_queue, c.left) in
      record c {
        sample_queue = h.0.0;
        left = h.0.1;
        announced =
            if h.1 && c.plugin.has_queue_altered_proc then c.announced ++ (n ∷ []) else c.announced;
      }

  -- One round of `ProducerLoop`, which ends when `gProducerRunning` is false. The counter is 64 bits
  -- wide.
  unfoldable pub produce : FrameAnswers → Camera → Camera
  unfolding create_sample_buffer enqueue_sample
  produce f c =
      if not c.plugin.producer_running
      then c
      else let n = c.plugin.frame_counter in
        let sample = create_sample_buffer f c.plugin.format_refs in
        let p = record c.plugin { frame_counter = (n + 1) % 2 ^ 64; format_refs = sample.1 } in
        if sample.0
        then enqueue_sample n (record c { plugin = p; made = c.made ++ (n ∷ []) })
        else record c { plugin = p }

  -- `StartProducingIfNeeded`; `source_starts` is that `gKinectSource.start()` found a device. The
  -- client count is 32 bits wide. `none` is `std::terminate`, which the assignment to a joinable
  -- thread calls.
  unfoldable pub start_producing_if_needed : Bool → Camera → Option Camera
  unfolding notify_device_running_changed
  start_producing_if_needed source_starts c =
      let p = record c.plugin { running_clients = (c.plugin.running_clients + 1) % 2 ^ 32 } in
      if not (c.plugin.running_clients == 0)
      then some (record c { plugin = notify_device_running_changed p })
      else if c.plugin.has_thread
      then none
      else some (record c {
        plugin = notify_device_running_changed (record p {
          frame_counter = 0;
          source_started = source_starts;
          producer_running = true;
          has_thread = true;
        });
      })

  -- The producer is stopped and its thread joined.
  unfoldable pub halt : Plugin → Plugin
  halt p = record p { producer_running = false; has_thread = false; source_started = false }

  -- `StopProducingIfNeeded`.
  unfoldable pub stop_producing_if_needed : Camera → Camera
  unfolding halt flush_queue notify_device_running_changed
  stop_producing_if_needed c =
      let p = record c.plugin {
        running_clients = (c.plugin.running_clients + (2 ^ 32 - 1)) % 2 ^ 32;
      } in
      if ltb 1 c.plugin.running_clients
      then record c { plugin = notify_device_running_changed p }
      else let c1 = flush_queue (record c { plugin = halt p }) in
        record c1 { plugin = notify_device_running_changed c1.plugin }

  -- The loop of `PlugInDeviceSuspend`, on fuel.
  unfoldable pub stop_all : ℕ → Camera → Camera
  unfolding stop_producing_if_needed
  stop_all zero c = c
  stop_all (suc fuel) c =
      let rest = stop_all fuel (stop_producing_if_needed c) in
      if ltb 0 c.plugin.running_clients then rest else c

  unfoldable pub plug_in_device_suspend : ℕ → Camera → Camera × Status
  unfolding stop_all
  plug_in_device_suspend device c =
      if not (device == c.plugin.device_object_id)
      then (c, bad_device)
      else (stop_all c.plugin.running_clients c, no_error)

  unfoldable pub plug_in_device_resume : ℕ → Camera → Status
  plug_in_device_resume device c =
      if not (device == c.plugin.device_object_id) then bad_device else no_error

  -- The camera after it and the status; `none` is `std::terminate`.
  unfoldable pub plug_in_device_start_stream : Bool → ℕ → ℕ → Camera → Option (Camera × Status)
  unfolding start_producing_if_needed
  plug_in_device_start_stream source_starts device stream c =
      if not (device == c.plugin.device_object_id)
      then some (c, bad_device)
      else if not (stream == c.plugin.stream_object_id)
      then some (c, bad_stream)
      else elim (start_producing_if_needed source_starts c) [
        | none ↦ none
        | some c1 ↦ some (c1, no_error)
      ]

  unfoldable pub plug_in_device_stop_stream : ℕ → ℕ → Camera → Camera × Status
  unfolding stop_producing_if_needed
  plug_in_device_stop_stream device stream c =
      if not (device == c.plugin.device_object_id)
      then (c, bad_device)
      else if not (stream == c.plugin.stream_object_id)
      then (c, bad_stream)
      else if ltb 0 c.plugin.running_clients
      then (stop_producing_if_needed c, no_error)
      else (c, no_error)

  unfoldable pub hand_out_queue : Bool → Camera → Camera × Status
  hand_out_queue has_proc c =
      (record c { plugin = record c.plugin { has_queue_altered_proc = has_proc } }, no_error)

  -- `has_out` is that `queue` is not null, `has_proc` that the altered proc is not, `makes` that
  -- `CMSimpleQueueCreate` would succeed. On `no_error`, `*queue` is the queue of the camera.
  unfoldable pub plug_in_stream_copy_buffer_queue :
      Bool → Bool → Bool → ℕ → Camera → Camera × Status
  unfolding hand_out_queue
  plug_in_stream_copy_buffer_queue makes has_out has_proc stream c =
      if not has_out
      then (c, illegal_operation)
      else if not (stream == c.plugin.stream_object_id)
      then (c, bad_stream)
      else if is_some c.sample_queue
      then hand_out_queue has_proc c
      else if not makes
      then (c, unspecified)
      else hand_out_queue has_proc (record c { sample_queue = some (sq.create k_queue_capacity) })

  -- `TeardownObjects`.
  unfoldable pub teardown_objects : Camera → Camera
  unfolding halt flush_queue
  teardown_objects c =
      let c1 = flush_queue (record c { plugin = record (halt c.plugin) { running_clients = 0 } }) in
      record c1 {
        sample_queue = none;
        plugin = record c1.plugin { has_queue_altered_proc = false; format_refs = none };
      }

  unfoldable pub plug_in_teardown : Camera → Camera
  unfolding teardown_objects
  plug_in_teardown c =
      let c1 = teardown_objects c in record c1 { plugin = forget_objects c1.plugin }

  -- A client takes the oldest sample off the queue it was handed.
  unfoldable pub client_takes : Camera → Camera
  unfolding take
  client_takes c =
      let h = take sq (c.sample_queue, c.left) in record c { sample_queue = h.0; left = h.1 }
