-- ===== src/Dal/Objects.antt =====
-- The reference count and the life of the objects of src/dal_plugin/KinectCameraDALPlugin.cpp.
use mac_kinect_native.Base.{
  ℕ, ◌+◌, ◌-◌, ◌%◌, ◌^◌, true, false, not, ◌&&◌, ◌||◌, Option, none, some, [], ◌∷◌,
}
use mac_kinect_native.Base.Tests.{◌==◌, if◌then◌else◌}
use mac_kinect_native.Dal.Types.{
  Plugin, Status, no_error, host_error, unknown_id, HostCall, creates, publishes, kills,
}

-- The globals before the host's first call.
unfoldable pub initial_plugin : Plugin
initial_plugin = record {
  ref_count = 1;
  has_plug_in_ref = false;
  plug_in_object_id = unknown_id;
  device_object_id = unknown_id;
  stream_object_id = unknown_id;
  has_queue_altered_proc = false;
  format_refs = none;
  producer_running = false;
  has_thread = false;
  running_clients = 0;
  frame_counter = 0;
  source_started = false;
  running_notices = 0;
  host_calls = [];
}

-- `ULONG` is 32 bits wide.
unfoldable pub plug_in_add_ref : Plugin → Plugin × ℕ
plug_in_add_ref p = let n = (p.ref_count + 1) % 2 ^ 32 in (record p { ref_count = n }, n)

unfoldable pub plug_in_release : Plugin → Plugin × ℕ
plug_in_release p = let n = (p.ref_count + (2 ^ 32 - 1)) % 2 ^ 32 in (record p { ref_count = n }, n)

unfoldable pub notify_device_running_changed : Plugin → Plugin
notify_device_running_changed p = record p {
  running_notices =
      if not p.has_plug_in_ref || (p.device_object_id == unknown_id)
      then p.running_notices
      else p.running_notices + 1;
}

unfoldable pub call_host : HostCall → Plugin → Plugin
call_host call p = record p { host_calls = call ∷ p.host_calls }

-- `CMIOObjectCreate` stores an object's number, or returns an error.
pub data Created : Type 0 where
  created refused : ℕ → Created

-- `CMIOObjectsPublishedAndDied` for one published object; `none` is `noErr`.
unfoldable pub publish : Option ℕ → ℕ → ℕ → Plugin → Plugin × Status
unfolding call_host
publish none owner id p = (call_host (publishes owner id) p, no_error)
publish (some rc) owner id p = (call_host (publishes owner id) p, host_error rc)

-- What the host answers to the calls of `PlugInInitializeWithObjectID`.
pub record HostAnswers : Type 0 where
  pub device : Created
  pub stream : Created
  pub device_published : Option ℕ
  pub stream_published : Option ℕ

unfoldable pub publish_both : HostAnswers → Plugin → Plugin × Status
unfolding publish
publish_both h p = elim h.device_published [
  | none ↦
      publish h.stream_published p.device_object_id p.stream_object_id
        (publish none p.plug_in_object_id p.device_object_id p).0
  | some rc ↦ publish (some rc) p.plug_in_object_id p.device_object_id p
]

unfoldable pub create_stream : HostAnswers → Created → Plugin → Plugin × Status
unfolding publish_both call_host
create_stream h (Created.refused rc) p = (record p { stream_object_id = unknown_id }, host_error rc)
create_stream h (Created.created id) p =
    publish_both h (call_host (creates id) (record p { stream_object_id = id }))

unfoldable pub create_device : HostAnswers → Created → Plugin → Plugin × Status
unfolding create_stream call_host
create_device h (Created.refused rc) p = (record p { device_object_id = unknown_id }, host_error rc)
create_device h (Created.created id) p =
    create_stream h h.stream (call_host (creates id) (record p { device_object_id = id }))

unfoldable pub plug_in_initialize_with_object_id : HostAnswers → ℕ → Plugin → Plugin × Status
unfolding create_device
plug_in_initialize_with_object_id h id p =
    let p1 = record p { has_plug_in_ref = true; plug_in_object_id = id } in
    if not (p1.device_object_id == unknown_id) && not (p1.stream_object_id == unknown_id)
    then (p1, no_error)
    else create_device h h.device p1

unfoldable pub plug_in_initialize : Plugin → Plugin
plug_in_initialize p = record p { has_plug_in_ref = true }

unfoldable pub kill_if_known : ℕ → ℕ → Plugin → Plugin
unfolding call_host
kill_if_known owner id p = if not (id == unknown_id) then call_host (kills owner id) p else p

-- The part of `PlugInTeardown` after `TeardownObjects`.
unfoldable pub forget_objects : Plugin → Plugin
unfolding kill_if_known
forget_objects p =
    let p1 = kill_if_known p.device_object_id p.stream_object_id p in
    let p2 = kill_if_known p1.plug_in_object_id p1.device_object_id p1 in
    record p2 { stream_object_id = unknown_id; device_object_id = unknown_id }
