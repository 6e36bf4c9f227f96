-- ===== src/Dal/Race.antt =====
-- Two clients of src/dal_plugin/KinectCameraDALPlugin.cpp that stop their streams at the same time.
use mac_kinect_native.Base.{
  ◌+◌, ◌-◌, ◌%◌, ◌^◌, ◌≡◌, refl, ap, ◌∙◌, Bool, false, not, Option, some, arith,
}
use mac_kinect_native.Base.Tests.{ltb, ◌==◌, if◌then◌else◌, if_rule}
use mac_kinect_native.Dal.Queue.{SimpleQueue}
use mac_kinect_native.Dal.Objects.{notify_device_running_changed}
use mac_kinect_native.Dal.Producer.{
  Camera, flush_queue, halt, start_producing_if_needed, stop_producing_if_needed,
}
use mac_kinect_native.Dal.Invariant.{RunningView, running_view}

module _ (sq : SimpleQueue) where
  -- Both threads read `gRunningClients` in `PlugInDeviceStopStream` before either calls
  -- `StopProducingIfNeeded`.
  unfoldable pub stop_streams_at_once : Camera sq → Camera sq
  unfolding stop_producing_if_needed
  stop_streams_at_once c =
      if ltb 0 c.plugin.running_clients
      then stop_producing_if_needed sq (stop_producing_if_needed sq c)
      else c

  -- The effect of a stop with at most one client.
  stop_last :
      (c : Camera sq)
      → ltb 1 c.plugin.running_clients ≡ false
      → running_view (stop_producing_if_needed sq c).plugin
        ≡ (false, false, (c.plugin.running_clients + (2 ^ 32 - 1)) % 2 ^ 32, false)
  unfolding stop_producing_if_needed notify_device_running_changed flush_queue halt
  stop_last c e =
      if_rule {A = Camera sq}
        (λ d.
          running_view d.plugin
          ≡ (false, false, (c.plugin.running_clients + (2 ^ 32 - 1)) % 2 ^ 32, false))
        (ltb 1 c.plugin.running_clients) _ (λ t. absurd (ground arith)) (λ _. refl)

  start_wrapped :
      (source_starts : Bool) (d : Camera sq)
      → running_view d.plugin ≡ (false, false, 2 ^ 32 - 1, false)
      → (e : Camera sq) × (start_producing_if_needed sq source_starts d ≡ some e)
        × (running_view e.plugin ≡ (false, false, 0, false))
  unfolding start_producing_if_needed notify_device_running_changed
  start_wrapped source_starts d v =
      let count : d.plugin.running_clients ≡ 2 ^ 32 - 1 = ap (λ w. w.2) v in
      if_rule Wrapped (not (d.plugin.running_clients == 0)) _
        (λ _. (_, refl, ap (λ (w : RunningView). (w.0, w.1, (w.2 + 1) % 2 ^ 32, w.3)) v))
        (λ e. absurd (ground arith))
    where
      Wrapped : Option (Camera sq) → Type 0
      Wrapped o =
          (e : Camera sq) × (o ≡ some e) × (running_view e.plugin ≡ (false, false, 0, false))

  -- A fault: with one client left, two stops at the same time leave the counter at 2^32 - 1 with the
  -- producer stopped; and the next start of a stream takes the counter to 0 and starts no producer.
  pub stop_race :
      (source_starts : Bool) (c : Camera sq)
      → c.plugin.running_clients ≡ 1
      → let d = stop_streams_at_once c in
        (running_view d.plugin ≡ (false, false, 2 ^ 32 - 1, false))
        × (e : Camera sq) × (start_producing_if_needed sq source_starts d ≡ some e)
        × (running_view e.plugin ≡ (false, false, 0, false))
  unfolding stop_streams_at_once
  stop_race source_starts c one =
      let first = stop_last c (ap (ltb 1) one) in
      let none_left : (stop_producing_if_needed sq c).plugin.running_clients ≡ 0 =
        ap (λ v. v.2) first ∙ omega arith in
      let second = stop_last (stop_producing_if_needed sq c) (ap (ltb 1) none_left) in
      let both = second ∙ ap (λ n. (false, false, (n + (2 ^ 32 - 1)) % 2 ^ 32, false)) none_left in
      if_rule {A = Camera sq}
        (λ d.
          (running_view d.plugin ≡ (false, false, 2 ^ 32 - 1, false))
          × (e : Camera sq) × (start_producing_if_needed sq source_starts d ≡ some e)
          × (running_view e.plugin ≡ (false, false, 0, false)))
        (ltb 0 c.plugin.running_clients) _
        (λ _. let w = start_wrapped source_starts _ both in (both, w.0, w.1, w.2))
        (λ e. absurd (ground arith))
