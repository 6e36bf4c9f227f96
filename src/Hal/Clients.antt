-- ===== src/Hal/Clients.antt =====
-- The count of I/O clients of src/hal_plugin/KinectAudioHALPlugin.cpp, over any history of
-- `DriverStartIO` and `DriverStopIO`.
use Prim.Native.Nat.{max}
use Prim.Native.String.{String}
use mac_kinect_native.Base.{
  ℕ, suc, ◌+◌, ◌-◌, ◌^◌, ◌≤◌, ◌<◌, ◌≡◌, ◌∙◌, true, Option, some, List, [], ◌∷◌, arith,
}
use mac_kinect_native.Base.Tests.{ltb, if◌then◌else◌}
use mac_kinect_native.Hal.Types.{
  CoreAudio, DeviceSelector, object_of, Address, k_object_id_device, size_of_u32, number, stores,
}
use mac_kinect_native.Hal.Driver.{Driver, initial_driver, driver_start_io, driver_stop_io}
use mac_kinect_native.Hal.Data.{driver_get_property_data, object_data, device_data}

pub data IoEvent : Type 0 where
  starts_io stops_io : IoEvent

abbrev pub starts : List IoEvent → ℕ
starts [] = 0
starts (IoEvent.starts_io ∷ es) = suc (starts es)
starts (IoEvent.stops_io ∷ es) = starts es

abbrev pub stops : List IoEvent → ℕ
stops [] = 0
stops (IoEvent.starts_io ∷ es) = stops es
stops (IoEvent.stops_io ∷ es) = suc (stops es)

-- The most by which the starts exceed the stops in a part of the history that runs up to its end.
abbrev pub outstanding : List IoEvent → ℕ
outstanding [] = 0
outstanding (e ∷ es) = max (outstanding es) (starts (e ∷ es) - stops (e ∷ es))

excess-le-outstanding : (es : List IoEvent) → starts es - stops es ≤ outstanding es
excess-le-outstanding [] = omega arith
excess-le-outstanding (e ∷ es) = omega arith

module _ (ca : CoreAudio) where
  pub run_io : List IoEvent → Driver ca.Float64 → Driver ca.Float64
  run_io [] d = d
  run_io (IoEvent.starts_io ∷ es) d = run_io es (driver_start_io ca d)
  run_io (IoEvent.stops_io ∷ es) d = run_io es (driver_stop_io ca d)

  run_io_count :
      (es : List IoEvent) (d : Driver ca.Float64)
      → d.running_io_clients + starts es < 2 ^ 32
      → (run_io es d).running_io_clients
        ≡ max (d.running_io_clients + starts es - stops es) (outstanding es)
  unfolding run_io driver_start_io driver_stop_io
  run_io_count [] d h = omega arith
  run_io_count (IoEvent.starts_io ∷ es) d h =
      run_io_count es (driver_start_io ca d) (omega arith) ∙ omega (arith, excess-le-outstanding es)
  run_io_count (IoEvent.stops_io ∷ es) d h =
      run_io_count es (driver_stop_io ca d) (ground arith)
      ∙ ground (arith, excess-le-outstanding es)

  -- After any history with fewer than 2^32 starts, unmatched stops included, the number of clients
  -- is the most by which starts exceed stops in any part of the history up to its end, and the
  -- property `DeviceIsRunning` reads 1 if that is not 0, and 0 if it is.
  pub device_is_running :
      (es : List IoEvent) (room qsize : ℕ) (q : Option (Option String)) (a : Address)
      → starts es < 2 ^ 32
      → a.device_selector ≡ DeviceSelector.device_is_running
      → size_of_u32 ≤ room
      → let d = run_io es (initial_driver ca) in
        (d.running_io_clients ≡ outstanding es)
        × (driver_get_property_data ca room k_object_id_device (some a) qsize q true d
            ≡ stores size_of_u32 (number (if ltb 0 (outstanding es) then 1 else 0)))
  unfolding driver_get_property_data object_data object_of device_data initial_driver
  device_is_running es room qsize q a few sel h =
      let count : (run_io es (initial_driver ca)).running_io_clients ≡ outstanding es =
        run_io_count es (initial_driver ca) (omega arith)
        ∙ omega (arith, excess-le-outstanding es) in
      (count, rw (sel, device_data) (rw count (ground arith)))
