-- ===== src/Hal/Consistent.antt =====
-- The property functions of src/hal_plugin/KinectAudioHALPlugin.cpp beside one another.
use Prim.Native.String.{String}
use mac_kinect_native.Base.{
  ℕ, ◌≤◌, ◌<◌, ◌≡◌, ◌⊎◌, refl, ap, ◌∙◌, inl, inr, Bool, true, false, not, ◌&&◌, Option, none, some,
  arith,
}
use mac_kinect_native.Base.Tests.{ltb, is_some, Option-cases, Bool-cases, ltb→lt}
use mac_kinect_native.Hal.Types.{
  CoreAudio, PlugInSelector, DeviceSelector, StreamSelector, Object, object_of, is_device,
  size_of_u32, Address, no_error, unknown_property, bad_property_size, Value, Reply, stores,
  stores_nothing, fails,
}
use mac_kinect_native.Hal.Selectors.{
  driver_has_property, is_input_scope, object_has, plug_in_has, device_has, stream_has,
}
use mac_kinect_native.Hal.DataSize.{
  driver_get_property_data_size, or_unknown, object_size, plug_in_size, device_size, stream_size,
}
use mac_kinect_native.Hal.Driver.{Driver}
use mac_kinect_native.Hal.Data.{
  driver_get_property_data, object_data, store_if_fits, device_streams, plug_in_data, device_data,
  stream_data,
}

module _ (ca : CoreAudio) where
  plug_in_has-size : (s : PlugInSelector) → plug_in_has s ≡ is_some (plug_in_size ca s)
  unfolding plug_in_has plug_in_size
  plug_in_has-size PlugInSelector.base_class = refl
  plug_in_has-size _ = refl

  device_has-size : (s : DeviceSelector) → device_has s ≡ is_some (device_size ca s)
  unfolding device_has device_size
  device_has-size DeviceSelector.base_class = refl
  device_has-size _ = refl

  stream_has-size : (s : StreamSelector) → stream_has s ≡ is_some (stream_size ca s)
  unfolding stream_has stream_size
  stream_has-size StreamSelector.base_class = refl
  stream_has-size _ = refl

  object_has-size : (o : Object) (a : Address) → object_has o a ≡ is_some (object_size ca o a)
  unfolding object_has object_size
  object_has-size Object.plug_in a = plug_in_has-size a.plug_in_selector
  object_has-size Object.device a = device_has-size a.device_selector
  object_has-size Object.stream_input a = stream_has-size a.stream_selector
  object_has-size Object.no_object a = refl

  -- On any object and address, `DriverHasProperty` says yes exactly when `DriverGetPropertyDataSize`
  -- returns `noErr` with a size; otherwise that returns the unknown-property error and stores
  -- nothing.
  pub has_property-data_size :
      (id : ℕ) (a : Address)
      → let has = driver_has_property id (some a) in
        let size = driver_get_property_data_size ca id (some a) true in
        ((has ≡ true) × (n : ℕ) × (size ≡ (no_error, some n)))
        ⊎ ((has ≡ false) × (size ≡ (unknown_property, none)))
  unfolding driver_has_property driver_get_property_data_size
  has_property-data_size id a = elim (Option-cases (object_size ca (object_of id) a)) [
    | inl e ↦ inr (object_has-size (object_of id) a ∙ ap is_some e, ap (or_unknown ca) e)
    | inr (n, e) ↦ inl (object_has-size (object_of id) a ∙ ap is_some e, n, ap (or_unknown ca) e)
  ]

  -- A reply that is right for a property of n bytes, when the caller's buffer has `room` bytes: the
  -- whole value if it fits, or the size error. `exempt` properties may also store the size 0 alone.
  abbrev pub Fits : ℕ → ℕ → Bool → Reply ca.Float64 → Type 0
  Fits n room exempt r =
      ((n ≤ room) × (v : Value ca.Float64) × (r ≡ stores n v))
      ⊎ ((room < n) × (r ≡ fails bad_property_size))
      ⊎ ((exempt ≡ true) × (r ≡ stores_nothing))

  abbrev pub FitsSize : Option ℕ → ℕ → Bool → Reply ca.Float64 → Type 0
  FitsSize none room exempt r = r ≡ fails unknown_property
  FitsSize (some n) room exempt r = Fits n room exempt r

  store_if_fits-Fits :
      (n room : ℕ) (v : Value ca.Float64) (exempt : Bool)
      → Fits n room exempt (store_if_fits room n v)
  unfolding store_if_fits
  store_if_fits-Fits n room v exempt = elim (Bool-cases (ltb room n)) [
    | inl e ↦ rw e (inr (inl (ltb→lt room n e, refl)))
    | inr e ↦ rw e (inl (ground arith, v, refl))
  ]

  plug_in-FitsSize :
      (room qsize : ℕ) (q : Option (Option String)) (s : PlugInSelector)
      → FitsSize (plug_in_size ca s) room false (plug_in_data ca room qsize q s)
  unfolding plug_in_size plug_in_data
  plug_in-FitsSize room qsize q PlugInSelector.other = refl
  plug_in-FitsSize room qsize q _ = store_if_fits-Fits _ room _ false

  -- The properties of the device that list its streams, asked for outside the input scope.
  abbrev pub lists_streams : DeviceSelector → Bool
  lists_streams DeviceSelector.owned_objects = true
  lists_streams DeviceSelector.streams = true
  lists_streams _ = false

  abbrev pub is_exempt : Object → Address → Bool
  is_exempt o a = is_device o && (lists_streams a.device_selector && not (is_input_scope (some a)))

  device_streams-Fits :
      (room : ℕ) (a : Address)
      → Fits size_of_u32 room (not (is_input_scope (some a))) (device_streams ca room (some a))
  unfolding device_streams
  device_streams-Fits room a = elim (Bool-cases (is_input_scope (some a))) [
    | inl e ↦ rw e (store_if_fits-Fits size_of_u32 room _ false)
    | inr e ↦ rw e (inr (inr (refl, refl)))
  ]

  device-FitsSize :
      (room : ℕ) (d : Driver ca.Float64) (a : Address) (s : DeviceSelector)
      → FitsSize
          (device_size ca s)
          room
          (lists_streams s && not (is_input_scope (some a)))
          (device_data ca room d (some a) s)
  unfolding device_size device_data
  device-FitsSize room d a DeviceSelector.other = refl
  device-FitsSize room d a DeviceSelector.owned_objects = device_streams-Fits room a
  device-FitsSize room d a DeviceSelector.streams = device_streams-Fits room a
  device-FitsSize room d a _ = store_if_fits-Fits _ room _ false

  stream-FitsSize :
      (room : ℕ) (d : Driver ca.Float64) (s : StreamSelector)
      → FitsSize (stream_size ca s) room false (stream_data ca room d s)
  unfolding stream_size stream_data
  stream-FitsSize room d StreamSelector.other = refl
  stream-FitsSize room d _ = store_if_fits-Fits _ room _ false

  object-FitsSize :
      (room qsize : ℕ) (q : Option (Option String)) (d : Driver ca.Float64) (o : Object)
      (a : Address)
      → FitsSize (object_size ca o a) room (is_exempt o a) (object_data ca room o a qsize q d)
  unfolding object_size object_data
  object-FitsSize room qsize q d Object.plug_in a = plug_in-FitsSize room qsize q a.plug_in_selector
  object-FitsSize room qsize q d Object.device a = device-FitsSize room d a a.device_selector
  object-FitsSize room qsize q d Object.stream_input a = stream-FitsSize room d a.stream_selector
  object-FitsSize room qsize q d Object.no_object a = refl

  or_unknown_size : (o : Option ℕ) → (or_unknown ca o).1 ≡ o
  or_unknown_size none = refl
  or_unknown_size (some n) = refl

  -- `DriverGetPropertyData` keeps the promise of `DriverGetPropertyDataSize`, on any object, address,
  -- qualifier and state: where a size of n bytes was promised, a buffer of n bytes or more gets the
  -- value and its size n, and a smaller one the size error; where none was, it reports an unknown
  -- property. Only the two properties that list the device's streams, asked for outside the input
  -- scope, may store the size 0 and no value instead.
  pub get_property_data-FitsSize :
      (id room qsize : ℕ) (q : Option (Option String)) (a : Address) (d : Driver ca.Float64)
      → FitsSize
          (driver_get_property_data_size ca id (some a) true).1
          room
          (is_exempt (object_of id) a)
          (driver_get_property_data ca room id (some a) qsize q true d)
  unfolding driver_get_property_data_size driver_get_property_data
  get_property_data-FitsSize id room qsize q a d =
      rw (or_unknown_size (object_size ca (object_of id) a))
        (object-FitsSize room qsize q d (object_of id) a)
