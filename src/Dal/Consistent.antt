-- ===== src/Dal/Consistent.antt =====
-- The property functions of src/dal_plugin/KinectCameraDALPlugin.cpp beside one another.
use mac_kinect_native.Base.{
  ℕ, ◌+◌, ◌≤◌, ◌<◌, ◌≡◌, ◌⊎◌, refl, inl, inr, Bool, true, false, not, ◌&&◌, ◌||◌, Option, none,
  some, arith,
}
use mac_kinect_native.Base.Tests.{ltb, ◌==◌, is_some, Bool-cases, ltb→lt, if◌then◌else◌}
use mac_kinect_native.Dal.Types.{
  CoreMedia, PlugInSelector, DeviceSelector, StreamSelector, Object, object_of, size_of_u32,
  Address, Status, no_error, bad_object, unknown_property, bad_property_size, unspecified, Value,
  Reply, stores, stores_nothing, fails, Plugin, has_stream, is_input_scope, unknown_id,
}
use mac_kinect_native.Dal.Selectors.{
  plug_in_object_has_property, object_has, has_property_for_plug_in, has_property_for_device,
  has_property_for_stream,
}
use mac_kinect_native.Dal.DataSize.{
  plug_in_object_get_property_data_size, or_unknown, object_size, plug_in_size, device_size,
  stream_size,
}
use mac_kinect_native.Dal.Data.{
  plug_in_object_get_property_data, object_data, write_scalar, plug_in_data, device_data,
  stream_data, hand_out_format, ensure_format_description,
}

module _ (cm : CoreMedia) where
  plug_in_has-size :
      (p : Plugin) (s : PlugInSelector) → has_property_for_plug_in s ≡ is_some (plug_in_size cm p s)
  unfolding has_property_for_plug_in plug_in_size
  plug_in_has-size p PlugInSelector.class = refl
  plug_in_has-size p _ = refl

  device_has-size :
      (p : Plugin) (a : Address) (s : DeviceSelector)
      → has_property_for_device s ≡ is_some (device_size cm p a s)
  unfolding has_property_for_device device_size
  device_has-size p a DeviceSelector.class = refl
  device_has-size p a _ = refl

  stream_has-size : (s : StreamSelector) → has_property_for_stream s ≡ is_some (stream_size cm s)
  unfolding has_property_for_stream stream_size
  stream_has-size StreamSelector.class = refl
  stream_has-size _ = refl

  -- The three answers of `PlugInObjectGetPropertyDataSize` on an object that is, or is not, ours.
  abbrev pub Agrees : Object → Bool → Status × Option ℕ → Type 0
  Agrees Object.no_object has size = (has ≡ false) × (size ≡ (bad_object, none))
  Agrees _ has size =
      ((has ≡ true) × (n : ℕ) × (size ≡ (no_error, some n)))
      ⊎ ((has ≡ false) × (size ≡ (unknown_property, none)))

  or_unknown-Agrees :
      (has : Bool) (o : Option ℕ)
      → has ≡ is_some o
      → ((has ≡ true) × (n : ℕ) × (or_unknown cm o ≡ (no_error, some n)))
        ⊎ ((has ≡ false) × (or_unknown cm o ≡ (unknown_property, none)))
  or_unknown-Agrees has none h = inr (h, refl)
  or_unknown-Agrees has (some n) h = inl (h, n, refl)

  object-Agrees :
      (p : Plugin) (o : Object) (a : Address) → Agrees o (object_has o a) (object_size cm p o a)
  unfolding object_has object_size
  object-Agrees p Object.plug_in a = or_unknown-Agrees _ _ (plug_in_has-size p a.plug_in_selector)
  object-Agrees p Object.device a = or_unknown-Agrees _ _ (device_has-size p a a.device_selector)
  object-Agrees p Object.stream a = or_unknown-Agrees _ _ (stream_has-size a.stream_selector)
  object-Agrees p Object.no_object a = (refl, refl)

  -- In any state, on an object of the plug-in's, `PlugInObjectHasProperty` says yes exactly when
  -- `PlugInObjectGetPropertyDataSize` returns `noErr` and stores a size, and otherwise that returns
  -- the unknown-property error; on any other object the first says no and the second returns the
  -- bad-object error.
  pub object_has_property-data_size :
      (p : Plugin) (id : ℕ) (a : Address)
      → Agrees
          (object_of p id)
          (plug_in_object_has_property p id (some a))
          (plug_in_object_get_property_data_size cm p id (some a) true)
  unfolding plug_in_object_has_property plug_in_object_get_property_data_size
  object_has_property-data_size p id a = object-Agrees p (object_of p id) a

  -- A reply that is right for a property of n bytes, when the caller's buffer has `room` bytes.
  abbrev pub Fits : ℕ → ℕ → Reply → Type 0
  Fits n room r =
      ((n ≤ room) × (v : Value) × (r ≡ stores n v)) ⊎ ((room < n) × (r ≡ fails bad_property_size))

  -- The reply that a promised size calls for: for the size 0 nothing but the size is stored.
  abbrev pub FitsSize : Option ℕ → ℕ → Reply → Type 0
  FitsSize none room r = r ≡ fails unknown_property
  FitsSize (some n) room r = Fits n room r ⊎ ((n ≡ 0) × (r ≡ stores_nothing))

  write_scalar-FitsSize : (n room : ℕ) (v : Value) → FitsSize (some n) room (write_scalar room n v)
  unfolding write_scalar
  write_scalar-FitsSize n room v = elim (Bool-cases (ltb room n)) [
    | inl e ↦ rw e (inl (inr (ltb→lt room n e, refl)))
    | inr e ↦ rw e (inl (inl (ground arith, v, refl)))
  ]

  -- The size and the data of a list of objects that is empty under the test b.
  empty_or-FitsSize :
      (b : Bool) (n room : ℕ) (v : Value)
      → FitsSize
          (some (if b then 0 else n))
          room
          (if b then stores_nothing else write_scalar room n v)
  empty_or-FitsSize true n room v = inr (refl, refl)
  empty_or-FitsSize false n room v = write_scalar-FitsSize n room v

  plug_in-FitsSize :
      (room : ℕ) (p : Plugin) (s : PlugInSelector)
      → FitsSize (plug_in_size cm p s) room (plug_in_data cm room p s)
  unfolding plug_in_size plug_in_data
  plug_in-FitsSize room p PlugInSelector.other = refl
  plug_in-FitsSize room p PlugInSelector.owned_objects =
      empty_or-FitsSize (p.device_object_id == unknown_id) size_of_u32 room _
  plug_in-FitsSize room p _ = write_scalar-FitsSize _ room _

  streams-FitsSize :
      (i b : Bool) (n room : ℕ) (v : Value)
      → FitsSize
          (some (if i && not b then n else 0))
          room
          (if not i || b then stores_nothing else write_scalar room n v)
  streams-FitsSize false b n room v = inr (refl, refl)
  streams-FitsSize true true n room v = inr (refl, refl)
  streams-FitsSize true false n room v = write_scalar-FitsSize n room v

  configuration-FitsSize :
      (i : Bool) (m n room : ℕ) (v w : Value)
      → FitsSize
          (some (if i then n else m))
          room
          (if not i then write_scalar room m v else write_scalar room n w)
  configuration-FitsSize false m n room v w = write_scalar-FitsSize m room v
  configuration-FitsSize true m n room v w = write_scalar-FitsSize n room w

  device-FitsSize :
      (room : ℕ) (p : Plugin) (a : Address) (s : DeviceSelector)
      → FitsSize (device_size cm p a s) room (device_data cm room p a s)
  unfolding device_size device_data has_stream
  device-FitsSize room p a DeviceSelector.other = refl
  device-FitsSize room p a DeviceSelector.owned_objects =
      empty_or-FitsSize (p.stream_object_id == unknown_id) size_of_u32 room _
  device-FitsSize room p a DeviceSelector.streams =
      streams-FitsSize (is_input_scope a) (p.stream_object_id == unknown_id) size_of_u32 room _
  device-FitsSize room p a DeviceSelector.stream_configuration =
      configuration-FitsSize (is_input_scope a) cm.size_of_stream_configuration
        (cm.size_of_stream_configuration + size_of_u32) room _ _
  device-FitsSize room p a _ = write_scalar-FitsSize _ room _

  or_unknown_size : (o : Option ℕ) → (or_unknown cm o).1 ≡ o
  or_unknown_size none = refl
  or_unknown_size (some n) = refl

  -- The unspecified error, of a format that is asked for, was not made yet and cannot be made.
  abbrev pub IsUnmade : Bool → Plugin → StreamSelector → Reply → Type 0
  IsUnmade creates p s r =
      ((s ≡ StreamSelector.format_description) ⊎ (s ≡ StreamSelector.format_descriptions))
      × (p.format_refs ≡ none)
      × (creates ≡ false)
      × (r ≡ fails unspecified)

  hand_out-FitsSize :
      (creates : Bool) (n room : ℕ) (v : Value) (p : Plugin)
      → let r =
          (if ltb room n
            then (fails bad_property_size, p)
            else hand_out_format (ensure_format_description creates p.format_refs) n v p).0 in
        FitsSize (some n) room r
        ⊎ ((p.format_refs ≡ none) × (creates ≡ false) × (r ≡ fails unspecified))
  unfolding hand_out_format ensure_format_description
  hand_out-FitsSize creates n room v p = elim (Bool-cases (ltb room n)) [
    | inl e ↦ rw e (inl (inl (inr (ltb→lt room n e, refl))))
    | inr e ↦ rw e (handed creates p.format_refs (ground arith))
  ]
    where
      handed :
          (b : Bool) (o : Option ℕ)
          → n ≤ room
          → let r = (hand_out_format (ensure_format_description b o) n v p).0 in
            FitsSize (some n) room r ⊎ ((o ≡ none) × (b ≡ false) × (r ≡ fails unspecified))
      handed b (some refs) le = inl (inl (inl (le, v, refl)))
      handed true none le = inl (inl (inl (le, v, refl)))
      handed false none le = inr (refl, refl, refl)

  stream-FitsSize :
      (creates : Bool) (room : ℕ) (p : Plugin) (s : StreamSelector)
      → let r = (stream_data cm room p creates s).0 in
        FitsSize (stream_size cm s) room r ⊎ IsUnmade creates p s r
  unfolding stream_size stream_data
  stream-FitsSize creates room p StreamSelector.other = inl refl
  stream-FitsSize creates room p StreamSelector.owned_objects = inl (inr (refl, refl))
  stream-FitsSize creates room p StreamSelector.format_description =
      elim (hand_out-FitsSize creates cm.size_of_format_ref room _ p) [
        | inl fits ↦ inl fits
        | inr (not_yet, fails_to, e) ↦ inr (inl refl, not_yet, fails_to, e)
      ]
  stream-FitsSize creates room p StreamSelector.format_descriptions =
      elim (hand_out-FitsSize creates cm.size_of_array_ref room _ p) [
        | inl fits ↦ inl fits
        | inr (not_yet, fails_to, e) ↦ inr (inr refl, not_yet, fails_to, e)
      ]
  stream-FitsSize creates room p _ = inl (write_scalar-FitsSize _ room _)

  -- The same on any number: on one that is no object's, the bad-object error; only the stream may
  -- fail to make a format.
  abbrev pub ObjectFits : Bool → Plugin → StreamSelector → Object → Option ℕ → ℕ → Reply → Type 0
  ObjectFits creates p s Object.no_object o room r = r ≡ fails bad_object
  ObjectFits creates p s Object.stream o room r = FitsSize o room r ⊎ IsUnmade creates p s r
  ObjectFits creates p s _ o room r = FitsSize o room r

  object-FitsSize :
      (creates : Bool) (room : ℕ) (p : Plugin) (o : Object) (a : Address)
      → ObjectFits creates p a.stream_selector o
          (object_size cm p o a).1
          room
          (object_data cm room p creates o a).0
  unfolding object_size object_data
  object-FitsSize creates room p Object.plug_in a =
      rw (or_unknown_size (plug_in_size cm p a.plug_in_selector))
        (plug_in-FitsSize room p a.plug_in_selector)
  object-FitsSize creates room p Object.device a =
      rw (or_unknown_size (device_size cm p a a.device_selector))
        (device-FitsSize room p a a.device_selector)
  object-FitsSize creates room p Object.stream a =
      rw (or_unknown_size (stream_size cm a.stream_selector))
        (stream-FitsSize creates room p a.stream_selector)
  object-FitsSize creates room p Object.no_object a = refl

  -- `PlugInObjectGetPropertyData` keeps the promise of `PlugInObjectGetPropertyDataSize`, in any
  -- state: on an object of the plug-in's, where a size of n bytes was promised, a buffer of n bytes
  -- or more gets a value and its size n, and a smaller one the size error; where 0 was, the size 0
  -- alone may be stored; where none was, it reports an unknown property. The only other reply is the
  -- unspecified error, of the stream's format description or list of them, when the format was not
  -- made yet and cannot be made. On any other object it is the bad-object error.
  pub object_get_property_data-ObjectFits :
      (creates : Bool) (id room : ℕ) (a : Address) (p : Plugin)
      → ObjectFits creates p a.stream_selector
          (object_of p id)
          (plug_in_object_get_property_data_size cm p id (some a) true).1
          room
          (plug_in_object_get_property_data cm room p creates id (some a) true).0
  unfolding plug_in_object_get_property_data_size plug_in_object_get_property_data
  object_get_property_data-ObjectFits creates id room a p =
      object-FitsSize creates room p (object_of p id) a
