-- ===== src/Gui/Examples.antt =====
-- The theorem on the preview window at a concrete Kinect v2 sensor.
use mac_kinect_native.Base.{◌≡◌, refl, none, some, [], ◌∷◌}
use mac_kinect_native.Base.Lists.{tabulate, replicate}
use mac_kinect_native.V2Device.Methods.{get_frame, start, update}
use mac_kinect_native.V2Device.Backends.{probe, list_devices, open_device}
use mac_kinect_native.FrameSource.Source.{hold_first}
use mac_kinect_native.FrameSource.Devices.{v1_api, v2_api}
use mac_kinect_native.FrameSource.Examples.{no_devices, silent, ready, whole, one_device}
use mac_kinect_native.Gui.App.{App, update_texture, run_gui_app, idles, idle_device}
use mathlib.Core.Option.{bind}

abbrev opened : App (v1_api no_devices silent ready) (v2_api whole one_device)
opened = run_gui_app (v1_api no_devices silent ready) (v2_api whole one_device)

-- The color image arrives with the first `Idle` and is shown by the second.
the_texture :
    bind (idles _ _ 2 opened) (λ a. a.textures.rgb_tex)
    ≡ some (record {
      width = 4;
      height = 1;
      bytes = 2 ∷ 1 ∷ 0 ∷ 6 ∷ 5 ∷ 4 ∷ 10 ∷ 9 ∷ 8 ∷ 14 ∷ 13 ∷ 12 ∷ [];
    })
unfolding bind idles run_gui_app probe hold_first list_devices tabulate open_device idle_device
    get_frame start update
the_texture = refl

-- An image of 5 by 5 is read beyond its end, since its rows are taken to begin at multiples of 4.
padded_rows : update_texture 5 5 (replicate 75 0) ≡ none
unfolding update_texture
padded_rows = refl
