-- ===== src/FrameSource/Drawn.antt =====
-- How `CreateSampleBuffer` of src/dal_plugin/KinectCameraDALPlugin.cpp fills a picture from
-- `KinectFrameSource`, with the Kinect v1 and v2 backends of src/backends.
use mac_kinect_native.Base.{ℕ, ◌*◌, ◌≤◌, ap, ◌∙◌, ◌≡◌, refl, ◌||◌, Option, none, some, List, arith}
use mac_kinect_native.Base.Tests.{◌==◌, ltb, if_rule}
use mac_kinect_native.Base.Lists.{length}
use mac_kinect_native.Float32.{Float32}
use mac_kinect_native.V1Device.State.{k_width, k_height}
use mac_kinect_native.V2Device.FrameSizes.{DeliversSizes}
use mac_kinect_native.V1Device.Calls.{Library}
use mac_kinect_native.V1Backend.Context.{Freenect1, ContextState}
use mac_kinect_native.V2Device.Backends.{Context}
use mac_kinect_native.Dal.Pixels.{
  Image, image_of, rgb_pixel, fill_fallback_pattern, fill_from_rgb, fill_counted, byte_count-some,
  FitsInt, k_output_width, k_output_height, IsDrawn, fill_from_rgb-IsDrawn,
}
use mac_kinect_native.FrameSource.Api.{KinectApi, HoldsIf}
use mac_kinect_native.FrameSource.Source.{
  RgbImage, FrameSource, new_source, next_rgb, SourceCall, call_sources,
}
use mac_kinect_native.FrameSource.Pictures.{IsImageSized, next_rgb-IsImageSized}
use mac_kinect_native.FrameSource.Devices.{v1_api, v1_api-IsSized, v2_api, v2_api-IsSized}

-- The picture of what `nextRGB` gave. The counter is `gFrameCounter`, as `FillFromRGB` reads it.
unfoldable pub draw_image : ℕ → ℕ → Option RgbImage → Image
draw_image frame_index counter none = fill_fallback_pattern frame_index
draw_image frame_index counter (some (rgb, width, height)) = fill_from_rgb rgb width height counter

module _ (k1 k2 : KinectApi) where
  unfoldable pub create_picture : ℕ → ℕ → FrameSource k1 k2 → FrameSource k1 k2 × Image
  unfolding draw_image
  create_picture frame_index counter s =
      let (s1, image) = next_rgb k1 k2 s in (s1, draw_image frame_index counter image)

-- The fallback pattern of the frame if there is no image, and else the image's own pixels, all read
-- inside it.
abbrev pub Shows : ℕ → Option RgbImage → Image → Type 0
Shows frame_index none picture = picture ≡ fill_fallback_pattern frame_index
Shows frame_index (some (rgb, width, height)) picture =
    (picture ≡ image_of k_output_width k_output_height (rgb_pixel rgb width height))
    × IsDrawn k_output_width k_output_height picture

fill_counted-whole :
    (rgb : List ℕ) (width height counter : ℕ)
    → width * height * 3 ≤ length rgb
    → fill_counted rgb width height counter (some (width * height * 3))
      ≡ image_of k_output_width k_output_height (rgb_pixel rgb width height)
unfolding fill_counted
fill_counted-whole rgb width height counter enough =
    let drawn = image_of k_output_width k_output_height (rgb_pixel rgb width height) in
    if_rule {A = Image} (λ picture. picture ≡ drawn) (ltb (length rgb) (width * height * 3))
      (fill_fallback_pattern counter) (λ e. absurd (ground arith)) (λ _. refl)

fill_from_rgb-sized :
    (rgb : List ℕ) (width height counter : ℕ)
    → IsImageSized FitsInt (rgb, width, height)
    → fill_from_rgb rgb width height counter
      ≡ image_of k_output_width k_output_height (rgb_pixel rgb width height)
unfolding fill_from_rgb
fill_from_rgb-sized rgb width height counter (w, h, size, fits) =
    let drawn = image_of k_output_width k_output_height (rgb_pixel rgb width height) in
    if_rule {A = Image} (λ picture. picture ≡ drawn) ((width == 0) || (height == 0))
      (fill_fallback_pattern counter) (λ e. absurd (ground arith))
      (λ _.
        ap (fill_counted rgb width height counter) (byte_count-some width height fits)
        ∙ fill_counted-whole rgb width height counter (omega (arith, size)))

draw_image-Shows :
    (frame_index counter : ℕ) (image : Option RgbImage)
    → HoldsIf (IsImageSized FitsInt) image
    → Shows frame_index image (draw_image frame_index counter image)
unfolding draw_image
draw_image-Shows frame_index counter none h = refl
draw_image-Shows frame_index counter (some (rgb, width, height)) h = (
  fill_from_rgb-sized rgb width height counter h,
  fill_from_rgb-IsDrawn rgb width height counter h.3,
)

module _ (lib : Freenect1) (device : Library) (b0 : ContextState) (fl : Float32)
    (ctx : Context fl) where
  abbrev pub source_after : List SourceCall → FrameSource (v1_api lib device b0) (v2_api fl ctx)
  source_after cs =
      let k1 = v1_api lib device b0 in
      let k2 = v2_api fl ctx in call_sources k1 k2 cs (new_source k1 k2)

  -- Whatever libfreenect and libfreenect2 answer and deliver, in frames whose sizes keep the products
  -- of `FillFromRGB` within an `int` (for libfreenect2; a Kinect v2 has 1920 by 1080), and after any
  -- starts, stops and frames of the source, the picture shows what `nextRGB` gives: the fallback
  -- pattern of the frame's index if that is nothing, and else the image scaled to the output, each
  -- pixel read inside the image. The second fallback, in `FillFromRGB`, is never drawn.
  pub create_picture-Shows :
      (cs : List SourceCall) (frame_index counter : ℕ)
      → DeliversSizes FitsInt fl ctx.library
      → let k1 = v1_api lib device b0 in
        let k2 = v2_api fl ctx in
        Shows frame_index
          (next_rgb k1 k2 (source_after cs)).1
          (create_picture k1 k2 frame_index counter (source_after cs)).1
  unfolding create_picture
  create_picture-Shows cs frame_index counter delivers =
      let v1_fits : FitsInt k_width k_height = record {
        bytes = omega arith;
        wide = omega arith;
        high = omega arith;
      } in
      draw_image-Shows frame_index counter _ (
        next_rgb-IsImageSized FitsInt _ _ (v1_api-IsSized FitsInt lib device b0 v1_fits)
          (v2_api-IsSized FitsInt fl ctx delivers) cs)
