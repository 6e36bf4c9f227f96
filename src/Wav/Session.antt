-- ===== src/Wav/Session.antt =====
-- One WAV file from `open_sink` through any number of audio callbacks to `CloseWavSink`
-- (src/control_center_v1.cpp).
use Prim.Native.String.{String}
use mac_kinect_native.Base.{
  ℕ, zero, suc, ◌+◌, ◌-◌, ◌*◌, ◌/◌, ◌^◌, ◌≤◌, ◌<◌, ◌≡◌, refl, sym, ap, ◌∙◌, some, List, [], ◌∷◌,
  ◌++◌, arith,
}
use native.Mathlib.Nat.{mod-eq_of_lt}
use mathlib.Core.List.{append-nil, append_assoc}
use mac_kinect_native.Base.Lists.{length, length-append}
use mac_kinect_native.Base.Int.{ℤ}
use mac_kinect_native.Wav.Header.{u32, u64, wav_header}
use mac_kinect_native.Wav.ReadHeader.{length-wav_header}
use mac_kinect_native.Wav.DiskFile.{DiskFile, new_file, rewind, fwrite_at_end, fwrite_over}
use mac_kinect_native.Wav.Sink.{
  WavSink, wav_sample_rate, write_wav_header, data_bytes, close_wav_sink, open_sink, to_word,
  le_bytes, samples_bytes, write_samples,
}

length-le_bytes : (k w : ℕ) → length (le_bytes k w) ≡ k
unfolding le_bytes
length-le_bytes zero w = refl
length-le_bytes (suc k) w = ap suc (length-le_bytes k (w / 256))

pub length-samples_bytes :
    (width n i : ℕ) (p : ℕ → ℤ) → length (samples_bytes width n i p) ≡ n * width
unfolding samples_bytes
length-samples_bytes width zero i p = omega arith
length-samples_bytes width (suc n) i p = omega (
  arith,
  length-append (le_bytes width (to_word width (p i))) (samples_bytes width n (suc i) p),
  length-le_bytes width (to_word width (p i)),
  length-samples_bytes width n (suc i) p,
)

-- An open sink whose file has a header of length 0 and then `audio`, with room for `more` bytes.
pub record Holds (s : WavSink) (width : ℕ) (audio : List ℕ) (more : ℕ) : Type 0 where
  pub disk_file : DiskFile
  pub is_open : s.file ≡ some disk_file
  pub holds : disk_file.content ≡ wav_header wav_sample_rate (8 * width) 0 ++ audio
  pub at_end : disk_file.position ≡ length disk_file.content
  pub fits : 44 + length audio + more ≤ disk_file.room
  pub bits : s.bits_per_sample ≡ 8 * width
  pub counted : s.sample_count * width ≡ length audio

-- The batches of samples that successive callbacks bring.
pub write_batches : ℕ → List (ℕ × (ℕ → ℤ)) → WavSink → WavSink
write_batches width [] s = s
write_batches width ((n, p) ∷ bs) s = write_batches width bs (write_samples width n (some p) s)

abbrev pub batches_bytes : ℕ → List (ℕ × (ℕ → ℤ)) → List ℕ
batches_bytes width [] = []
batches_bytes width ((n, p) ∷ bs) = samples_bytes width n 0 p ++ batches_bytes width bs

le-mul_pos : (a w : ℕ) → 0 < w → a ≤ a * w
le-mul_pos a w h = grind arith

-- The sample counter does not wrap while the bytes number less than 2^32.
count_exact : (c n w a : ℕ) → 0 < w → c * w ≡ a → a + n * w < 2 ^ 32 → u64 (c + n) * w ≡ a + n * w
count_exact c n w a h e small =
    let product : (c + n) * w ≡ a + n * w = omega (arith, e) in
    let under : c + n < 2 ^ 64 = omega (arith, le-mul_pos (c + n) w h, product) in
    ap (λ k. k * w) (mod-eq_of_lt under) ∙ product

open_sink-Holds :
    (room : ℕ) (path : String) (width : ℕ) (s : WavSink)
    → 44 ≤ room
    → Holds (open_sink (some room) path (8 * width) s).0 width [] (room - 44)
unfolding open_sink write_wav_header new_file rewind
open_sink-Holds room path width s h =
    let header = wav_header wav_sample_rate (8 * width) 0 in
    let size = length-wav_header wav_sample_rate (8 * width) 0 in
    let written = fwrite_at_end header (rewind (new_file room)) refl (omega (arith, size)) in
    record {
      disk_file = record { content = header; position = length header; room = room };
      is_open = ap (λ r. some r.0) written;
      holds = sym (append-nil header);
      at_end = refl;
      fits = omega arith;
      bits = refl;
      counted = omega arith;
    }

write_samples-Holds :
    (s : WavSink) (width n more : ℕ) (p : ℕ → ℤ) (audio : List ℕ)
    → 0 < width
    → length audio + n * width < 2 ^ 32
    → Holds s width audio (n * width + more)
    → Holds (write_samples width n (some p) s) width (audio ++ samples_bytes width n 0 p) more
unfolding write_samples
write_samples-Holds s width n more p audio pos small h =
    let f = h.disk_file in
    let bytes = samples_bytes width n 0 p in
    let size = length-samples_bytes width n 0 p in
    let header = wav_header wav_sample_rate (8 * width) 0 in
    let total = length-append header audio in
    let len : length f.content ≡ 44 + length audio =
      ap length h.holds ∙ omega (arith, total, length-wav_header wav_sample_rate (8 * width) 0) in
    let written = fwrite_at_end bytes f h.at_end (omega (arith, len, size, h.fits)) in
    rw (h.is_open, write_samples)
      (record {
        disk_file = record f {
          content = f.content ++ bytes;
          position = length (f.content ++ bytes);
        };
        is_open = ap (λ r. some r.0) written;
        holds = ap (λ l. l ++ bytes) h.holds ∙ append_assoc header audio bytes;
        at_end = refl;
        fits = omega (arith, h.fits, length-append audio bytes, size);
        bits = h.bits;
        counted =
            count_exact s.sample_count n width (length audio) pos h.counted small
            ∙ omega (arith, length-append audio bytes, size);
      })

-- The bytes that a list of batches takes.
abbrev pub batches_size : ℕ → List (ℕ × (ℕ → ℤ)) → ℕ
batches_size width [] = 0
batches_size width ((n, p) ∷ bs) = n * width + batches_size width bs

pub length-batches_bytes :
    (width : ℕ) (bs : List (ℕ × (ℕ → ℤ))) → length (batches_bytes width bs) ≡ batches_size width bs
length-batches_bytes width [] = refl
length-batches_bytes width ((n, p) ∷ bs) = omega (
  arith,
  length-append (samples_bytes width n 0 p) (batches_bytes width bs),
  length-samples_bytes width n 0 p,
  length-batches_bytes width bs,
)

Holds-less :
    {s : WavSink} {width : ℕ} {audio : List ℕ} {more less : ℕ}
    → Holds s width audio more
    → less ≤ more
    → Holds s width audio less
Holds-less h le = record {
  disk_file = h.disk_file;
  is_open = h.is_open;
  holds = h.holds;
  at_end = h.at_end;
  fits = omega (arith, h.fits);
  bits = h.bits;
  counted = h.counted;
}

write_batches-Holds :
    (width : ℕ) (bs : List (ℕ × (ℕ → ℤ))) (s : WavSink) (audio : List ℕ)
    → 0 < width
    → length audio + batches_size width bs < 2 ^ 32
    → Holds s width audio (batches_size width bs)
    → Holds (write_batches width bs s) width (audio ++ batches_bytes width bs) 0
unfolding write_batches
write_batches-Holds width [] s audio pos small h = rw (append-nil audio) h
write_batches-Holds width ((n, p) ∷ bs) s audio pos small h =
    let bytes = samples_bytes width n 0 p in
    let h' = write_samples-Holds s width n (batches_size width bs) p audio pos (omega arith) h in
    let size = length-append audio bytes in
    let size' = length-samples_bytes width n 0 p in
    rw (← append_assoc audio bytes (batches_bytes width bs)) (
      write_batches-Holds width bs (write_samples width n (some p) s) (audio ++ bytes) pos
        (omega (arith, size, size')) h')

data_bytes_exact :
    (s : WavSink) (width : ℕ)
    → s.bits_per_sample ≡ 8 * width
    → width < 2 ^ 32
    → s.sample_count * width < 2 ^ 32
    → data_bytes s ≡ s.sample_count * width
unfolding data_bytes
data_bytes_exact s width bits narrow small =
    let e : u32 (s.bits_per_sample / 8) ≡ width = omega arith in rw e (ground arith)

-- Closing a file that begins with 44 bytes puts the header in their place.
pub close_wav_sink_content :
    (s : WavSink) (f : DiskFile) (old rest : List ℕ)
    → s.file ≡ some f
    → f.content ≡ old ++ rest
    → length old ≡ 44
    → 44 ≤ f.room
    → (close_wav_sink s).1
      ≡ some (wav_header wav_sample_rate s.bits_per_sample (data_bytes s) ++ rest)
unfolding close_wav_sink write_wav_header data_bytes
close_wav_sink_content s f old rest is_open holds size fits =
    let new = wav_header wav_sample_rate s.bits_per_sample (data_bytes s) in
    let size_new = length-wav_header wav_sample_rate s.bits_per_sample (data_bytes s) in
    let written = fwrite_over old new rest f holds (size_new ∙ sym size) (omega arith) in
    rw (is_open, close_wav_sink) (ap (λ r. some (r.0.content)) written)

close_wav_sink-Holds :
    (s : WavSink) (width : ℕ) (audio : List ℕ)
    → width < 2 ^ 32
    → length audio < 2 ^ 32
    → Holds s width audio 0
    → (close_wav_sink s).1 ≡ some (wav_header wav_sample_rate (8 * width) (length audio) ++ audio)
close_wav_sink-Holds s width audio narrow small h =
    let size = data_bytes_exact s width h.bits narrow (omega (arith, h.counted)) ∙ h.counted in
    let old = wav_header wav_sample_rate (8 * width) 0 in
    rw (← size, ← h.bits)
      (close_wav_sink_content s h.disk_file old audio h.is_open h.holds
        (length-wav_header wav_sample_rate (8 * width) 0) (omega (arith, h.fits)))

-- A whole recording: a file is opened, takes any batches of samples of `width` bytes, and is closed.
-- If the disk has room for the header and the samples, and the samples take less than 2^32 bytes,
-- then the file on the disk is a header whose data size is exactly what was recorded, followed by
-- all the samples in order.
pub close-write-open :
    (room : ℕ) (path : String) (width : ℕ) (bs : List (ℕ × (ℕ → ℤ))) (s : WavSink)
    → 0 < width
    → width < 2 ^ 32
    → batches_size width bs < 2 ^ 32
    → 44 + batches_size width bs ≤ room
    → (close_wav_sink (write_batches width bs (open_sink (some room) path (8 * width) s).0)).1
      ≡ some
          (wav_header wav_sample_rate (8 * width) (batches_size width bs) ++ batches_bytes width bs)
close-write-open room path width bs s pos narrow small fits =
    let opened = open_sink-Holds room path width s (omega arith) in
    let sink = (open_sink (some room) path (8 * width) s).0 in
    let ready : Holds sink width [] (batches_size width bs) = Holds-less opened (omega arith) in
    let done = write_batches-Holds width bs sink [] pos (omega arith) ready in
    let total = length-batches_bytes width bs in
    rw (← total) (
      close_wav_sink-Holds (write_batches width bs sink) width (batches_bytes width bs) narrow
        (omega (arith, total)) done)
