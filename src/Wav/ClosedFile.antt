-- ===== src/Wav/ClosedFile.antt =====
-- What a reader finds in a WAV file that src/control_center_v1.cpp has recorded and closed.
use Prim.Native.String.{String}
use mac_kinect_native.Base.{
  ℕ, ◌+◌, ◌-◌, ◌*◌, ◌/◌, ◌^◌, ◌≤◌, ◌<◌, ◌≡◌, ap, ◌∙◌, some, List, ◌++◌, arith,
}
use mac_kinect_native.Base.Lists.{length, length-append}
use mac_kinect_native.Base.Int.{ℤ}
use mac_kinect_native.Wav.Header.{u16, u32, wav_header}
use mac_kinect_native.Wav.ReadHeader.{
  WavFormat, read_header, length-wav_header, read_header-wav_header,
}
use mac_kinect_native.Wav.DiskFile.{DiskFile}
use mac_kinect_native.Wav.Sink.{WavSink, wav_sample_rate, data_bytes, close_wav_sink, open_sink}
use mac_kinect_native.Wav.Session.{
  write_batches, batches_size, batches_bytes, length-batches_bytes, close-write-open,
  close_wav_sink_content,
}

-- What a reader finds in such a file, if the samples also leave room for the 36 bytes that the RIFF
-- size counts: one channel of PCM at 16000 samples a second, a data size that is the number of bytes
-- behind the header, and a RIFF size that is the length of the file less 8.
pub read_header-close :
    (room : ℕ) (path : String) (width : ℕ) (bs : List (ℕ × (ℕ → ℤ))) (s : WavSink) {file : List ℕ}
    → 0 < width
    → width < 2 ^ 13
    → batches_size width bs + 36 < 2 ^ 32
    → 44 + batches_size width bs ≤ room
    → (close_wav_sink (write_batches width bs (open_sink (some room) path (8 * width) s).0)).1
      ≡ some file
    → read_header file
      ≡ some (record {
        riff_size = length file - 8;
        audio_format = 1;
        channel_count = 1;
        sample_rate = 16000;
        byte_rate = 16000 * width;
        block_align = width;
        bits_per_sample = 8 * width;
        data_size = length file - 44;
      })
read_header-close room path width bs s {file} pos narrow small fits e =
    let total = batches_size width bs in
    let header = wav_header wav_sample_rate (8 * width) total in
    let audio = batches_bytes width bs in
    let f : file ≡ header ++ audio =
      ground
        (arith, e, close-write-open room path width bs s pos (omega arith) (omega arith) fits) in
    let len = length-append header audio in
    let size : length file ≡ 44 + total =
      ap length f
      ∙ omega (
        arith,
        len,
        length-wav_header wav_sample_rate (8 * width) total,
        length-batches_bytes width bs,
      ) in
    let read =
      read_header-wav_header wav_sample_rate (8 * width) total audio (omega arith) (omega arith)
        (omega arith) in
    rw (size, f) (read ∙ ground arith)

data_bytes_saturates :
    (s : WavSink) (width : ℕ)
    → s.bits_per_sample ≡ 8 * width
    → width < 2 ^ 13
    → 2 ^ 32 - 36 ≤ s.sample_count * width
    → s.sample_count * width < 2 ^ 64
    → (2 ^ 32 - 36 ≤ data_bytes s) × (data_bytes s < 2 ^ 32)
unfolding data_bytes
data_bytes_saturates s width bits narrow long fits =
    let e : u32 (s.bits_per_sample / 8) ≡ width = omega arith in rw e (ground arith)

-- A fault in long recordings: once a sink has counted 2^32 - 36 bytes of samples or more (and less
-- than 2^64), the header that is written on closing has a data size of at least 2^32 - 36, yet a
-- RIFF size below 36, since 36 is added to the size modulo 2^32.
pub long_recording_riff_size :
    (s : WavSink) (f : DiskFile) (old rest : List ℕ) (width : ℕ) {file : List ℕ}
    → s.file ≡ some f
    → f.content ≡ old ++ rest
    → length old ≡ 44
    → 44 ≤ f.room
    → s.bits_per_sample ≡ 8 * width
    → width < 2 ^ 13
    → 2 ^ 32 - 36 ≤ s.sample_count * width
    → s.sample_count * width < 2 ^ 64
    → (close_wav_sink s).1 ≡ some file
    → (format : WavFormat) × (read_header file ≡ some format)
      × (2 ^ 32 - 36 ≤ format.data_size)
      × (format.riff_size < 36)
long_recording_riff_size s f old rest width {file} is_open holds size fits bits narrow long short
      e =
    let bytes = data_bytes s in
    let (least, most) = data_bytes_saturates s width bits narrow long short in
    let closed = close_wav_sink_content s f old rest is_open holds size fits in
    let content : file ≡ wav_header wav_sample_rate s.bits_per_sample bytes ++ rest =
      ground (arith, e, closed) in
    let read =
      read_header-wav_header wav_sample_rate s.bits_per_sample bytes rest (omega arith)
        (omega arith) most in
    let format : WavFormat = record {
      riff_size = u32 (36 + bytes);
      audio_format = 1;
      channel_count = 1;
      sample_rate = wav_sample_rate;
      byte_rate = u32 (wav_sample_rate * s.bits_per_sample / 8);
      block_align = u16 (s.bits_per_sample / 8);
      bits_per_sample = s.bits_per_sample;
      data_size = bytes;
    } in
    (format, ap read_header content ∙ read, least, omega (arith, least, most))
