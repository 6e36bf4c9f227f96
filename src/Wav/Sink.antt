-- ===== src/Wav/Sink.antt =====
-- `WavSink` of src/control_center_v1.cpp: one WAV file that is being recorded.
use Prim.Native.String.{String}
use mac_kinect_native.Base.{
  ℕ, zero, suc, ◌+◌, ◌-◌, ◌*◌, ◌/◌, ◌%◌, ◌^◌, Bool, false, Option, none, some, List, [], ◌∷◌, ◌++◌,
}
use mac_kinect_native.Base.Tests.{ltb, ◌==◌, if◌then◌else◌}
use mac_kinect_native.Base.Lists.{length}
use mac_kinect_native.Base.Int.{ℤ, pos, negsuc}
use mac_kinect_native.Wav.Header.{u32, u64, wav_header}
use mac_kinect_native.Wav.DiskFile.{DiskFile, new_file, rewind, fwrite}

pub record WavSink : Type 0 where
  pub file : Option DiskFile
  pub path : String
  pub bits_per_sample : ℕ
  pub sample_count : ℕ

abbrev pub closed_sink : WavSink
closed_sink = record { file = none; path = ""; bits_per_sample = 0; sample_count = 0 }

abbrev pub wav_sample_rate : ℕ
wav_sample_rate = 16000

-- The file and whether all 44 bytes were written. (A null file is tested by the callers.)
unfoldable pub write_wav_header : ℕ → ℕ → ℕ → DiskFile → DiskFile × Bool
write_wav_header sample_rate bits_per_sample data_bytes f =
    let header = wav_header sample_rate bits_per_sample data_bytes in
    let (f', written) = fwrite header (rewind f) in (f', written == length header)

-- The size that `CloseWavSink` writes: 32 bits, saturating.
unfoldable pub data_bytes : WavSink → ℕ
data_bytes s =
    let bytes_per_sample = u32 (s.bits_per_sample / 8) in
    let bytes_u64 = u64 (s.sample_count * bytes_per_sample) in
    if ltb (2 ^ 32 - 1) bytes_u64 then 2 ^ 32 - 1 else bytes_u64

-- The closed sink, and the bytes that it leaves on the disk if it had a file.
unfoldable pub close_wav_sink : WavSink → WavSink × Option (List ℕ)
close_wav_sink s = elim s.file [
  | none ↦ (s, none)
  | some f ↦ (
    record s { file = none },
    some (write_wav_header wav_sample_rate s.bits_per_sample (data_bytes s) f).0.content,
  )
]

-- `fopen` answers with the room of the new file, or fails.
unfoldable pub open_sink : Option ℕ → String → ℕ → WavSink → WavSink × Bool
open_sink none path bits s =
    (record { file = none; path = path; bits_per_sample = bits; sample_count = 0 }, false)
open_sink (some room) path bits s =
    let (f, written) = write_wav_header wav_sample_rate bits 0 (new_file room) in
    (record { file = some f; path = path; bits_per_sample = bits; sample_count = 0 }, written)

-- `static_cast<std::uint64_t>` of an `int`.
abbrev pub to_u64 : ℤ → ℕ
to_u64 (pos n) = n
to_u64 (negsuc n) = 2 ^ 64 - 1 - n

-- A sample of `width` bytes as the machine, little-endian, has it in memory: two's complement.
abbrev pub to_word : ℕ → ℤ → ℕ
to_word width (pos n) = n % 256 ^ width
to_word width (negsuc n) = 256 ^ width - 1 - n % 256 ^ width

unfoldable pub le_bytes : ℕ → ℕ → List ℕ
le_bytes zero w = []
le_bytes (suc k) w = w % 256 ∷ le_bytes k (w / 256)

-- n samples from the i-th, at a pointer.
unfoldable pub samples_bytes : ℕ → ℕ → ℕ → (ℕ → ℤ) → List ℕ
samples_bytes width zero i p = []
samples_bytes width (suc n) i p =
    le_bytes width (to_word width (p i)) ++ samples_bytes width n (suc i) p

-- `write_i32` at width 4 and `write_i16` at width 2. What `fwrite` reports is dropped.
unfoldable pub write_samples : ℕ → ℕ → Option (ℕ → ℤ) → WavSink → WavSink
write_samples width n none s = s
write_samples width n (some p) s = elim s.file [
  | none ↦ s
  | some f ↦ record s {
    file = some (fwrite (samples_bytes width n 0 p) f).0;
    sample_count = u64 (s.sample_count + n);
  }
]
