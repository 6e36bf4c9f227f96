-- ===== src/Wav/Examples.antt =====
-- The theorems on WAV files and recordings at concrete samples.
use Prim.Native.String.{String}
use mac_kinect_native.Base.{
  ℕ, ◌^◌, ◌-◌, ◌≤◌, ◌<◌, ◌≡◌, refl, sym, none, some, Option, List, [], ◌∷◌, ◌++◌, arith,
}
use mac_kinect_native.Base.Tests.{if◌then◌else◌}
use text.Mathlib.Text.{◌==◌ as str_eq}
use mac_kinect_native.Base.Int.{ℤ, pos, negsuc}
use mac_kinect_native.Base.Lists.{length}
use mathlib.Core.List.{append-nil}
use mac_kinect_native.Wav.Header.{wav_header}
use mac_kinect_native.Wav.ReadHeader.{WavFormat, read_header}
use mac_kinect_native.Wav.DiskFile.{DiskFile, fwrite, rewind}
use mac_kinect_native.Wav.Sink.{
  WavSink, closed_sink, wav_sample_rate, close_wav_sink, open_sink, write_wav_header, data_bytes,
}
use mac_kinect_native.Wav.Session.{write_batches, batches_bytes, close-write-open}
use mac_kinect_native.Wav.ClosedFile.{read_header-close, long_recording_riff_size}
use mac_kinect_native.Wav.Recording.{initial_recording, start_audio_recording_locked}
use mac_kinect_native.Wav.Consistent.{
  IsConsistent, Started, toggles, hears, on_events, start_audio_recording-Started,
  recording-IsConsistent,
}

-- Three samples in two batches.
abbrev batches : List (ℕ × (ℕ → ℤ))
batches = (2, λ i. pos i) ∷ (1, λ i. negsuc i) ∷ []

close-write-open_example :
    (close_wav_sink (write_batches 4 batches (open_sink (some 100) "mic1.wav" 32 closed_sink).0)).1
    ≡ some (wav_header 16000 32 12 ++ batches_bytes 4 batches)
close-write-open_example =
    close-write-open 100 "mic1.wav" 4 batches closed_sink (omega arith) (omega arith) (omega arith)
      (omega arith)

abbrev recorded : List ℕ
recorded = wav_header 16000 32 12 ++ batches_bytes 4 batches

read_header-close_example :
    read_header recorded
    ≡ some (record {
      riff_size = length recorded - 8;
      audio_format = 1;
      channel_count = 1;
      sample_rate = 16000;
      byte_rate = 64000;
      block_align = 4;
      bits_per_sample = 32;
      data_size = length recorded - 44;
    })
read_header-close_example =
    read_header-close 100 "mic1.wav" 4 batches closed_sink (omega arith) (omega arith) (omega arith)
      (omega arith) close-write-open_example

abbrev full_file : DiskFile
full_file = record { content = wav_header 16000 16 0; position = 44; room = 2 ^ 33 }

abbrev full_sink : WavSink
full_sink = record {
  file = some full_file;
  path = "cancelled.wav";
  bits_per_sample = 16;
  sample_count = 2 ^ 31;
}

full_sink_closed :
    (close_wav_sink full_sink).1 ≡ some (wav_header wav_sample_rate 16 (data_bytes full_sink))
unfolding close_wav_sink write_wav_header wav_header fwrite rewind
full_sink_closed = refl

long_recording_riff_size_example :
    (format : WavFormat) × (read_header (wav_header wav_sample_rate 16 (data_bytes full_sink))
      ≡ some format)
    × (2 ^ 32 - 36 ≤ format.data_size)
    × (format.riff_size < 36)
unfolding wav_header
long_recording_riff_size_example =
    long_recording_riff_size full_sink full_file (wav_header 16000 16 0) [] 2 refl
      (sym (append-nil (wav_header 16000 16 0))) refl (omega arith) refl (omega arith) (omega arith)
      (omega arith) full_sink_closed

recording-IsConsistent_example : IsConsistent (
    on_events
      (toggles (λ path. some 1000) "now" ∷ hears (pos 2) none none none none none ∷ [])
      initial_recording)
recording-IsConsistent_example =
    recording-IsConsistent
      (toggles (λ path. some 1000) "now" ∷ hears (pos 2) none none none none none ∷ [])

-- The third file cannot be opened.
abbrev opens_two : String → Option ℕ
opens_two path = if str_eq path "captures/audio/now/mic3.wav" then none else some 1000

start_audio_recording-Started_example :
    Started (start_audio_recording_locked opens_two "now" initial_recording)
start_audio_recording-Started_example =
    start_audio_recording-Started opens_two "now" initial_recording
