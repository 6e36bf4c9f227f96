-- ===== src/Wav/Recording.antt =====
-- The microphone recording of src/control_center_v1.cpp: five sinks and the flag
-- `g_audio_recording`. The mutex is held over each operation, so each is one step.
use Prim.Native.String.{String, ◌++◌ as str_append}
use mac_kinect_native.Base.{
  ℕ, zero, suc, ◌+◌, Bool, true, false, not, Option, none, some, List, [], ◌∷◌,
}
use mac_kinect_native.Base.Tests.{if◌then◌else◌}
use mac_kinect_native.Base.Int.{ℤ, pos, pos_part, neg_part, ltb_ℤ}
use mac_kinect_native.Wav.Sink.{
  WavSink, closed_sink, close_wav_sink, open_sink, to_u64, write_samples,
}

pub record Recording : Type 0 where
  pub mic1 : WavSink
  pub mic2 : WavSink
  pub mic3 : WavSink
  pub mic4 : WavSink
  pub cancelled_wav : WavSink
  pub audio_recording : Bool
  pub audio_stream_available : Bool
  -- `g_audio_level` is `level_sum / (level_samples * 32768)`.
  pub level_sum : ℕ
  pub level_samples : ℕ
  pub status : String
  -- The files that were closed, newest first.
  pub disk : List (String × List ℕ)

unfoldable pub initial_recording : Recording
initial_recording = record {
  mic1 = closed_sink;
  mic2 = closed_sink;
  mic3 = closed_sink;
  mic4 = closed_sink;
  cancelled_wav = closed_sink;
  audio_recording = false;
  audio_stream_available = false;
  level_sum = 0;
  level_samples = 1;
  status = "Ready.";
  disk = [];
}

unfoldable pub set_status : String → Recording → Recording
set_status message r = record r { status = message }

-- A closed file joins those on the disk.
abbrev pub keep_file : String → Option (List ℕ) → List (String × List ℕ) → List (String × List ℕ)
keep_file path none disk = disk
keep_file path (some bytes) disk = (path, bytes) ∷ disk

unfoldable pub stop_audio_recording_locked : Recording → Recording
stop_audio_recording_locked r =
    let (s1, b1) = close_wav_sink r.mic1 in
    let (s2, b2) = close_wav_sink r.mic2 in
    let (s3, b3) = close_wav_sink r.mic3 in
    let (s4, b4) = close_wav_sink r.mic4 in
    let (s5, b5) = close_wav_sink r.cancelled_wav in
    record r {
      mic1 = s1;
      mic2 = s2;
      mic3 = s3;
      mic4 = s4;
      cancelled_wav = s5;
      disk = keep_file s5.path b5 (
          keep_file s4.path b4
            (keep_file s3.path b3 (keep_file s2.path b2 (keep_file s1.path b1 r.disk))));
      audio_recording = false;
    }

-- One operand of the `&&` chain: it is evaluated only if those before it were true.
unfoldable pub open_next : Bool → Option ℕ → String → ℕ → WavSink → WavSink × Bool
unfolding open_sink
open_next before answer path bits s = if before then open_sink answer path bits s else (s, false)

-- `opens` is what `fopen` answers for a path, and `stamp` is `TimestampNow()`. The `mkdir` calls are
-- left out: what they fail to make shows in what `fopen` answers.
unfoldable pub start_audio_recording_locked :
    (String → Option ℕ) → String → Recording → Recording × Bool
unfolding open_next stop_audio_recording_locked set_status
start_audio_recording_locked opens stamp r =
    let base_dir = str_append "captures/audio/" stamp in
    let path = λ (name : String). str_append base_dir (str_append "/" name) in
    let (s1, ok1) = open_next true (opens (path "mic1.wav")) (path "mic1.wav") 32 r.mic1 in
    let (s2, ok2) = open_next ok1 (opens (path "mic2.wav")) (path "mic2.wav") 32 r.mic2 in
    let (s3, ok3) = open_next ok2 (opens (path "mic3.wav")) (path "mic3.wav") 32 r.mic3 in
    let (s4, ok4) = open_next ok3 (opens (path "mic4.wav")) (path "mic4.wav") 32 r.mic4 in
    let (s5, opened) =
      open_next ok4 (opens (path "cancelled.wav")) (path "cancelled.wav") 16 r.cancelled_wav in
    let r' = record r { mic1 = s1; mic2 = s2; mic3 = s3; mic4 = s4; cancelled_wav = s5 } in
    if opened
    then (
      set_status (str_append "Audio recording started: " base_dir)
          (record r' { audio_recording = true }),
      true,
    )
    else (
      set_status "Failed to open all WAV files for microphone recording."
          (stop_audio_recording_locked r'),
      false,
    )

unfoldable pub toggle_audio_recording : (String → Option ℕ) → String → Recording → Recording
unfolding set_status
toggle_audio_recording opens stamp r =
    if not r.audio_stream_available
    then set_status "Audio stream is unavailable on this device/session." r
    else if not r.audio_recording
    then (start_audio_recording_locked opens stamp r).0
    else set_status "Audio recording stopped." (stop_audio_recording_locked r)

-- The sum of the absolute values of n samples from the i-th.
unfoldable pub abs_sum : ℕ → ℕ → (ℕ → ℤ) → ℕ
abs_sum zero i p = 0
abs_sum (suc n) i p = pos_part (p i) + neg_part (p i) + abs_sum n (suc i) p

unfoldable pub measure_level : ℤ → Option (ℕ → ℤ) → Recording → Recording
measure_level num_samples none r = r
measure_level num_samples (some p) r =
    if ltb_ℤ (pos 0) num_samples
    then record r {
      level_sum = abs_sum (pos_part num_samples) 0 p;
      level_samples = pos_part num_samples;
    }
    else r

unfoldable pub audio_in_cb :
    ℤ → (mic1 mic2 mic3 mic4 cancelled : Option (ℕ → ℤ)) → Recording → Recording
unfolding measure_level
audio_in_cb num_samples mic1 mic2 mic3 mic4 cancelled r =
    let n = to_u64 num_samples in
    let r1 = measure_level num_samples cancelled r in
    if not r1.audio_recording then r1 else record r1 {
      mic1 = write_samples 4 n mic1 r1.mic1;
      mic2 = write_samples 4 n mic2 r1.mic2;
      mic3 = write_samples 4 n mic3 r1.mic3;
      mic4 = write_samples 4 n mic4 r1.mic4;
      cancelled_wav = write_samples 2 n cancelled r1.cancelled_wav;
    }
