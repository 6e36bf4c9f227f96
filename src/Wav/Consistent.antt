-- ===== src/Wav/Consistent.antt =====
-- The recording flag and the five files of src/control_center_v1.cpp, over any sequence of key
-- presses and audio callbacks.
use Prim.Native.String.{String, ◌++◌ as str_append}
use mac_kinect_native.Base.{
  ℕ, ◌≡◌, refl, Bool, true, false, Option, none, some, List, [], ◌∷◌, arith,
}
use mac_kinect_native.Base.Tests.{if_rule}
use mac_kinect_native.Base.Int.{ℤ}
use mac_kinect_native.Wav.Sink.{WavSink, close_wav_sink, to_u64, write_samples}
use mac_kinect_native.Wav.Recording.{
  Recording, initial_recording, stop_audio_recording_locked, open_next,
  start_audio_recording_locked, toggle_audio_recording, measure_level, audio_in_cb,
}

abbrev pub is_open : WavSink → Bool
is_open s = elim s.file [ none ↦ false | some f ↦ true ]

-- Every sink of the recording has a file, or none has.
pub record AllAre (b : Bool) (r : Recording) : Type 0 where
  pub mic1_open : is_open r.mic1 ≡ b
  pub mic2_open : is_open r.mic2 ≡ b
  pub mic3_open : is_open r.mic3 ≡ b
  pub mic4_open : is_open r.mic4 ≡ b
  pub cancelled_open : is_open r.cancelled_wav ≡ b

-- The flag says whether all five files are open or all are closed.
abbrev pub IsConsistent : Recording → Type 0
IsConsistent r = AllAre r.audio_recording r

is_open-close : (s : WavSink) → is_open (close_wav_sink s).0 ≡ false
unfolding close_wav_sink
is_open-close s = ground arith

is_open-write :
    (width n : ℕ) (p : Option (ℕ → ℤ)) (s : WavSink)
    → is_open (write_samples width n p s) ≡ is_open s
unfolding write_samples
is_open-write width n none s = refl
is_open-write width n (some p) s = ground arith

is_open-open_next :
    (before : Bool) (answer : Option ℕ) (path : String) (bits : ℕ) (s : WavSink)
    → (open_next before answer path bits s).1 ≡ true
    → (before ≡ true) × (is_open (open_next before answer path bits s).0 ≡ true)
unfolding open_next
is_open-open_next false answer path bits s e = ground arith
is_open-open_next true none path bits s e = ground arith
is_open-open_next true (some room) path bits s e = (refl, ground arith)

pub stop_closes :
    (r : Recording)
    → AllAre false (stop_audio_recording_locked r)
      × ((stop_audio_recording_locked r).audio_recording ≡ false)
unfolding stop_audio_recording_locked
stop_closes r = (
  record {
    mic1_open = is_open-close r.mic1;
    mic2_open = is_open-close r.mic2;
    mic3_open = is_open-close r.mic3;
    mic4_open = is_open-close r.mic4;
    cancelled_open = is_open-close r.cancelled_wav;
  },
  refl,
)

-- What starting a recording establishes: the flag, the result and the files agree.
pub record Started (out : Recording × Bool) : Type 0 where
  pub consistent : AllAre out.1 out.0
  pub flagged : out.0.audio_recording ≡ out.1

module _ (opens : String → Option ℕ) (stamp : String) where
  -- Whichever of the five files cannot be opened or takes no header, `StartAudioRecordingLocked`
  -- returns true with all five open and the flag set, or false with all five closed and the flag
  -- clear.
  pub start_audio_recording-Started :
      (r : Recording) → Started (start_audio_recording_locked opens stamp r)
  unfolding start_audio_recording_locked
  start_audio_recording-Started r =
      let base_dir = str_append "captures/audio/" stamp in
      let path = λ (name : String). str_append base_dir (str_append "/" name) in
      let o1 = open_next true (opens (path "mic1.wav")) (path "mic1.wav") 32 r.mic1 in
      let o2 = open_next o1.1 (opens (path "mic2.wav")) (path "mic2.wav") 32 r.mic2 in
      let o3 = open_next o2.1 (opens (path "mic3.wav")) (path "mic3.wav") 32 r.mic3 in
      let o4 = open_next o3.1 (opens (path "mic4.wav")) (path "mic4.wav") 32 r.mic4 in
      let o5 =
        open_next o4.1 (opens (path "cancelled.wav")) (path "cancelled.wav") 16 r.cancelled_wav in
      let r' = record r {
        mic1 = o1.0;
        mic2 = o2.0;
        mic3 = o3.0;
        mic4 = o4.0;
        cancelled_wav = o5.0;
      } in
      if_rule Started o5.1 _
        (λ e5.
          let (e4, f5) =
            is_open-open_next o4.1 (opens (path "cancelled.wav")) (path "cancelled.wav") 16
              r.cancelled_wav e5 in
          let (e3, f4) =
            is_open-open_next o3.1 (opens (path "mic4.wav")) (path "mic4.wav") 32 r.mic4 e4 in
          let (e2, f3) =
            is_open-open_next o2.1 (opens (path "mic3.wav")) (path "mic3.wav") 32 r.mic3 e3 in
          let (e1, f2) =
            is_open-open_next o1.1 (opens (path "mic2.wav")) (path "mic2.wav") 32 r.mic2 e2 in
          let (_, f1) =
            is_open-open_next true (opens (path "mic1.wav")) (path "mic1.wav") 32 r.mic1 e1 in
          record {
            consistent = record {
              mic1_open = f1;
              mic2_open = f2;
              mic3_open = f3;
              mic4_open = f4;
              cancelled_open = f5;
            };
            flagged = refl;
          })
        (λ _.
          let closed = (stop_closes r').0 in
          record {
            consistent = record {
              mic1_open = closed.mic1_open;
              mic2_open = closed.mic2_open;
              mic3_open = closed.mic3_open;
              mic4_open = closed.mic4_open;
              cancelled_open = closed.cancelled_open;
            };
            flagged = (stop_closes r').1;
          })

-- A step of the program as the recording sees it: the `a` key, an audio callback, the audio stream
-- found available or not, and the shutdown of either thread.
pub data RecordingEvent : Type 0 where
  toggles : (String → Option ℕ) → String → RecordingEvent
  hears : ℤ → (mic1 mic2 mic3 mic4 cancelled : Option (ℕ → ℤ)) → RecordingEvent
  finds_stream : Bool → RecordingEvent
  shuts_down : RecordingEvent

pub on_event : RecordingEvent → Recording → Recording
on_event (toggles opens stamp) r = toggle_audio_recording opens stamp r
on_event (hears n m1 m2 m3 m4 c) r = audio_in_cb n m1 m2 m3 m4 c r
on_event (finds_stream b) r = record r { audio_stream_available = b }
on_event shuts_down r = stop_audio_recording_locked r

pub on_events : List RecordingEvent → Recording → Recording
on_events [] r = r
on_events (e ∷ es) r = on_events es (on_event e r)

stop-IsConsistent : (r : Recording) → IsConsistent (stop_audio_recording_locked r)
unfolding stop_audio_recording_locked
stop-IsConsistent r = (stop_closes r).0

toggle-IsConsistent :
    (opens : String → Option ℕ) (stamp : String) (r : Recording)
    → IsConsistent r
    → IsConsistent (toggle_audio_recording opens stamp r)
unfolding toggle_audio_recording
toggle-IsConsistent opens stamp r h =
    ground (arith, start_audio_recording-Started opens stamp r, stop-IsConsistent r)

audio_in_cb-IsConsistent :
    (n : ℤ) (m1 m2 m3 m4 c : Option (ℕ → ℤ)) (r : Recording)
    → IsConsistent r
    → IsConsistent (audio_in_cb n m1 m2 m3 m4 c r)
unfolding audio_in_cb
audio_in_cb-IsConsistent n m1 m2 m3 m4 c r h =
    let k = to_u64 n in
    ground (
      arith,
      is_open-write 4 k m1 (measure_level n c r).mic1,
      is_open-write 4 k m2 (measure_level n c r).mic2,
      is_open-write 4 k m3 (measure_level n c r).mic3,
      is_open-write 4 k m4 (measure_level n c r).mic4,
      is_open-write 2 k c (measure_level n c r).cancelled_wav,
    )

on_event-IsConsistent :
    (e : RecordingEvent) (r : Recording) → IsConsistent r → IsConsistent (on_event e r)
unfolding on_event
on_event-IsConsistent (toggles opens stamp) r h = toggle-IsConsistent opens stamp r h
on_event-IsConsistent (hears n m1 m2 m3 m4 c) r h = audio_in_cb-IsConsistent n m1 m2 m3 m4 c r h
on_event-IsConsistent (finds_stream b) r h = ground arith
on_event-IsConsistent shuts_down r h = stop-IsConsistent r

on_events-IsConsistent :
    (es : List RecordingEvent) (r : Recording) → IsConsistent r → IsConsistent (on_events es r)
unfolding on_events
on_events-IsConsistent [] r h = h
on_events-IsConsistent (e ∷ es) r h =
    on_events-IsConsistent es (on_event e r) (on_event-IsConsistent e r h)

-- From the program's start and through any events, failures to open files included, the recording
-- flag says exactly whether all five WAV files are open or all five are closed.
pub recording-IsConsistent :
    (es : List RecordingEvent) → IsConsistent (on_events es initial_recording)
unfolding initial_recording
recording-IsConsistent es = on_events-IsConsistent es initial_recording (record {
  mic1_open = refl;
  mic2_open = refl;
  mic3_open = refl;
  mic4_open = refl;
  cancelled_open = refl;
})
