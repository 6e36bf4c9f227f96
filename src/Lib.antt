-- ===== src/Lib.antt =====
-- A verification library for macKinect native, a program for the Kinect sensors on macOS.
--
-- The program's parts. Two backends (src/backends) drive a Kinect v1 or v2 behind the interface
-- `KinectDevice` of src/backends/backend.h. The control center (src/control_center_v1.cpp) drives a
-- Kinect v1 itself and records its four microphones as WAV files. Two plug-ins offer a Kinect to
-- other programs: the audio HAL plug-in (src/hal_plugin) a microphone, the camera DAL plug-in
-- (src/dal_plugin) a camera, whose producer thread takes pictures from the backends and puts them
-- on a queue for its clients. The command line (src/main.cpp) lists and previews devices through
-- both backends, and a preview window (src/gui/app.cpp) shows the first device's frames.
--
-- Which file models which part:
--   Base         shared names, Boolean tests, lists and integers over the native numbers
--   Backend      the types of src/backends/backend.h
--   V1Device     `FreenectV1Device` of src/backends/freenect_v1_backend.cpp. A method takes the
--                device's fields (State) with the log of its calls to libfreenect (Calls) and returns
--                them with its result: open, start, stop, the destructor, the video mode and audio
--                (Streaming), the hardware controls (Controls), the callbacks, update and getFrame
--                (Frames). Methods is a client that calls any of them, and Preview the loop of
--                `FreenectV1Backend::preview`. The other files prove.
--   Wav          the recording of src/control_center_v1.cpp: `PutLe16`, `PutLe32` and the bytes of
--                `WriteWavHeader` (Header), a reader of such headers (ReadHeader), a file on a disk
--                with limited room (DiskFile), `WavSink` with `CloseWavSink`, `open_sink` and the
--                writers of `audio_in_cb` (Sink), and the five sinks with the recording flag
--                (Recording). Session, ClosedFile and Consistent prove.
--   Hal          src/hal_plugin/KinectAudioHALPlugin.cpp: `DriverHasProperty` and
--                `DriverIsPropertySettable` (Selectors), `DriverGetPropertyDataSize` (DataSize),
--                `DriverGetPropertyData` (Data), the state, `DriverSetPropertyData`, the I/O clients,
--                time stamps and operations (Driver). Consistent, Settings, Settable and Clients
--                prove.
--   Dal          src/dal_plugin/KinectCameraDALPlugin.cpp: the property functions (Selectors,
--                DataSize, Data), the life of the objects (Objects), the queue (Queue, Store), the
--                producer, the clients and the streams (Producer), histories of all of these
--                (Events), and the pixels (Pixels). Consistent, Invariant, Preserved, Promises,
--                Ownership and Race prove.
--   Cli          src/main.cpp: `std::stoi` and `ParsePositiveInt` (Numbers), the options and the loop
--                over the arguments (Options), and the rest of `main` (Run). Seconds, Modes
--                and Outcomes prove.
--   Center       the rest of src/control_center_v1.cpp: the labels (Formats), `DepthToFalseColor`
--                (FalseColor), `rgb_cb`, `depth_cb` and the swaps of `DrawGLScene` on the seven
--                buffers (Buffers), the globals and the `Apply...` functions (Settings),
--                `keyPressed` with `ShutdownAndExit` (Keys), `freenect_threadfunc` (Thread), both
--                threads in any order (Steps), the panels of `DrawGLScene` in the window of
--                `ReSizeGLScene` (Layout), `main` (Main), and the captures (Captures.Save). LatestFrame,
--                Freed, StepRule, Ranges, Closing, FormatChange, Main, Captures.Netpbm and
--                Captures.Points prove.
--   Float32      the 32-bit floats of the processor, for the false colors and the Kinect v2
--   V2Device     src/backends/freenect_v2_backend.cpp: the fields and the calls of libfreenect2
--                (State), the conversion and the choice of images in `update` (Pictures), the
--                methods (Methods), and `FreenectV2Backend` (Backends). NewFrames, WholeFrames,
--                FrameSizes, Balance and Previews prove.
--   V1Backend    `FreenectV1Backend` of src/backends/freenect_v1_backend.cpp: `FindFirmwareDirectory`
--                (Firmware), the constructor, the destructor, `EnumerateCountWithRetries` and `probe`
--                (Context), `listDevices` and `std::stoi` on the serials that it makes up (Serials),
--                `openDevice` (Opening), which opens the device of V1Device, and `preview`
--                (Previews). Serials, Found, Requests, Opened and Previews prove.
--   FrameSource  `KinectFrameSource` of src/dal_plugin/KinectCameraDALPlugin.cpp (Source) over the
--                interface of src/backends/backend.h (Api), which V1Backend with V1Device and
--                V2Device fill (Devices), and the picture that `CreateSampleBuffer` fills from it
--                (Drawn). Pictures, Devices and Drawn prove.
--   Gui          src/gui/app.cpp: `RunGuiApp` and `Idle` over the same interface (App). Shown gives
--                the textures that each frame should leave, and Idles proves.
--   Examples     in each of these ten, the theorems at concrete inputs.
--
-- Numbers. Counters and sizes are natural numbers, reduced modulo 2^32 or 2^64 where the source's
-- type wraps; signed integers are `ℤ`. Where the sizes of images are multiplied as `int` (the
-- camera's pixels, the preview window) an overflow is undefined, `none` (`as_int`). The `int` fields
-- of a frame hold the sizes that libfreenect2 gives. Floating point is either a parameter (`CoreAudio`,
-- `Float32`) or kept as the whole numbers that it is computed from (the audio levels).
--
-- Parameters. libfreenect (`Library`, `Freenect`, `Freenect1`) and libfreenect2 (`Freenect2`)
-- answer each call in any way that may depend on all the calls before. CoreAudio and CoreMediaIO give sizes of structures, a clock and return codes.
-- `CMSimpleQueue` (`SimpleQueue`) is a bounded queue by the laws of `IsSimpleQueue`. What `fopen`
-- and the host answer are arguments.
--
-- Bounds and fuel. The two loops on the sample queue run on the queue's count, which is enough
-- since each round takes one sample off; the loop of `PlugInDeviceSuspend` runs on the count of
-- clients, which each round decreases. Other loops are recursion on their length.
--
-- Concurrency. A mutex that is held over an operation makes it one step. In Dal a history is any
-- sequence of the host's calls, frames of the producer and dequeues of a client; two host calls at
-- the same time are modelled only in Race, for two stops.
--
-- In Center the frame mutex makes each access of the buffers one step; a key and a round of the
-- thread are taken as whole steps too, although the settings have no lock.
--
-- Not modelled: the OpenGL and GLUT calls and the texts of the control center; the drawing of the
-- preview window, and the Swift application with its bridge; the variants of the backends for builds without a library, COM glue and operations
-- that only return a constant.
pub mod Base
pub mod Backend
pub mod V1Device
pub mod Wav
pub mod Gui
pub mod Hal
pub mod Dal
pub mod Cli
pub mod Center
pub mod Float32
pub mod V2Device
pub mod V1Backend
pub mod FrameSource
