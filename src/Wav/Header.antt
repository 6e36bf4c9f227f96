-- ===== src/Wav/Header.antt =====
-- The WAV header that src/control_center_v1.cpp writes, as the bytes of the array `header`.
use mac_kinect_native.Base.{ℕ, suc, ◌+◌, ◌*◌, ◌/◌, ◌%◌, ◌^◌, List, [], ◌∷◌}
use mac_kinect_native.Base.Lists.{set, replicate}

abbrev pub u16 : ℕ → ℕ
u16 n = n % 2 ^ 16

abbrev pub u32 : ℕ → ℕ
u32 n = n % 2 ^ 32

abbrev pub u64 : ℕ → ℕ
u64 n = n % 2 ^ 64

-- `value & 0xff` is `value % 256`, and `value >> k` is `value / 2 ^ k`. The array is written at
-- `at` and above.
unfoldable pub put_le16 : ℕ → ℕ → List ℕ → List ℕ
put_le16 at value dst = set (set dst at (value % 256)) (suc at) (value / 2 ^ 8 % 256)

unfoldable pub put_le32 : ℕ → ℕ → List ℕ → List ℕ
put_le32 at value dst =
    set
      (set (set (set dst at (value % 256)) (suc at) (value / 2 ^ 8 % 256)) (suc (suc at))
        (value / 2 ^ 16 % 256))
      (suc (suc (suc at))) (value / 2 ^ 24 % 256)

-- `std::memcpy` of a literal into the array.
unfoldable pub put_bytes : ℕ → List ℕ → List ℕ → List ℕ
put_bytes at [] dst = dst
put_bytes at (b ∷ bs) dst = put_bytes (suc at) bs (set dst at b)

abbrev pub riff_tag : List ℕ
riff_tag = b'R' ∷ b'I' ∷ b'F' ∷ b'F' ∷ []

abbrev pub wave_tag : List ℕ
wave_tag = b'W' ∷ b'A' ∷ b'V' ∷ b'E' ∷ []

abbrev pub fmt_tag : List ℕ
fmt_tag = b'f' ∷ b'm' ∷ b't' ∷ b' ' ∷ []

abbrev pub data_tag : List ℕ
data_tag = b'd' ∷ b'a' ∷ b't' ∷ b'a' ∷ []

abbrev pub channels : ℕ
channels = 1

-- The array that `WriteWavHeader` fills. Its `int` arguments are not negative at any call, and
-- `sample_rate * channels * bits_per_sample` fits an `int`.
unfoldable pub wav_header : ℕ → ℕ → ℕ → List ℕ
unfolding put_le16 put_le32 put_bytes
wav_header sample_rate bits_per_sample data_bytes =
    let byte_rate = u32 (sample_rate * channels * bits_per_sample / 8) in
    let block_align = u16 (channels * bits_per_sample / 8) in
    let chunk_size = u32 (36 + data_bytes) in
    put_le32 40 data_bytes (
      put_bytes 36 data_tag (
        put_le16 34 (u16 bits_per_sample) (
          put_le16 32 block_align (
            put_le32 28 byte_rate (
              put_le32 24 (u32 sample_rate) (
                put_le16 22 channels (
                  put_le16 20 1 (
                    put_le32 16 16 (
                      put_bytes 12 fmt_tag (
                        put_bytes 8 wave_tag
                          (put_le32 4 chunk_size (put_bytes 0 riff_tag (replicate 44 0)))))))))))))
