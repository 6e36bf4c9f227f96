-- ===== src/Wav/ReadHeader.antt =====
-- A reader of WAV headers, written from the format and not from the writer, and the round trip with
-- the header of src/control_center_v1.cpp.
use mac_kinect_native.Base.{
  ℕ, suc, ◌+◌, ◌*◌, ◌/◌, ◌%◌, ◌^◌, ◌<◌, ◌≡◌, refl, Bool, true, ◌&&◌, List, [], ◌∷◌, ◌++◌, Option,
  none, some, arith,
}
use mac_kinect_native.Base.Tests.{leb, ◌==◌, if◌then◌else◌}
use mac_kinect_native.Base.Lists.{length, get_or}
use mac_kinect_native.Wav.Header.{u32, u16, wav_header, riff_tag, wave_tag, fmt_tag, data_tag}

pub record WavFormat : Type 0 where
  pub riff_size : ℕ
  pub audio_format : ℕ
  pub channel_count : ℕ
  pub sample_rate : ℕ
  pub byte_rate : ℕ
  pub block_align : ℕ
  pub bits_per_sample : ℕ
  pub data_size : ℕ

abbrev pub le16_at : List ℕ → ℕ → ℕ
le16_at bytes i = get_or bytes i 0 + 256 * get_or bytes (suc i) 0

abbrev pub le32_at : List ℕ → ℕ → ℕ
le32_at bytes i = le16_at bytes i + 65536 * le16_at bytes (suc (suc i))

-- The bytes from the i-th on begin with a tag.
abbrev pub tag_at : List ℕ → ℕ → List ℕ → Bool
tag_at bytes i [] = true
tag_at bytes i (t ∷ tag) = (get_or bytes i 0 == t) && tag_at bytes (suc i) tag

-- `none` on what is no canonical PCM header of 44 bytes.
unfoldable pub read_header : List ℕ → Option WavFormat
read_header bytes =
    if leb 44 (length bytes)
      && (tag_at bytes 0 riff_tag
          && (tag_at bytes 8 wave_tag
              && (tag_at bytes 12 fmt_tag
                  && ((le32_at bytes 16 == 16) && tag_at bytes 36 data_tag))))
    then some (record {
      riff_size = le32_at bytes 4;
      audio_format = le16_at bytes 20;
      channel_count = le16_at bytes 22;
      sample_rate = le32_at bytes 24;
      byte_rate = le32_at bytes 28;
      block_align = le16_at bytes 32;
      bits_per_sample = le16_at bytes 34;
      data_size = le32_at bytes 40;
    })
    else none

le16_join : (n : ℕ) → n < 2 ^ 16 → n % 256 + 256 * (n / 2 ^ 8 % 256) ≡ n
le16_join n h = omega arith

le32_join :
    (n : ℕ)
    → n < 2 ^ 32
    → n % 256 + 256 * (n / 2 ^ 8 % 256) + 65536 * (n / 2 ^ 16 % 256 + 256 * (n / 2 ^ 24 % 256)) ≡ n
le32_join n h = omega arith

-- The header has 44 bytes.
pub length-wav_header : (rate bits bytes : ℕ) → length (wav_header rate bits bytes) ≡ 44
unfolding wav_header
length-wav_header rate bits bytes = refl

-- Reading back a file that begins with the header gives every field that was written, for a rate and
-- a length of 32 bits and a sample width of 16 bits; only the RIFF size is reduced modulo 2^32.
pub read_header-wav_header :
    (rate bits bytes : ℕ) (rest : List ℕ)
    → rate < 2 ^ 32
    → bits < 2 ^ 16
    → bytes < 2 ^ 32
    → read_header (wav_header rate bits bytes ++ rest)
      ≡ some (record {
        riff_size = u32 (36 + bytes);
        audio_format = 1;
        channel_count = 1;
        sample_rate = rate;
        byte_rate = u32 (rate * bits / 8);
        block_align = u16 (bits / 8);
        bits_per_sample = bits;
        data_size = bytes;
      })
unfolding read_header wav_header
read_header-wav_header rate bits bytes rest hr hb hd = ground (
  arith,
  le32_join rate hr,
  le16_join bits hb,
  le32_join bytes hd,
  le32_join (u32 (36 + bytes)) (omega arith),
  le32_join (u32 (rate * bits / 8)) (omega arith),
  le16_join (u16 (bits / 8)) (omega arith),
)
