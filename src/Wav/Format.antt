-- ===== src/Wav/Format.antt =====
-- The bytes of a WAV file: what write_wav has the module `wave` write, and the two checks of
-- voxcpm_runtime/wav_io.py that read the header themselves.
use open_bmb_vox_cpm2_infere.Common.{
  ℕ, ◌+◌, ◌-◌, ◌*◌, ◌/◌, ◌%◌, ◌<◌, ◌≡◌, refl, ◌==◌, ltb, leb, Bool, true, false, ◌&&◌, List, [],
  ◌∷◌, ◌++◌, arith,
}
use open_bmb_vox_cpm2_infere.Common.Lists.{length}
use open_bmb_vox_cpm2_infere.Wav.Quantise.{Pcm, up, down}

-- Little-endian unsigned fields of two and four bytes.
abbrev pub u16 : ℕ → List ℕ
u16 n = n % 256 ∷ n / 256 % 256 ∷ []

abbrev pub u32 : ℕ → List ℕ
u32 n = n % 256 ∷ n / 256 % 256 ∷ n / 65536 % 256 ∷ n / 16777216 % 256 ∷ []

unfoldable pub read_u16 : ℕ → ℕ → ℕ
read_u16 a b = a + 256 * b

unfoldable pub read_u32 : ℕ → ℕ → ℕ → ℕ → ℕ
read_u32 a b c d = a + 256 * b + 65536 * c + 16777216 * d

pub read_u16-u16 : (n : ℕ) → n < 65536 → read_u16 (n % 256) (n / 256 % 256) ≡ n
unfolding read_u16
read_u16-u16 n h = omega arith

pub read_u32-u32 :
    (n : ℕ)
    → n < 4294967296
    → read_u32 (n % 256) (n / 256 % 256) (n / 65536 % 256) (n / 16777216 % 256) ≡ n
unfolding read_u32
read_u32-u32 n h = omega arith

-- A signed 16-bit element as its bit pattern, and array.tobytes in little-endian order.
unfoldable pub pattern_of : Pcm → ℕ
pattern_of (up n) = n
pattern_of (down n) = (65536 - n) % 65536

unfoldable pub tobytes : List Pcm → List ℕ
unfolding pattern_of
tobytes [] = []
tobytes (p ∷ ps) = u16 (pattern_of p) ++ tobytes ps

pub length-tobytes : (ps : List Pcm) → length (tobytes ps) ≡ 2 * length ps
unfolding tobytes
length-tobytes [] = refl
length-tobytes (p ∷ ps) = omega (arith, length-tobytes ps)

-- b"RIFF", b"WAVE", b"fmt ", b"data"
abbrev pub riff : List ℕ
riff = 82 ∷ 73 ∷ 70 ∷ 70 ∷ []

abbrev pub wave : List ℕ
wave = 87 ∷ 65 ∷ 86 ∷ 69 ∷ []

abbrev pub fmt : List ℕ
fmt = 102 ∷ 109 ∷ 116 ∷ 32 ∷ []

abbrev pub data_mark : List ℕ
data_mark = 100 ∷ 97 ∷ 116 ∷ 97 ∷ []

-- What `wave` leaves of a file whose header it cannot pack: the mark, written once more on closing.
abbrev pub debris : List ℕ
debris = riff ++ riff

-- The header that `wave` writes for 16-bit samples packs these fields, or raises struct.error.
unfoldable pub fits : ℕ → ℕ → ℕ → Bool
fits channels rate size =
    ltb channels 32768
    && (ltb (channels * rate * 2) 4294967296 && (ltb rate 4294967296 && ltb (36 + size) 4294967296))

unfoldable pub wave_bytes : ℕ → ℕ → List ℕ → List ℕ
wave_bytes channels rate payload =
    riff
    ++ (u32 (36 + length payload)
        ++ (wave
            ++ (fmt
                ++ (u32 16
                    ++ (u16 1
                        ++ (u16 channels
                            ++ (u32 rate
                                ++ (u32 (channels * rate * 2)
                                    ++ (u16 (channels * 2)
                                        ++ (u16 16
                                            ++ (data_mark
                                                ++ (u32 (length payload) ++ payload))))))))))))

abbrev four : ℕ → ℕ → ℕ → ℕ → List ℕ → Bool
four a b c d (p ∷ q ∷ r ∷ s ∷ []) = a == p && (b == q && (c == r && d == s))
four a b c d _ = false

-- The two marks of the first twelve bytes, which must be there.
unfoldable pub riff_marks_ok : List ℕ → Bool
riff_marks_ok (a ∷ b ∷ c ∷ d ∷ _ ∷ _ ∷ _ ∷ _ ∷ e ∷ f ∷ g ∷ h ∷ rest) =
    four a b c d riff && four e f g h wave
riff_marks_ok _ = false

-- struct.unpack("<I", header[4:8])
unfoldable pub declared_size : List ℕ → ℕ
unfolding read_u32
declared_size (_ ∷ _ ∷ _ ∷ _ ∷ s ∷ t ∷ u ∷ v ∷ rest) = read_u32 s t u v
declared_size _ = 0

-- _wave_format_is_pcm: a short file makes struct.unpack raise struct.error, which gives False
unfoldable pub wave_format_is_pcm : List ℕ → Bool
unfolding read_u32 read_u16
wave_format_is_pcm
      (_ ∷ _ ∷ _ ∷ _ ∷ _ ∷ _ ∷ _ ∷ _ ∷ _ ∷ _ ∷ _ ∷ _ ∷ a ∷ b ∷ c ∷ d ∷ s ∷ t ∷ u ∷ v ∷ x ∷ y
        ∷ rest) =
    four a b c d fmt && (leb 16 (read_u32 s t u v) && read_u16 x y == 1)
wave_format_is_pcm _ = false

pub riff_marks_ok-wave_bytes :
    (channels rate : ℕ) (payload : List ℕ) → riff_marks_ok (wave_bytes channels rate payload) ≡ true
unfolding riff_marks_ok wave_bytes
riff_marks_ok-wave_bytes channels rate payload = refl

pub declared_size-wave_bytes :
    (channels rate : ℕ) (payload : List ℕ)
    → 36 + length payload < 4294967296
    → declared_size (wave_bytes channels rate payload) + 8
      ≡ length (wave_bytes channels rate payload)
unfolding declared_size wave_bytes
declared_size-wave_bytes channels rate payload h =
    omega (arith, read_u32-u32 (36 + length payload) h)

pub wave_format_is_pcm-wave_bytes :
    (channels rate : ℕ) (payload : List ℕ)
    → wave_format_is_pcm (wave_bytes channels rate payload) ≡ true
unfolding wave_format_is_pcm wave_bytes
wave_format_is_pcm-wave_bytes channels rate payload = refl
