-- ===== src/Tests/Audio.antt =====
-- WAV files of one sample, with exact products and a reader of the fields at their offsets.
use open_bmb_vox_cpm2_infere.Common.{
  ℕ, ◌*◌, ◌<◌, ◌^◌, ◌≡◌, refl, true, false, Option, none, some, String, List, [], ◌∷◌, arith,
}
use open_bmb_vox_cpm2_infere.Common.Lists.{length, All}
use open_bmb_vox_cpm2_infere.Common.Exec.{ok, raised}
use open_bmb_vox_cpm2_infere.Common.Dict.{lookup}
use open_bmb_vox_cpm2_infere.Wav.Overflow.{write_wav_overflows}
use open_bmb_vox_cpm2_infere.Worker.Types.{AudioResult, positive, negative}
use open_bmb_vox_cpm2_infere.Wav.Quantise.{one, Pcm, up, down, round, quantize, clip_and_quantize}
use open_bmb_vox_cpm2_infere.Wav.Bounds.{
  IsProduct, IsPcm, PcmAtMost, clip_and_quantize-IsPcm, quantize_mono,
}
use open_bmb_vox_cpm2_infere.Wav.Format.{
  read_u16, read_u32, read_u16-u16, read_u32-u32, fits, tobytes, wave_bytes, debris,
}
use open_bmb_vox_cpm2_infere.Wav.Disk.{struct_error, Disk, breaks, cuts}
use open_bmb_vox_cpm2_infere.Wav.Write.{named, temporary_name, write_wav}
use open_bmb_vox_cpm2_infere.Wav.Validate.{WaveFacts, validate_wav}
use open_bmb_vox_cpm2_infere.Wav.Atomic.{IsSafe, write_wav-IsSafe}
use open_bmb_vox_cpm2_infere.Wav.RoundTrip.{facts, Reads, validation_of, write_wav-valid}
use open_bmb_vox_cpm2_infere.Wav.Reading.{healthy}
use open_bmb_vox_cpm2_infere.Wav.Writing.{report_of}

abbrev exact : ℕ → ℕ
exact u = 32767 * u

exact-IsProduct : IsProduct exact
exact-IsProduct = record { mono = λ u v h. omega arith; at_zero = refl; at_one = refl }

read_fields : List ℕ → Option WaveFacts
unfolding read_u16 read_u32
read_fields
      (_ ∷ _ ∷ _ ∷ _ ∷ _ ∷ _ ∷ _ ∷ _ ∷ _ ∷ _ ∷ _ ∷ _ ∷ _ ∷ _ ∷ _ ∷ _ ∷ _ ∷ _ ∷ _ ∷ _ ∷ _ ∷ _ ∷ c ∷ d
        ∷ r ∷ s ∷ t ∷ u ∷ _ ∷ _ ∷ _ ∷ _ ∷ _ ∷ _ ∷ _ ∷ _ ∷ _ ∷ _ ∷ _ ∷ _ ∷ w ∷ x ∷ y ∷ z ∷ rest) =
    some (facts (read_u16 c d) (read_u32 r s t u) (read_u32 w x y z))
read_fields _ = none

fits-fields :
    (channels rate size : ℕ)
    → fits channels rate size ≡ true
    → (channels < 65536) × (rate < 4294967296) × (size < 4294967296)
unfolding fits
fits-fields channels rate size f = ground arith

facts_eq : {c d r s m n : ℕ} → c ≡ d → r ≡ s → m ≡ n → some (facts c r m) ≡ some (facts d s n)
facts_eq e f g = λ i. some (facts (e i) (f i) (g i))

read_fields-Reads : Reads read_fields
unfolding read_fields wave_bytes
read_fields-Reads channels rate frames c1 r1 f =
    let size = length (tobytes frames) in
    let (c, r, s) = fits-fields channels rate size f in
    facts_eq (read_u16-u16 channels c) (read_u32-u32 rate r) (read_u32-u32 size s)

abbrev digest : List ℕ → String
digest bytes = "digest"

-- A half and minus one.
abbrev audio : AudioResult
audio = record {
  samples = positive (2 ^ 1073) ∷ negative (2 ^ 1074) ∷ [];
  sample_rate_hz = 48000;
  channels = 1;
  metadata = [];
}

abbrev elements : List Pcm
elements = up 16384 ∷ down 32767 ∷ []

quantised : clip_and_quantize exact audio.samples ≡ some elements
unfolding clip_and_quantize one round
quantised = refl

clip_and_quantize-IsPcm_example :
    (ps : List Pcm) × (clip_and_quantize exact audio.samples ≡ some ps)
    × (length ps ≡ 2)
    × All IsPcm ps
clip_and_quantize-IsPcm_example =
    clip_and_quantize-IsPcm exact exact-IsProduct audio.samples (tt, (tt, tt))

minus_one : quantize exact (negative (2 ^ 1074)) ≡ some (down 32767)
unfolding quantize one round
minus_one = refl

half : quantize exact (positive (2 ^ 1073)) ≡ some (up 16384)
unfolding quantize one round
half = refl

quantize_mono_example : PcmAtMost (down 32767) (up 16384)
quantize_mono_example =
    quantize_mono exact exact-IsProduct (negative (2 ^ 1074)) (positive (2 ^ 1073)) (down 32767)
      (up 16384) tt minus_one half

-- The write stops after ten bytes, and the temporary file cannot be removed.
abbrev failing : Disk
failing = record {
  directory = true;
  files = ("a.wav", 1 ∷ []) ∷ [];
  faults = cuts 10 ∷ breaks ∷ [];
}

write_wav-IsSafe_example :
    IsSafe exact "a.wav" audio failing (write_wav exact digest (named "a.wav") audio false failing)
write_wav-IsSafe_example = write_wav-IsSafe exact digest "a.wav" audio false failing

audio_fits : fits 1 48000 (length (tobytes elements)) ≡ true
unfolding fits tobytes
audio_fits = refl

write_wav-valid_example :
    let (o, e) = write_wav exact digest (named "a.wav") audio false (healthy []) in
    (o ≡ ok (report_of exact digest "a.wav" audio elements []))
    × ((validate_wav read_fields digest (named "a.wav") (some 48000) (some 1) e).0
        ≡ ok (validation_of exact digest read_fields read_fields-Reads audio elements))
write_wav-valid_example =
    write_wav-valid exact digest read_fields read_fields-Reads "a.wav" audio elements []
      (positive (2 ^ 1073)) (negative (2 ^ 1074) ∷ []) (λ e. cc) refl quantised audio_fits
      (omega arith) (omega arith) (omega arith)

-- At 2^31 Hz the bytes of a second are 2^32, which a field of four bytes cannot hold.
abbrev fast : AudioResult
fast = record audio { sample_rate_hz = 2147483648 }

fast_overflows : fits 1 2147483648 (length (tobytes elements)) ≡ false
unfolding fits
fast_overflows = refl

write_wav_overflows_example :
    let (o, e) = write_wav exact digest (named "a.wav") fast false (healthy []) in
    (o ≡ raised struct_error) × (lookup (temporary_name "a.wav") e.files ≡ some debris)
write_wav_overflows_example =
    write_wav_overflows exact digest "a.wav" fast elements [] (positive (2 ^ 1073))
      (negative (2 ^ 1074) ∷ []) (λ e. cc) refl quantised fast_overflows
