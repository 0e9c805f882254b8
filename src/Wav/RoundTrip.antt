-- ===== src/Wav/RoundTrip.antt =====
-- A file that write_wav wrote passes validate_wav.
use open_bmb_vox_cpm2_infere.Common.{
  ℕ, ◌+◌, ◌*◌, ◌/◌, ◌≤◌, ◌<◌, ◌≡◌, ◌≢◌, refl, ap, sym, subst, ◌∙◌, ◌==◌, true, false, Option, none,
  some, String, List, ◌∷◌, arith,
}
use open_bmb_vox_cpm2_infere.Common.Lists.{length}
use open_bmb_vox_cpm2_infere.Common.Dict.{Dict}
use open_bmb_vox_cpm2_infere.Common.Exec.{ok}
use open_bmb_vox_cpm2_infere.Worker.Types.{AudioResult, Sample}
use open_bmb_vox_cpm2_infere.Wav.Quantise.{Pcm, clip_and_quantize}
use open_bmb_vox_cpm2_infere.Wav.Format.{
  tobytes, wave_bytes, fits, length-tobytes, riff_marks_ok-wave_bytes, declared_size-wave_bytes,
  wave_format_is_pcm-wave_bytes,
}
use open_bmb_vox_cpm2_infere.Wav.Write.{named, write_wav}
use open_bmb_vox_cpm2_infere.Wav.Validate.{
  WaveFacts, WavValidation, read_facts, judge, matches, validate_wav,
}
use open_bmb_vox_cpm2_infere.Wav.Reading.{equal_true, healthy, validate_wav-healthy}
use open_bmb_vox_cpm2_infere.Wav.Writing.{saved, saved-image, report_of, write_wav-healthy}

-- What the module `wave` reads back from a file of 16-bit frames that it wrote: `wave` wants at least
-- one channel and a positive rate.
abbrev pub facts : ℕ → ℕ → ℕ → WaveFacts
facts channels rate size = record {
  channel_count = channels;
  sample_width_bytes = 2;
  sample_rate_hz = rate;
  frame_count = size / (channels * 2);
}

abbrev pub Reads : (List ℕ → Option WaveFacts) → Type 0
Reads read_wave =
    (channels rate : ℕ) (frames : List Pcm)
    → 1 ≤ channels
    → 1 ≤ rate
    → fits channels rate (length (tobytes frames)) ≡ true
    → read_wave (wave_bytes channels rate (tobytes frames))
      ≡ some (facts channels rate (length (tobytes frames)))

frames_positive : (channels n : ℕ) → 1 ≤ channels → channels ≤ n → 1 ≤ 2 * n / (channels * 2)
frames_positive channels n c h = grind arith

judge_positive :
    (p : WaveFacts) (size : ℕ) (digest : String)
    → 1 ≤ p.channel_count
    → 1 ≤ p.sample_width_bytes
    → 1 ≤ p.sample_rate_hz
    → 1 ≤ p.frame_count
    → judge p size digest true true ≡ read_facts p size digest true true none
unfolding judge
judge_positive p size digest c w r f = ground arith

judge_matching :
    (p : WaveFacts) (size : ℕ) (digest : String)
    → 1 ≤ p.channel_count
    → 1 ≤ p.sample_width_bytes
    → 1 ≤ p.sample_rate_hz
    → 1 ≤ p.frame_count
    → judge p size digest
        (matches (some p.sample_rate_hz) p.sample_rate_hz)
        (matches (some p.channel_count) p.channel_count)
      ≡ read_facts p size digest true true none
judge_matching p size digest c w r f =
    ap (λ b. judge p size digest b (p.channel_count == p.channel_count))
      (equal_true p.sample_rate_hz p.sample_rate_hz refl)
    ∙ ap (λ b. judge p size digest true b) (equal_true p.channel_count p.channel_count refl)
    ∙ judge_positive p size digest c w r f

fits-size : (channels rate size : ℕ) → fits channels rate size ≡ true → 36 + size < 4294967296
unfolding fits
fits-size channels rate size f = ground arith

module _ (times : ℕ → ℕ) (sha256 : List ℕ → String) (read_wave : List ℕ → Option WaveFacts)
    (reads : Reads read_wave) where
  -- The validation of a file of these frames: it is valid, with both expectations met.
  abbrev pub validation_of : AudioResult → List Pcm → WavValidation
  validation_of result frames =
      let bytes = wave_bytes result.channels result.sample_rate_hz (tobytes frames) in
      read_facts (facts result.channels result.sample_rate_hz (length (tobytes frames)))
        (length bytes) (sha256 bytes) true true none

  -- Where `wave` reads back what it wrote: write_wav into a directory whose operations do not fail,
  -- of finite samples that make up one frame at least and whose header fields fit, returns the size
  -- and the digest of the file, and validate_wav with the same rate and channels then finds the file
  -- valid, with that size and digest and a frame for each group of samples.
  pub write_wav-valid :
      (name : String) (result : AudioResult) (frames : List Pcm) (files : Dict (List ℕ))
      (s : Sample) (ss : List Sample)
      → name ≢ ""
      → result.samples ≡ s ∷ ss
      → clip_and_quantize times result.samples ≡ some frames
      → fits result.channels result.sample_rate_hz (length (tobytes frames)) ≡ true
      → 1 ≤ result.channels
      → result.channels ≤ length frames
      → 1 ≤ result.sample_rate_hz
      → let (o, e) = write_wav times sha256 (named name) result false (healthy files) in
        (o ≡ ok (report_of times sha256 name result frames files))
        × ((validate_wav read_wave sha256
              (named name)
              (some result.sample_rate_hz)
              (some result.channels)
              e).0
            ≡ ok (validation_of result frames))
  unfolding wave_bytes
  write_wav-valid name result frames files s ss n e c f ch le r =
      let bytes = wave_bytes result.channels result.sample_rate_hz (tobytes frames) in
      let p = facts result.channels result.sample_rate_hz (length (tobytes frames)) in
      let wrote = write_wav-healthy times sha256 name result frames files s ss n e c f in
      let positive =
        subst (λ m. 1 ≤ m / (result.channels * 2)) (sym (length-tobytes frames))
          (frames_positive result.channels (length frames) ch le) in
      let kept = saved-image times sha256 name result frames files in
      (
        ap (λ x. x.0) wrote,
        subst
            (λ x.
              (validate_wav read_wave sha256 (named name) (some result.sample_rate_hz)
                (some result.channels) x.1).0
              ≡ ok (validation_of result frames))
            (sym wrote)
            (validate_wav-healthy name (saved times sha256 name result frames files) bytes kept
                read_wave sha256 (some result.sample_rate_hz) (some result.channels) p 82 _ refl
                (riff_marks_ok-wave_bytes result.channels result.sample_rate_hz (tobytes frames))
                (declared_size-wave_bytes result.channels result.sample_rate_hz (tobytes frames)
                  (fits-size result.channels result.sample_rate_hz (length (tobytes frames)) f))
                (wave_format_is_pcm-wave_bytes result.channels result.sample_rate_hz
                  (tobytes frames))
                (reads result.channels result.sample_rate_hz frames ch r f)
              ∙ ap ok (judge_matching p (length bytes) (sha256 bytes) ch (omega arith) r positive)),
      )
