-- ===== src/Wav/Overflow.antt =====
-- What write_wav does where a field of the header does not fit.
use open_bmb_vox_cpm2_infere.Common.{
  ℕ, ◌≡◌, ◌≢◌, refl, ap, ◌∙◌, false, some, String, String_discrete, List, ◌∷◌, if_pos,
}
use open_bmb_vox_cpm2_infere.Common.Lists.{length}
use open_bmb_vox_cpm2_infere.Common.Dict.{Dict, lookup, put, lookup-put}
use open_bmb_vox_cpm2_infere.Common.Exec.{raised, continue}
use open_bmb_vox_cpm2_infere.Worker.Types.{AudioResult, Sample}
use open_bmb_vox_cpm2_infere.Wav.Quantise.{Pcm, clip_and_quantize}
use open_bmb_vox_cpm2_infere.Wav.Format.{tobytes, fits, debris}
use open_bmb_vox_cpm2_infere.Wav.Disk.{Disk, struct_error, write_bytes, written}
use open_bmb_vox_cpm2_infere.Wav.Write.{
  named, temporary_name, write_fitting, write_frames, after_frames, finalize, save, save_frames,
  write_file, write_named, write_to, write_samples, write_wav, ensure_parent, require_directory,
  require,
}
use open_bmb_vox_cpm2_infere.Wav.Reading.{healthy}

module _ (times : ℕ → ℕ) (sha256 : List ℕ → String) (name : String) (result : AudioResult)
    (frames : List Pcm) (files : Dict (List ℕ)) where
  abbrev abandoned : Disk
  abandoned = healthy (put (temporary_name name) debris files)

  write_frames_overflowing :
      fits result.channels result.sample_rate_hz (length (tobytes frames)) ≡ false
      → write_frames
          (temporary_name name)
          result.channels
          result.sample_rate_hz
          (tobytes frames)
          (healthy files)
        ≡ (raised struct_error, abandoned)
  unfolding write_frames write_fitting write_bytes written
  write_frames_overflowing f =
      ap
        (λ b.
          write_fitting b (temporary_name name) result.channels result.sample_rate_hz
            (tobytes frames) (healthy files))
        f

  save_overflowing :
      fits result.channels result.sample_rate_hz (length (tobytes frames)) ≡ false
      → save times sha256 name result frames (healthy files) ≡ (raised struct_error, abandoned)
  unfolding save after_frames
  save_overflowing f =
      ap
        (λ x.
          let y = after_frames (temporary_name name) x.0 x.1 in
          continue y.0 (λ _. finalize times sha256 name result frames) y.1)
        (write_frames_overflowing f)

  write_file_overflowing :
      (c : Dec (name ≡ ""))
      → name ≢ ""
      → clip_and_quantize times result.samples ≡ some frames
      → fits result.channels result.sample_rate_hz (length (tobytes frames)) ≡ false
      → write_file times sha256 c result false (healthy files) ≡ (raised struct_error, abandoned)
  unfolding write_file ensure_parent require_directory require save_frames
  write_file_overflowing (yes p) n e f = absurd (n p)
  write_file_overflowing (no _) n e f =
      ap (λ o. save_frames times sha256 name result o (healthy files)) e ∙ save_overflowing f

  -- In a directory whose operations do not fail, and for samples that are all finite, a header field
  -- that does not fit makes write_wav raise struct.error in place of a WavWriteError, and leaves the
  -- temporary file behind.
  pub write_wav_overflows :
      (s : Sample) (ss : List Sample)
      → name ≢ ""
      → result.samples ≡ s ∷ ss
      → clip_and_quantize times result.samples ≡ some frames
      → fits result.channels result.sample_rate_hz (length (tobytes frames)) ≡ false
      → let (o, e) = write_wav times sha256 (named name) result false (healthy files) in
        (o ≡ raised struct_error) × (lookup (temporary_name name) e.files ≡ some debris)
  unfolding write_wav write_samples write_to write_named
  write_wav_overflows s ss n e c f =
      let run =
        ap (λ l. write_samples times sha256 l (named name) result false (healthy files)) e
        ∙ write_file_overflowing (String_discrete name "") n c f in
      (
        ap (λ x. x.0) run,
        ap (λ x. lookup (temporary_name name) x.1.files) run
            ∙ lookup-put (temporary_name name) (temporary_name name) debris files
            ∙ if_pos (String_discrete (temporary_name name) (temporary_name name)) refl _ _,
      )
