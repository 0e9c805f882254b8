-- ===== src/Wav/Writing.antt =====
-- write_wav in a directory whose operations do not fail.
use open_bmb_vox_cpm2_infere.Common.{
  ℕ, ◌≡◌, ◌≢◌, refl, ap, sym, subst, ◌∙◌, true, false, some, String, String_discrete, List, ◌∷◌,
  if_pos,
}
use open_bmb_vox_cpm2_infere.Common.Lists.{length}
use open_bmb_vox_cpm2_infere.Common.Dict.{Dict, lookup, put, pop, lookup-put}
use open_bmb_vox_cpm2_infere.Common.Exec.{ok, continue}
use open_bmb_vox_cpm2_infere.Worker.Types.{AudioResult, Sample}
use open_bmb_vox_cpm2_infere.Wav.Quantise.{Pcm, clip_and_quantize}
use open_bmb_vox_cpm2_infere.Wav.Format.{tobytes, wave_bytes, fits}
use open_bmb_vox_cpm2_infere.Wav.Disk.{read_file, write_bytes, written, replace, moved}
use open_bmb_vox_cpm2_infere.Wav.Write.{
  WavWriteResult, ratio, named, temporary_name, write_fitting, write_frames, save, inspect, report,
  finalize, after_frames, after_replace, or_write_error, write_wav, write_file, write_samples,
  write_to, write_named, save_frames, ensure_parent, require_directory, require,
}
use open_bmb_vox_cpm2_infere.Wav.Reading.{healthy, read_file-healthy}

module _ (times : ℕ → ℕ) (sha256 : List ℕ → String) (name : String) (result : AudioResult)
    (frames : List Pcm) (files : Dict (List ℕ)) where
  abbrev image : List ℕ
  image = wave_bytes result.channels result.sample_rate_hz (tobytes frames)

  abbrev pub saved : Dict (List ℕ)
  saved = put name image (pop (temporary_name name) (put (temporary_name name) image files))

  abbrev pub report_of : WavWriteResult
  report_of = record {
    name = name;
    byte_size = length image;
    sha256 = sha256 image;
    channel_count = result.channels;
    sample_rate_hz = result.sample_rate_hz;
    sample_width_bytes = 2;
    frame_count = length frames;
    duration_seconds = ratio (length frames) result.sample_rate_hz;
  }

  pub saved-image : lookup name saved ≡ some image
  saved-image = lookup-put name name image _ ∙ if_pos (String_discrete name name) refl _ _

  write_frames-healthy :
      fits result.channels result.sample_rate_hz (length (tobytes frames)) ≡ true
      → write_frames
          (temporary_name name)
          result.channels
          result.sample_rate_hz
          (tobytes frames)
          (healthy files)
        ≡ (ok tt, healthy (put (temporary_name name) image files))
  unfolding write_frames write_fitting write_bytes written
  write_frames-healthy f =
      ap
        (λ b.
          write_fitting b (temporary_name name) result.channels result.sample_rate_hz
            (tobytes frames) (healthy files))
        f

  replace-healthy :
      replace (temporary_name name) name (healthy (put (temporary_name name) image files))
      ≡ (ok tt, healthy saved)
  unfolding replace moved
  replace-healthy =
      ap (λ o. moved o (temporary_name name) name (healthy (put (temporary_name name) image files)))
        (lookup-put (temporary_name name) (temporary_name name) image files
          ∙ if_pos (String_discrete (temporary_name name) (temporary_name name)) refl _ _)

  inspect-healthy :
      inspect times sha256 name (healthy saved) ≡ (ok (length image, sha256 image), healthy saved)
  unfolding inspect
  inspect-healthy =
      let read = read_file-healthy name saved image saved-image in
      subst
        (λ x.
          continue {B = ℕ × String} x.0
            (λ sized s.
              let (r, s') = read_file name s in
              continue {B = ℕ × String} r (λ contents t. (ok (length sized, sha256 contents), t))
                s')
            x.1
          ≡ (ok (length image, sha256 image), healthy saved))
        (sym read)
        (ap
          (λ x.
            continue {B = ℕ × String} x.0 (λ contents t. (ok (length image, sha256 contents), t))
              x.1)
          read)

  report-healthy :
      report times sha256 name result frames (healthy saved) ≡ (ok report_of, healthy saved)
  unfolding report
  report-healthy =
      ap
        (λ x.
          let y = or_write_error "The written WAV file could not be inspected." x.0 x.1 in
          continue y.0 (λ a t. (ok (record report_of { byte_size = a.0; sha256 = a.1 }), t)) y.1)
        inspect-healthy

  finalize-healthy :
      finalize times sha256 name result frames (healthy (put (temporary_name name) image files))
      ≡ (ok report_of, healthy saved)
  unfolding finalize
  finalize-healthy =
      ap
        (λ x.
          let y = after_replace (temporary_name name) x.0 x.1 in
          continue y.0 (λ _. report times sha256 name result frames) y.1)
        replace-healthy
      ∙ report-healthy

  save-healthy :
      fits result.channels result.sample_rate_hz (length (tobytes frames)) ≡ true
      → save times sha256 name result frames (healthy files) ≡ (ok report_of, healthy saved)
  unfolding save
  save-healthy f =
      ap
        (λ x.
          let y = after_frames (temporary_name name) x.0 x.1 in
          continue y.0 (λ _. finalize times sha256 name result frames) y.1)
        (write_frames-healthy f)
      ∙ finalize-healthy

  write_file-healthy :
      (c : Dec (name ≡ ""))
      → name ≢ ""
      → clip_and_quantize times result.samples ≡ some frames
      → fits result.channels result.sample_rate_hz (length (tobytes frames)) ≡ true
      → write_file times sha256 c result false (healthy files) ≡ (ok report_of, healthy saved)
  unfolding write_file ensure_parent require_directory require save_frames
  write_file-healthy (yes p) n e f = absurd (n p)
  write_file-healthy (no _) n e f =
      ap (λ o. save_frames times sha256 name result o (healthy files)) e ∙ save-healthy f

  pub write_wav-healthy :
      (s : Sample) (ss : List Sample)
      → name ≢ ""
      → result.samples ≡ s ∷ ss
      → clip_and_quantize times result.samples ≡ some frames
      → fits result.channels result.sample_rate_hz (length (tobytes frames)) ≡ true
      → write_wav times sha256 (named name) result false (healthy files)
        ≡ (ok report_of, healthy saved)
  unfolding write_wav write_samples write_to write_named
  write_wav-healthy s ss n e c f =
      ap (λ l. write_samples times sha256 l (named name) result false (healthy files)) e
      ∙ write_file-healthy (String_discrete name "") n c f
