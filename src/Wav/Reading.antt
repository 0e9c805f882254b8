-- ===== src/Wav/Reading.antt =====
-- validate_wav on a file of a directory whose operations do not fail.
use open_bmb_vox_cpm2_infere.Common.{
  ℕ, ◌+◌, ◌≡◌, ap, sym, subst, ◌==◌, true, Option, some, String, List, [], ◌∷◌, arith,
}
use open_bmb_vox_cpm2_infere.Common.Lists.{length}
use open_bmb_vox_cpm2_infere.Common.Dict.{Dict, lookup}
use open_bmb_vox_cpm2_infere.Common.Exec.{ok, continue}
use open_bmb_vox_cpm2_infere.Wav.Format.{riff_marks_ok, declared_size, wave_format_is_pcm}
use open_bmb_vox_cpm2_infere.Wav.Disk.{Disk, read_file}
use open_bmb_vox_cpm2_infere.Wav.Write.{named}
use open_bmb_vox_cpm2_infere.Wav.Validate.{
  WaveFacts, WavValidation, judge, matches, riff_sized, riff_checked, validate_contents,
  check_format, open_wave, pcm_checked, facts_of, digest_of, validate_sized, judged, validate_wav,
}

-- A directory whose operations do not fail.
abbrev pub healthy : Dict (List ℕ) → Disk
healthy files = record { directory = true; files = files; faults = [] }

pub equal_true : (a b : ℕ) → a ≡ b → (a == b) ≡ true
equal_true a b e = ground arith

module _ (name : String) (files : Dict (List ℕ)) (bytes : List ℕ)
    (h : lookup name files ≡ some bytes) where
  pub read_file-healthy : read_file name (healthy files) ≡ (ok bytes, healthy files)
  unfolding read_file
  read_file-healthy = ground (arith, h)

  module _ (read_wave : List ℕ → Option WaveFacts) (sha256 : List ℕ → String)
      (rate channels : Option ℕ) (p : WaveFacts) where
    abbrev verdict : WavValidation
    verdict =
        judge p (length bytes) (sha256 bytes) (matches rate p.sample_rate_hz)
          (matches channels p.channel_count)

    judged-healthy :
        (judged read_wave sha256 name (length bytes) rate channels (some p) (healthy files)).0
        ≡ ok verdict
    unfolding judged digest_of
    judged-healthy =
        ap
          (λ x. ok (
            judge p (length bytes) (digest_of read_wave sha256 x.0) (matches rate p.sample_rate_hz)
              (matches channels p.channel_count)))
          read_file-healthy

    open_wave-healthy :
        read_wave bytes ≡ some p
        → (open_wave read_wave sha256 true name (length bytes) rate channels (healthy files)).0
          ≡ ok verdict
    unfolding open_wave facts_of
    open_wave-healthy r =
        subst
          (λ x.
            (judged read_wave sha256 name (length bytes) rate channels
              (facts_of read_wave sha256 x.0) x.1).0
            ≡ ok verdict)
          (sym read_file-healthy)
          (subst
            (λ o.
              (judged read_wave sha256 name (length bytes) rate channels o (healthy files)).0
              ≡ ok verdict)
            (sym r) judged-healthy)

    check_format-healthy :
        wave_format_is_pcm bytes ≡ true
        → read_wave bytes ≡ some p
        → (check_format read_wave sha256 true name (length bytes) rate channels (healthy files)).0
          ≡ ok verdict
    unfolding check_format pcm_checked
    check_format-healthy f r =
        subst
          (λ x.
            (open_wave read_wave sha256 (pcm_checked read_wave sha256 x.0) name (length bytes) rate
              channels x.1).0
            ≡ ok verdict)
          (sym read_file-healthy)
          (subst
            (λ b.
              (open_wave read_wave sha256 b name (length bytes) rate channels (healthy files)).0
              ≡ ok verdict)
            (sym f) (open_wave-healthy r))

    riff_checked-healthy :
        riff_marks_ok bytes ≡ true
        → declared_size bytes + 8 ≡ length bytes
        → riff_checked read_wave sha256 name (ok bytes) (healthy files) ≡ (ok true, healthy files)
    unfolding riff_checked riff_sized
    riff_checked-healthy m s =
        subst
          (λ b. riff_sized read_wave sha256 b name bytes (healthy files) ≡ (ok true, healthy files))
          (sym m)
          (subst
            (λ x.
              continue x.0 (λ sized d. (ok (declared_size bytes + 8 == length sized), d)) x.1
              ≡ (ok true, healthy files))
            (sym read_file-healthy)
            (ap (λ b. (ok b, healthy files))
              (equal_true (declared_size bytes + 8) (length bytes) s)))

    validate_contents-healthy :
        riff_marks_ok bytes ≡ true
        → declared_size bytes + 8 ≡ length bytes
        → wave_format_is_pcm bytes ≡ true
        → read_wave bytes ≡ some p
        → (validate_contents read_wave sha256 name (length bytes) rate channels (healthy files)).0
          ≡ ok verdict
    unfolding validate_contents
    validate_contents-healthy m s f r =
        subst
          (λ x.
            let (o, e) = riff_checked read_wave sha256 name x.0 x.1 in
            (continue o (λ b. check_format read_wave sha256 b name (length bytes) rate channels)
              e).0
            ≡ ok verdict)
          (sym read_file-healthy)
          (subst
            (λ y.
              (continue y.0 (λ b. check_format read_wave sha256 b name (length bytes) rate channels)
                y.1).0
              ≡ ok verdict)
            (sym (riff_checked-healthy m s)) (check_format-healthy f r))

    pub validate_wav-healthy :
        (b : ℕ) (bs : List ℕ)
        → bytes ≡ b ∷ bs
        → riff_marks_ok bytes ≡ true
        → declared_size bytes + 8 ≡ length bytes
        → wave_format_is_pcm bytes ≡ true
        → read_wave bytes ≡ some p
        → (validate_wav read_wave sha256 (named name) rate channels (healthy files)).0 ≡ ok verdict
    unfolding validate_wav validate_sized
    validate_wav-healthy b bs e m s f r =
        subst (λ x. (validate_sized read_wave sha256 name rate channels x.0 x.1).0 ≡ ok verdict)
          (sym read_file-healthy)
          (subst
            (λ l.
              (validate_sized read_wave sha256 name rate channels (ok l) (healthy files)).0
              ≡ ok verdict)
            (sym e)
            (subst
              (λ l.
                (validate_contents read_wave sha256 name (length l) rate channels (healthy files)).0
                ≡ ok verdict)
              e (validate_contents-healthy m s f r)))
