-- ===== src/Wav/Validate.antt =====
-- validate_wav of voxcpm_runtime/wav_io.py. What `wave` reads from the bytes of a file is a parameter:
-- its channels, sample width, rate and frames, or none where it raises.
use open_bmb_vox_cpm2_infere.Common.{
  ℕ, ◌+◌, ◌==◌, ltb, Bool, true, false, ◌&&◌, not, Option, none, some, String, List, [], ◌∷◌,
  if◌then◌else◌,
}
use open_bmb_vox_cpm2_infere.Common.Lists.{length}
use open_bmb_vox_cpm2_infere.Common.Exec.{Outcome, ok, raised, pure, attempt, ◌>>=◌}
use open_bmb_vox_cpm2_infere.Wav.Format.{riff_marks_ok, declared_size, wave_format_is_pcm}
use open_bmb_vox_cpm2_infere.Wav.Disk.{WavError, file_not_found, Action, read_file}
use open_bmb_vox_cpm2_infere.Wav.Write.{Seconds, ratio, PathArgument, unusable, named}

pub record WaveFacts : Type 0 where
  pub channel_count : ℕ
  pub sample_width_bytes : ℕ
  pub sample_rate_hz : ℕ
  pub frame_count : ℕ

pub record WavValidation : Type 0 where
  pub exists : Bool
  pub riff_header_ok : Bool
  pub wave_format_pcm : Bool
  pub channel_count : ℕ
  pub sample_width_bytes : ℕ
  pub sample_rate_hz : ℕ
  pub frame_count : ℕ
  pub duration_seconds : Seconds
  pub byte_size : ℕ
  pub sha256 : String
  pub sample_rate_matches : Bool
  pub channel_count_matches : Bool
  pub failure_reason : Option String

-- WavValidation.valid
abbrev pub valid : WavValidation → Bool
valid v = elim v.failure_reason [ none ↦ true | some r ↦ false ]

-- The duration of _invalid: 0.0 where there is no rate or no frame.
abbrev pub duration_of : ℕ → ℕ → Seconds
duration_of frames rate = if ltb 0 rate && ltb 0 frames then ratio frames rate else ratio 0 1

-- _invalid before the file was read by `wave`
abbrev pub unread : String → Bool → Bool → Bool → ℕ → WavValidation
unread reason exists riff pcm size = record {
  exists = exists;
  riff_header_ok = riff;
  wave_format_pcm = pcm;
  channel_count = 0;
  sample_width_bytes = 0;
  sample_rate_hz = 0;
  frame_count = 0;
  duration_seconds = ratio 0 1;
  byte_size = size;
  sha256 = "";
  sample_rate_matches = false;
  channel_count_matches = false;
  failure_reason = some reason;
}

-- The result once `wave` has read the file, with the two comparisons and the failure, if any.
abbrev pub read_facts : WaveFacts → ℕ → String → Bool → Bool → Option String → WavValidation
read_facts p size digest rate_matches channels_match reason = record {
  exists = true;
  riff_header_ok = true;
  wave_format_pcm = true;
  channel_count = p.channel_count;
  sample_width_bytes = p.sample_width_bytes;
  sample_rate_hz = p.sample_rate_hz;
  frame_count = p.frame_count;
  duration_seconds = duration_of p.frame_count p.sample_rate_hz;
  byte_size = size;
  sha256 = digest;
  sample_rate_matches = rate_matches;
  channel_count_matches = channels_match;
  failure_reason = reason;
}

-- expected is None or actual == expected
abbrev pub matches : Option ℕ → ℕ → Bool
matches none actual = true
matches (some n) actual = actual == n

-- The tests of validate_wav on what `wave` read, in their order.
unfoldable pub judge : WaveFacts → ℕ → String → Bool → Bool → WavValidation
judge p size digest rate_ok channels_ok =
    if p.channel_count == 0
    then read_facts p size digest false channels_ok (some "channel_count_invalid")
    else if p.sample_width_bytes == 0
    then read_facts p size digest rate_ok channels_ok (some "sample_width_invalid")
    else if p.sample_rate_hz == 0
    then read_facts p size digest false channels_ok (some "sample_rate_invalid")
    else if p.frame_count == 0
    then read_facts p size digest rate_ok channels_ok (some "frame_count_empty")
    else if not rate_ok
    then read_facts p size digest false channels_ok (some "sample_rate_mismatch")
    else if not channels_ok
    then read_facts p size digest rate_ok false (some "channel_count_mismatch")
    else read_facts p size digest true true none

module _ (read_wave : List ℕ → Option WaveFacts) (sha256 : List ℕ → String) where
  -- The end of _riff_header_ok: where the marks are right, the size is asked for outside of its `try`.
  unfoldable pub riff_sized : Bool → String → List ℕ → Action Bool
  unfolding read_file
  riff_sized false name bytes = pure false
  riff_sized true name bytes = do
    sized ← read_file name
    pure (declared_size bytes + 8 == length sized)

  -- _riff_header_ok
  unfoldable pub riff_checked : String → Outcome WavError (List ℕ) → Action Bool
  unfolding riff_sized
  riff_checked name (raised e) = pure false
  riff_checked name (ok bytes) = riff_sized (riff_marks_ok bytes) name bytes

  -- _wave_format_is_pcm
  unfoldable pub pcm_checked : Outcome WavError (List ℕ) → Bool
  unfolding wave_format_is_pcm
  pcm_checked (raised e) = false
  pcm_checked (ok bytes) = wave_format_is_pcm bytes

  unfoldable pub digest_of : Outcome WavError (List ℕ) → String
  digest_of (raised e) = ""
  digest_of (ok bytes) = sha256 bytes

  unfoldable pub facts_of : Outcome WavError (List ℕ) → Option WaveFacts
  facts_of (raised e) = none
  facts_of (ok bytes) = read_wave bytes

  unfoldable pub judged : String → ℕ → Option ℕ → Option ℕ → Option WaveFacts → Action WavValidation
  unfolding read_file digest_of judge
  judged name size rate channels none = pure (unread "wave_module_cannot_read" true true true size)
  judged name size rate channels (some p) = do
    contents ← attempt (read_file name)
    pure (
        judge p size (digest_of contents) (matches rate p.sample_rate_hz)
          (matches channels p.channel_count))

  unfoldable pub open_wave : Bool → String → ℕ → Option ℕ → Option ℕ → Action WavValidation
  unfolding facts_of judged
  open_wave false name size rate channels = pure (unread "wave_format_not_pcm" true true false size)
  open_wave true name size rate channels = do
    opened ← attempt (read_file name)
    judged name size rate channels (facts_of opened)

  unfoldable pub check_format : Bool → String → ℕ → Option ℕ → Option ℕ → Action WavValidation
  unfolding open_wave pcm_checked
  check_format false name size rate channels =
      pure (unread "riff_header_invalid" true false false size)
  check_format true name size rate channels = do
    format ← attempt (read_file name)
    open_wave (pcm_checked format) name size rate channels

  unfoldable pub validate_contents : String → ℕ → Option ℕ → Option ℕ → Action WavValidation
  unfolding riff_checked check_format
  validate_contents name size rate channels = do
    header ← attempt (read_file name)
    riff ← riff_checked name header
    check_format riff name size rate channels

  unfoldable pub validate_sized :
      String → Option ℕ → Option ℕ → Outcome WavError (List ℕ) → Action WavValidation
  unfolding validate_contents
  validate_sized name rate channels (raised file_not_found) =
      pure (unread "missing_file" false false false 0)
  validate_sized name rate channels (raised e) = pure (unread "unreadable_file" false false false 0)
  validate_sized name rate channels (ok []) = pure (unread "empty_file" true false false 0)
  validate_sized name rate channels (ok (b ∷ bs)) =
      validate_contents name (length (b ∷ bs)) rate channels

  -- validate_wav
  unfoldable pub validate_wav : PathArgument → Option ℕ → Option ℕ → Action WavValidation
  unfolding validate_sized
  validate_wav unusable rate channels = pure (unread "unusable_path" false false false 0)
  validate_wav (named name) rate channels = do
    sized ← attempt (read_file name)
    validate_sized name rate channels sized
