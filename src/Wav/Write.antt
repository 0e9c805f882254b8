-- ===== src/Wav/Write.antt =====
-- write_wav of voxcpm_runtime/wav_io.py. Times are ratios of two numbers; sha256 and the product of
-- doubles are parameters.
use Prim.Native.String.{◌++◌ as join_texts}
use open_bmb_vox_cpm2_infere.Common.{
  ◌≡◌, ℕ, Bool, true, false, Option, none, some, String, String_discrete, List, [], ◌∷◌,
}
use open_bmb_vox_cpm2_infere.Common.Lists.{length}
use open_bmb_vox_cpm2_infere.Common.Exec.{Outcome, ok, raised, pure, raise, attempt, ◌>>=◌, ◌>>◌}
use open_bmb_vox_cpm2_infere.Worker.Types.{AudioResult, Sample}
use open_bmb_vox_cpm2_infere.Wav.Quantise.{Pcm, clip_and_quantize}
use open_bmb_vox_cpm2_infere.Wav.Format.{tobytes, wave_bytes, fits, debris}
use open_bmb_vox_cpm2_infere.Wav.Disk.{
  WavError, wav_write_error, struct_error, Action, mkdir, write_bytes, replace, discard, read_file,
}

pub data Seconds : Type 0 where
  ratio : ℕ → ℕ → Seconds

pub record WavWriteResult : Type 0 where
  pub name : String
  pub byte_size : ℕ
  pub sha256 : String
  pub channel_count : ℕ
  pub sample_rate_hz : ℕ
  pub sample_width_bytes : ℕ
  pub frame_count : ℕ
  pub duration_seconds : Seconds

-- The path argument: nothing that Path takes, or the name of a file in the directory.
pub data PathArgument : Type 0 where
  unusable : PathArgument
  named : String → PathArgument

-- target.with_name(f".{target.name}.part")
abbrev pub temporary_name : String → String
temporary_name name = join_texts "." (join_texts name ".part")

unfoldable pub require : Bool → Action (Unit {0})
require true = pure tt
require false = raise (wav_write_error "The WAV output directory does not exist.")

unfoldable pub require_directory : Action (Unit {0})
unfolding require
require_directory d = require d.directory d

-- `except OSError: raise WavWriteError(message)`
unfoldable pub or_write_error : {A : Type 0} → String → Outcome WavError A → Action A
or_write_error message (ok a) = pure a
or_write_error message (raised e) = raise (wav_write_error message)

-- _ensure_parent
unfoldable pub ensure_parent : Bool → Action (Unit {0})
unfolding require_directory or_write_error
ensure_parent false = require_directory
ensure_parent true = do
  made ← attempt mkdir
  or_write_error "The WAV output directory could not be created." made
  require_directory

-- What `wave` writes to the temporary file; it refuses no rate and no number of channels of an
-- AudioResult, which are positive. A field that does not fit raises struct.error after the first mark.
unfoldable pub write_fitting : Bool → String → ℕ → ℕ → List ℕ → Action (Unit {0})
write_fitting true name channels rate payload = write_bytes name (wave_bytes channels rate payload)
write_fitting false name channels rate payload = do write_bytes name debris; raise struct_error

unfoldable pub write_frames : String → ℕ → ℕ → List ℕ → Action (Unit {0})
unfolding write_fitting
write_frames name channels rate payload =
    write_fitting (fits channels rate (length payload)) name channels rate payload

-- The first `try` block: OSError, wave.Error and ValueError are caught, struct.error is not.
unfoldable pub after_frames : String → Outcome WavError (Unit {0}) → Action (Unit {0})
unfolding discard
after_frames temporary (ok _) = pure tt
after_frames temporary (raised struct_error) = raise struct_error
after_frames temporary (raised e) = do
  discard temporary
  raise (wav_write_error "The WAV file could not be written.")

unfoldable pub after_replace : String → Outcome WavError (Unit {0}) → Action (Unit {0})
unfolding discard
after_replace temporary (ok _) = pure tt
after_replace temporary (raised e) = do
  discard temporary
  raise (wav_write_error "The WAV file could not be finalized.")

module _ (times : ℕ → ℕ) (sha256 : List ℕ → String) where
  -- target.stat().st_size and _sha256_file(target)
  unfoldable pub inspect : String → Action (ℕ × String)
  unfolding read_file
  inspect name = do
    sized ← read_file name
    bytes ← read_file name
    pure (length sized, sha256 bytes)

  -- The last `try` block and the result.
  unfoldable pub report : String → AudioResult → List Pcm → Action WavWriteResult
  unfolding or_write_error inspect
  report name result frames = do
    inspected ← attempt (inspect name)
    (byte_size, digest) ← or_write_error "The written WAV file could not be inspected." inspected
    pure (record {
      name = name;
      byte_size = byte_size;
      sha256 = digest;
      channel_count = result.channels;
      sample_rate_hz = result.sample_rate_hz;
      sample_width_bytes = 2;
      frame_count = length frames;
      duration_seconds = ratio (length frames) result.sample_rate_hz;
    })

  unfoldable pub finalize : String → AudioResult → List Pcm → Action WavWriteResult
  unfolding after_replace report
  finalize name result frames = do
    replaced ← attempt (replace (temporary_name name) name)
    after_replace (temporary_name name) replaced
    report name result frames

  unfoldable pub save : String → AudioResult → List Pcm → Action WavWriteResult
  unfolding write_frames after_frames finalize
  save name result frames = do
    wrote ←
        attempt (
          write_frames (temporary_name name) result.channels result.sample_rate_hz (tobytes frames))
    after_frames (temporary_name name) wrote
    finalize name result frames

  unfoldable pub save_frames : String → AudioResult → Option (List Pcm) → Action WavWriteResult
  unfolding save
  save_frames name result none =
      raise (wav_write_error "Audio samples must be finite real numbers.")
  save_frames name result (some frames) = save name result frames

  -- The last steps, by whether the path has a name.
  unfoldable pub write_file :
      {name : String} → Dec (name ≡ "") → AudioResult → Bool → Action WavWriteResult
  unfolding ensure_parent save_frames
  write_file (yes p) result create_parents =
      raise (wav_write_error "The WAV output path is not a usable filesystem path.")
  write_file {name} (no n) result create_parents = do
    ensure_parent create_parents
    save_frames name result (clip_and_quantize times result.samples)

  unfoldable pub write_named : String → AudioResult → Bool → Action WavWriteResult
  unfolding write_file
  write_named name result create_parents =
      write_file (String_discrete name "") result create_parents

  unfoldable pub write_to : PathArgument → AudioResult → Bool → Action WavWriteResult
  unfolding write_named
  write_to unusable result create_parents =
      raise (wav_write_error "The WAV output path is not a usable filesystem path.")
  write_to (named name) result create_parents = write_named name result create_parents

  unfoldable pub write_samples :
      List Sample → PathArgument → AudioResult → Bool → Action WavWriteResult
  unfolding write_to
  write_samples [] path result create_parents =
      raise (wav_write_error "The audio result contains no samples.")
  write_samples (s ∷ ss) path result create_parents = write_to path result create_parents

  -- write_wav
  unfoldable pub write_wav : PathArgument → AudioResult → Bool → Action WavWriteResult
  unfolding write_samples
  write_wav path result create_parents = write_samples result.samples path result create_parents
