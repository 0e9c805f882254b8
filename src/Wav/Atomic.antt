-- ===== src/Wav/Atomic.antt =====
-- write_wav never leaves a partial file in place of its target, whatever fails.
use open_bmb_vox_cpm2_infere.Common.{
  ℕ, ◌≡◌, ◌≢◌, refl, ap, sym, ◌∙◌, ◌⊎◌, inl, inr, Bool, true, false, Option, none, some, String,
  String_discrete, List, [], ◌∷◌,
}
use open_bmb_vox_cpm2_infere.Common.Lists.{length}
use open_bmb_vox_cpm2_infere.Common.Dict.{lookup}
use open_bmb_vox_cpm2_infere.Common.Exec.{Outcome, ok, raised, continue}
use open_bmb_vox_cpm2_infere.Worker.Types.{AudioResult, Sample}
use open_bmb_vox_cpm2_infere.Wav.Quantise.{Pcm, clip_and_quantize}
use open_bmb_vox_cpm2_infere.Wav.Format.{tobytes, wave_bytes}
use open_bmb_vox_cpm2_infere.Wav.Disk.{Disk, WavError, Action, mkdir, replace, read_file}
use open_bmb_vox_cpm2_infere.Wav.Write.{
  WavWriteResult, named, temporary_name, require, require_directory, write_file, write_samples,
  or_write_error, ensure_parent, write_frames, after_frames, after_replace, inspect, report,
  finalize, save, save_frames, write_named, write_to, write_wav,
}
use open_bmb_vox_cpm2_infere.Wav.Touches.{
  temporary_name-differs, OnlyAt, Wrote, write_frames-Wrote, after_frames-Wrote, Replaced,
  replace-Replaced, after_replace-Replaced, files-read_file, files-mkdir,
}

-- The target after a call that returned: it has the bytes, and the temporary file is gone.
abbrev Finished : {A : Type 0} → String → List ℕ → Outcome WavError A → Disk → Type 0
Finished name bytes (ok _) e =
    (lookup name e.files ≡ some bytes) × (lookup (temporary_name name) e.files ≡ none)
Finished name bytes (raised x) e = Unit

-- The target is as it was or has the bytes, and no third file has changed.
abbrev pub IsAtomic : {A : Type 0} → String → List ℕ → Disk → Outcome WavError A × Disk → Type 0
IsAtomic name bytes d x =
    ((lookup name x.1.files ≡ lookup name d.files) ⊎ (lookup name x.1.files ≡ some bytes))
    × ((k : String) → k ≢ temporary_name name → k ≢ name → lookup k x.1.files ≡ lookup k d.files)
    × Finished name bytes x.0 x.1

continue-files :
    {A B : Type 0} (o : Outcome WavError A) (k : A → Action B) (e : Disk)
    → ((a : A) (s : Disk) → (k a s).1.files ≡ s.files)
    → (continue o k e).1.files ≡ e.files
continue-files (ok a) k e h = h a e
continue-files (raised x) k e h = refl

or_write_error-files :
    {A : Type 0} (m : String) (o : Outcome WavError A) (e : Disk)
    → (or_write_error m o e).1.files ≡ e.files
unfolding or_write_error
or_write_error-files m (ok a) e = refl
or_write_error-files m (raised x) e = refl

module _ (times : ℕ → ℕ) (sha256 : List ℕ → String) (name : String) (result : AudioResult)
    (frames : List Pcm) where
  abbrev temporary : String
  temporary = temporary_name name

  name_differs : name ≢ temporary
  name_differs e = temporary_name-differs name (sym e)

  abbrev bytes : List ℕ
  bytes = wave_bytes result.channels result.sample_rate_hz (tobytes frames)

  inspect-files : (e : Disk) → (inspect times sha256 name e).1.files ≡ e.files
  unfolding inspect
  inspect-files e =
      let x = read_file name e in
      continue-files x.0
        (λ sized s.
          let (r, s') = read_file name s in
          continue r (λ contents t. (ok (length sized, sha256 contents), t)) s')
        x.1
        (λ sized s.
          let y = read_file name s in
          continue-files y.0 (λ contents t. (ok (length sized, sha256 contents), t)) y.1
            (λ contents t. refl)
          ∙ files-read_file name s)
      ∙ files-read_file name e

  report-files : (e : Disk) → (report times sha256 name result frames e).1.files ≡ e.files
  unfolding report
  report-files e =
      let x = inspect times sha256 name e in
      let y = or_write_error "The written WAV file could not be inspected." x.0 x.1 in
      continue-files y.0 _ y.1 (λ a s. refl)
      ∙ or_write_error-files "The written WAV file could not be inspected." x.0 x.1
      ∙ inspect-files e

  finish :
      (d e : Disk) (x : Outcome WavError WavWriteResult × Disk)
      → x.1.files ≡ e.files
      → (lookup name e.files ≡ some bytes)
      → (lookup temporary e.files ≡ none)
      → ((k : String) → k ≢ temporary → k ≢ name → lookup k e.files ≡ lookup k d.files)
      → IsAtomic name bytes d x
  finish d e (ok r, e') q t p others = (
    inr (ap (lookup name) q ∙ t),
    (λ k m n. ap (lookup k) q ∙ others k m n),
    (ap (lookup name) q ∙ t, ap (lookup temporary) q ∙ p),
  )
  finish d e (raised f, e') q t p others =
      (inr (ap (lookup name) q ∙ t), (λ k m n. ap (lookup k) q ∙ others k m n), tt)

  after_replacing :
      (d e : Disk) (x : Outcome WavError (Unit {0}) × Disk)
      → OnlyAt temporary d e
      → Replaced temporary name bytes e x
      → IsAtomic name bytes d (continue x.0 (λ _. report times sha256 name result frames) x.1)
  after_replacing d e (ok _, e') only (target, gone, others) =
      finish d e' (report times sha256 name result frames e') (report-files e') target gone
        λ k m n. others k m n ∙ only k m
  after_replacing d e (raised f, e') only r =
      (inl (r name name_differs ∙ only name name_differs), (λ k m n. r k m ∙ only k m), tt)

  finalized :
      (d : Disk) (x : Outcome WavError (Unit {0}) × Disk)
      → Wrote temporary bytes d x
      → IsAtomic name bytes d (continue x.0 (λ _. finalize times sha256 name result frames) x.1)
  unfolding finalize
  finalized d (ok _, e) (only, holds) =
      let y = replace temporary name e in
      let z = after_replace temporary y.0 y.1 in
      after_replacing d e z only (
        after_replace-Replaced temporary name bytes e y.0 y.1
          (replace-Replaced temporary name bytes e (temporary_name-differs name) holds))
  finalized d (raised f, e) (only, _) = (inl (only name name_differs), (λ k m n. only k m), tt)

  save-IsAtomic : (d : Disk) → IsAtomic name bytes d (save times sha256 name result frames d)
  unfolding save finalize
  save-IsAtomic d =
      let x = write_frames temporary result.channels result.sample_rate_hz (tobytes frames) d in
      finalized d (after_frames temporary x.0 x.1) (
        after_frames-Wrote temporary bytes d x.0 x.1
          (write_frames-Wrote temporary result.channels result.sample_rate_hz (tobytes frames) d))

abbrev pub Raises : {A : Type 0} → Outcome WavError A → Type 0
Raises (ok a) = ⊥
Raises (raised e) = Unit

-- Either the call raised and changed no file, or it is atomic with the whole file of the samples.
abbrev pub IsSafe :
    (ℕ → ℕ) → String → AudioResult → Disk → Outcome WavError WavWriteResult × Disk → Type 0
IsSafe times name result d x =
    (Raises x.0 × (x.1.files ≡ d.files))
    ⊎ ((frames : List Pcm) × (clip_and_quantize times result.samples ≡ some frames)
        × IsAtomic name (wave_bytes result.channels result.sample_rate_hz (tobytes frames)) d x)

module _ (times : ℕ → ℕ) (sha256 : List ℕ → String) (name : String) (result : AudioResult) where
  require-files : (b : Bool) (d : Disk) → (require b d).1.files ≡ d.files
  unfolding require
  require-files true d = refl
  require-files false d = refl

  require_directory-files : (d : Disk) → (require_directory d).1.files ≡ d.files
  unfolding require_directory
  require_directory-files d = require-files d.directory d

  ensure_parent-files : (b : Bool) (d : Disk) → (ensure_parent b d).1.files ≡ d.files
  unfolding ensure_parent
  ensure_parent-files false d = require_directory-files d
  ensure_parent-files true d =
      let x = mkdir d in
      let y = or_write_error "The WAV output directory could not be created." x.0 x.1 in
      continue-files y.0 (λ _. require_directory) y.1 (λ a s. require_directory-files s)
      ∙ or_write_error-files "The WAV output directory could not be created." x.0 x.1
      ∙ files-mkdir d

  -- A call on a disk with the same files.
  moved_back :
      (d e : Disk)
      → e.files ≡ d.files
      → (x : Outcome WavError WavWriteResult × Disk) → IsSafe times name result e x
      → IsSafe times name result d x
  moved_back d e q x (inl (r, h)) = inl (r, h ∙ q)
  moved_back d e q x (inr (frames, c, (inl t, others, done))) =
      inr
        (frames, c, (inl (t ∙ ap (lookup name) q), (λ k m n. others k m n ∙ ap (lookup k) q), done))
  moved_back d e q x (inr (frames, c, (inr t, others, done))) =
      inr (frames, c, (inr t, (λ k m n. others k m n ∙ ap (lookup k) q), done))

  save_frames-IsSafe :
      (o : Option (List Pcm)) (d : Disk)
      → clip_and_quantize times result.samples ≡ o
      → IsSafe times name result d (save_frames times sha256 name result o d)
  unfolding save_frames
  save_frames-IsSafe none d q = inl (tt, refl)
  save_frames-IsSafe (some frames) d q =
      inr (frames, q, save-IsAtomic times sha256 name result frames d)

  after_parent :
      (o : Outcome WavError (Unit {0})) (d e : Disk)
      → e.files ≡ d.files
      → IsSafe times name result d (
          continue o
            (λ _. save_frames times sha256 name result (clip_and_quantize times result.samples))
            e)
  after_parent (ok _) d e q =
      moved_back d e q
        (save_frames times sha256 name result (clip_and_quantize times result.samples) e)
        (save_frames-IsSafe (clip_and_quantize times result.samples) e refl)
  after_parent (raised x) d e q = inl (tt, q)

  write_file-IsSafe :
      (c : Dec (name ≡ "")) (b : Bool) (d : Disk)
      → IsSafe times name result d (write_file times sha256 c result b d)
  unfolding write_file
  write_file-IsSafe (yes p) b d = inl (tt, refl)
  write_file-IsSafe (no n) b d =
      let y = ensure_parent b d in after_parent y.0 d y.1 (ensure_parent-files b d)

  write_samples-IsSafe :
      (ss : List Sample) (b : Bool) (d : Disk)
      → IsSafe times name result d (write_samples times sha256 ss (named name) result b d)
  unfolding write_samples write_to write_named
  write_samples-IsSafe [] b d = inl (tt, refl)
  write_samples-IsSafe (s ∷ ss) b d = write_file-IsSafe (String_discrete name "") b d

  -- Whatever fails, write_wav either raises and changes no file, or leaves in place of its target
  -- what was there or the whole file of the samples, and changes no third file. Where it returns,
  -- the target is that whole file, and the temporary file is gone.
  pub write_wav-IsSafe :
      (b : Bool) (d : Disk)
      → IsSafe times name result d (write_wav times sha256 (named name) result b d)
  unfolding write_wav
  write_wav-IsSafe b d = write_samples-IsSafe result.samples b d
