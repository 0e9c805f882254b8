-- ===== src/Wav/Touches.antt =====
-- What the steps of write_wav change on the disk.
use Prim.Native.String.{len, ◌++◌ as join_texts}
use text.Mathlib.TextPositions.{len-append}
use open_bmb_vox_cpm2_infere.Common.{
  ℕ, ◌≡◌, ◌≢◌, refl, ap, sym, ◌∙◌, Bool, true, false, Option, none, some, String, String_discrete,
  List, ite, arith, if_pos, if_neg,
}
use open_bmb_vox_cpm2_infere.Common.Lists.{length}
use open_bmb_vox_cpm2_infere.Common.Dict.{lookup, pop, lookup-put, lookup-pop}
use open_bmb_vox_cpm2_infere.Common.Exec.{Outcome, ok, raised, continue}
use open_bmb_vox_cpm2_infere.Wav.Format.{wave_bytes, fits, debris}
use open_bmb_vox_cpm2_infere.Wav.Disk.{
  Disk, Fault, passes, breaks, cuts, WavError, wav_write_error, struct_error, os_error,
  file_not_found, Action, next_fault, checked, attempted, mkdir, written, write_bytes, moved,
  replace, discard, found, read_file,
}
use open_bmb_vox_cpm2_infere.Wav.Write.{
  temporary_name, write_fitting, write_frames, after_frames, after_replace,
}

pub temporary_name-differs : (name : String) → temporary_name name ≢ name
temporary_name-differs name e =
    omega (arith, ap len e, len-append "." (join_texts name ".part"), len-append name ".part")

-- Nothing but the file `name` may differ.
abbrev pub OnlyAt : String → Disk → Disk → Type 0
OnlyAt name d e = (k : String) → k ≢ name → lookup k e.files ≡ lookup k d.files

pub other_name :
    (k name : String) (a b : Option (List ℕ)) → k ≢ name → ite (String_discrete name k) a b ≡ b
other_name k name a b n = if_neg (String_discrete name k) (λ e. n (sym e)) a b

written-OnlyAt :
    (f : Fault) (name : String) (bytes : List ℕ) (d : Disk)
    → OnlyAt name d (written f name bytes d).1
unfolding written
written-OnlyAt passes name bytes d k n = lookup-put name k bytes d.files ∙ other_name k name _ _ n
written-OnlyAt breaks name bytes d k n = refl
written-OnlyAt (cuts m) name bytes d k n = lookup-put name k _ d.files ∙ other_name k name _ _ n

write_bytes-OnlyAt :
    (name : String) (bytes : List ℕ) (d : Disk) → OnlyAt name d (write_bytes name bytes d).1
unfolding write_bytes
write_bytes-OnlyAt name bytes d =
    written-OnlyAt (next_fault d.faults).0 name bytes
      (record d { faults = (next_fault d.faults).1 })

-- What a call that returned has put into the file.
abbrev pub Holds : String → List ℕ → Outcome WavError (Unit {0}) → Disk → Type 0
Holds name bytes (ok _) d = lookup name d.files ≡ some bytes
Holds name bytes (raised e) d = Unit

written-Holds :
    (f : Fault) (name : String) (bytes : List ℕ) (d : Disk)
    → let (o, e) = written f name bytes d in Holds name bytes o e
unfolding written
written-Holds passes name bytes d =
    lookup-put name name bytes d.files ∙ if_pos (String_discrete name name) refl _ _
written-Holds breaks name bytes d = tt
written-Holds (cuts m) name bytes d = tt

-- A call that only touches `name`, and that has put `bytes` there where it returned.
abbrev pub Wrote : String → List ℕ → Disk → Outcome WavError (Unit {0}) × Disk → Type 0
Wrote name bytes d x = OnlyAt name d x.1 × Holds name bytes x.0 x.1

write_bytes-Wrote :
    (name : String) (bytes : List ℕ) (d : Disk) → Wrote name bytes d (write_bytes name bytes d)
unfolding write_bytes
write_bytes-Wrote name bytes d =
    let (f, fs) = next_fault d.faults in
    (write_bytes-OnlyAt name bytes d, written-Holds f name bytes (record d { faults = fs }))

then_raises :
    (name : String) (bytes : List ℕ) (e : WavError) (d : Disk) (o : Outcome WavError (Unit {0}))
    (d' : Disk)
    → OnlyAt name d d'
    → Wrote name bytes d (continue o (λ _ s. (raised e, s)) d')
then_raises name bytes e d (ok _) d' h = (h, tt)
then_raises name bytes e d (raised x) d' h = (h, tt)

write_fitting-Wrote :
    (b : Bool) (name : String) (channels rate : ℕ) (payload : List ℕ) (d : Disk)
    → Wrote name (wave_bytes channels rate payload) d (write_fitting b name channels rate payload d)
unfolding write_fitting
write_fitting-Wrote true name channels rate payload d =
    write_bytes-Wrote name (wave_bytes channels rate payload) d
write_fitting-Wrote false name channels rate payload d =
    let x = write_bytes name debris d in
    then_raises name (wave_bytes channels rate payload) struct_error d x.0 x.1
      (write_bytes-OnlyAt name debris d)

pub write_frames-Wrote :
    (name : String) (channels rate : ℕ) (payload : List ℕ) (d : Disk)
    → Wrote name (wave_bytes channels rate payload) d (write_frames name channels rate payload d)
unfolding write_frames
write_frames-Wrote name channels rate payload d =
    write_fitting-Wrote (fits channels rate (length payload)) name channels rate payload d

checked-OnlyAt :
    {A : Type 0} (f : Fault) (name : String) (m : Action A) (d e : Disk)
    → e.files ≡ d.files
    → OnlyAt name d (m e).1
    → OnlyAt name d (checked f m e).1
unfolding checked
checked-OnlyAt passes name m d e q h = h
checked-OnlyAt breaks name m d e q h = λ k n. ap (lookup k) q
checked-OnlyAt (cuts c) name m d e q h = λ k n. ap (lookup k) q

discard-OnlyAt : (name : String) (d : Disk) → OnlyAt name d (discard name d).1
unfolding discard attempted
discard-OnlyAt name d =
    let (f, fs) = next_fault d.faults in
    checked-OnlyAt f name (λ e. (ok tt, record e { files = pop name e.files })) d
      (record d { faults = fs }) refl λ k n. lookup-pop name k d.files ∙ other_name k name _ _ n

pub after_frames-Wrote :
    (name : String) (bytes : List ℕ) (d : Disk) (o : Outcome WavError (Unit {0})) (e : Disk)
    → Wrote name bytes d (o, e)
    → Wrote name bytes d (after_frames name o e)
unfolding after_frames
after_frames-Wrote name bytes d (ok _) e w = w
after_frames-Wrote name bytes d (raised struct_error) e (w, _) = (w, tt)
after_frames-Wrote name bytes d (raised (wav_write_error m)) e (w, _) =
    (λ k n. discard-OnlyAt name e k n ∙ w k n, tt)
after_frames-Wrote name bytes d (raised os_error) e (w, _) =
    (λ k n. discard-OnlyAt name e k n ∙ w k n, tt)
after_frames-Wrote name bytes d (raised file_not_found) e (w, _) =
    (λ k n. discard-OnlyAt name e k n ∙ w k n, tt)

-- What the replacement leads to: where it returns, `target` has the bytes of `source`, which is gone.
abbrev pub Replaced : String → String → List ℕ → Disk → Outcome WavError (Unit {0}) × Disk → Type 0
Replaced source target bytes d ((ok _), e) =
    (lookup target e.files ≡ some bytes)
    × (lookup source e.files ≡ none)
    × ((k : String) → k ≢ source → k ≢ target → lookup k e.files ≡ lookup k d.files)
Replaced source target bytes d ((raised x), e) = OnlyAt source d e

moved-Replaced :
    (source target : String) (bytes : List ℕ) (d e : Disk) (o : Option (List ℕ))
    → source ≢ target
    → e.files ≡ d.files
    → o ≡ some bytes
    → Replaced source target bytes d (moved o source target e)
unfolding moved
moved-Replaced source target bytes d e none n q h = λ k m. ap (lookup k) q
moved-Replaced source target bytes d e (some bs) n q h = (
  lookup-put target target bs (pop source e.files)
      ∙ if_pos (String_discrete target target) refl _ _
      ∙ h,
  lookup-put target source bs (pop source e.files)
      ∙ other_name source target _ _ n
      ∙ lookup-pop source source e.files
      ∙ if_pos (String_discrete source source) refl _ _,
  λ k m t.
      lookup-put target k bs (pop source e.files)
      ∙ other_name k target _ _ t
      ∙ lookup-pop source k e.files
      ∙ other_name k source _ _ m
      ∙ ap (lookup k) q,
)

checked-Replaced :
    (f : Fault) (source target : String) (bytes : List ℕ) (d e : Disk)
    → source ≢ target
    → e.files ≡ d.files
    → lookup source d.files ≡ some bytes
    → Replaced source target bytes d
        (checked f (λ s. moved (lookup source s.files) source target s) e)
unfolding checked
checked-Replaced passes source target bytes d e n q h =
    moved-Replaced source target bytes d e (lookup source e.files) n q (ap (lookup source) q ∙ h)
checked-Replaced breaks source target bytes d e n q h = λ k m. ap (lookup k) q
checked-Replaced (cuts c) source target bytes d e n q h = λ k m. ap (lookup k) q

pub replace-Replaced :
    (source target : String) (bytes : List ℕ) (d : Disk)
    → source ≢ target
    → lookup source d.files ≡ some bytes
    → Replaced source target bytes d (replace source target d)
unfolding replace attempted
replace-Replaced source target bytes d n h =
    let (f, fs) = next_fault d.faults in
    checked-Replaced f source target bytes d (record d { faults = fs }) n refl h

pub after_replace-Replaced :
    (source target : String) (bytes : List ℕ) (d : Disk) (o : Outcome WavError (Unit {0}))
    (e : Disk)
    → Replaced source target bytes d (o, e)
    → Replaced source target bytes d (after_replace source o e)
unfolding after_replace
after_replace-Replaced source target bytes d (ok _) e r = r
after_replace-Replaced source target bytes d (raised x) e r =
    λ k n. discard-OnlyAt source e k n ∙ r k n

checked-files :
    {A : Type 0} (f : Fault) (m : Action A) (e : Disk)
    → (m e).1.files ≡ e.files
    → (checked f m e).1.files ≡ e.files
unfolding checked
checked-files passes m e h = h
checked-files breaks m e h = refl
checked-files (cuts c) m e h = refl

found-files : (o : Option (List ℕ)) (d : Disk) → (found o d).1.files ≡ d.files
unfolding found
found-files none d = refl
found-files (some bytes) d = refl

pub files-read_file : (name : String) (d : Disk) → (read_file name d).1.files ≡ d.files
unfolding read_file attempted
files-read_file name d =
    let (f, fs) = next_fault d.faults in
    checked-files f (λ s. found (lookup name s.files) s) (record d { faults = fs })
      (found-files (lookup name d.files) (record d { faults = fs }))

pub files-mkdir : (d : Disk) → (mkdir d).1.files ≡ d.files
unfolding mkdir attempted
files-mkdir d =
    let (f, fs) = next_fault d.faults in
    checked-files f (λ s. (ok tt, record s { directory = true })) (record d { faults = fs }) refl
