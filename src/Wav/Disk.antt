-- ===== src/Wav/Disk.antt =====
-- The directory that write_wav writes into, with the operations of the operating system that it
-- calls. Each operation takes the next fault of a script, which says whether and how it fails; past
-- the end of the script nothing fails.
use open_bmb_vox_cpm2_infere.Common.{
  ℕ, zero, suc, Bool, true, Option, none, some, String, List, [], ◌∷◌,
}
use open_bmb_vox_cpm2_infere.Common.Exec.{ok, raised, Exec, pure, raise}
use open_bmb_vox_cpm2_infere.Common.Dict.{Dict, lookup, put, pop}

-- `cuts n` lets a write stop after n bytes.
pub data Fault : Type 0 where
  passes breaks : Fault
  cuts : ℕ → Fault

pub record Disk : Type 0 where
  pub directory : Bool
  pub files : Dict (List ℕ)
  pub faults : List Fault

-- WavWriteError with its message, or an exception that write_wav and validate_wav let pass.
pub data WavError : Type 0 where
  wav_write_error : String → WavError
  struct_error os_error file_not_found : WavError

abbrev pub Action : Type 0 → Type 0
Action A = Exec WavError Disk A

unfoldable pub next_fault : List Fault → Fault × List Fault
next_fault [] = (passes, [])
next_fault (f ∷ fs) = (f, fs)

unfoldable pub first_bytes : ℕ → List ℕ → List ℕ
first_bytes zero bs = []
first_bytes (suc n) [] = []
first_bytes (suc n) (b ∷ bs) = b ∷ first_bytes n bs

-- An operation that either does its work or raises OSError and changes nothing.
unfoldable pub checked : {A : Type 0} → Fault → Action A → Action A
checked passes m = m
checked _ m = raise os_error

unfoldable pub attempted : {A : Type 0} → Action A → Action A
unfolding checked next_fault
attempted m d = let (f, fs) = next_fault d.faults in checked f m (record d { faults = fs })

-- parent.mkdir(parents=True, exist_ok=True)
unfoldable pub mkdir : Action (Unit {0})
unfolding attempted
mkdir = attempted (λ d. (ok tt, record d { directory = true }))

unfoldable pub written : Fault → String → List ℕ → Action (Unit {0})
unfolding first_bytes
written passes name bytes d = (ok tt, record d { files = put name bytes d.files })
written breaks name bytes d = (raised os_error, d)
written (cuts n) name bytes d =
    (raised os_error, record d { files = put name (first_bytes n bytes) d.files })

-- open(name, "wb"), writing and closing
unfoldable pub write_bytes : String → List ℕ → Action (Unit {0})
unfolding written next_fault
write_bytes name bytes d =
    let (f, fs) = next_fault d.faults in written f name bytes (record d { faults = fs })

unfoldable pub moved : Option (List ℕ) → String → String → Action (Unit {0})
moved none source target d = (raised os_error, d)
moved (some bytes) source target d =
    (ok tt, record d { files = put target bytes (pop source d.files) })

-- os.replace(source, target)
unfoldable pub replace : String → String → Action (Unit {0})
unfolding attempted moved
replace source target = attempted (λ d. moved (lookup source d.files) source target d)

-- path.unlink() with its OSError ignored
unfoldable pub discard : String → Action (Unit {0})
unfolding attempted
discard name d =
    let (o, d') = attempted (λ e. (ok tt, record e { files = pop name e.files })) d in (ok tt, d')

unfoldable pub found : Option (List ℕ) → Action (List ℕ)
found none = raise file_not_found
found (some bytes) = pure bytes

-- Opening a file for reading, or asking for its size; a missing file raises FileNotFoundError.
unfoldable pub read_file : String → Action (List ℕ)
unfolding attempted found
read_file name = attempted (λ d. found (lookup name d.files) d)
