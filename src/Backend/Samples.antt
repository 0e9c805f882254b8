-- ===== src/Backend/Samples.antt =====
-- The audio that a fake backend of voxcpm_runtime/fake_backend.py generates.
use open_bmb_vox_cpm2_infere.Common.{
  ℕ, zero, suc, ◌+◌, ◌*◌, ◌/◌, ◌%◌, ◌-◌, ◌≤◌, ◌<◌, ◌≡◌, refl, sym, ap, subst, Bool, true, false,
  String, List, [], ◌∷◌, if◌then◌else◌, leb, arith,
}
use open_bmb_vox_cpm2_infere.Common.Exec.{ok}
use open_bmb_vox_cpm2_infere.Common.Lists.{length, All}
use open_bmb_vox_cpm2_infere.Worker.Types.{Sample, OneShotRequest, AudioResult}
use open_bmb_vox_cpm2_infere.Backend.Fake.{
  FakeVoxCpmBackend, FakeOperation, operation_name, loaded, byte_at, last_byte, sample_at,
  samples_from, synthesize_result, run,
}
use open_bmb_vox_cpm2_infere.Backend.Lifecycle.{run-loaded}

-- What a SHA-256 digest is: a sequence of bytes.
abbrev pub IsBytes : List ℕ → Type 0
IsBytes bytes = All (λ b. b < 256) bytes

byte_at-bound : (i : ℕ) (bs : List ℕ) → IsBytes bs → byte_at i bs < 256
unfolding byte_at
byte_at-bound i [] h = omega arith
byte_at-bound zero (b ∷ bs) h = h.0
byte_at-bound (suc i) (b ∷ bs) h = byte_at-bound i bs h.1

last_byte-bound : (bs : List ℕ) → IsBytes bs → last_byte bs < 256
unfolding last_byte
last_byte-bound [] h = omega arith
last_byte-bound (b ∷ []) h = h.0
last_byte-bound (b ∷ c ∷ bs) h = last_byte-bound (c ∷ bs) h.1

-- Where the factors are bounded, their product is.
product-bound : (k m a n : ℕ) → k ≤ m → a ≤ n → k * a ≤ m * n
product-bound k m a n h l = grind arith

module _ (digest : String → OneShotRequest → List ℕ) (quotient : Bool → ℕ → ℕ → Sample) where
  -- A sample is a quotient of at most 0.15 in size: 19_200_000_000 / 128_000_000_000.
  abbrev pub IsQuiet : Sample → Type 0
  IsQuiet s = (above : Bool) × (n : ℕ) × (s ≡ quotient above n 128000000000) × (n ≤ 19200000000)

  chosen :
      (b : Bool) (x y : Sample)
      → (b ≡ true → IsQuiet x)
      → (b ≡ false → IsQuiet y)
      → IsQuiet (if b then x else y)
  chosen true x y h k = h refl
  chosen false x y h k = k refl

  sample_at-IsQuiet :
      (byte amplitude : ℕ)
      → byte < 256
      → amplitude ≤ 150000000
      → IsQuiet (sample_at digest quotient byte amplitude)
  unfolding sample_at
  sample_at-IsQuiet byte amplitude b a =
      chosen (leb 128 byte) _ _
        (λ e. (
          true,
          (byte - 128) * amplitude,
          refl,
          product-bound (byte - 128) 128 amplitude 150000000 (omega arith) a,
        ))
        (λ e. (
          false,
          (128 - byte) * amplitude,
          refl,
          product-bound (128 - byte) 128 amplitude 150000000 (omega arith) a,
        ))

  samples_from-IsQuiet :
      (bytes : List ℕ) (amplitude index count : ℕ)
      → IsBytes bytes
      → amplitude ≤ 150000000
      → (length (samples_from digest quotient bytes amplitude index count) ≡ count)
        × All IsQuiet (samples_from digest quotient bytes amplitude index count)
  unfolding samples_from
  samples_from-IsQuiet bytes amplitude index zero h a = (refl, tt)
  samples_from-IsQuiet bytes amplitude index (suc count) h a =
      let (n, all) = samples_from-IsQuiet bytes amplitude (index + 1) count h a in
      (
        ap suc n,
        (
          sample_at-IsQuiet (byte_at (index % length bytes) bytes) amplitude
              (byte_at-bound (index % length bytes) bytes h) a,
          all,
        ),
      )

  -- An audio result of 480 samples at 48 kHz in one channel, each at most 0.15 in size.
  pub record IsAudio (a : AudioResult) : Type 0 where
    pub count : length a.samples ≡ 480
    pub rate : a.sample_rate_hz ≡ 48000
    pub mono : a.channels ≡ 1
    pub quiet : All IsQuiet a.samples

  synthesize_result-IsAudio :
      (operation : String) (r : OneShotRequest)
      → IsBytes (digest operation r)
      → IsAudio (synthesize_result digest quotient operation r)
  unfolding synthesize_result
  synthesize_result-IsAudio operation r h =
      let bytes = digest operation r in
      let (n, all) =
        samples_from-IsQuiet bytes (100000000 + last_byte bytes * 50000000 / 255) 0 480 h
          (omega (arith, last_byte-bound bytes h)) in
      record { count = n; rate = refl; mono = refl; quiet = all }

  -- Where a digest is a sequence of bytes: a generation that returns was asked of a loaded backend,
  -- and it returns 480 samples at 48 kHz in one channel, each the quotient of an integer of at most
  -- 19_200_000_000 in size by 128_000_000_000, which is 0.15 at most.
  pub run-IsAudio :
      (o : FakeOperation) (r : OneShotRequest) (b : FakeVoxCpmBackend) (a : AudioResult)
      → IsBytes (digest (operation_name o) r)
      → (run digest quotient o r b).0 ≡ ok a
      → (b.state ≡ loaded) × IsAudio a
  run-IsAudio o r b a h e =
      let (l, x, f, same) = run-loaded digest quotient o r b a e in
      (l, subst IsAudio (sym same) (synthesize_result-IsAudio (operation_name o) r h))
