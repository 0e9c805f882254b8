-- ===== src/Tests/Backends.antt =====
-- The theorems about voxcpm_runtime/fake_backend.py at a small backend and a short result.
use open_bmb_vox_cpm2_infere.Common.{
  ℕ, ◌≡◌, refl, Bool, String, List, [], ◌∷◌, arith, if◌then◌else◌,
}
use open_bmb_vox_cpm2_infere.Common.Dict.{member}
use open_bmb_vox_cpm2_infere.Common.Exec.{ok}
use open_bmb_vox_cpm2_infere.Worker.Types.{
  Sample, positive, negative, OneShotRequest, speech, AudioResult,
}
use open_bmb_vox_cpm2_infere.Backend.Fake.{
  loaded, FakeVoxCpmBackend, synthesize, close, run, chunks, synthesize_result,
}
use open_bmb_vox_cpm2_infere.Backend.Chunks.{IsCut, chunks-IsCut}
use open_bmb_vox_cpm2_infere.Backend.Lifecycle.{
  Call, loads, closes, generates, streams, calls, IsOver, close-IsOver,
}
use open_bmb_vox_cpm2_infere.Backend.Samples.{IsAudio, run-IsAudio}

abbrev digest : String → OneShotRequest → List ℕ
digest operation request = 7 ∷ 200 ∷ []

abbrev quotient : Bool → ℕ → ℕ → Sample
quotient above n d = if above then positive n else negative n

abbrev three : AudioResult
three = record {
  samples = positive 1 ∷ positive 2 ∷ positive 3 ∷ [];
  sample_rate_hz = 48000;
  channels = 1;
  metadata = [];
}

chunks-IsCut_example : IsCut 2 0 three.samples (chunks 2 three)
chunks-IsCut_example = chunks-IsCut 2 three (omega arith)

abbrev backend : FakeVoxCpmBackend
backend = record { failure_plan = "design" ∷ []; chunk_size = 120; state = loaded }

closes_now : (close backend).0 ≡ ok tt
unfolding close member
closes_now = refl

abbrev later : List Call
later = loads ∷ generates synthesize (speech "hello") ∷ streams (speech "hello") ∷ closes ∷ []

close-IsOver_example : IsOver digest quotient (calls digest quotient later (close backend).1)
close-IsOver_example = close-IsOver digest quotient backend later closes_now

abbrev spoken : AudioResult
spoken = synthesize_result digest quotient "synthesize" (speech "hello")

speaks : (run digest quotient synthesize (speech "hello") backend).0 ≡ ok spoken
unfolding run member
speaks = refl

run-IsAudio_example : (backend.state ≡ loaded) × IsAudio digest quotient spoken
run-IsAudio_example =
    run-IsAudio digest quotient synthesize (speech "hello") backend spoken
      (omega arith, (omega arith, tt)) speaks
