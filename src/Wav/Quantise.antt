-- ===== src/Wav/Quantise.antt =====
-- _clip_and_quantize of voxcpm_runtime/wav_io.py. A finite sample is a number of units of the smallest
-- step of a double, with its sign; the product with 32767.0, which rounds to a double, is a parameter
-- on magnitudes, since IEEE products round alike on both sides of zero.
use open_bmb_vox_cpm2_infere.Common.{
  ℕ, ◌+◌, ◌/◌, ◌%◌, ◌^◌, ◌==◌, ltb, Option, none, some, List, [], ◌∷◌, if◌then◌else◌,
}
use open_bmb_vox_cpm2_infere.Worker.Types.{Sample, positive, negative, infinite, not_a_number}

-- 1.0 in units
unfoldable pub one : ℕ
one = 2 ^ 1074

-- An element of array("h"), by its sign; minus zero is zero.
pub data Pcm : Type 0 where
  up down : ℕ → Pcm

-- round(), to the nearest integer and to the even one at a half
unfoldable pub round : ℕ → ℕ
unfolding one
round u =
    let q = u / one in
    let r = u % one in
    if ltb (r + r) one
    then q
    else if ltb one (r + r)
    then q + 1
    else if q % 2 == 0
    then q
    else q + 1

module _ (times : ℕ → ℕ) where
  -- The magnitude of a finite sample, clipped to 1.0, scaled and rounded.
  unfoldable pub scaled : ℕ → ℕ
  scaled u = round (times (if ltb one u then one else u))

  -- One round of the loop; none is the WavWriteError for a sample that is not finite.
  unfoldable pub quantize : Sample → Option Pcm
  unfolding scaled
  quantize (positive u) = let n = scaled u in some (up (if ltb 32767 n then 32767 else n))
  quantize (negative u) = let n = scaled u in some (down (if ltb 32768 n then 32768 else n))
  quantize infinite = none
  quantize not_a_number = none

  unfoldable pub appended : Option Pcm → Option (List Pcm) → Option (List Pcm)
  appended (some p) (some ps) = some (p ∷ ps)
  appended _ _ = none

  -- _clip_and_quantize
  unfoldable pub clip_and_quantize : List Sample → Option (List Pcm)
  unfolding quantize appended
  clip_and_quantize [] = some []
  clip_and_quantize (s ∷ ss) = appended (quantize s) (clip_and_quantize ss)
