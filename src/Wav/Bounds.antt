-- ===== src/Wav/Bounds.antt =====
-- The bounds and the order of quantised samples.
use open_bmb_vox_cpm2_infere.Common.{
  ℕ, ◌*◌, ◌≤◌, ◌≡◌, ◌≢◌, refl, ap, ◌∙◌, ltb, none, some, List, [], ◌∷◌, arith, if◌then◌else◌,
}
use open_bmb_vox_cpm2_infere.Common.Lists.{length, All}
use open_bmb_vox_cpm2_infere.Worker.Types.{Sample, positive, negative, infinite, not_a_number}
use open_bmb_vox_cpm2_infere.Wav.Quantise.{
  one, Pcm, up, down, round, scaled, quantize, appended, clip_and_quantize,
}

round-le : (u : ℕ) → u ≤ 32767 * one → round u ≤ 32767
unfolding round one
round-le u h = ground arith

round_mono : (u v : ℕ) → u ≤ v → round u ≤ round v
unfolding round one
round_mono u v h = ground arith

-- The magnitude of an element is at most 32767: -32768 is no image of a sample.
abbrev pub IsPcm : Pcm → Type 0
IsPcm (up n) = n ≤ 32767
IsPcm (down n) = n ≤ 32767

abbrev pub IsFinite : Sample → Type 0
IsFinite (positive u) = Unit
IsFinite (negative u) = Unit
IsFinite _ = ⊥

-- x ≤ y on the values of finite samples and of elements
abbrev pub AtMost : Sample → Sample → Type 0
AtMost (positive u) (positive v) = u ≤ v
AtMost (negative u) (positive v) = Unit
AtMost (negative u) (negative v) = v ≤ u
AtMost (positive u) (negative v) = (u ≡ 0) × (v ≡ 0)
AtMost _ _ = ⊥

abbrev pub PcmAtMost : Pcm → Pcm → Type 0
PcmAtMost (up m) (up n) = m ≤ n
PcmAtMost (down m) (up n) = Unit
PcmAtMost (down m) (down n) = n ≤ m
PcmAtMost (up m) (down n) = (m ≡ 0) × (n ≡ 0)

-- What a product of doubles with 32767.0 keeps: the order, zero, and 1.0, whose product is exact.
pub record IsProduct (times : ℕ → ℕ) : Type 0 where
  pub mono : (u v : ℕ) → u ≤ v → times u ≤ times v
  pub at_zero : times 0 ≡ 0
  pub at_one : times one ≡ 32767 * one

module _ (times : ℕ → ℕ) (product : IsProduct times) where
  clipped_le : (u : ℕ) → (if ltb one u then one else u) ≤ one
  clipped_le u = ground arith

  scaled-le : (u : ℕ) → scaled times u ≤ 32767
  unfolding scaled
  scaled-le u =
      let c = if ltb one u then one else u in
      round-le (times c) (omega (arith, product.mono c one (clipped_le u), product.at_one))

  clipped_mono : (u v : ℕ) → u ≤ v → (if ltb one u then one else u) ≤ (if ltb one v then one else v)
  clipped_mono u v h = ground arith

  scaled_mono : (u v : ℕ) → u ≤ v → scaled times u ≤ scaled times v
  unfolding scaled
  scaled_mono u v h =
      let c = if ltb one u then one else u in
      let d = if ltb one v then one else v in
      round_mono (times c) (times d) (product.mono c d (clipped_mono u v h))

  scaled_zero : scaled times 0 ≡ 0
  unfolding scaled round one
  scaled_zero = ap round product.at_zero

  scaled_zero_of : (u : ℕ) → u ≡ 0 → scaled times u ≡ 0
  scaled_zero_of u e = ap (scaled times) e ∙ scaled_zero

  quantize-IsPcm : (s : Sample) (p : Pcm) → quantize times s ≡ some p → IsPcm p
  unfolding quantize
  quantize-IsPcm (positive u) p e = ground (arith, scaled-le u)
  quantize-IsPcm (negative u) p e = ground (arith, scaled-le u)
  quantize-IsPcm infinite p e = ground arith
  quantize-IsPcm not_a_number p e = ground arith

  -- Quantising keeps the order of finite samples, where the product with 32767.0 does and keeps zero
  -- and 1.0.
  pub quantize_mono :
      (s t : Sample) (p q : Pcm)
      → AtMost s t
      → quantize times s ≡ some p
      → quantize times t ≡ some q
      → PcmAtMost p q
  unfolding quantize
  quantize_mono (positive u) (positive v) p q h e f =
      ground (arith, scaled_mono u v h, scaled-le u, scaled-le v)
  quantize_mono (negative u) (positive v) p q h e f = ground arith
  quantize_mono (negative u) (negative v) p q h e f =
      ground (arith, scaled_mono v u h, scaled-le u, scaled-le v)
  quantize_mono (positive u) (negative v) p q h e f =
      ground (arith, scaled_zero_of u h.0, scaled_zero_of v h.1)
  quantize_mono infinite t p q h e f = ground arith
  quantize_mono not_a_number t p q h e f = ground arith
  quantize_mono (positive u) infinite p q h e f = ground arith
  quantize_mono (positive u) not_a_number p q h e f = ground arith
  quantize_mono (negative u) infinite p q h e f = ground arith
  quantize_mono (negative u) not_a_number p q h e f = ground arith

  quantize_finite : (s : Sample) → IsFinite s → (p : Pcm) × (quantize times s ≡ some p)
  unfolding quantize
  quantize_finite (positive u) h = (_, refl)
  quantize_finite (negative u) h = (_, refl)
  quantize_finite infinite h = absurd h
  quantize_finite not_a_number h = absurd h

  -- Finite samples are never refused: _clip_and_quantize gives an element for each of them, of
  -- magnitude at most 32767, where the product with 32767.0 keeps the order, zero, and 1.0.
  pub clip_and_quantize-IsPcm :
      (ss : List Sample)
      → All IsFinite ss
      → (ps : List Pcm) × (clip_and_quantize times ss ≡ some ps)
        × (length ps ≡ length ss)
        × All IsPcm ps
  unfolding clip_and_quantize appended
  clip_and_quantize-IsPcm [] h = ([], refl, refl, tt)
  clip_and_quantize-IsPcm (s ∷ ss) h =
      let (p, e) = quantize_finite s h.0 in
      let (ps, f, l, b) = clip_and_quantize-IsPcm ss h.1 in
      (p ∷ ps, ground arith, omega arith, (quantize-IsPcm s p e, b))

quantize-IsFinite : (times : ℕ → ℕ) (s : Sample) → quantize times s ≢ none → IsFinite s
unfolding quantize
quantize-IsFinite times (positive u) h = tt
quantize-IsFinite times (negative u) h = tt
quantize-IsFinite times infinite h = h refl
quantize-IsFinite times not_a_number h = h refl

-- A list of samples with one that is not finite is refused.
pub clip_and_quantize_refuses :
    (times : ℕ → ℕ) (ss : List Sample) → clip_and_quantize times ss ≢ none → All IsFinite ss
unfolding clip_and_quantize appended
clip_and_quantize_refuses times [] h = tt
clip_and_quantize_refuses times (s ∷ ss) h = (
  quantize-IsFinite times s (λ e. h (ground arith)),
  clip_and_quantize_refuses times ss (λ e. h (ground arith)),
)
