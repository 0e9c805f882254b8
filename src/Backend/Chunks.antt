-- ===== src/Backend/Chunks.antt =====
-- The chunks of a stream of voxcpm_runtime/fake_backend.py are the samples, cut in order.
use open_bmb_vox_cpm2_infere.Common.{
  ℕ, zero, suc, ◌+◌, ◌-◌, ◌*◌, ◌/◌, ◌≤◌, ◌<◌, ◌≡◌, refl, ap, subst, ◌==◌, ltb, Bool, true, false,
  List, [], ◌∷◌, ◌++◌, arith, if◌then◌else◌,
}
use open_bmb_vox_cpm2_infere.Common.Lists.{length}
use open_bmb_vox_cpm2_infere.Worker.Types.{Sample, AudioResult, AudioChunk}
use open_bmb_vox_cpm2_infere.Backend.Fake.{first_samples, after_samples, chunks_from, chunks}

abbrev pub is_empty : List Sample → Bool
is_empty [] = true
is_empty (s ∷ ss) = false

-- The samples are those of the chunks in order. Each chunk has at least one sample and at most `size`,
-- the sequence numbers count from `n`, and a chunk is final where no samples follow it.
abbrev pub IsCut : ℕ → ℕ → List Sample → List AudioChunk → Type 0
IsCut size n samples [] = samples ≡ []
IsCut size n samples (c ∷ cs) =
    (rest : List Sample) × (samples ≡ c.samples ++ rest)
    × (c.sequence ≡ n)
    × (1 ≤ length c.samples)
    × (length c.samples ≤ size)
    × (c.is_final ≡ is_empty rest)
    × IsCut size (n + 1) rest cs

first-after : (k : ℕ) (ss : List Sample) → ss ≡ first_samples k ss ++ after_samples k ss
unfolding first_samples after_samples
first-after zero ss = refl
first-after (suc k) [] = refl
first-after (suc k) (s ∷ ss) = ap (λ r. s ∷ r) (first-after k ss)

length-first_samples : (k : ℕ) (ss : List Sample) → k ≤ length ss → length (first_samples k ss) ≡ k
unfolding first_samples
length-first_samples zero ss h = refl
length-first_samples (suc k) [] h = omega arith
length-first_samples (suc k) (s ∷ ss) h = omega (arith, length-first_samples k ss (omega arith))

length-after_samples : (k : ℕ) (ss : List Sample) → length (after_samples k ss) ≡ length ss - k
unfolding after_samples
length-after_samples zero ss = omega arith
length-after_samples (suc k) [] = omega arith
length-after_samples (suc k) (s ∷ ss) = omega (arith, length-after_samples k ss)

is_final_lem :
    (end total : ℕ) (rest : List Sample)
    → length rest ≡ total - end
    → end ≤ total
    → (end == total) ≡ is_empty rest
is_final_lem end total [] l h = ground arith
is_final_lem end total (s ∷ ss) l h = ground arith

zero_times : (size : ℕ) → 0 * size ≡ 0
zero_times size = omega arith

quotient_lem : (n size : ℕ) → 1 ≤ size → n * size / size ≡ n
quotient_lem n size h = grind arith

-- The end of the chunk that starts at `start`, where some samples are left.
end_of : ℕ → ℕ → ℕ → ℕ
end_of size total start = if ltb (start + size) total then start + size else total

end_bounds :
    (size total start : ℕ)
    → 1 ≤ size
    → start < total
    → (start < end_of size total start)
      × (end_of size total start ≤ total)
      × (end_of size total start ≤ start + size)
unfolding end_of
end_bounds size total start p h = (ground arith, ground arith, ground arith)

end_full :
    (size total start : ℕ)
    → end_of size total start < total
    → end_of size total start ≡ start + size
unfolding end_of
end_full size total start h = ground arith

module _ (size : ℕ) (result : AudioResult) (positive : 1 ≤ size) where
  abbrev total : ℕ
  total = length result.samples

  next_lem : (n m end : ℕ) → end ≡ n * size + size → end + m ≡ total → (n + 1) * size + m ≡ total
  next_lem n m end e h = grind (arith, e, h)

  chunks_from-IsCut :
      (fuel n : ℕ) (rest : List Sample)
      → length rest ≤ fuel
      → (1 ≤ length rest → n * size + length rest ≡ total)
      → IsCut size n rest (chunks_from size result fuel (n * size) rest)
  unfolding chunks_from end_of
  chunks_from-IsCut zero n [] h l = refl
  chunks_from-IsCut zero n (s ∷ ss) h l = absurd (omega arith)
  chunks_from-IsCut (suc fuel) n [] h l = refl
  chunks_from-IsCut (suc fuel) n (s ∷ ss) h l =
      let start = n * size in
      let end = end_of size total start in
      let here = l (omega arith) in
      let (some_, inside, short) = end_bounds size total start positive (omega (arith, here)) in
      let after = after_samples (end - start) (s ∷ ss) in
      let left = length-after_samples (end - start) (s ∷ ss) in
      let taken = length-first_samples (end - start) (s ∷ ss) (omega (arith, here, inside)) in
      (
        after,
        first-after (end - start) (s ∷ ss),
        quotient_lem n size positive,
        omega (arith, taken, some_),
        omega (arith, taken, short),
        is_final_lem end total after (omega (arith, left, here, some_, inside)) inside,
        subst (λ k. IsCut size (n + 1) after (chunks_from size result fuel k after)) (grind arith)
            (chunks_from-IsCut fuel (n + 1) after (omega (arith, left, h, some_)) (λ some_left.
              next_lem n (length after) end
                (end_full size total start (omega (arith, left, here, some_left)))
                (omega (arith, left, here, some_, inside)))),
      )

  -- With a positive chunk size, the chunks of an audio result are its samples, cut in order: each has
  -- at least one sample and at most the chunk size, they are numbered from 0, and exactly the last is
  -- final.
  pub chunks-IsCut : IsCut size 0 result.samples (chunks size result)
  unfolding chunks
  chunks-IsCut =
      subst (λ k. IsCut size 0 result.samples (chunks_from size result total k result.samples))
        (zero_times size)
        (chunks_from-IsCut total 0 result.samples (omega arith)
          (λ h. omega (arith, zero_times size)))
