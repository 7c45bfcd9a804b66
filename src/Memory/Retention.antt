-- ===== src/Memory/Retention.antt =====
-- `sample_candidates` of feuer-memory/src/retention.rs: the rotating sample that eviction scores.
pub mod Rotation
use feuer.Base.{
  ℕ, zero, suc, ◌+◌, ◌%◌, min, max, List, ◌++◌, ltb, if◌then◌else◌, length, take, drop,
}

-- The next start, and the candidates of the sample in order.
unfoldable pub sample_candidates {ℓ} : {A : Type ℓ} → ℕ → List A → ℕ → ℕ × List A
sample_candidates next_sample_start candidates sample_size =
    let candidate_count = length candidates in
    let sample_start = next_sample_start % max candidate_count 1 in
    (
      if ltb 0 candidate_count
          then (sample_start + min candidate_count sample_size) % candidate_count
          else next_sample_start,
      take sample_size (drop sample_start candidates ++ take sample_start candidates),
    )

-- The start after a number of samples over the same candidates.
unfoldable pub start_after {ℓ} : {A : Type ℓ} → ℕ → ℕ → List A → ℕ → ℕ
start_after zero start candidates size = start
start_after (suc rounds) start candidates size =
    start_after rounds (sample_candidates start candidates size).0 candidates size
