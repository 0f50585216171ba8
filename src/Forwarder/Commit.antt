-- ===== src/Forwarder/Commit.antt =====
-- What a batch commits, and when (audit_forwarder.py).
use auditlens.Prelude.{
  ℕ, ◌≡◌, refl, ap, ◌∙◌, Bool, true, false, not, ◌&&◌, Option, none, List, arith, if◌then◌else◌,
}
use auditlens.Prelude.Eq.{number_eq, string_eq, pair_eq}
use auditlens.Prelude.Assoc.{lookup}
use auditlens.Forwarder.{
  Partition, Offsets, Message, split_noise, Batch, empty_batch, process_batch, Ending,
  merge_offsets, commit, is_accepted, run_batch,
}
use auditlens.Forwarder.Offsets.{
  highest, top, is_tracked, split_noise-Distinct, process_batch-top, split_noise-top,
  merge_offsets-top, process_batch-Distinct, merge_offsets-Distinct, next_position, lookup-commit,
}

module _ (strict : Bool) (ms : List Message) (e : Ending) where
  -- the batch after the loop over what the consumer queued
  abbrev pub batch_of : Batch
  batch_of = process_batch strict (split_noise ms).0 empty_batch

  abbrev pub is_committed : Bool
  is_committed = is_accepted batch_of (split_noise ms).1 e && not e.commit_raises

  merged-top :
      (k : Partition)
      → lookup k (merge_offsets (split_noise ms).1 batch_of.max_offsets) ≡ top is_tracked k ms
  unfolding lookup
  merged-top k =
      merge_offsets-top (split_noise ms).1 batch_of.max_offsets k (split_noise-Distinct ms)
      ∙ ap (highest (lookup k (split_noise ms).1))
          (process_batch-top strict (split_noise ms).0 empty_batch k ∙ highest-none _)
      ∙ split_noise-top ms k
    where
      highest-none : (x : Option ℕ) → highest x none ≡ x
      highest-none x = ground arith

  -- A batch that is committed moves each partition behind the highest offset among its
  -- short-circuited and handled messages, poison pills included, and leaves every partition without
  -- such a message where it was; a batch that is not committed moves nothing.
  pub run_batch-top :
      (committed : Offsets) (k : Partition)
      → lookup k (run_batch strict ms e committed) ≡ (
          if is_committed
          then next_position (top is_tracked k ms) (lookup k committed)
          else lookup k committed)
  unfolding run_batch
  run_batch-top committed k = pick is_committed
    where
      pick :
          (b : Bool)
          → lookup k (
              if b
              then commit (merge_offsets (split_noise ms).1 batch_of.max_offsets) committed
              else committed)
            ≡ (if b
                then next_position (top is_tracked k ms) (lookup k committed)
                else lookup k committed)
      pick true =
          lookup-commit (merge_offsets (split_noise ms).1 batch_of.max_offsets) committed k (
            merge_offsets-Distinct (split_noise ms).1 batch_of.max_offsets
              (process_batch-Distinct strict (split_noise ms).0 empty_batch tt))
          ∙ ap (λ o. next_position o (lookup k committed)) (merged-top k)
      pick false = refl
