-- ===== src/Forwarder/Durable.antt =====
-- What must have happened before a batch is committed (audit_forwarder.py).
use auditlens.Prelude.{
  ℕ, ◌≡◌, refl, ap, ◌∙◌, Bool, true, false, not, ◌&&◌, ◌||◌, Option, some, List, [], ◌∷◌, arith,
  All, any_of, if◌then◌else◌,
}
use auditlens.Prelude.Eq.{number_eq, string_eq, pair_eq}
use auditlens.Prelude.Assoc.{lookup}
use auditlens.Forwarder.{
  Partition, Offsets, Fate, consume_error, partition_eof, revoked, handled, Message, raise_to,
  split_noise, Batch, empty_batch, is_full, settle, process_message, process_batch,
  evaluate_batch_commit, reaches, caught_up, Ending,
}
use auditlens.Forwarder.Offsets.{key_eq, highest, when, is_short, lookup-raise_to}
use auditlens.Forwarder.Commit.{is_committed}

-- A message that asks for a replay: it could not be consumed, or its lane of signals was full.
abbrev pub is_failing_fate : Fate → Bool
is_failing_fate consume_error = true
is_failing_fate (handled lane raised) = is_full lane
is_failing_fate _ = false

abbrev pub is_failing : Message → Bool
is_failing m = not (is_short m) && is_failing_fate m.fate

settle-failure :
    (strict : Bool) (m : Message) (b : Batch) (f : Fate)
    → (settle strict m b f).processing_failure ≡ (is_failing_fate f || b.processing_failure)
unfolding settle
settle-failure strict m b consume_error = refl
settle-failure strict m b partition_eof = refl
settle-failure strict m b revoked = refl
settle-failure strict m b (handled lane raised) = ground arith

process_batch-failure :
    (strict : Bool) (ms : List Message) (b : Batch)
    → (process_batch strict ms b).processing_failure
      ≡ (any_of (λ m. is_failing_fate m.fate) ms || b.processing_failure)
unfolding process_batch process_message
process_batch-failure strict [] b = refl
process_batch-failure strict (m ∷ ms) b = ground (
  arith,
  process_batch-failure strict ms (settle strict m b m.fate),
  settle-failure strict m b m.fate,
)

split_noise-failing :
    (ms : List Message)
    → any_of (λ m. is_failing_fate m.fate) (split_noise ms).0 ≡ any_of is_failing ms
unfolding split_noise
split_noise-failing [] = refl
split_noise-failing (m ∷ ms) = ground (arith, split_noise-failing ms)

-- the table of acknowledged noise reaches the offset of a short-circuited message
abbrev pub IsPersisted : Offsets → Message → Type 0
IsPersisted persisted m = is_short m ≡ true → reaches m.offset (lookup m.partition persisted) ≡ true

map-All :
    (P Q : Message → Type 0) (ms : List Message) → ((m : Message) → P m → Q m) → All P ms → All Q ms
map-All P Q [] f h = tt
map-All P Q (m ∷ ms) f h = (f m h.0, map-All P Q ms f h.1)

reaches-highest : (o : ℕ) (x y : Option ℕ) → reaches o y ≡ true → reaches o (highest x y) ≡ true
reaches-highest o x y h = ground arith

raise_to-reaches :
    (j k : Partition) (o a : ℕ) (d : Offsets)
    → reaches a (lookup k d) ≡ true
    → reaches a (lookup k (raise_to j o d)) ≡ true
raise_to-reaches j k o a d h =
    ap (reaches a) (lookup-raise_to j k o d)
    ∙ reaches-highest a (when (key_eq.beq j k) (some o)) (lookup k d) h

raise_to-reaches_self :
    (j : Partition) (o : ℕ) (d : Offsets) → reaches o (lookup j (raise_to j o d)) ≡ true
raise_to-reaches_self j o d = ground (arith, lookup-raise_to j j o d, key_eq.beq_iff j j)

split_noise-reaches : (ms : List Message) → All (IsPersisted (split_noise ms).1) ms
unfolding split_noise
split_noise-reaches [] = tt
split_noise-reaches (m ∷ ms) = pick (is_short m) refl (split_noise-reaches ms)
  where
    pick :
        (b : Bool)
        → is_short m ≡ b
        → All (IsPersisted (split_noise ms).1) ms
        → All
            (IsPersisted
              (if◌then◌else◌ {A = List Message × Offsets} b
                ((split_noise ms).0, raise_to m.partition m.offset (split_noise ms).1)
                (m ∷ (split_noise ms).0, (split_noise ms).1)).1)
            (m ∷ ms)
    pick true eq h = (
      λ _. raise_to-reaches_self m.partition m.offset (split_noise ms).1,
      map-All (IsPersisted (split_noise ms).1)
          (IsPersisted (raise_to m.partition m.offset (split_noise ms).1)) ms
          (λ n g short.
            raise_to-reaches m.partition n.partition m.offset n.offset (split_noise ms).1 (g short))
          h,
    )
    pick false eq h = (λ short. ground arith, h)

caught_up-reaches :
    (d persisted : Offsets) (k : Partition) (a : ℕ)
    → caught_up d persisted ≡ true
    → reaches a (lookup k d) ≡ true
    → reaches a (lookup k persisted) ≡ true
unfolding caught_up lookup
caught_up-reaches [] persisted k a h r = ground arith
caught_up-reaches ((j, o) ∷ d) persisted k a h r =
    ground (arith, caught_up-reaches d persisted k a, key_eq.beq_iff j k)

module _ (strict : Bool) (ms : List Message) (e : Ending)
    (done : is_committed strict ms e ≡ true) where
  -- A batch is committed only if the producer has delivered everything, no delivery failed
  -- meanwhile, no message asks for a replay, and the table of acknowledged noise reaches the offset of
  -- every short-circuited message in its partition.
  pub is_committed-IsDurable :
      (e.flush_remaining ≡ 0)
      × (e.errors_after ≡ e.errors_before)
      × (any_of is_failing ms ≡ false)
      × All (IsPersisted e.noise_persisted) ms
  unfolding evaluate_batch_commit
  is_committed-IsDurable = (
    ground arith,
    ground arith,
    ground (
      arith,
      process_batch-failure strict (split_noise ms).0 empty_batch,
      split_noise-failing ms,
    ),
    map-All (IsPersisted (split_noise ms).1) (IsPersisted e.noise_persisted) ms
        (λ m g short.
          caught_up-reaches (split_noise ms).1 e.noise_persisted m.partition m.offset caught
            (g short))
        (split_noise-reaches ms),
  )
    where
      caught : caught_up (split_noise ms).1 e.noise_persisted ≡ true
      caught = ground arith
