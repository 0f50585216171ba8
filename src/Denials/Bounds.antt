-- ===== src/Denials/Bounds.antt =====
-- How large the buckets grow (denial_aggregator.py).
use auditlens.Prelude.{
  ℕ, ◌+◌, ◌≤◌, ◌≡◌, refl, sym, Bool-cases, ◌∙◌, Option, none, some, List, [], ◌∷◌, String, arith,
  All, length, length-append, inl, inr, subst,
}
use auditlens.Prelude.Eq.{string_eq, pair_eq}
use auditlens.Prelude.Assoc.{lookup, insert, All-insert, All-lookup}
use auditlens.Denials.{
  AggregatorConfig, DenialEvent, DenialBucket, BucketKey, keep_unique, keep_sample, add_denial,
  bucket_key, new_bucket, bucket_or, filled_bucket, DenialAggregator, add_event,
}
use auditlens.Denials.Buckets.{add_all, add_event-buckets, add_event-config, add_event-off}

-- A bucket stands under its own key, counts at least one denial, and keeps no more than the
-- configured numbers of values and samples.
pub record IsBounded (c : AggregatorConfig) (b : DenialBucket) : Type 0 where
  pub operations_le : length b.operations ≤ c.max_unique_values
  pub resource_types_le : length b.resource_types ≤ c.max_unique_values
  pub resource_names_le : length b.resource_names ≤ c.max_unique_values
  pub source_ips_le : length b.source_ips ≤ c.max_unique_values
  pub method_names_le : length b.method_names ≤ c.max_unique_values
  pub cluster_ids_le : length b.cluster_ids ≤ c.max_unique_values
  pub environment_ids_le : length b.environment_ids ≤ c.max_unique_values
  pub organization_ids_le : length b.organization_ids ≤ c.max_unique_values
  pub samples_le : length b.sample_event_ids ≤ c.max_sample_events
  pub samples_le_count : length b.sample_event_ids ≤ b.denial_count

abbrev pub key_of : DenialBucket → BucketKey
key_of b = (b.principal_normalized, (b.primary_method, b.primary_resource))

abbrev Fits : AggregatorConfig → BucketKey → DenialBucket → Type 0
Fits c k b = (key_of b ≡ k) × IsBounded c b

abbrev pub IsFiled : AggregatorConfig → BucketKey × DenialBucket → Type 0
IsFiled c (k, b) = Fits c k b × (1 ≤ b.denial_count)

keep_unique-le :
    (n : ℕ) (v : String) (xs : List String) → length xs ≤ n → length (keep_unique n v xs) ≤ n
unfolding keep_unique
keep_unique-le n v xs h = ground (arith, length-append xs (v ∷ []))

keep_sample-le :
    (n : ℕ) (v : String) (xs : List String) → length xs ≤ n → length (keep_sample n v xs) ≤ n
unfolding keep_sample
keep_sample-le n v xs h = ground (arith, length-append xs (v ∷ []))

keep_sample-le_count :
    (n m : ℕ) (v : String) (xs : List String) → length xs ≤ m → length (keep_sample n v xs) ≤ m + 1
unfolding keep_sample
keep_sample-le_count n m v xs h = ground (arith, length-append xs (v ∷ []))

add_denial-IsBounded :
    (c : AggregatorConfig) (e : DenialEvent) (b : DenialBucket)
    → IsBounded c b
    → IsBounded c (add_denial e c.max_sample_events c.max_unique_values b)
unfolding add_denial
add_denial-IsBounded c e b h =
    let n = c.max_unique_values in
    record {
      operations_le = keep_unique-le n _ _ h.operations_le;
      resource_types_le = keep_unique-le n _ _ h.resource_types_le;
      resource_names_le = keep_unique-le n _ _ h.resource_names_le;
      source_ips_le = keep_unique-le n _ _ h.source_ips_le;
      method_names_le = keep_unique-le n _ _ h.method_names_le;
      cluster_ids_le = keep_unique-le n _ _ h.cluster_ids_le;
      environment_ids_le = keep_unique-le n _ _ h.environment_ids_le;
      organization_ids_le = keep_unique-le n _ _ h.organization_ids_le;
      samples_le = keep_sample-le c.max_sample_events _ _ h.samples_le;
      samples_le_count =
          keep_sample-le_count c.max_sample_events b.denial_count _ _ h.samples_le_count;
    }

new_bucket-IsBounded :
    (c : AggregatorConfig) (now : ℕ) (e : DenialEvent) → IsBounded c (new_bucket now e)
unfolding new_bucket
new_bucket-IsBounded c now e = record {
  operations_le = omega arith;
  resource_types_le = omega arith;
  resource_names_le = omega arith;
  source_ips_le = omega arith;
  method_names_le = omega arith;
  cluster_ids_le = omega arith;
  environment_ids_le = omega arith;
  organization_ids_le = omega arith;
  samples_le = omega arith;
  samples_le_count = omega arith;
}

new_bucket-key : (now : ℕ) (e : DenialEvent) → key_of (new_bucket now e) ≡ bucket_key e
unfolding new_bucket
new_bucket-key now e = refl

add_denial-pos :
    (e : DenialEvent) (m n : ℕ) (b : DenialBucket) → 1 ≤ (add_denial e m n b).denial_count
unfolding add_denial
add_denial-pos e m n b = omega arith

add_denial-key :
    (e : DenialEvent) (m n : ℕ) (b : DenialBucket) → key_of (add_denial e m n b) ≡ key_of b
unfolding add_denial
add_denial-key e m n b = refl

-- The bucket that an event goes to, a new one or what was found.
bucket_or-Fits :
    (c : AggregatorConfig) (now : ℕ) (e : DenialEvent) (o : Option DenialBucket)
    → ((b : DenialBucket) → o ≡ some b → Fits c (bucket_key e) b)
    → Fits c (bucket_key e) (bucket_or (new_bucket now e) o)
bucket_or-Fits c now e none h = (new_bucket-key now e, new_bucket-IsBounded c now e)
bucket_or-Fits c now e (some b) h = h b refl

module _ (now : ℕ) (e : DenialEvent) (a : DenialAggregator)
    (h : All (IsFiled a.config) a.buckets) where
  filled_bucket-IsFiled : IsFiled a.config (bucket_key e, filled_bucket now e a)
  unfolding filled_bucket
  filled_bucket-IsFiled =
      let old = bucket_or (new_bucket now e) (lookup (bucket_key e) a.buckets) in
      let c = a.config in
      let fits =
        bucket_or-Fits c now e (lookup (bucket_key e) a.buckets)
          (λ b found. (All-lookup (IsFiled c) (bucket_key e) b a.buckets h found).0) in
      (
        (
          add_denial-key e c.max_sample_events c.max_unique_values old ∙ fits.0,
          add_denial-IsBounded c e old fits.1,
        ),
        add_denial-pos e c.max_sample_events c.max_unique_values old,
      )

  add_event-IsFiled : All (IsFiled (add_event now e a).0.config) (add_event now e a).0.buckets
  add_event-IsFiled = elim (Bool-cases a.config.enabled) [
    | inl on ↦
        subst (λ bs. All (IsFiled (add_event now e a).0.config) bs)
          (sym (add_event-buckets now e a on))
          (subst (λ c. All (IsFiled c) (insert (bucket_key e) (filled_bucket now e a) a.buckets))
            (sym (add_event-config now e a))
            (All-insert (IsFiled a.config) (bucket_key e) (filled_bucket now e a) a.buckets
              filled_bucket-IsFiled h))
    | inr off ↦ subst (λ r. All (IsFiled r.config) r.buckets) (sym (add_event-off now e a off)) h
  ]

-- At every time each bucket stands under its own key, counts at least one denial, holds no more
-- values and samples than configured, and no more samples than denials.
pub add_all-IsFiled :
    (es : List (ℕ × DenialEvent)) (a : DenialAggregator)
    → All (IsFiled a.config) a.buckets
    → All (IsFiled (add_all es a).config) (add_all es a).buckets
unfolding add_all
add_all-IsFiled [] a h = h
add_all-IsFiled ((now, e) ∷ es) a h =
    add_all-IsFiled es (add_event now e a).0 (add_event-IsFiled now e a h)
