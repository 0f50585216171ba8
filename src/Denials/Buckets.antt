-- ===== src/Denials/Buckets.antt =====
-- What the buckets hold after a sequence of denials (denial_aggregator.py).
use auditlens.Prelude.{
  ℕ, ◌+◌, ◌≡◌, refl, ap, ◌∙◌, Bool, true, false, none, some, List, [], ◌∷◌, arith, if◌then◌else◌,
}
use auditlens.Prelude.Eq.{Eq, string_eq, pair_eq}
use auditlens.Prelude.Assoc.{lookup, insert}
use auditlens.Denials.{
  DenialEvent, DenialBucket, BucketKey, Buckets, add_denial, bucket_key, new_bucket, filled_bucket,
  DenialAggregator, add_event,
}

-- `add_event` for each event, with its time
unfoldable pub add_all : List (ℕ × DenialEvent) → DenialAggregator → DenialAggregator
add_all [] a = a
add_all ((now, e) ∷ es) a = add_all es (add_event now e a).0

abbrev key_eq : Eq BucketKey
key_eq = pair_eq

abbrev count_at : BucketKey → Buckets → ℕ
count_at k bs = elim (lookup k bs) [ none ↦ 0 | some b ↦ b.denial_count ]

-- The denials counted in the buckets of the chosen keys, and the events with such keys.
abbrev pub weigh : (BucketKey → Bool) → Buckets → ℕ
weigh p [] = 0
weigh p ((k, b) ∷ bs) = (if p k then b.denial_count else 0) + weigh p bs

abbrev pub count_events : (BucketKey → Bool) → List (ℕ × DenialEvent) → ℕ
count_events p [] = 0
count_events p (e ∷ es) = (if p (bucket_key e.1) then 1 else 0) + count_events p es

weigh-insert :
    (p : BucketKey → Bool) (k : BucketKey) (b : DenialBucket) (bs : Buckets)
    → weigh p (insert k b bs) + (if p k then count_at k bs else 0)
      ≡ weigh p bs + (if p k then b.denial_count else 0)
unfolding insert lookup
weigh-insert p k b [] = ground arith
weigh-insert p k b ((j, c) ∷ bs) = ground (arith, key_eq.beq_iff j k, weigh-insert p k b bs)

module _ (now : ℕ) (e : DenialEvent) (a : DenialAggregator) where
  filled_bucket-count : (filled_bucket now e a).denial_count ≡ count_at (bucket_key e) a.buckets + 1
  unfolding filled_bucket add_denial new_bucket
  filled_bucket-count = ground arith

  module _ (on : a.config.enabled ≡ true) where
    pub add_event-buckets :
        (add_event now e a).0.buckets ≡ insert (bucket_key e) (filled_bucket now e a) a.buckets
    unfolding add_event
    add_event-buckets = rw on refl

    add_event-weigh :
        (p : BucketKey → Bool)
        → weigh p (add_event now e a).0.buckets
          ≡ weigh p a.buckets + (if p (bucket_key e) then 1 else 0)
    add_event-weigh p =
        ap (weigh p) add_event-buckets
        ∙ step (p (bucket_key e)) _ _ _ _
            (weigh-insert p (bucket_key e) (filled_bucket now e a) a.buckets) filled_bucket-count
      where
        step :
            (b : Bool) (x y c d : ℕ)
            → x + (if b then c else 0) ≡ y + (if b then d else 0)
            → d ≡ c + 1
            → x ≡ y + (if b then 1 else 0)
        step true x y c d h k = omega arith
        step false x y c d h k = omega arith

  pub add_event-config : (add_event now e a).0.config ≡ a.config
  unfolding add_event
  add_event-config = ground arith

pub add_event-off :
    (now : ℕ) (e : DenialEvent) (a : DenialAggregator)
    → a.config.enabled ≡ false
    → (add_event now e a).0 ≡ a
unfolding add_event
add_event-off now e a off = rw off refl

pub add_all-config :
    (es : List (ℕ × DenialEvent)) (a : DenialAggregator) → (add_all es a).config ≡ a.config
unfolding add_all
add_all-config [] a = refl
add_all-config ((now, e) ∷ es) a =
    add_all-config es (add_event now e a).0 ∙ add_event-config now e a

-- While the aggregator is enabled, any sequence of events adds to the buckets of any choice of keys
-- exactly one denial for each event with such a key.
pub add_all-weigh :
    (p : BucketKey → Bool) (es : List (ℕ × DenialEvent)) (a : DenialAggregator)
    → a.config.enabled ≡ true
    → weigh p (add_all es a).buckets ≡ weigh p a.buckets + count_events p es
unfolding add_all
add_all-weigh p [] a on = omega arith
add_all-weigh p ((now, e) ∷ es) a on = omega (
  arith,
  add_event-weigh now e a on p,
  add_all-weigh p es (add_event now e a).0 (ap (λ c. c.enabled) (add_event-config now e a) ∙ on),
)
