-- ===== src/Retry/Budget.antt =====
-- `RetryBudget` of retry.py: a bucket of tokens. A token is `scale` parts, and the bucket gains
-- `rate` parts in a unit of time; the clock may run backwards.
use auditlens.Prelude.{
  ℕ, zero, suc, ◌+◌, ◌-◌, ◌*◌, ◌≤◌, ◌≡◌, refl, sym, ap, ◌∙◌, Bool, true, false, List, [], ◌∷◌,
  arith, leb, if◌then◌else◌,
}
use auditlens.Prelude.Int.{ℤ, pos, pos_part, neg_part, sub_ℕ, ◌+ℤ◌, ◌-ℤ◌, leb_ℤ, +ℤ_parts, -ℤ_parts}

pub record RetryBudget : Type 0 where
  pub rate : ℕ
  pub scale : ℕ
  pub bucket_size : ℕ
  pub tokens : ℤ
  pub last_refill : ℕ

unfoldable pub new_budget : ℕ → ℕ → ℕ → ℕ → RetryBudget
new_budget rate scale bucket_size now = record {
  rate = rate;
  scale = scale;
  bucket_size = bucket_size;
  tokens = pos (bucket_size * scale);
  last_refill = now;
}

-- `min` of two integers
abbrev pub min_ℤ : ℤ → ℤ → ℤ
min_ℤ a b = if leb_ℤ b a then b else a

-- `elapsed * max_retries_per_second`
abbrev pub tokens_to_add : ℕ → ℕ → ℕ → ℤ
tokens_to_add rate last now =
    if leb last now then pos ((now - last) * rate) else sub_ℕ 0 ((last - now) * rate)

-- `_refill`
unfoldable pub refill : ℕ → RetryBudget → RetryBudget
refill now b = record b {
  tokens =
      min_ℤ (pos (b.bucket_size * b.scale)) (b.tokens +ℤ tokens_to_add b.rate b.last_refill now);
  last_refill = now;
}

-- `acquire`
unfoldable pub acquire : ℕ → RetryBudget → RetryBudget × Bool
acquire now b =
    let b' = refill now b in
    if leb_ℤ (pos b'.scale) b'.tokens
    then (record b' { tokens = b'.tokens -ℤ pos b'.scale }, true)
    else (b', false)

-- The answers to calls at the given times.
unfoldable pub acquire_all : List ℕ → RetryBudget → RetryBudget × List Bool
acquire_all [] b = (b, [])
acquire_all (now ∷ ts) b =
    let (b₁, granted) = acquire now b in let (b₂, rest) = acquire_all ts b₁ in (b₂, granted ∷ rest)

abbrev pub grants : List Bool → ℕ
grants [] = 0
grants (g ∷ gs) = let rest = grants gs in if g then suc rest else rest

abbrev pub Rising : ℕ → List ℕ → ℕ → Type 0
Rising last [] now = last ≤ now
Rising last (t ∷ ts) now = (last ≤ t) × Rising t ts now

-- What a bucket holds is between nothing and its size.
pub record IsFilled (b : RetryBudget) : Type 0 where
  pub not_negative : neg_part b.tokens ≡ 0
  pub bounded : pos_part b.tokens ≤ b.bucket_size * b.scale

-- The gain over a stretch of time is that over its two parts.
gain_add :
    (rate last t now : ℕ)
    → last ≤ t
    → t ≤ now
    → (now - last) * rate ≡ (t - last) * rate + (now - t) * rate
gain_add rate last t now h k =
    ap (λ d. d * rate) (split last t now h k) ∙ distribute (t - last) (now - t) rate
  where
    split : (a b c : ℕ) → a ≤ b → b ≤ c → c - a ≡ b - a + (c - b)
    split a b c h k = omega arith

    distribute : (a b c : ℕ) → (a + b) * c ≡ a * c + b * c
    distribute a b c = omega arith

-- What one answer takes out of the bucket.
abbrev pub cost : Bool → ℕ → ℕ
cost granted scale = if granted then scale else 0

module _ (now : ℕ) (b : RetryBudget) (le : b.last_refill ≤ now) (f : IsFilled b) where
  refill-IsFilled : IsFilled (refill now b)
  unfolding refill
  refill-IsFilled =
      let gain = +ℤ_parts b.tokens (tokens_to_add b.rate b.last_refill now) in
      record {
        not_negative = ground (arith, gain, f.not_negative);
        bounded = ground (arith, gain, f.not_negative);
      }

  refill-gain : pos_part (refill now b).tokens ≤ pos_part b.tokens + (now - b.last_refill) * b.rate
  unfolding refill
  refill-gain =
      ground (arith, +ℤ_parts b.tokens (tokens_to_add b.rate b.last_refill now), f.not_negative)

  acquire-IsFilled : IsFilled (acquire now b).0
  unfolding acquire
  acquire-IsFilled =
      let loss = -ℤ_parts (refill now b).tokens (pos (refill now b).scale) in
      let r = refill-IsFilled in
      record {
        not_negative = ground (arith, loss, r.not_negative, r.bounded);
        bounded = ground (arith, loss, r.not_negative, r.bounded);
      }

  refill-scale : (refill now b).scale ≡ b.scale
  unfolding refill
  refill-scale = refl

  acquire-cost :
      pos_part (acquire now b).0.tokens + cost (acquire now b).1 b.scale
      ≤ pos_part b.tokens + (now - b.last_refill) * b.rate
  unfolding acquire
  acquire-cost = ground (
    arith,
    -ℤ_parts (refill now b).tokens (pos (refill now b).scale),
    refill-scale,
    refill-IsFilled.not_negative,
    refill-gain,
  )

acquire-fields :
    (now : ℕ) (b : RetryBudget)
    → ((acquire now b).0.last_refill ≡ now)
      × ((acquire now b).0.rate ≡ b.rate)
      × ((acquire now b).0.scale ≡ b.scale)
      × ((acquire now b).0.bucket_size ≡ b.bucket_size)
unfolding acquire refill
acquire-fields now b = (ground arith, ground arith, ground arith, ground arith)

abbrev pub total_cost : List Bool → ℕ → ℕ
total_cost [] scale = 0
total_cost (g ∷ gs) scale = cost g scale + total_cost gs scale

total_cost-grants : (gs : List Bool) (scale : ℕ) → total_cost gs scale ≡ grants gs * scale
total_cost-grants [] scale = omega arith
total_cost-grants (true ∷ gs) scale = omega (arith, total_cost-grants gs scale)
total_cost-grants (false ∷ gs) scale = omega (arith, total_cost-grants gs scale)

Rising-le : (last : ℕ) (ts : List ℕ) (now : ℕ) → Rising last ts now → last ≤ now
Rising-le last [] now h = h
Rising-le last (t ∷ ts) now h = omega (arith, Rising-le t ts now h.1, h.0)

acquire-cost_at :
    (rate scale last t : ℕ) (b : RetryBudget)
    → b.rate ≡ rate
    → b.scale ≡ scale
    → b.last_refill ≡ last
    → b.last_refill ≤ t
    → IsFilled b
    → pos_part (acquire t b).0.tokens + cost (acquire t b).1 scale
      ≤ pos_part b.tokens + (t - last) * rate
acquire-cost_at rate scale last t b hr hs hl le f =
    rw (sym hr, sym hs, sym hl) (acquire-cost t b le f)

acquire_all-cost :
    (rate scale last now : ℕ) (ts : List ℕ) (b : RetryBudget)
    → b.rate ≡ rate
    → b.scale ≡ scale
    → b.last_refill ≡ last
    → Rising last ts now
    → IsFilled b
    → total_cost (acquire_all ts b).1 scale ≤ pos_part b.tokens + (now - last) * rate
unfolding acquire_all
acquire_all-cost rate scale last now [] b hr hs hl h f = omega arith
acquire_all-cost rate scale last now (t ∷ ts) b hr hs hl h f =
    let b₁ = (acquire t b).0 in
    let (el, er, es, eb) = acquire-fields t b in
    let le : b.last_refill ≤ t = omega (arith, hl, h.0) in
    let rest =
      acquire_all-cost rate scale t now ts b₁ (er ∙ hr) (es ∙ hs) el h.1
        (acquire-IsFilled t b le f) in
    let here = acquire-cost_at rate scale last t b hr hs hl le f in
    omega (arith, rest, here, gain_add rate last t now h.0 (Rising-le t ts now h.1))

-- In any run of calls of a new budget, with a clock that does not run backwards, the tokens granted
-- are no more than the bucket holds and the rate yields up to the time of the last call.
pub grants-le :
    (rate scale bucket_size start now : ℕ) (ts : List ℕ)
    → Rising start ts now
    → grants (acquire_all ts (new_budget rate scale bucket_size start)).1 * scale
      ≤ bucket_size * scale + (now - start) * rate
unfolding new_budget
grants-le rate scale bucket_size start now ts h =
    let b = new_budget rate scale bucket_size start in
    omega (
      arith,
      acquire_all-cost rate scale start now ts b refl refl refl h
          (record { not_negative = refl; bounded = omega arith }),
      total_cost-grants (acquire_all ts b).1 scale,
    )

-- A call that waits until the gain since the last refill makes a token is granted, if the bucket
-- can hold one.
pub acquire_waits :
    (now : ℕ) (b : RetryBudget)
    → b.last_refill ≤ now
    → IsFilled b
    → 1 ≤ b.bucket_size
    → b.scale ≤ (now - b.last_refill) * b.rate
    → (acquire now b).1 ≡ true
unfolding acquire refill
acquire_waits now b le f one h = ground (
  arith,
  +ℤ_parts b.tokens (tokens_to_add b.rate b.last_refill now),
  f.not_negative,
  holds b.bucket_size b.scale one,
)
  where
    holds : (n s : ℕ) → 1 ≤ n → s ≤ n * s
    holds zero s h = omega arith
    holds (suc n) s h = omega arith
