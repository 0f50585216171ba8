-- ===== src/Retry/Delay.antt =====
-- The bounds of `get_delay` (retry.py).
use auditlens.Prelude.{ℕ, ◌*◌, ◌≤◌, arith}
use auditlens.Prelude.Int.{ℤ, pos, sub_ℕ, ◌≤ℤ◌, +ℤ_parts}
use auditlens.Retry.{RetryPolicy, capped_delay, get_delay}

abbrev pub negate : ℕ → ℤ
negate n = sub_ℕ 0 n

capped_delay-le :
    {E : Type 0} (p : RetryPolicy E) (attempt : ℕ) → capped_delay p attempt ≤ p.max_delay
unfolding capped_delay
capped_delay-le p attempt = omega arith

-- `random.uniform(-r, r)` draws from its range.
abbrev pub IsUniform : (ℕ → ℕ → ℤ) → Type 0
IsUniform uniform =
    (attempt r : ℕ) → ((negate r ≤ℤ uniform attempt r) × (uniform attempt r ≤ℤ pos r))

-- A delay is, in quarters, from three to five times the exponential delay cut off at the maximum:
-- it is never negative, and above the maximum by a quarter of it at most.
pub get_delay-bounds :
    {E : Type 0} (uniform : ℕ → ℕ → ℤ) (p : RetryPolicy E) (attempt : ℕ)
    → IsUniform uniform
    → (3 * capped_delay p attempt ≤ get_delay uniform p attempt)
      × (get_delay uniform p attempt ≤ 5 * capped_delay p attempt)
      × (get_delay uniform p attempt ≤ 5 * p.max_delay)
unfolding get_delay
get_delay-bounds uniform p attempt h =
    let d = capped_delay p attempt in
    let fact = +ℤ_parts (pos (4 * d)) (uniform attempt d) in
    (
      ground (arith, fact, h attempt d),
      ground (arith, fact, h attempt d),
      ground (arith, fact, h attempt d, capped_delay-le p attempt),
    )
