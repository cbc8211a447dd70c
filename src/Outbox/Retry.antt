-- ===== src/Outbox/Retry.antt =====
-- The retry delay of octonomy/events/dispatch.py and the bounds that a dispatch run puts on its
-- options.
use native.Mathlib.Nat.{pow-suc, one-le-pow, pow-le-pow_right}
use octonomy.Prelude.{ℕ, suc, ◌-◌, ◌*◌, ◌^◌, ◌≤◌, ◌≡◌, min, max, arith, Bool}

-- A Python int, for the options that a caller may pass: `negsuc n` is -(n + 1).
pub data ℤ : Type 0 where
  pos : ℕ → ℤ
  negsuc : ℕ → ℤ

-- `max(low, value)`
unfoldable pub at_least : ℕ → ℤ → ℕ
at_least low (pos n) = max low n
at_least low (negsuc n) = low

-- `_retry_delay_seconds`: `max(attempt_number - 1, 0)` is the subtraction of ℕ.
unfoldable pub retry_delay_seconds : ℕ → ℕ → ℕ → ℕ
retry_delay_seconds attempt_number retry_base_seconds retry_max_seconds =
    min retry_max_seconds (retry_base_seconds * 2 ^ (attempt_number - 1))

-- The options of a run, after their clamps.
pub record Options : Type 0 where
  pub limit : ℕ
  pub retry_failed : Bool
  pub max_attempts : ℕ
  pub retry_base_seconds : ℕ
  pub retry_max_seconds : ℕ
  pub claim_timeout_seconds : ℕ

-- The numbers of a caller, or of the settings, for `clamp_options`.
pub record Requested : Type 0 where
  pub limit : ℤ
  pub retry_failed : Bool
  pub max_attempts : ℤ
  pub retry_base_seconds : ℤ
  pub retry_max_seconds : ℤ
  pub claim_timeout_seconds : ℤ

-- The clamps at the start of `dispatch_outbox_events`.
unfoldable pub clamp_options : Requested → Options
unfolding at_least
clamp_options r =
    let base = at_least 1 r.retry_base_seconds in
    record {
      limit = at_least 0 r.limit;
      retry_failed = r.retry_failed;
      max_attempts = at_least 1 r.max_attempts;
      retry_base_seconds = base;
      retry_max_seconds = at_least base r.retry_max_seconds;
      claim_timeout_seconds = at_least 1 r.claim_timeout_seconds;
    }

-- What the clamps make sure of.
pub record IsClamped (o : Options) : Type 0 where
  pub attempts : 1 ≤ o.max_attempts
  pub base : 1 ≤ o.retry_base_seconds
  pub ordered : o.retry_base_seconds ≤ o.retry_max_seconds
  pub timeout : 1 ≤ o.claim_timeout_seconds

at_least-le : (low : ℕ) (z : ℤ) → low ≤ at_least low z
unfolding at_least
at_least-le low (pos n) = omega arith
at_least-le low (negsuc n) = omega arith

pub clamp_options-IsClamped : (r : Requested) → IsClamped (clamp_options r)
clamp_options-IsClamped r =
    unfold clamp_options in
    record {
      attempts = at_least-le 1 r.max_attempts;
      base = at_least-le 1 r.retry_base_seconds;
      ordered = at_least-le (at_least 1 r.retry_base_seconds) r.retry_max_seconds;
      timeout = at_least-le 1 r.claim_timeout_seconds;
    }

module _ (b top : ℕ) where
  delay_ge_base : (p : ℕ) → b ≤ top → 1 ≤ p → b ≤ min top (b * p)
  delay_ge_base p h one = grind arith

  delay_mono : (p q : ℕ) → p ≤ q → min top (b * p) ≤ min top (b * q)
  delay_mono p q h = let le : b * p ≤ b * q = grind arith in omega arith

  -- Doubling under the cap.
  delay_doubles : (p : ℕ) → min top (b * (p * 2)) ≡ min top (2 * min top (b * p))
  delay_doubles p = omega arith

  delay_next :
      (n : ℕ)
      → retry_delay_seconds (suc (suc n)) b top ≡ min top (2 * retry_delay_seconds (suc n) b top)
  unfolding retry_delay_seconds
  delay_next n =
      let two : suc (suc n) - 1 ≡ suc n = omega arith in
      let one : suc n - 1 ≡ n = omega arith in rw (two, one, pow-suc) (delay_doubles (2 ^ n))

-- Whatever options a caller passes, every delay lies between the base and the maximum, no later
-- attempt waits less than an earlier one, and from the first attempt on the delay doubles until it
-- reaches the maximum.
pub retry_delay_bounds :
    (r : Requested) (n m : ℕ)
    → n ≤ m
    → let o = clamp_options r in
      let delay = λ (k : ℕ). retry_delay_seconds k o.retry_base_seconds o.retry_max_seconds in
      (1 ≤ o.retry_base_seconds)
      × (o.retry_base_seconds ≤ delay n)
      × (delay n ≤ delay m)
      × (delay m ≤ o.retry_max_seconds)
      × (delay 1 ≡ o.retry_base_seconds)
      × (delay (suc (suc n)) ≡ min o.retry_max_seconds (2 * delay (suc n)))
unfolding retry_delay_seconds
retry_delay_bounds r n m h =
    let o = clamp_options r in
    let c = clamp_options-IsClamped r in
    let base = c.base in
    let ordered = c.ordered in
    let one = one-le-pow (n - 1) 2 (omega arith) in
    let grows : 2 ^ (n - 1) ≤ 2 ^ (m - 1) = pow-le-pow_right (omega arith) (omega arith) in
    (
      base,
      delay_ge_base o.retry_base_seconds o.retry_max_seconds (2 ^ (n - 1)) ordered one,
      delay_mono o.retry_base_seconds o.retry_max_seconds (2 ^ (n - 1)) (2 ^ (m - 1)) grows,
      omega arith,
      omega arith,
      delay_next o.retry_base_seconds o.retry_max_seconds n,
    )
