-- ===== src/Runtime/TokenBucket.antt =====
-- common/TokenBucket.h: the request budgets of a session.
-- The source counts in doubles; here a token is 10^9 units, so that `elapsed seconds * rate` is the
-- elapsed nanoseconds times the rate, exactly. Rounding of doubles is not modelled, and an amount is
-- a whole number of tokens, as in all calls.
use distributed_chat_system.Prelude.{
  ℕ, ◌+◌, ◌-◌, ◌*◌, ◌≤◌, min, ◌≡◌, ap, Bool, true, false, ◌||◌, Option, none, some, List, [], ◌∷◌,
  ◌==◌, ltb, arith, if◌then◌else◌, Bool-cases, inl, inr,
}

abbrev pub units : ℕ
units = 1_000_000_000

pub record TokenBucket : Type 0 where
  pub capacity : ℕ
  pub rate : ℕ
  pub tokens : ℕ
  pub last : ℕ

-- `none` is the exception of the constructor.
unfoldable pub new_bucket : ℕ → ℕ → ℕ → Option TokenBucket
new_bucket capacity per_second now =
    if (capacity == 0) || (per_second == 0)
    then none
    else some (record {
      capacity = capacity * units;
      rate = per_second;
      tokens = capacity * units;
      last = now;
    })

unfoldable pub refill : TokenBucket → ℕ → TokenBucket
refill b now =
    if ltb b.last now
    then record b { tokens = min b.capacity (b.tokens + (now - b.last) * b.rate); last = now }
    else b

unfoldable pub consume : TokenBucket → ℕ → ℕ → TokenBucket × Bool
consume b amount now =
    let b' = refill b now in
    if ltb b'.tokens (amount * units)
    then (b', false)
    else (record b' { tokens = b'.tokens - amount * units }, true)

-- Requests in the order in which they come, each an amount and a time; the sum of what is granted.
unfoldable pub granted : TokenBucket → List (ℕ × ℕ) → ℕ
granted b [] = 0
granted b ((amount, now) ∷ rs) =
    let (b', ok) = consume b amount now in (if ok then amount else 0) + granted b' rs

unfoldable pub after : TokenBucket → List (ℕ × ℕ) → TokenBucket
after b [] = b
after b ((amount, now) ∷ rs) = after (consume b amount now).0 rs

refill_balance :
    (b : TokenBucket) (now : ℕ)
    → (refill b now).tokens + b.last * b.rate ≤ b.tokens + (refill b now).last * b.rate
unfolding refill
refill_balance b now = elim (Bool-cases (ltb b.last now)) [
  | inl later ↦
      let e : now ≡ b.last + (now - b.last) = ground arith in
      rw later (omega (arith, ap (λ (t : ℕ). t * b.rate) e))
  | inr not_later ↦ rw not_later (omega arith)
]

refill_fixed :
    (b : TokenBucket) (now : ℕ)
    → ((refill b now).rate ≡ b.rate) × ((refill b now).capacity ≡ b.capacity)
unfolding refill
refill_fixed b now = ground arith

refill-le-capacity :
    (b : TokenBucket) (now : ℕ) → b.tokens ≤ b.capacity → (refill b now).tokens ≤ b.capacity
unfolding refill
refill-le-capacity b now h = ground arith

-- One request: what is granted and what is left is covered by what was there and what flowed in.
consume_balance :
    (b : TokenBucket) (amount now : ℕ)
    → (consume b amount now).0.tokens
        + (if (consume b amount now).1 then amount else 0) * units
        + b.last * b.rate
      ≤ b.tokens + (consume b amount now).0.last * b.rate
unfolding consume
consume_balance b amount now = ground (arith, refill_balance b now)

consume_fixed : (b : TokenBucket) (amount now : ℕ) → (consume b amount now).0.rate ≡ b.rate
unfolding consume
consume_fixed b amount now = ground (arith, refill_fixed b now)

-- The level never exceeds the capacity.
pub consume-le-capacity :
    (b : TokenBucket) (amount now : ℕ)
    → b.tokens ≤ b.capacity
    → (consume b amount now).0.tokens ≤ b.capacity
unfolding consume
consume-le-capacity b amount now h = ground (arith, refill-le-capacity b now h)

-- Whatever is asked and when, the granted amounts are covered by the tokens that were there and by
-- the rate times the time that went by on the bucket's clock.
pub granted-le :
    (b : TokenBucket) (rs : List (ℕ × ℕ))
    → granted b rs * units + b.last * b.rate ≤ b.tokens + (after b rs).last * b.rate
unfolding granted after
granted-le b [] = omega arith
granted-le b ((amount, now) ∷ rs) =
    let next = (consume b amount now).0 in
    let rest = granted-le next rs in
    omega (arith, rw (consume_fixed b amount now) at rest, consume_balance b amount now)
