-- ===== src/Gate/Codes/Guesses.antt =====
-- How often one verification code can be tested.
use distributed_chat_system.Prelude.{
  ℕ, ℤ, pos, negsuc, ◌+◌, ◌-◌, ◌*◌, ◌≤◌, ◌<◌, ◌≡◌, ◌⊎◌, refl, ap, inl, inr, arith, Bool, true,
  false, String, Option, none, some, List, [], ◌∷◌, leb, Bool-cases, Option-cases, same, string_eq,
  is_some, All,
}
use distributed_chat_system.Gate.Codes.{
  Codes, VerificationResult, expired, mismatch, redis_error, Call, not_run, reply_lost, answered,
  live_code, live_attempts, count, deleted, expire, counted, script_on, run_script, result_of,
  consume_verification_code, issued, Try, is_informative, one_if, guesses,
}

leb-false : (a b : ℕ) → leb a b ≡ false → b + 1 ≤ a
leb-false a b h = ground arith

one_if-le : (b : Bool) → one_if b ≤ 1
one_if-le true = omega arith
one_if-le false = omega arith

-- The counter outlives the code up to its last second.
record IsCounted (deadline : ℕ) (c : Codes) : Type 0 where
  expires : c.code_expires ≡ deadline
  outlives : is_some c.attempts ≡ true → deadline < c.attempts_expire + 1000

live_attempts-some :
    (deadline now : ℕ) (c : Codes)
    → IsCounted deadline c
    → now + 1000 ≤ deadline
    → live_attempts now c ≡ c.attempts
live_attempts-some deadline now c k h = elim (Option-cases c.attempts) [
  | inl e ↦ ground (arith, e)
  | inr (n, e) ↦ ground (arith, e, k.outlives, h)
]

module _ (ttl : ℕ → ℕ) (rounds : (ms : ℕ) → ms < 1000 * ttl ms + 1000) where
  expire-outlives :
      (deadline now n : ℕ) (c : Codes)
      → IsCounted deadline c
      → now + 1000 ≤ deadline
      → n ≡ count c.attempts + 1
      → deadline < expire ttl now n c + 1000
  expire-outlives deadline now n c k h e = elim (Option-cases c.attempts) [
    | inl absent ↦ ground (arith, absent, e, h, k.expires, rounds (c.code_expires - now))
    | inr (m, there) ↦
        ground (arith, there, e, h, k.expires, k.outlives, rounds (c.code_expires - now))
  ]

  counted-IsCounted :
      (deadline now n : ℕ) (c : Codes)
      → IsCounted deadline c
      → now + 1000 ≤ deadline
      → n ≡ count c.attempts + 1
      → IsCounted deadline (counted ttl now n c)
  counted-IsCounted deadline now n c k h e = record {
    expires = k.expires;
    outlives = λ u. expire-outlives deadline now n c k h e;
  }

  -- The script finds no code, or it deletes both keys, or it counts one more attempt below the
  -- maximum.
  script_cases :
      (max_attempts now : ℕ) (s : String) (code : Option String) (c : Codes)
      → (script_on ttl max_attempts now s code c ≡ (negsuc 0, c)) × (code ≡ none)
        ⊎ ((r : ℤ) × (script_on ttl max_attempts now s code c ≡ (r, deleted c)))
        ⊎ (leb max_attempts (count (live_attempts now c) + 1) ≡ false)
          × (script_on ttl max_attempts now s code c
              ≡ (negsuc 1, counted ttl now (count (live_attempts now c) + 1) c))
  unfolding script_on
  script_cases max_attempts now s none c = inl (refl, refl)
  script_cases max_attempts now s (some expected) c = elim (Bool-cases (same expected s)) [
    | inl right ↦ inr (inl (pos 1, rw right refl))
    | inr wrong ↦ elim (Bool-cases (leb max_attempts (count (live_attempts now c) + 1))) [
      | inl last ↦ inr (inl (negsuc 2, rw (wrong, last) refl))
      | inr below ↦ inr (inr (below, rw (wrong, below) refl))
    ]
  ]

  live_code-none : (now : ℕ) (c : Codes) → c.code ≡ none → live_code now c ≡ none
  live_code-none now c void = ground (arith, void)

  script_void :
      (max_attempts now : ℕ) (s : String) (c : Codes)
      → c.code ≡ none
      → run_script ttl max_attempts now s c ≡ (negsuc 0, c)
  unfolding run_script script_on
  script_void max_attempts now s c void =
      ap (λ (o : Option String). script_on ttl max_attempts now s o c) (live_code-none now c void)

  consume_void :
      (call : Call) (max_attempts now : ℕ) (s : String) (c : Codes)
      → c.code ≡ none
      → (r : VerificationResult) × (consume_verification_code ttl call max_attempts now s c
          ≡ (r, c))
        × (is_informative r ≡ false)
  unfolding consume_verification_code
  consume_void not_run max_attempts now s c void = (redis_error, refl, refl)
  consume_void reply_lost max_attempts now s c void =
      (redis_error, ap (λ z. (redis_error, z.1)) (script_void max_attempts now s c void), refl)
  consume_void answered max_attempts now s c void =
      (expired, ap (λ z. (result_of z.0, z.1)) (script_void max_attempts now s c void), refl)

  -- A code that is gone answers nothing more.
  guesses_void :
      (max_attempts : ℕ) (ts : List Try) (c : Codes)
      → c.code ≡ none
      → guesses ttl max_attempts ts c ≡ 0
  unfolding guesses
  guesses_void max_attempts [] c void = refl
  guesses_void max_attempts (t ∷ ts) c void =
      let (r, e, i) = consume_void t.call max_attempts t.now t.submitted_code c void in
      let rest = guesses_void max_attempts ts c void in rw (e, i) (omega (arith, rest))

  consume_cases :
      (call : Call) (max_attempts now : ℕ) (s : String) (c : Codes)
      → ((r : VerificationResult) × (consume_verification_code ttl call max_attempts now s c
            ≡ (r, c))
          × (is_informative r ≡ false))
        ⊎ ((r : VerificationResult) × (consume_verification_code ttl call max_attempts now s c
              ≡ (r, deleted c)))
        ⊎ (r : VerificationResult) × (leb max_attempts (count (live_attempts now c) + 1) ≡ false)
          × (consume_verification_code ttl call max_attempts now s c
              ≡ (r, counted ttl now (count (live_attempts now c) + 1) c))
  unfolding consume_verification_code run_script
  consume_cases not_run max_attempts now s c = inl (redis_error, refl, refl)
  consume_cases reply_lost max_attempts now s c =
      elim (script_cases max_attempts now s (live_code now c) c) [
        | inl (e, _) ↦ inl (redis_error, ap (λ z. (redis_error, z.1)) e, refl)
        | inr (inl (r, e)) ↦ inr (inl (redis_error, ap (λ z. (redis_error, z.1)) e))
        | inr (inr (below, e)) ↦ inr (inr (redis_error, below, ap (λ z. (redis_error, z.1)) e))
      ]
  consume_cases answered max_attempts now s c =
      elim (script_cases max_attempts now s (live_code now c) c) [
        | inl (e, _) ↦ inl (expired, ap (λ z. (result_of z.0, z.1)) e, refl)
        | inr (inl (r, e)) ↦ inr (inl (result_of r, ap (λ z. (result_of z.0, z.1)) e))
        | inr (inr (below, e)) ↦ inr (inr (mismatch, below, ap (λ z. (result_of z.0, z.1)) e))
      ]

  guesses-count :
      (deadline max_attempts : ℕ) (ts : List Try) (c : Codes)
      → All (λ t. t.now + 1000 ≤ deadline) ts
      → IsCounted deadline c
      → count c.attempts + 1 ≤ max_attempts
      → guesses ttl max_attempts ts c + count c.attempts ≤ max_attempts
  unfolding guesses
  guesses-count deadline max_attempts [] c early k h = omega (arith, h)
  guesses-count deadline max_attempts (t ∷ ts) c early k h =
      let same_count = ap count (live_attempts-some deadline t.now c k early.0) in
      elim (consume_cases t.call max_attempts t.now t.submitted_code c) [
        | inl (r, e, i) ↦
            let rest = guesses-count deadline max_attempts ts c early.1 k h in
            rw (e, i) (omega (arith, rest))
        | inr (inl (r, e)) ↦
            let rest = guesses_void max_attempts ts (deleted c) refl in
            rw e (omega (arith, h, one_if-le (is_informative r), rest))
        | inr (inr (r, below, e)) ↦
            let next = counted ttl t.now (count (live_attempts t.now c) + 1) c in
            let bound = leb-false max_attempts (count (live_attempts t.now c) + 1) below in
            let rest =
              guesses-count deadline max_attempts ts next early.1
                (counted-IsCounted deadline t.now (count (live_attempts t.now c) + 1) c k early.0
                  (ap (λ n. n + 1) same_count))
                bound in
            rw e (omega (arith, one_if-le (is_informative r), rest, same_count))
      ]

  pub guesses-le :
      (deadline max_attempts : ℕ) (ts : List Try) (expected : String)
      → 1 ≤ max_attempts
      → All (λ t. t.now + 1000 ≤ deadline) ts
      → guesses ttl max_attempts ts (issued expected deadline) ≤ max_attempts
  guesses-le deadline max_attempts ts expected h early = omega (
    arith,
    guesses-count deadline max_attempts ts (issued expected deadline) early
        (record { expires = refl; outlives = λ u. ground (arith, u) }) (omega (arith, h)),
  )
