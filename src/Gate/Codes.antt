-- ===== src/Gate/Codes.antt =====
-- RedisMgr::ConsumeVerificationCode of the gate server (servers/gate/storage/RedisMgr.cpp): the script
-- on the two keys of one email.
pub mod Guesses
use distributed_chat_system.Prelude.{
  ℕ, ltb, ◌*◌, ◌-◌, ℤ, pos, negsuc, is_positive, int_eq, ◌+◌, ◌≤◌, ◌≡◌, refl, ap, inl, inr, arith,
  Bool, true, false, not, String, Option, none, some, List, [], ◌∷◌, ◌==◌, leb, ◌⊎◌, Bool-cases,
  if◌then◌else◌, same, string_eq,
}

-- The two keys, each with the millisecond from which it is gone. Redis may drop a key that is gone.
pub record Codes : Type 0 where
  pub code : Option String
  pub code_expires : ℕ
  pub attempts : Option ℕ
  pub attempts_expire : ℕ

-- GET.
abbrev pub live_code : ℕ → Codes → Option String
live_code now c = if ltb now c.code_expires then c.code else none

abbrev pub live_attempts : ℕ → Codes → Option ℕ
live_attempts now c = if ltb now c.attempts_expire then c.attempts else none

pub data VerificationResult : Type 0 where
  success expired mismatch too_many_attempts redis_error : VerificationResult

-- How a call goes: the script ran and answered, it ran and the reply was lost, or it did not run.
pub data Call : Type 0 where
  answered reply_lost not_run : Call

-- INCR counts a missing key as 0.
abbrev pub count : Option ℕ → ℕ
count none = 0
count (some n) = n

-- DEL of both keys.
abbrev pub deleted : Codes → Codes
deleted c = record c { code = none; attempts = none }

-- TTL answers in whole seconds; how it rounds the milliseconds that are left is a parameter.
module _ (ttl : ℕ → ℕ) where
  -- Where the first attempt is counted its key lives for the seconds that TTL tells of the code, or
  -- for 300.
  abbrev pub expire : ℕ → ℕ → Codes → ℕ
  expire now attempts c =
      if attempts == 1
      then now
        + 1000 * (if ltb (ttl (c.code_expires - now)) 1 then 300 else ttl (c.code_expires - now))
      else c.attempts_expire

  -- The counter after INCR, with its expiry.
  abbrev pub counted : ℕ → ℕ → Codes → Codes
  counted now attempts c = record c {
    attempts = some attempts;
    attempts_expire = expire now attempts c;
  }

  -- The script behind its GET.
  unfoldable pub script_on : ℕ → ℕ → String → Option String → Codes → ℤ × Codes
  script_on max_attempts now submitted_code none c = (negsuc 0, c)
  script_on max_attempts now submitted_code (some expected) c =
      if not (same expected submitted_code)
      then (if leb max_attempts (count (live_attempts now c) + 1)
          then (negsuc 2, deleted c)
          else (negsuc 1, counted now (count (live_attempts now c) + 1) c))
      else (pos 1, deleted c)

  unfoldable pub run_script : ℕ → ℕ → String → Codes → ℤ × Codes
  unfolding script_on
  run_script max_attempts now submitted_code c =
      script_on max_attempts now submitted_code (live_code now c) c

abbrev pub result_of : ℤ → VerificationResult
result_of result =
    if int_eq result (pos 1)
    then success
    else (if int_eq result (negsuc 0)
        then expired
        else (if int_eq result (negsuc 1)
            then mismatch
            else (if int_eq result (negsuc 2) then too_many_attempts else redis_error)))

unfoldable pub consume_verification_code :
    (ℕ → ℕ) → Call → ℕ → ℕ → String → Codes → VerificationResult × Codes
unfolding run_script
consume_verification_code ttl not_run max_attempts now submitted_code c = (redis_error, c)
consume_verification_code ttl reply_lost max_attempts now submitted_code c =
    (redis_error, (run_script ttl max_attempts now submitted_code c).1)
consume_verification_code ttl answered max_attempts now submitted_code c =
    let (result, c') = run_script ttl max_attempts now submitted_code c in (result_of result, c')

-- After the mail service has made a new code that lives until this millisecond.
abbrev pub issued : String → ℕ → Codes
issued expected deadline = record {
  code = some expected;
  code_expires = deadline;
  attempts = none;
  attempts_expire = 0;
}

-- A submitted code, and when its call comes to Redis.
pub record Try : Type 0 where
  pub call : Call
  pub now : ℕ
  pub submitted_code : String

-- Whether an answer tells something of the code.
abbrev pub is_informative : VerificationResult → Bool
is_informative success = true
is_informative expired = false
is_informative mismatch = true
is_informative too_many_attempts = true
is_informative redis_error = false

abbrev pub one_if : Bool → ℕ
one_if true = 1
one_if false = 0

-- The number of answers that tell something.
unfoldable pub guesses : (ℕ → ℕ) → ℕ → List Try → Codes → ℕ
unfolding consume_verification_code
guesses ttl max_attempts [] c = 0
guesses ttl max_attempts (t ∷ ts) c =
    let (result, c') = consume_verification_code ttl t.call max_attempts t.now t.submitted_code c in
    one_if (is_informative result) + guesses ttl max_attempts ts c'
