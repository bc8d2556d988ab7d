-- ===== src/Messages/Window/Laws.antt =====
-- The laws of the delivery window: what reconciling keeps, when an entry is due again, and its bound.
use distributed_chat_system.Prelude.{
  ℕ, zero, suc, ◌+◌, ◌*◌, ◌^◌, ◌≤◌, min, ◌≡◌, ap, Bool, true, none, some, List, [], ◌∷◌, map, leb,
  lookup, insert, contains, keep_if, if◌then◌else◌, arith, is_some, pair_eq, pair_beq, pair_beq_iff,
  lookup-insert, Distinct, All, Option-cases, Bool-cases, inl, inr,
}
use distributed_chat_system.Messages.Types.{TextMessage, Key, key}
use distributed_chat_system.Messages.Window.{
  Attempt, DeliveryWindow, second, reconcile, due, attempt_or_new, bump, backoff, sent,
}

abbrev pub keys {ℓ} : {V : Type ℓ} → List (Key × V) → List Key
keys m = map (λ entry. entry.0) m

module _ {V : Type 0} where
  lookup-keep_if :
      (p : Key → Bool) (k : Key) (m : List (Key × V))
      → lookup k (keep_if (λ entry. p entry.0) m) ≡ (if p k then lookup k m else none)
  unfolding lookup keep_if
  lookup-keep_if p k [] = ground arith
  lookup-keep_if p k ((j, v) ∷ m) = elim (Bool-cases (pair_beq j k)) [
    | inl e ↦ ground (arith, ap p ((pair_beq_iff j k).0 e), lookup-keep_if p k m)
    | inr e ↦ ground (arith, lookup-keep_if p k m)
  ]

  pub contains-keep_if :
      (p : Key → Bool) (k : Key) (m : List (Key × V))
      → contains (keys (keep_if (λ entry. p entry.0) m)) k ≡ true
      → (p k ≡ true) × (contains (keys m) k ≡ true)
  unfolding contains keep_if
  contains-keep_if p k [] h = ground arith
  contains-keep_if p k ((j, v) ∷ m) h = elim (Bool-cases (pair_beq j k)) [
    | inl e ↦ ground (arith, ap p ((pair_beq_iff j k).0 e), contains-keep_if p k m)
    | inr e ↦ ground (arith, contains-keep_if p k m)
  ]

  Distinct-keep_if :
      (p : Key → Bool) (m : List (Key × V))
      → Distinct (keys m)
      → Distinct (keys (keep_if (λ entry. p entry.0) m))
  unfolding keep_if
  Distinct-keep_if p [] d = tt
  Distinct-keep_if p ((j, v) ∷ m) d =
      ground (arith, Distinct-keep_if p m d.1, contains-keep_if p j m)

  pub contains-insert :
      (k j : Key) (v : V) (m : List (Key × V))
      → contains (keys (insert k v m)) j ≡ (if pair_beq k j then true else contains (keys m) j)
  unfolding contains insert
  contains-insert k j v [] = ground arith
  contains-insert k j v ((i, w) ∷ m) =
      ground (arith, contains-insert k j v m, pair_beq_iff k j, pair_beq_iff i k, pair_beq_iff i j)

  Distinct-insert :
      (k : Key) (v : V) (m : List (Key × V)) → Distinct (keys m) → Distinct (keys (insert k v m))
  unfolding insert contains
  Distinct-insert k v [] d = ground arith
  Distinct-insert k v ((i, w) ∷ m) d = ground (
    arith,
    Distinct-insert k v m d.1,
    contains-insert k i v m,
    pair_beq_iff i k,
    pair_beq_iff k i,
  )

-- What the code keeps true of every window: each key once, each stored count between 1 and 4.
abbrev pub Counted : Key × Attempt → Type 0
Counted entry = (1 ≤ entry.1.count) × (entry.1.count ≤ 4)

pub record IsValid (w : DeliveryWindow) : Type 0 where
  pub distinct : Distinct (keys w.attempts)
  pub counted : All Counted w.attempts

lookup-Counted :
    (k : Key) (m : List (Key × Attempt)) (a : Attempt)
    → All Counted m
    → lookup k m ≡ some a
    → Counted (k, a)
unfolding lookup
lookup-Counted k [] a h e = ground arith
lookup-Counted k ((j, b) ∷ m) a h e = ground (arith, lookup-Counted k m a h.1)

keep_if-Counted :
    (p : Key × Attempt → Bool) (m : List (Key × Attempt))
    → All Counted m
    → All Counted (keep_if p m)
unfolding keep_if
keep_if-Counted p [] h = tt
keep_if-Counted p (x ∷ m) h = ground (arith, keep_if-Counted p m h.1)

insert-Counted :
    (k : Key) (a : Attempt) (m : List (Key × Attempt))
    → Counted (k, a)
    → All Counted m
    → All Counted (insert k a m)
unfolding insert
insert-Counted k a [] c h = ground arith
insert-Counted k a ((j, b) ∷ m) c h = ground (arith, insert-Counted k a m c h.1)

pub reconcile-IsValid :
    (w : DeliveryWindow) (pending : List TextMessage) → IsValid w → IsValid (reconcile w pending)
unfolding reconcile
reconcile-IsValid w pending v = record {
  distinct = Distinct-keep_if _ w.attempts v.distinct;
  counted = keep_if-Counted _ w.attempts v.counted;
}

pub sent-IsValid :
    (w : DeliveryWindow) (m : TextMessage) (now : ℕ) → IsValid w → IsValid (sent w m now).0
unfolding sent
sent-IsValid w m now v = record {
  distinct = Distinct-insert (key m) _ w.attempts v.distinct;
  counted = insert-Counted (key m) _ w.attempts (omega arith) v.counted;
}

-- Reconciling retires exactly the entries whose message is no longer pending: a pending message
-- keeps its entry unchanged, any other key has none afterwards.
pub lookup-reconcile :
    (w : DeliveryWindow) (pending : List TextMessage) (k : Key)
    → lookup k (reconcile w pending).attempts
      ≡ (if contains (map key pending) k then lookup k w.attempts else none)
unfolding reconcile
lookup-reconcile w pending k = lookup-keep_if (contains (map key pending)) k w.attempts

-- The number of times that a message was sent, as far as the window counts (4 stands for more).
abbrev pub tries : DeliveryWindow → TextMessage → ℕ
tries w m = (attempt_or_new (lookup (key m) w.attempts)).count

-- After a message of a valid window is sent, it is due again exactly when the wait for its count
-- has passed, every message with another key is due as before, and the answer says whether this
-- was a repetition.
pub due-sent :
    (w : DeliveryWindow) (m other : TextMessage) (now later : ℕ)
    → IsValid w
    → (due (sent w m now).0 other later ≡ (
        if pair_beq (key m) (key other)
        then leb (now + backoff (tries w m)) later
        else due w other later))
      × ((sent w m now).1 ≡ is_some (lookup (key m) w.attempts))
unfolding sent due
due-sent w m other now later v = (
  ground (
    arith,
    lookup-insert (key m) (key other) (bump (attempt_or_new (lookup (key m) w.attempts)) now)
        w.attempts,
  ),
  elim (Option-cases (lookup (key m) w.attempts)) [
    | inl e ↦ rw e
    | inr (a, e) ↦ rw e (ground (arith, lookup-Counted (key m) w.attempts a v.counted e))
  ],
)

pow-le : (x : ℕ) → x ≤ 3 → (1 ≤ 2 ^ x) × (2 ^ x ≤ 8)
pow-le zero h = omega arith
pow-le (suc zero) h = omega arith
pow-le (suc (suc zero)) h = omega arith
pow-le (suc (suc (suc zero))) h = omega arith
pow-le (suc (suc (suc (suc n)))) h = absurd (omega arith)

-- A wait lies between 5 and 40 seconds.
pub backoff_bounds : (count : ℕ) → (5 * second ≤ backoff count) × (backoff count ≤ 40 * second)
unfolding backoff
backoff_bounds count = omega (arith, pow-le (min count 3) (omega arith))
