-- ===== src/Messages/Delivery/Laws.antt =====
-- The delivery of pending messages: what is offered to the session, the size of the window, the pace.
use distributed_chat_system.Prelude.{
  ℕ, suc, ◌≤◌, true, false, Option, none, some, List, [], ◌∷◌, map, if◌then◌else◌, length, ◌≡◌,
  refl, ap, ◌∙◌, arith, contains, keep_if, lookup, All, Distinct, pair_eq, pair_beq_iff, Bool-cases,
  inl, inr, length-le_of_subset,
}
use distributed_chat_system.Messages.Types.{TextMessage, Key, key}
use distributed_chat_system.Messages.Window.{
  DeliveryWindow, capacity, reconcile, due, sent, size, bump, attempt_or_new,
}
use distributed_chat_system.Messages.Window.Laws.{
  keys, IsValid, reconcile-IsValid, sent-IsValid, lookup-reconcile, due-sent, contains-insert,
  contains-keep_if,
}
use distributed_chat_system.Messages.Delivery.{
  Channel, DeliveryState, Counters, next_idle, deliver_loop, deliver_pending,
}

-- Every key of the window is the key of one of these messages.
abbrev pub Covers : List TextMessage → DeliveryWindow → Type 0
Covers ps w = (k : Key) → contains (keys w.attempts) k ≡ true → contains (map key ps) k ≡ true

reconcile-Covers : (w : DeliveryWindow) (ps : List TextMessage) → Covers ps (reconcile w ps)
unfolding reconcile
reconcile-Covers w ps k h = (contains-keep_if (contains (map key ps)) k w.attempts h).0

sent-Covers :
    (w : DeliveryWindow) (ps : List TextMessage) (m : TextMessage) (now : ℕ)
    → Covers ps w
    → contains (map key ps) (key m) ≡ true
    → Covers ps (sent w m now).0
unfolding sent
sent-Covers w ps m now c h k e = ground (
  arith,
  c k,
  contains-insert (key m) k (bump (attempt_or_new (lookup (key m) w.attempts)) now) w.attempts,
  pair_beq_iff (key m) k,
)

abbrev pub AreIn : List TextMessage → List TextMessage → Type 0
AreIn ps ms = All (λ m. contains (map key ps) (key m) ≡ true) ms

AreIn-cons : (p : TextMessage) (ps ms : List TextMessage) → AreIn ps ms → AreIn (p ∷ ps) ms
unfolding contains
AreIn-cons p ps [] h = tt
AreIn-cons p ps (m ∷ ms) h = (ground (arith, h.0), AreIn-cons p ps ms h.1)

AreIn-self : (ps : List TextMessage) → AreIn ps ps
unfolding contains
AreIn-self [] = tt
AreIn-self (p ∷ ps) =
    (ground (arith, pair_beq_iff (key p) (key p)), AreIn-cons p ps ps (AreIn-self ps))

-- The window's part of what a delivery keeps true.
pub record IsBounded (ps : List TextMessage) (w : DeliveryWindow) : Type 0 where
  pub valid : IsValid w
  pub covered : Covers ps w

IsBounded-size : (ps : List TextMessage) (w : DeliveryWindow) → IsBounded ps w → size w ≤ length ps
unfolding size
IsBounded-size ps w b = omega (
  arith,
  length-le_of_subset (keys w.attempts) (map key ps) b.valid.distinct b.covered,
  length-map ps key,
  length-map w.attempts (λ entry. entry.0),
)
  where
    length-map : {A B : Type 0} (xs : List A) (f : A → B) → length (map f xs) ≡ length xs
    length-map [] f = refl
    length-map (x ∷ xs) f = ap suc (length-map xs f)

module _ {S : Type 0} (channel : Channel S) where
  deliver_loop-IsBounded :
      (ps : List TextMessage) (now : ℕ) (ms : List TextMessage) (w : DeliveryWindow) (c : Counters)
      (s : S)
      → AreIn ps ms
      → IsBounded ps w
      → IsBounded ps (deliver_loop channel now ms w c s).0
  unfolding deliver_loop
  deliver_loop-IsBounded ps now [] w c s h b = b
  deliver_loop-IsBounded ps now (m ∷ ms) w c s h b =
      let b' : IsBounded ps (sent w m now).0 = record {
        valid = sent-IsValid w m now b.valid;
        covered = sent-Covers w ps m now b.covered h.0;
      } in
      elim (Bool-cases (due w m now)) [
        | inl d ↦ rw d (elim (Bool-cases (channel.send m s).1) [
          | inl t ↦ rw t (deliver_loop-IsBounded ps now ms _ _ _ h.1 b')
          | inr t ↦ rw t b
        ])
        | inr d ↦ rw d (deliver_loop-IsBounded ps now ms w c s h.1 b)
      ]

  -- The session after it was offered these messages in order, up to the first that it refuses.
  abbrev pub offer : List TextMessage → S → S
  offer [] s = s
  offer (m ∷ ms) s =
      let (s', taken) = channel.send m s in let rest = offer ms s' in if taken then rest else s'

-- No message of the list has this key.
contains-due :
    (w : DeliveryWindow) (m : TextMessage) (now : ℕ) (ms : List TextMessage)
    → IsValid w
    → contains (map key ms) (key m) ≡ false
    → keep_if (λ x. due (sent w m now).0 x now) ms ≡ keep_if (λ x. due w x now) ms
unfolding keep_if contains
contains-due w m now [] v h = refl
contains-due w m now (x ∷ ms) v h = ground (
  arith,
  contains-due w m now ms v,
  (due-sent w m x now now v).0,
  pair_beq_iff (key m) (key x),
  pair_beq_iff (key x) (key m),
)

due-reconcile :
    (w : DeliveryWindow) (ps : List TextMessage) (m : TextMessage) (now : ℕ)
    → contains (map key ps) (key m) ≡ true
    → due (reconcile w ps) m now ≡ due w m now
unfolding due
due-reconcile w ps m now h =
    let e : lookup (key m) (reconcile w ps).attempts ≡ lookup (key m) w.attempts =
      lookup-reconcile w ps (key m) ∙ rw h in
    rw (e, due)

keep_if-due-reconcile :
    (w : DeliveryWindow) (ps ms : List TextMessage) (now : ℕ)
    → AreIn ps ms
    → keep_if (λ m. due (reconcile w ps) m now) ms ≡ keep_if (λ m. due w m now) ms
unfolding keep_if
keep_if-due-reconcile w ps [] now h = refl
keep_if-due-reconcile w ps (m ∷ ms) now h =
    ground (arith, due-reconcile w ps m now h.0, keep_if-due-reconcile w ps ms now h.1)

module _ {S : Type 0} (channel : Channel S) where
  deliver_loop-offer :
      (now : ℕ) (ms : List TextMessage) (w : DeliveryWindow) (c : Counters) (s : S)
      → IsValid w
      → Distinct (map key ms)
      → (deliver_loop channel now ms w c s).2 ≡ offer channel (keep_if (λ m. due w m now) ms) s
  unfolding deliver_loop keep_if
  deliver_loop-offer now [] w c s v d = refl
  deliver_loop-offer now (m ∷ ms) w c s v d = elim (Bool-cases (due w m now)) [
    | inr n ↦ rw n (deliver_loop-offer now ms w c s v d.1)
    | inl y ↦ rw y (elim (Bool-cases (channel.send m s).1) [
      | inr n ↦ rw n
      | inl t ↦ rw t (
          deliver_loop-offer now ms _ _ _ (sent-IsValid w m now v) d.1
          ∙ ap (λ xs. offer channel xs (channel.send m s).0) (contains-due w m now ms v d.0))
    ])
  ]

  -- With a valid window and pending messages of distinct keys, a delivery to an open session
  -- offers it exactly the pending messages that are due, in their order, up to the first that the
  -- session refuses.
  pub deliver_pending-offer :
      (now : ℕ) (pending : List TextMessage) (d : DeliveryState) (c : Counters) (s : S)
      → channel.is_closed s ≡ false
      → IsValid d.window
      → Distinct (map key pending)
      → (deliver_pending channel now (some pending) d c s).2
        ≡ offer channel (keep_if (λ m. due d.window m now) pending) s
  unfolding deliver_pending
  deliver_pending-offer now pending d c s o v u = rw o (
      deliver_loop-offer now pending (reconcile d.window pending) c s
        (reconcile-IsValid d.window pending v) u
      ∙ ap (λ xs. offer channel xs s)
          (keep_if-due-reconcile d.window pending pending now (AreIn-self pending)))

  -- What a shard keeps of a session between deliveries.
  pub record IsSettled (d : DeliveryState) : Type 0 where
    pub valid : IsValid d.window
    pub small : size d.window ≤ capacity
    pub paced : (1 ≤ d.idle_seconds) × (d.idle_seconds ≤ 30)

  next_idle_bounds :
      (pending : Option (List TextMessage)) (idle : ℕ)
      → 1 ≤ idle
      → idle ≤ 30
      → (1 ≤ next_idle pending idle) × (next_idle pending idle ≤ 30)
  unfolding next_idle
  next_idle_bounds none idle h k = omega arith
  next_idle_bounds (some ms) idle h k = ground arith

  -- From a settled state, a delivery of at most 32 pending messages, or a failed query, keeps the
  -- window valid and within 32 entries, and the wait between queries between 1 and 30 seconds.
  pub deliver_pending-IsSettled :
      (now : ℕ) (pending : Option (List TextMessage)) (d : DeliveryState) (c : Counters) (s : S)
      → ((ms : List TextMessage) → pending ≡ some ms → length ms ≤ capacity)
      → IsSettled d
      → IsSettled (deliver_pending channel now pending d c s).0
  unfolding deliver_pending
  deliver_pending-IsSettled now none d c s h v =
      ground (arith, next_idle_bounds none d.idle_seconds)
  deliver_pending-IsSettled now (some ms) d c s h v = elim (Bool-cases (channel.is_closed s)) [
    | inl e ↦ rw e v
    | inr e ↦ rw e (record {
      valid = after.valid;
      small = omega (arith, IsBounded-size ms _ after, h ms refl);
      paced = next_idle_bounds (some ms) d.idle_seconds v.paced.0 v.paced.1;
    })
  ]
    where
      after : IsBounded ms (deliver_loop channel now ms (reconcile d.window ms) c s).0
      after =
          deliver_loop-IsBounded channel ms now ms (reconcile d.window ms) c s (AreIn-self ms)
            (record {
              valid = reconcile-IsValid d.window ms v.valid;
              covered = reconcile-Covers d.window ms;
            })
