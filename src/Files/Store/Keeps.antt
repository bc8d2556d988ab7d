-- ===== src/Files/Store/Keeps.antt =====
-- An attachment only grows: whatever is asked and whatever fails, no byte that was written is
-- changed, and a piece that is there stays readable.
use distributed_chat_system.Prelude.{
  ℕ, zero, suc, ◌≡◌, refl, sym, subst, ap, ◌∙◌, inl, inr, String, true, Option, none, some, List,
  [], ◌∷◌, ◌++◌, lookup, insert, lookup-insert, same, contains, All, take, get_elem?, append_nil,
  append_assoc, arith, Bool-cases, Option-cases, Result, ok, err, Result-cases, string_eq,
}
use distributed_chat_system.Files.Store.{
  Failure, Sodium, Store, WriteOutcome, written, unsynced, torn, write_and_sync, path_for,
}
use distributed_chat_system.Files.Store.Append.{
  AppendIo, Plan, replay, add, plan_append, apply_plan, old_bytes, append,
}
use distributed_chat_system.Files.Store.Life.{CreateIo, seed_lock, create_locked, create}
use distributed_chat_system.Files.Store.Records.{IsPiece}

-- What an attachment may become.
abbrev pub Extends : List ℕ → List ℕ → Type 0
Extends old new = (more : List ℕ) × (new ≡ old ++ more)

-- Every attachment is still there and begins as it was, and no lock file is gone.
pub record Keeps (before after : Store) : Type 0 where
  pub grows :
      (id : String) (old : List ℕ)
      → lookup id before.files ≡ some old
      → (more : List ℕ) × (lookup id after.files ≡ some (old ++ more))
  pub locks_stay : (id : String) → contains before.locks id ≡ true → contains after.locks id ≡ true

same→≡ : (p q : String) → same p q ≡ true → p ≡ q
same→≡ p q h = (string_eq.beq_iff p q).0 h

pub Keeps-refl : (s : Store) → Keeps s s
Keeps-refl s = record {
  grows = λ id old e. ([], e ∙ ap some (sym (append_nil old)));
  locks_stay = λ id h. h;
}

pub Keeps-trans : (r s t : Store) → Keeps r s → Keeps s t → Keeps r t
Keeps-trans r s t h k = record {
  grows = λ id old e.
      let (more, e') = h.grows id old e in
      let (rest, e'') = k.grows id (old ++ more) e' in
      (more ++ rest, e'' ∙ ap some (append_assoc old more rest));
  locks_stay = λ id e. k.locks_stay id (h.locks_stay id e);
}

write_and_sync-Extends :
    (w : WriteOutcome) (old bytes : List ℕ) → Extends old (write_and_sync w old bytes).1
unfolding write_and_sync
write_and_sync-Extends written old bytes = (bytes, refl)
write_and_sync-Extends unsynced old bytes = (bytes, refl)
write_and_sync-Extends (torn n) old bytes = (take n bytes, refl)

-- The new bytes go on from those that were there, if any were.
abbrev Follows : Option (List ℕ) → List ℕ → Type 0
Follows none new = Unit
Follows (some old) new = Extends old new

inserted :
    (s : List (String × List ℕ)) (path id : String) (new old : List ℕ)
    → same path id ≡ true
    → Follows (lookup path s) new
    → lookup id s ≡ some old
    → (more : List ℕ) × (lookup id (insert path new s) ≡ some (old ++ more))
inserted s path id new old h follows e =
    let known = ap (λ k. lookup k s) (same→≡ path id h) ∙ e in
    let (more, longer) = subst (λ o. Follows o new) known follows in
    (more, lookup-insert path id new s ∙ rw h (ap some longer))

insert-Keeps :
    (s : Store) (path : String) (new : List ℕ)
    → Follows (lookup path s.files) new
    → Keeps s (record s { files = insert path new s.files })
insert-Keeps s path new follows = record {
  grows = λ id bytes e. elim (Bool-cases (same path id)) [
    | inl h ↦ inserted s.files path id new bytes h follows e
    | inr h ↦ ([], lookup-insert path id new s.files ∙ rw (h, e, append_nil bytes) refl)
  ];
  locks_stay = λ id h. h;
}

written-Follows :
    (known : Option (List ℕ)) (w : WriteOutcome) (bytes : List ℕ)
    → Follows known (write_and_sync w (old_bytes known) bytes).1
written-Follows none w bytes = tt
written-Follows (some old) w bytes = write_and_sync-Extends w old bytes

pub apply_plan-Keeps :
    (io : AppendIo) (s : Store) (path : String) (offset : ℕ) (plaintext : List ℕ)
    (plan : Result Failure Plan)
    → Keeps s (apply_plan io s path offset plaintext plan).1
unfolding apply_plan
apply_plan-Keeps io s path offset plaintext (err e) = Keeps-refl s
apply_plan-Keeps io s path offset plaintext (ok replay) = Keeps-refl s
apply_plan-Keeps io s path offset plaintext (ok (add bytes)) =
    insert-Keeps s path _ (written-Follows (lookup path s.files) io.writes bytes)

contains-cons :
    (path id : String) (locks : List String)
    → contains locks id ≡ true
    → contains (path ∷ locks) id ≡ true
unfolding contains
contains-cons path id locks h = ground arith

seed_lock-Keeps : (path : String) (s : Store) → Keeps s (seed_lock path s)
unfolding seed_lock
seed_lock-Keeps path s = elim (Bool-cases (contains s.locks path)) [
  | inl e ↦ rw e (Keeps-refl s)
  | inr e ↦
      rw e
        (record { grows = (Keeps-refl s).grows; locks_stay = λ id. contains-cons path id s.locks })
]

no_file : (known : Option (List ℕ)) (new : List ℕ) → known ≡ none → Follows known new
no_file none new e = tt
no_file (some old) new e = ground arith

create_locked-Keeps :
    (io : CreateIo) (s : Store) (path : String) → Keeps s (create_locked io s path).1
unfolding create_locked
create_locked-Keeps io s path = elim (Option-cases (lookup path s.files)) [
  | inl e ↦ elim (Bool-cases io.opened) [
    | inl o ↦ rw (e, o) (insert-Keeps s path _ (no_file (lookup path s.files) _ e))
    | inr o ↦ rw (e, o) (Keeps-refl s)
  ]
  | inr (old, e) ↦ rw e (Keeps-refl s)
]

create-Keeps : (io : CreateIo) (s : Store) (id : String) → Keeps s (create io s id).1
unfolding create
create-Keeps io s id = elim (Result-cases (path_for id)) [
  | inl (e, h) ↦ rw (h, create) (Keeps-refl s)
  | inr (path, h) ↦
      rw (h, create)
        (elim (Bool-cases io.seeded) [
          | inr a ↦ rw a (Keeps-refl s)
          | inl a ↦ elim (Bool-cases io.locked) [
            | inr b ↦ rw (a, b) (seed_lock-Keeps path s)
            | inl b ↦
                rw (a, b)
                  (Keeps-trans s (seed_lock path s) _ (seed_lock-Keeps path s)
                    (create_locked-Keeps io (seed_lock path s) path))
          ]
        ])
]

pub append-Keeps :
    (sodium : Sodium) (master_key : List ℕ) (io : AppendIo) (s : Store) (id : String) (offset : ℕ)
    (plaintext : List ℕ)
    → Keeps s (append sodium master_key io s id offset plaintext).1
unfolding append
append-Keeps sodium master_key io s id offset plaintext =
    apply_plan-Keeps io s id offset plaintext
      (plan_append sodium master_key io s id offset plaintext)

-- What a server may ask of the store while it does not delete.
pub data Request : Type 0 where
  create_file : CreateIo → String → Request
  append_chunk : AppendIo → String → ℕ → List ℕ → Request

module _ (sodium : Sodium) (master_key : List ℕ) where
  unfoldable pub serve : Store → Request → Store
  unfolding create append
  serve s (create_file io id) = (create io s id).1
  serve s (append_chunk io id offset plaintext) =
      (append sodium master_key io s id offset plaintext).1

  unfoldable pub serve_all : Store → List Request → Store
  unfolding serve
  serve_all s [] = s
  serve_all s (q ∷ qs) = serve_all (serve s q) qs

  serve-Keeps : (s : Store) (q : Request) → Keeps s (serve s q)
  unfolding serve
  serve-Keeps s (create_file io id) = create-Keeps io s id
  serve-Keeps s (append_chunk io id offset plaintext) =
      append-Keeps sodium master_key io s id offset plaintext

  -- Whatever uploads are started and whatever pieces are offered, in whatever order and with
  -- whatever failures of locks, writes and flushes: every attachment is still there and begins with
  -- the bytes it had, and its lock file is still there.
  pub serve_all-Keeps : (qs : List Request) (s : Store) → Keeps s (serve_all s qs)
  unfolding serve_all
  serve_all-Keeps [] s = Keeps-refl s
  serve_all-Keeps (q ∷ qs) s =
      Keeps-trans s (serve s q) (serve_all (serve s q) qs) (serve-Keeps s q)
        (serve_all-Keeps qs (serve s q))

pub IsPiece-at :
    (ps : List (List ℕ)) (n : ℕ) (p : List ℕ) → All IsPiece ps → get_elem? ps n ≡ some p → IsPiece p
IsPiece-at [] n p h e = ground arith
IsPiece-at (q ∷ qs) zero p h e = ground (arith, h.0)
IsPiece-at (q ∷ qs) (suc n) p h e = IsPiece-at qs n p h.1 e
