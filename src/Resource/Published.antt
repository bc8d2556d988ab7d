-- ===== src/Resource/Published.antt =====
-- What Service::complete leaves in the tables file_transfer and resource_outbox.
use distributed_chat_system.Prelude.{
  ℕ, ◌+◌, ◌*◌, ◌≤◌, ◌≡◌, ◌≢◌, ◌⊎◌, ℤ, Bool, true, false, not, refl, sym, subst, ap, ◌∙◌, inl, inr,
  String, none, some, List, [], ◌∷◌, ◌++◌, arith, keep_if, length, same, lookup, Bool-cases,
  Option-cases, if◌then◌else◌, ok, string_eq, or_raise, or_raise-ok, raise_if-ok,
}
use distributed_chat_system.Files.Types.{available, Transfer}
use distributed_chat_system.Files.Table.{update_where}
use distributed_chat_system.Files.Store.{Sodium, Store}
use distributed_chat_system.Files.Store.Beginning.{some-injective}
use distributed_chat_system.Resource.{find_row, file, valid_id, error}
use distributed_chat_system.Resource.Publish.{
  Tables, PublishIo, IsVerified, published_row, can_publish, notify, published_file, published,
  complete, complete-tables,
}

-- The rows with this id; the primary key makes it one at most.
abbrev pub id_rows : String → List Transfer → ℕ
id_rows id rows = length (keep_if (λ r. same r.file.id id) rows)

-- The file `f` and its event are published, and nothing else has changed.
pub record IsPublished (now : ℕ) (id : String) (f : Transfer) (old new : Tables) : Type 0 where
  pub row : Transfer
  pub found : find_row id new.rows ≡ some row
  pub status : row.file.status ≡ available
  pub contents : row.file ≡ record f.file { status = available }
  pub completed_at : row.completed_at ≡ some now
  pub expires_at : row.expires_at ≡ now + 7 * 86400
  pub others : (other : String) → other ≢ id → find_row other new.rows ≡ find_row other old.rows
  -- The event of before, if there was one, else one that describes the published file.
  pub event : lookup id new.outbox ≡ elim (lookup id old.outbox) [
    | none ↦ some (record f { file = record f.file { status = available } })
    | some e ↦ some e
  ]
  pub events :
      (key : String) (e : Transfer)
      → lookup key old.outbox ≡ some e
      → lookup key new.outbox ≡ some e

count_le :
    (id : String) (rows : List Transfer) → length (keep_if (can_publish id) rows) ≤ id_rows id rows
unfolding keep_if
count_le id [] = omega arith
count_le id (r ∷ rows) = ground (arith, count_le id rows)

-- The one row that the UPDATE has found is the file's.
found-uploading :
    (id : String) (rows : List Transfer) (f : Transfer)
    → id_rows id rows ≤ 1
    → length (keep_if (can_publish id) rows) ≡ 1
    → find_row id rows ≡ some f
    → can_publish id f ≡ true
unfolding keep_if find_row
found-uploading id [] f unique one e = cc
found-uploading id (r ∷ rows) f unique one e = elim (Bool-cases (same r.file.id id)) [
  | inl here ↦
      let is_f : r ≡ f =
        some-injective
          (subst (λ (b : Bool). (if b then some r else find_row id rows) ≡ some f) here e) in
      let published_here : can_publish id r ≡ true =
        ground (arith, count_le id rows, unique, one, here) in
      subst (λ (k : Transfer). can_publish id k ≡ true) is_f published_here
  | inr there ↦
      found-uploading id rows f (ground (arith, unique, there)) (ground (arith, one, there))
        (subst (λ (b : Bool). (if b then some r else find_row id rows) ≡ some f) there e)
]

find_row-update_where :
    (id : String) (now : ℕ) (rows : List Transfer) (f : Transfer)
    → find_row id rows ≡ some f
    → can_publish id f ≡ true
    → find_row id (update_where (can_publish id) (published_row now) rows)
      ≡ some (published_row now f)
unfolding find_row update_where
find_row-update_where id now [] f e h = cc
find_row-update_where id now (r ∷ rows) f e h = elim (Bool-cases (same r.file.id id)) [
  | inl here ↦
      let is_f : r ≡ f =
        some-injective
          (subst (λ (b : Bool). (if b then some r else find_row id rows) ≡ some f) here e) in
      let r_publishes : can_publish id r ≡ true =
        subst (λ (k : Transfer). can_publish id k ≡ true) (sym is_f) h in
      rw (r_publishes, find_row, here) (ap (λ (k : Transfer). some (published_row now k)) is_f)
  | inr there ↦
      let rest =
        find_row-update_where id now rows f
          (subst (λ (b : Bool). (if b then some r else find_row id rows) ≡ some f) there e) h in
      let kept : can_publish id r ≡ false = ground (arith, there) in rw (kept, find_row, there) rest
]

other_row :
    (id other : String) (now : ℕ) (r : Transfer) (rows : List Transfer)
    → other ≢ id
    → can_publish id r ≡ true
    → same r.file.id other ≡ false
other_row id other now r rows n p =
    ground (arith, string_eq.beq_iff r.file.id other, string_eq.beq_iff r.file.id id, n, p)

find_row_other :
    (id other : String) (now : ℕ) (rows : List Transfer)
    → other ≢ id
    → find_row other (update_where (can_publish id) (published_row now) rows) ≡ find_row other rows
unfolding find_row update_where
find_row_other id other now [] n = refl
find_row_other id other now (r ∷ rows) n = elim (Bool-cases (can_publish id r)) [
  | inl p ↦ rw (p, other_row id other now r rows n p) (find_row_other id other now rows n)
  | inr k ↦ elim (Bool-cases (same r.file.id other)) [
    | inl here ↦ rw (k, here) refl
    | inr there ↦ rw (k, there) (find_row_other id other now rows n)
  ]
]

lookup-append :
    (key id : String) (e : Transfer) (outbox : List (String × Transfer))
    → lookup key (outbox ++ (id, e) ∷ [])
      ≡ elim (lookup key outbox) [ none ↦ (if same id key then some e else none) | some v ↦ some v ]
unfolding lookup
lookup-append key id e [] = ground arith
lookup-append key id e ((k, v) ∷ outbox) = ground (arith, lookup-append key id e outbox)

file-found :
    (rows : List Transfer) (id : String) (f : Transfer)
    → file rows id ≡ ok f
    → find_row id rows ≡ some f
unfolding file
file-found rows id f e =
    or_raise-ok (find_row id rows) (error 404)
      (raise_if-ok (not (valid_id id)) (error 400) (or_raise (find_row id rows) (error 404)) e).1

none-some : {A : Type 0} {a : A} → none ≡ some a → ⊥
none-some e = cc

lookup_kept :
    (key id : String) (e v : Transfer) (outbox : List (String × Transfer))
    → lookup id outbox ≡ some v
    → lookup key outbox
      ≡ elim (lookup key outbox) [ none ↦ (if same id key then some e else none) | some w ↦ some w ]
lookup_kept key id e v outbox present = elim (Option-cases (lookup key outbox)) [
  | inr (w, h) ↦ rw h refl
  | inl h ↦ elim (Bool-cases (same id key)) [
    | inr k ↦ rw (h, k) refl
    | inl k ↦
        let is_id = (string_eq.beq_iff id key).0 k in
        let found : lookup key outbox ≡ some v =
          subst (λ (j : String). lookup j outbox ≡ some v) is_id present in
        absurd (none-some (sym h ∙ found))
  ]
]

lookup-notify :
    (key id : String) (e : Transfer) (outbox : List (String × Transfer))
    → lookup key (notify id e outbox)
      ≡ elim (lookup key outbox) [ none ↦ (if same id key then some e else none) | some v ↦ some v ]
unfolding notify
lookup-notify key id e outbox = elim (Option-cases (lookup id outbox)) [
  | inl absent ↦ rw absent (lookup-append key id e outbox)
  | inr (v, present) ↦ rw present (lookup_kept key id e v outbox present)
]

same_self : (id : String) → same id id ≡ true
same_self id = (string_eq.beq_iff id id).1 refl

notify_event :
    (id : String) (e : Transfer) (outbox : List (String × Transfer))
    → lookup id (notify id e outbox) ≡ elim (lookup id outbox) [ none ↦ some e | some v ↦ some v ]
notify_event id e outbox = elim (Option-cases (lookup id outbox)) [
  | inl h ↦ lookup-notify id id e outbox ∙ rw (h, same_self id) refl
  | inr (v, h) ↦ lookup-notify id id e outbox ∙ rw h refl
]

notify_keeps :
    (key id : String) (e v : Transfer) (outbox : List (String × Transfer))
    → lookup key outbox ≡ some v
    → lookup key (notify id e outbox) ≡ some v
notify_keeps key id e v outbox old = lookup-notify key id e outbox ∙ rw old refl

published-IsPublished :
    (io : PublishIo) (id : String) (f : Transfer) (t : Tables)
    → can_publish id f ≡ true
    → find_row id t.rows ≡ some f
    → IsPublished io.update_now id f t (published io id f t)
published-IsPublished io id f t h e = record {
  row = published_row io.update_now f;
  found = find_row-update_where id io.update_now t.rows f e h;
  status = refl;
  contents = refl;
  completed_at = refl;
  expires_at = refl;
  others = λ other n. find_row_other id other io.update_now t.rows n;
  event = notify_event id (published_file f) t.outbox;
  events = λ key v old. notify_keeps key id (published_file f) v t.outbox old;
}

module _ (sodium : Sodium) (master_key : List ℕ) {State : Type 0} (update : State → List ℕ → State)
    (init : State) (final_hex : State → String) where
  pub complete-IsVerified :
      (io : PublishIo) (uid : ℤ) (store : Store) (t : Tables) (id : String)
      → id_rows id t.rows ≤ 1
      → ((complete sodium master_key update init final_hex io uid store t id).1 ≡ t)
        ⊎ ((f : Transfer) × IsVerified sodium master_key update init final_hex io uid store t.rows
              id f
            × IsPublished io.update_now id f t
                (complete sodium master_key update init final_hex io uid store t id).1)
  complete-IsVerified io uid store t id unique =
      elim (complete-tables sodium master_key update init final_hex io uid store t id) [
        | inl e ↦ inl e
        | inr (f, verified, one, e) ↦ inr (
          f,
          verified,
          subst (IsPublished io.update_now id f t) (sym e) (
              published-IsPublished io id f t
                (found-uploading id t.rows f unique one (file-found t.rows id f verified.found))
                (file-found t.rows id f verified.found)),
        )
      ]
