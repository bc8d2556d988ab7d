-- ===== src/Resource/Publish.antt =====
-- Service::complete: an upload is published with its event, after its digest was compared.
use distributed_chat_system.Prelude.{
  ℕ, ◌+◌, ◌*◌, ℤ, Bool, true, false, not, ◌||◌, ◌&&◌, ◌≡◌, ◌⊎◌, refl, subst, ap, ◌∙◌, inl, inr,
  String, Option, none, some, List, [], ◌∷◌, ◌++◌, ◌==◌, ==_iff, int_eq, arith, keep_if, length,
  same, lookup, is_some, Bool-cases, Result-cases, if◌then◌else◌, Result, ok, err, ◌>>=◌, ◌>>◌,
  raise_if, raise_if-ok, >>=-ok, ok-injective, string_eq,
}
use distributed_chat_system.Messages.Table.{
  CommitOutcome, committed, commit_refused, commit_reply_lost, commit_result,
}
use distributed_chat_system.Files.Types.{available, Transfer, is_uploading, is_available}
use distributed_chat_system.Files.Table.{update_where}
use distributed_chat_system.Files.Store.{Failure, Sodium, Store}
use distributed_chat_system.Files.Store.Read.{sha256}
use distributed_chat_system.Files.Store.Beginning.{not-false}
use distributed_chat_system.Resource.{
  Problem, error, internal, require, valid_id, file, is_expired, is_cancelled,
}

-- The events that wait for their delivery, by key: "file:" and the id.
pub record Tables : Type 0 where
  pub rows : List Transfer
  pub outbox : List (String × Transfer)

pub record PublishIo : Type 0 where
  pub locked : Bool
  pub leased : Bool
  pub reads : ℕ → Bool
  pub now : ℕ
  pub update_now : ℕ
  pub statements : Bool
  pub commit : CommitOutcome

-- SET status='available',completed_at=NOW(),expires_at=DATE_ADD(NOW(),INTERVAL 7 DAY)
abbrev pub published_row : ℕ → Transfer → Transfer
published_row now r = record r {
  file = record r.file { status = available };
  completed_at = some now;
  expires_at = now + 7 * 86400;
}

-- WHERE id=? AND status='uploading'
abbrev pub can_publish : String → Transfer → Bool
can_publish id r = same r.file.id id && is_uploading r.file.status

-- Service::notify: ON DUPLICATE KEY UPDATE event_key=event_key
unfoldable pub notify : String → Transfer → List (String × Transfer) → List (String × Transfer)
unfolding lookup
notify id f outbox = if is_some (lookup id outbox) then outbox else outbox ++ (id, f) ∷ []

abbrev pub published_file : Transfer → Transfer
published_file f = record f { file = record f.file { status = available } }

abbrev pub published : PublishIo → String → Transfer → Tables → Tables
published io id f t = record {
  rows = update_where (can_publish id) (published_row io.update_now) t.rows;
  outbox = notify id (published_file f) t.outbox;
}

-- The transaction.
unfoldable pub publish : PublishIo → String → Transfer → Tables → Result Problem Transfer × Tables
unfolding notify update_where keep_if commit_result
publish io id f t =
    if not io.statements
    then (err internal, t)
    else (if not (length (keep_if (can_publish id) t.rows) == 1)
        then (err (error 409), t)
        else let (told, t') = commit_result io.commit t (published io id f t) in
          (if told then ok (published_file f) else err internal, t'))

-- The digest of the stored bytes, or an exception.
unfoldable pub digest_of : Option (Result Failure String) → Result Problem String
digest_of none = err internal
digest_of (some (err e)) = err internal
digest_of (some (ok digest)) = ok digest

not_published :
    (b : Bool) (f g : Transfer) (m : Result Problem (Bool × Transfer))
    → (if b then ok (true, f) else m) ≡ ok (false, g)
    → m ≡ ok (false, g)
not_published true f g m e = ground (arith, ok-injective e)
not_published false f g m e = e

digest_of-ok :
    (o : Option (Result Failure String)) (d : String) → digest_of o ≡ ok d → o ≡ some (ok d)
unfolding digest_of
digest_of-ok none d e = cc
digest_of-ok (some (err x)) d e = cc
digest_of-ok (some (ok c)) d e = ap (λ x. some (ok x)) (ok-injective e)

commit_tables :
    (c : CommitOutcome) (old new : Tables)
    → ((commit_result c old new).1 ≡ old) ⊎ ((commit_result c old new).1 ≡ new)
unfolding commit_result
commit_tables committed old new = inr refl
commit_tables commit_refused old new = inl refl
commit_tables commit_reply_lost old new = inr refl

module _ (sodium : Sodium) (master_key : List ℕ) {State : Type 0} (update : State → List ℕ → State)
    (init : State) (final_hex : State → String) where
  unfoldable pub verify_digest :
      PublishIo → Store → String → Transfer → Result Problem (Bool × Transfer)
  unfolding digest_of sha256
  verify_digest io store id f = do
    require (f.file.uploaded_size == f.file.total_size) 409
    digest ←
        digest_of
          (sha256 sodium master_key update init final_hex io.reads store id f.file.total_size)
    require (same digest f.file.sha256) 422
    ok (false, f)

  -- A file that is already published, or one whose bytes have the announced digest.
  unfoldable pub compare_digest :
      PublishIo → Store → String → Transfer → Result Problem (Bool × Transfer)
  unfolding verify_digest
  compare_digest io store id f =
      if is_available f.file.status then ok (true, f) else verify_digest io store id f

  -- The tests before the transaction.
  unfoldable pub check_complete :
      PublishIo → ℤ → Store → List Transfer → String → Result Problem (Bool × Transfer)
  unfolding file compare_digest
  check_complete io uid store rows id = do
    raise_if (not (valid_id id) || not io.locked || not io.leased) internal
    f ← file rows id
    require (int_eq f.file.sender_uid uid) 403
    require (not (is_expired io.now f) && not (is_cancelled f.file.status)) 410
    compare_digest io store id f

  unfoldable pub complete :
      PublishIo → ℤ → Store → Tables → String → Result Problem Transfer × Tables
  unfolding check_complete publish
  complete io uid store t id = elim (check_complete io uid store t.rows id) [
    | err e ↦ (err e, t)
    | ok (true, f) ↦ (ok f, t)
    | ok (false, f) ↦ publish io id f t
  ]

  -- What a file must be to be published.
  pub record IsVerified (io : PublishIo) (uid : ℤ) (store : Store) (rows : List Transfer)
      (id : String) (f : Transfer) : Type 0 where
    pub found : file rows id ≡ ok f
    pub owned : int_eq f.file.sender_uid uid ≡ true
    pub uploaded : f.file.uploaded_size ≡ f.file.total_size
    pub digest :
        sha256 sodium master_key update init final_hex io.reads store id f.file.total_size
        ≡ some (ok f.file.sha256)

  compare_digest-ok :
      (io : PublishIo) (store : Store) (id : String) (f g : Transfer)
      → compare_digest io store id f ≡ ok (false, g)
      → (f ≡ g)
        × (f.file.uploaded_size ≡ f.file.total_size)
        × (sha256 sodium master_key update init final_hex io.reads store id f.file.total_size
            ≡ some (ok f.file.sha256))
  unfolding compare_digest verify_digest
  compare_digest-ok io store id f g e =
      let e1 = not_published (is_available f.file.status) f g (verify_digest io store id f) e in
      let (whole, e2) =
        raise_if-ok (not (f.file.uploaded_size == f.file.total_size)) (error 409) _ e1 in
      let (digest, digested, e3) =
        >>=-ok
          (digest_of
            (sha256 sodium master_key update init final_hex io.reads store id f.file.total_size))
          _ e2 in
      let (equal, e4) = raise_if-ok (not (same digest f.file.sha256)) (error 422) _ e3 in
      (
        ap (λ (x : Bool × Transfer). x.1) (ok-injective e4),
        ground (arith, whole),
        digest_of-ok _ digest digested
            ∙ ap (λ d. some (ok d))
                ((string_eq.beq_iff digest f.file.sha256).0
                  (not-false (same digest f.file.sha256) equal)),
      )

  check_complete-ok :
      (io : PublishIo) (uid : ℤ) (store : Store) (rows : List Transfer) (id : String) (g : Transfer)
      → check_complete io uid store rows id ≡ ok (false, g)
      → IsVerified io uid store rows id g
  unfolding check_complete
  check_complete-ok io uid store rows id g e =
      let (locked, e1) =
        raise_if-ok (not (valid_id id) || not io.locked || not io.leased) internal _ e in
      let (f, found, e2) = >>=-ok (file rows id) _ e1 in
      let (owned, e3) = raise_if-ok (not (int_eq f.file.sender_uid uid)) (error 403) _ e2 in
      let (live, e4) =
        raise_if-ok (not (not (is_expired io.now f) && not (is_cancelled f.file.status)))
          (error 410) _ e3 in
      let (same_file, uploaded, digest) = compare_digest-ok io store id f g e4 in
      subst (IsVerified io uid store rows id) same_file (record {
        found = found;
        owned = ground (arith, owned);
        uploaded = uploaded;
        digest = digest;
      })

  publish_tables :
      (io : PublishIo) (id : String) (f : Transfer) (t : Tables)
      → ((publish io id f t).1 ≡ t)
        ⊎ ((length (keep_if (can_publish id) t.rows) ≡ 1)
            × ((publish io id f t).1 ≡ published io id f t))
  unfolding publish
  publish_tables io id f t = elim (Bool-cases io.statements) [
    | inr s ↦ inl (rw s refl)
    | inl s ↦ elim (Bool-cases (length (keep_if (can_publish id) t.rows) == 1)) [
      | inr m ↦ inl (rw (s, m) refl)
      | inl m ↦ elim (commit_tables io.commit t (published io id f t)) [
        | inl e ↦ inl (rw (s, m) e)
        | inr e ↦ inr ((==_iff (length (keep_if (can_publish id) t.rows)) 1).0 m, rw (s, m) e)
      ]
    ]
  ]

  -- The two ends of Service::complete: nothing, or the transaction of a verified file, whose
  -- UPDATE has changed one row.
  pub complete-tables :
      (io : PublishIo) (uid : ℤ) (store : Store) (t : Tables) (id : String)
      → ((complete io uid store t id).1 ≡ t)
        ⊎ ((f : Transfer) × IsVerified io uid store t.rows id f
            × (length (keep_if (can_publish id) t.rows) ≡ 1)
            × ((complete io uid store t id).1 ≡ published io id f t))
  unfolding complete
  complete-tables io uid store t id = elim (Result-cases (check_complete io uid store t.rows id)) [
    | inl (x, h) ↦ inl (rw (h, complete) refl)
    | inr ((true, f), h) ↦ inl (rw (h, complete) refl)
    | inr ((false, f), h) ↦
        rw (h, complete)
          (elim (publish_tables io id f t) [
            | inl e ↦ inl e
            | inr (one, e) ↦ inr (f, check_complete-ok io uid store t.rows id f h, one, e)
          ])
  ]
