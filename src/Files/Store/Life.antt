-- ===== src/Files/Store/Life.antt =====
-- EncryptedFileStore::create and remove, and the life of an attachment under all operations.
use distributed_chat_system.Prelude.{
  ℕ, String, Bool, not, ◌&&◌, List, [], ◌∷◌, ◌++◌, lookup, insert, erase, contains, is_some,
  if◌then◌else◌, Result, ok, err, string_eq,
}
use distributed_chat_system.Files.Store.{
  Failure, already_exists, cannot_lock, cannot_create, not_written, not_removed, Store, magic,
  path_for, WriteOutcome, write_and_sync,
}

-- What the system does in one call of create, with the sixteen random bytes.
pub record CreateIo : Type 0 where
  pub seeded : Bool
  pub locked : Bool
  pub opened : Bool
  pub random_prefix : List ℕ
  pub writes : WriteOutcome
  pub directory_synced : Bool

-- The lock file is opened for appending, so that it exists afterwards.
unfoldable pub seed_lock : String → Store → Store
seed_lock path store =
    if contains store.locks path then store else record store { locks = path ∷ store.locks }

-- The part of create that holds the lock.
unfoldable pub create_locked : CreateIo → Store → String → Result Failure (Unit {0}) × Store
unfolding write_and_sync
create_locked io store path =
    if is_some (lookup path store.files)
    then (err already_exists, store)
    else (if not io.opened
        then (err cannot_create, store)
        else let (done, bytes) = write_and_sync io.writes [] (magic ++ io.random_prefix) in
          (
            if done && io.directory_synced then ok tt else err not_written,
            record store { files = insert path bytes store.files },
          ))

unfoldable pub create : CreateIo → Store → String → Result Failure (Unit {0}) × Store
unfolding create_locked path_for seed_lock
create io store transfer_id = elim (path_for transfer_id) [
  | err e ↦ (err e, store)
  | ok path ↦
      if not io.seeded
      then (err cannot_create, store)
      else (if not io.locked
          then (err cannot_lock, seed_lock path store)
          else create_locked io (seed_lock path store) path)
]

-- The lock is only taken where its file exists, and the lock file stays.
unfoldable pub remove : Bool → Bool → Store → String → Result Failure (Unit {0}) × Store
unfolding path_for
remove locked removes store transfer_id = elim (path_for transfer_id) [
  | err e ↦ (err e, store)
  | ok path ↦
      if contains store.locks path && not locked
      then (err cannot_lock, store)
      else (if not removes
          then (err not_removed, store)
          else (ok tt, record store { files = erase path store.files }))
]
