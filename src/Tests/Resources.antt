-- ===== src/Tests/Resources.antt =====
-- Examples for the resource server: an upload of one piece, its publication and its download.
use distributed_chat_system.Prelude.{
  keep_if, ℕ, ◌+◌, ◌*◌, ◌≤◌, ◌≡◌, ◌⊎◌, refl, pos, true, false, some, none, List, [], ◌∷◌, arith, ok,
  is_ok, lookup, contains,
}
use distributed_chat_system.Messages.Table.{committed}
use distributed_chat_system.Files.Types.{uploading, available, Transfer, is_available}
use distributed_chat_system.Files.Store.{plain_chunk_bytes}
use distributed_chat_system.Files.Store.Append.{append}
use distributed_chat_system.Files.Store.Read.{read}
use distributed_chat_system.Files.Store.Keeps.{serve_all}
use distributed_chat_system.Files.Store.Refines.{working}
use distributed_chat_system.Resource.{file, valid_id, find_row, is_expired}
use distributed_chat_system.Resource.Chunk.{RoundIo, ChunkIo, parts, chunk}
use distributed_chat_system.Resource.Confirmed.{chunk-read}
use distributed_chat_system.Resource.Access.{files, delete, content, stream, AccessIo, handle}
use distributed_chat_system.Resource.Rights.{handle_stranger, handle-stream}
use distributed_chat_system.Resource.Publish.{Tables, PublishIo, IsVerified, complete}
use distributed_chat_system.Resource.Published.{IsPublished, complete-IsVerified}
use distributed_chat_system.Tests.Attachments.{
  open_sodium, open_aead, some_id, small_piece, fresh_store, made_store, feed,
}

abbrev new_upload : Transfer
new_upload = record {
  file = record {
    id = some_id;
    sender_uid = pos 7;
    receiver_uid = pos 9;
    original_name = "hi.txt";
    mime_type = "text/plain";
    total_size = 2;
    uploaded_size = 0;
    sha256 = "digest";
    status = uploading;
  };
  completed_at = none;
  downloaded_at = none;
  expires_at = 1000;
}

abbrev ready_file : Transfer
ready_file = record new_upload {
  file = record new_upload.file { uploaded_size = 2; status = available };
}

abbrev full_upload : Transfer
full_upload = record new_upload { file = record new_upload.file { uploaded_size = 2 } }

abbrev good_round : RoundIo
good_round = record { read_locked = true; appends = working; now = 5; update = committed }

abbrev good_chunk : ChunkIo
good_chunk = record { locked = true; leased = true; now = 5; rounds = λ k. good_round }

uploaded_piece :
    chunk open_sodium [] good_chunk (pos 7) some_id 0 small_piece (fresh_store, new_upload ∷ []) ≡ (
      ok 2,
      (
        (append open_sodium [] working fresh_store some_id 0 small_piece).1,
        record new_upload { file = record new_upload.file { uploaded_size = 2 } } ∷ [],
      ),
    )
unfolding chunk lookup contains
uploaded_piece = refl

chunk-read_example :
    read open_sodium [] true
      (serve_all open_sodium []
        (append open_sodium [] working fresh_store some_id 0 small_piece).1
        [])
      some_id
      (0 + 0 * plain_chunk_bytes)
      plain_chunk_bytes
    ≡ ok small_piece
unfolding parts
chunk-read_example =
    chunk-read open_sodium open_aead [] good_chunk (pos 7) some_id 0 small_piece fresh_store
      (append open_sodium [] working fresh_store some_id 0 small_piece).1 (new_upload ∷ []) _ 2 0
      small_piece [] uploaded_piece refl

abbrev good_publish : PublishIo
good_publish = record {
  locked = true;
  leased = true;
  reads = λ k. true;
  now = 5;
  update_now = 5;
  statements = true;
  commit = committed;
}

abbrev some_tables : Tables
some_tables = record { rows = full_upload ∷ []; outbox = [] }

complete-IsVerified_example :
    ((complete open_sodium [] feed []
        (λ s. "digest")
        good_publish
        (pos 7)
        made_store
        some_tables
        some_id).1
      ≡ some_tables)
    ⊎ ((f : Transfer) × IsVerified open_sodium [] feed []
          (λ s. "digest")
          good_publish
          (pos 7)
          made_store
          (full_upload ∷ [])
          some_id
          f
        × IsPublished good_publish.update_now some_id f some_tables
            (complete open_sodium [] feed []
              (λ s. "digest")
              good_publish
              (pos 7)
              made_store
              some_tables
              some_id).1)
unfolding keep_if
complete-IsVerified_example =
    complete-IsVerified open_sodium [] feed [] (λ s. "digest") good_publish (pos 7) made_store
      some_tables some_id (omega arith)

abbrev good_access : AccessIo
good_access = record { locked = true; leased = true; now = 5; update = committed }

abbrev ready_tables : Tables
ready_tables = record { rows = ready_file ∷ []; outbox = [] }

handle_stranger_example :
    ((is_ok (handle good_access (pos 8) (ready_file ∷ []) files some_id delete).0 ≡ false)
      × ((handle good_access (pos 8) (ready_file ∷ []) files some_id delete).1 ≡ ready_file ∷ []))
    × ((is_ok
            (chunk open_sodium [] good_chunk
              (pos 8)
              some_id
              0
              (1 ∷ [])
              (made_store, ready_file ∷ [])).0
          ≡ false)
        × ((chunk open_sodium [] good_chunk
              (pos 8)
              some_id
              0
              (1 ∷ [])
              (made_store, ready_file ∷ [])).1
            ≡ (made_store, ready_file ∷ [])))
    × ((is_ok
            (complete open_sodium [] feed []
              (λ s. "digest")
              good_publish
              (pos 8)
              made_store
              ready_tables
              some_id).0
          ≡ false)
        × ((complete open_sodium [] feed []
              (λ s. "digest")
              good_publish
              (pos 8)
              made_store
              ready_tables
              some_id).1
            ≡ ready_tables))
unfolding file valid_id find_row
handle_stranger_example =
    handle_stranger open_sodium [] feed [] (λ s. "digest") good_access good_chunk good_publish
      (pos 8) made_store ready_tables files some_id delete 0 (1 ∷ []) ready_file refl
      (λ e. ground arith) (λ e. ground arith)

abbrev middle_range : List ℕ
middle_range = 98 ∷ 121 ∷ 116 ∷ 101 ∷ 115 ∷ 61 ∷ 49 ∷ 45 ∷ []

sent :
    handle good_access (pos 9) (ready_file ∷ []) files some_id (content (some middle_range))
    ≡ (ok (stream 1 1), ready_file ∷ [])
unfolding handle
sent = refl

handle-stream_example :
    (f : Transfer) × (file (ready_file ∷ []) some_id ≡ ok f)
    × (f.file.receiver_uid ≡ pos 9)
    × (is_available f.file.status ≡ true)
    × (is_expired 5 f ≡ false)
    × (1 + 1 ≤ f.file.total_size)
    × (ready_file ∷ [] ≡ ready_file ∷ [])
handle-stream_example =
    handle-stream good_access (pos 9) (ready_file ∷ []) (ready_file ∷ []) files some_id
      (some middle_range) 1 1 sent
