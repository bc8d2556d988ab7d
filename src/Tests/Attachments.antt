-- ===== src/Tests/Attachments.antt =====
-- Examples for the encrypted attachments, with a cipher that appends sixteen zeros.
use distributed_chat_system.Prelude.{
  ℕ, ◌+◌, ◌-◌, ◌*◌, ◌≡◌, refl, ap, ◌∙◌, String, true, some, List, [], ◌∷◌, ◌++◌, length, take,
  length-append, take-append, append_nil, append_assoc, arith, lookup, insert, contains, ok,
}
use distributed_chat_system.Files.Store.{
  Sodium, Store, written, torn, plain_chunk_bytes, path_for, is_id_char, magic, transfer_key,
}
use distributed_chat_system.Files.Store.Life.{CreateIo, create}
use distributed_chat_system.Files.Store.Append.{AppendIo, append}
use distributed_chat_system.Files.Store.Read.{read, sha256}
use distributed_chat_system.Files.Store.Records.{seal_piece, IsAead, IsPiece}
use distributed_chat_system.Files.Store.Lookup.{attachment, Holds}
use distributed_chat_system.Files.Store.Keeps.{append_chunk, serve_all}
use distributed_chat_system.Files.Store.Acknowledged.{read-acknowledged}
use distributed_chat_system.Files.Store.Place.{append_piece}
use distributed_chat_system.Files.Store.Refines.{Implements, append-Implements, working}
use distributed_chat_system.Files.Store.Content.{IsStreaming, size, sha256-content}
use distributed_chat_system.Files.Store.Upload.{upload, read-upload}

abbrev zeros : List ℕ
zeros = 0 ∷ 0 ∷ 0 ∷ 0 ∷ 0 ∷ 0 ∷ 0 ∷ 0 ∷ 0 ∷ 0 ∷ 0 ∷ 0 ∷ 0 ∷ 0 ∷ 0 ∷ 0 ∷ []

abbrev pub open_sodium : Sodium
open_sodium = record {
  generichash = λ id key. key;
  encrypt = λ p n k. some (p ++ zeros);
  decrypt = λ c n k. some (take (length c - 16) c);
}

pub open_decrypts : (p : List ℕ) → take (length (p ++ zeros) - 16) (p ++ zeros) ≡ p
open_decrypts p =
    ap (λ n. take n (p ++ zeros)) (omega (arith, length-append p zeros)) ∙ take-append p zeros

abbrev pub open_aead : IsAead open_sodium
open_aead = record {
  seal = λ p n k. p ++ zeros;
  encrypts = λ p n k h. refl;
  length_seal = λ p n k. length-append p zeros;
  decrypts = λ p n k. ap some (open_decrypts p);
}

abbrev pub some_id : String
some_id = "01234567-89ab-cdef-0123-456789abcdef"

abbrev pub small_piece : List ℕ
small_piece = 72 ∷ 105 ∷ []

abbrev pub made_store : Store
made_store = record {
  files = (some_id, attachment open_aead.seal [] zeros (small_piece ∷ []) []) ∷ [];
  locks = some_id ∷ [];
}

small_piece-IsPiece : IsPiece small_piece
small_piece-IsPiece = record { some_bytes = omega arith; bounded = omega arith }

unfoldable made_store-Holds : Holds open_sodium open_aead [] made_store some_id (small_piece ∷ [])
unfolding path_for is_id_char lookup contains transfer_key
made_store-Holds = record {
  valid_id = refl;
  lock_exists = refl;
  prefix = zeros;
  prefix_size = refl;
  pieces = (small_piece-IsPiece, tt);
  tail = [];
  stored = refl;
}

abbrev torn_append : AppendIo
torn_append = record { locked = true; writes = torn 3; synced = true }

replayed : (append open_sodium [] working made_store some_id 0 small_piece).0 ≡ ok 2
unfolding append lookup contains attachment seal_piece
replayed = refl

read-acknowledged_example :
    read open_sodium [] true
      (serve_all open_sodium []
        (append open_sodium [] working made_store some_id 0 small_piece).1
        (append_chunk torn_append some_id plain_chunk_bytes small_piece ∷ []))
      some_id
      0
      10
    ≡ ok small_piece
read-acknowledged_example =
    read-acknowledged open_sodium open_aead [] working made_store some_id 0 2 small_piece 10
      (append_chunk torn_append some_id plain_chunk_bytes small_piece ∷ []) replayed (omega arith)

append-Implements_example :
    Implements open_sodium open_aead [] made_store some_id
      (0 * plain_chunk_bytes + 2)
      (append_piece (small_piece ∷ []) 0 small_piece)
      (append open_sodium [] working made_store some_id (0 * plain_chunk_bytes) small_piece)
unfolding made_store-Holds
append-Implements_example =
    append-Implements open_sodium open_aead [] made_store some_id (small_piece ∷ []) 0 small_piece
      (record { holds = made_store-Holds; no_tail = refl }) small_piece-IsPiece (omega arith)

abbrev pub feed : List ℕ → List ℕ → List ℕ
feed s xs = s ++ xs

append-IsStreaming : IsStreaming feed
append-IsStreaming = record { joins = append_assoc; empties = append_nil }

sha256-content_example :
    sha256 open_sodium [] feed []
      (λ s. "digest")
      (λ n. true)
      made_store
      some_id
      (size (small_piece ∷ []))
    ≡ some (ok "digest")
sha256-content_example =
    sha256-content open_sodium open_aead [] feed append-IsStreaming [] (λ s. "digest") made_store
      some_id (small_piece ∷ []) made_store-Holds tt (omega arith)

abbrev good_create : CreateIo
good_create = record {
  seeded = true;
  locked = true;
  opened = true;
  random_prefix = zeros;
  writes = written;
  directory_synced = true;
}

abbrev empty_store : Store
empty_store = record { files = []; locks = [] }

abbrev pub fresh_store : Store
fresh_store = record { files = (some_id, magic ++ zeros) ∷ []; locks = some_id ∷ [] }

fresh : create good_create empty_store some_id ≡ (ok tt, fresh_store)
unfolding create path_for is_id_char lookup contains insert
fresh = refl

read-upload_example :
    read open_sodium [] true
      (upload open_sodium [] fresh_store some_id 0 (small_piece ∷ []))
      some_id
      (0 * plain_chunk_bytes)
      plain_chunk_bytes
    ≡ ok small_piece
read-upload_example =
    read-upload open_sodium open_aead [] good_create empty_store fresh_store some_id
      (small_piece ∷ []) 0 small_piece refl fresh (small_piece-IsPiece, tt) tt (omega arith) refl
