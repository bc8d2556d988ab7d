-- ===== src/Tests/Storage.antt =====
-- Examples for the storage: the connection pool, friends and file transfers.
use distributed_chat_system.Prelude.{
  ℕ, ◌+◌, ◌≡◌, ◌⊎◌, refl, ℤ, pos, Bool, true, false, some, List, [], ◌∷◌, All, arith, contains,
  keep_if,
}
use distributed_chat_system.Messages.Table.{Faults, committed, commit_reply_lost, commit_result}
use distributed_chat_system.Storage.Pool.{
  System, Reach, here, next, borrows, reserves, creates, stops, drain, get_connection, reserve,
  fill, stop, pop_front, new_system,
}
use distributed_chat_system.Storage.Pool.Invariant.{
  IsValid, HasOneOwner, pool-IsValid, pool-HasOneOwner,
}
use distributed_chat_system.Storage.Pool.Shutdown.{IsShut, drain-IsShut}
use distributed_chat_system.Friends.{
  Tables, pair_count, pending_count, add_friend, check_friend_relation,
}
use distributed_chat_system.Friends.Acceptance.{accepted, add_friend_once, add_friend_atomic}
use distributed_chat_system.Friends.Relation.{add_friend-friends}
use distributed_chat_system.Files.Types.{TransferRecord, uploading, Transfer}
use distributed_chat_system.Files.Table.{
  item_count, total_bytes, create_file_transfer, advance_file_upload, new_row,
}
use distributed_chat_system.Files.Quota.{IsWithin, create_file_transfer-IsWithin}
use distributed_chat_system.Files.Lifecycle.{
  IsValid as IsValidTransfer, Request, create, advance, complete, download, serve_all,
  serve_all-IsValid,
}
use distributed_chat_system.Files.Advance.{advance_file_upload_once}

-- A pool of two, with one connection made.
abbrev one_made : System
one_made = record {
  pool = record { pool_size = 2; connections = 5 ∷ []; live_connections = 1; stopped = false };
  held = [];
  creating = 0;
}

one_made-Reach : Reach (new_system 2) one_made
unfolding reserve fill contains
one_made-Reach = next (next here (reserves _ refl)) (creates 0 5 refl (refl, refl))

abbrev one_held : System
one_held = record {
  pool = record { pool_size = 2; connections = []; live_connections = 1; stopped = false };
  held = 5 ∷ [];
  creating = 0;
}

one_held-Reach : Reach (new_system 2) one_held
unfolding get_connection pop_front
one_held-Reach = next one_made-Reach (borrows _ 5 refl)

pool-IsValid_example : IsValid 2 one_held
pool-IsValid_example = pool-IsValid (omega arith) one_held-Reach

pool-HasOneOwner_example : HasOneOwner one_held
pool-HasOneOwner_example = pool-HasOneOwner one_held-Reach

abbrev stopped_held : System
stopped_held = record one_held { pool = stop one_held.pool }

drain-IsShut_example :
    IsShut (record stopped_held { pool = drain stopped_held.pool })
    × ((drain stopped_held.pool).live_connections ≡ 1 + 0)
unfolding stop
drain-IsShut_example = drain-IsShut (omega arith) (next one_held-Reach stops) refl here

abbrev faultless : Faults
faultless = record {
  connected = true;
  setup_throws = false;
  throws = λ i. false;
  commit = committed;
}

abbrev losing : Faults
losing = record {
  connected = true;
  setup_throws = false;
  throws = λ i. false;
  commit = commit_reply_lost;
}

abbrev everyone : ℤ → Bool
everyone uid = true

-- User 7 has applied to user 9.
abbrev applied : Tables
applied = record {
  friends = [];
  applications = record { from_uid = pos 7; to_uid = pos 9; status = 0 } ∷ [];
}

add_friend_once_example :
    (pending_count (pos 7) (pos 9) applied.applications ≡ 1)
    × (pending_count
          (pos 7)
          (pos 9)
          (add_friend everyone faultless applied (pos 9) (pos 7) "Bob").1.applications
        ≡ 0)
    × (pending_count
          (pos 8)
          (pos 9)
          (add_friend everyone faultless applied (pos 9) (pos 7) "Bob").1.applications
        ≡ pending_count (pos 8) (pos 9) applied.applications)
unfolding add_friend
add_friend_once_example =
    add_friend_once everyone faultless applied (pos 9) (pos 7) (pos 8) (pos 9) "Bob" refl refl

add_friend_atomic_example :
    ((add_friend everyone losing applied (pos 9) (pos 7) "Bob").1 ≡ applied)
    ⊎ ((pending_count (pos 7) (pos 9) applied.applications ≡ 1)
        × ((add_friend everyone losing applied (pos 9) (pos 7) "Bob").1
            ≡ accepted everyone applied (pos 9) (pos 7) "Bob"))
add_friend_atomic_example = add_friend_atomic everyone losing applied (pos 9) (pos 7) "Bob"

add_friend-friends_example :
    (check_friend_relation faultless
        (add_friend everyone faultless applied (pos 9) (pos 7) "Bob").1
        (pos 9)
        (pos 7)
      ≡ some true)
    × (check_friend_relation faultless
          (add_friend everyone faultless applied (pos 9) (pos 7) "Bob").1
          (pos 7)
          (pos 9)
        ≡ some true)
unfolding add_friend pair_count
add_friend-friends_example =
    add_friend-friends everyone faultless faultless applied (pos 9) (pos 7) "Bob" refl refl
      (λ e. ground (arith, e)) (λ a b. omega arith) refl refl

abbrev photo : TransferRecord
photo = record {
  id = "f1";
  sender_uid = pos 7;
  receiver_uid = pos 9;
  original_name = "cat.png";
  mime_type = "image/png";
  total_size = 1000;
  uploaded_size = 0;
  sha256 = "00";
  status = uploading;
}

create_file_transfer-IsWithin_example :
    IsWithin 50 (pos 7) (create_file_transfer everyone faultless 50 [] photo).1
unfolding item_count total_bytes
create_file_transfer-IsWithin_example =
    create_file_transfer-IsWithin everyone faultless 50 [] photo (pos 7) (omega arith)
      (record { items = omega arith; bytes = omega arith })

abbrev requests : List (Faults × ℕ × Request)
requests =
    (faultless, 50, create photo)
    ∷ (faultless, 51, advance "f1" (pos 7) 0 1000)
    ∷ (losing, 52, complete "f1" (pos 7))
    ∷ (faultless, 53, download "f1" (pos 9))
    ∷ []

serve_all-IsValid_example : All IsValidTransfer (serve_all everyone (λ r. true) [] requests)
serve_all-IsValid_example = serve_all-IsValid everyone (λ r. true) requests [] tt

abbrev created : List Transfer
created = new_row 50 photo ∷ []

advance_file_upload_once_example :
    (advance_file_upload faultless
      (advance_file_upload faultless created "f1" (pos 7) 0 1000).1
      "f1"
      (pos 7)
      0
      1500).0
    ≡ false
unfolding advance_file_upload commit_result keep_if
advance_file_upload_once_example =
    advance_file_upload_once faultless faultless created "f1" (pos 7) (pos 7) 0 1000 1500
      (omega arith) refl
