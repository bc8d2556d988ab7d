-- ===== src/Files/Types.antt =====
-- common/FileTransferTypes.h, and a row of the table file_transfer of database/schema.sql. A status
-- is stored as its text; the operations only write texts of `TransferStatus`.
use distributed_chat_system.Prelude.{ℕ, ◌*◌, ℤ, String, Bool, true, false, Option}

pub data TransferStatus : Type 0 where
  uploading available downloaded cancelled expired : TransferStatus

pub record TransferRecord : Type 0 where
  pub id : String
  pub sender_uid : ℤ
  pub receiver_uid : ℤ
  pub original_name : String
  pub mime_type : String
  pub total_size : ℕ
  pub uploaded_size : ℕ
  pub sha256 : String
  pub status : TransferStatus

pub record Transfer : Type 0 where
  pub file : TransferRecord
  pub completed_at : Option ℕ
  pub downloaded_at : Option ℕ
  pub expires_at : ℕ

abbrev pub max_file_bytes : ℕ
max_file_bytes = 100 * 1024 * 1024

-- status='uploading'
abbrev pub is_uploading : TransferStatus → Bool
is_uploading uploading = true
is_uploading available = false
is_uploading downloaded = false
is_uploading cancelled = false
is_uploading expired = false

-- status IN('available','downloaded')
abbrev pub is_available : TransferStatus → Bool
is_available uploading = false
is_available available = true
is_available downloaded = true
is_available cancelled = false
is_available expired = false

-- status IN('uploading','available','downloaded')
abbrev pub is_live : TransferStatus → Bool
is_live uploading = true
is_live available = true
is_live downloaded = true
is_live cancelled = false
is_live expired = false
