-- ===== src/Resource.antt =====
-- servers/resource: the HTTP server that takes uploads piece by piece and gives files to their
-- receivers, over the table file_transfer and the encrypted store. An `Error` is a `Problem`.
pub mod Chunk
pub mod Confirmed
pub mod Access
pub mod Range
pub mod Rights
pub mod Publish
pub mod Published
use distributed_chat_system.Prelude.{
  ℕ, suc, Bool, true, false, not, ◌||◌, ◌&&◌, String, List, [], ◌∷◌, ◌==◌, leb, length, same,
  if◌then◌else◌, Option, none, some, Result, ok, err, ◌>>=◌, ◌>>◌, raise_if, or_raise, string_eq,
}
use distributed_chat_system.Files.Types.{
  TransferStatus, cancelled, uploading, available, downloaded, expired, TransferRecord, Transfer,
}
use distributed_chat_system.Files.Store.{codes}

-- An `Error` with its status; the conflict that carries the confirmed offset; any other exception.
pub data Problem : Type 0 where
  error : ℕ → Problem
  offset_conflict : ℕ → Problem
  internal : Problem

-- require.
abbrev pub require : Bool → ℕ → Result Problem (Unit {0})
require b status = raise_if (not b) (error status)

unfoldable pub is_hex : ℕ → Bool
is_hex c = (leb 48 c && leb c 57) || (leb 97 c && leb c 102)

unfoldable pub valid_from : ℕ → List ℕ → Bool
unfolding is_hex
valid_from i [] = true
valid_from i (c ∷ cs) =
    (if (i == 8) || (i == 13) || (i == 18) || (i == 23) then c == 45 else is_hex c)
    && valid_from (suc i) cs

unfoldable pub valid_id : String → Bool
unfolding valid_from
valid_id id = (length (codes id) == 36) && valid_from 0 (codes id)

unfoldable pub find_row : String → List Transfer → Option Transfer
find_row id [] = none
find_row id (r ∷ rows) = if same r.file.id id then some r else find_row id rows

-- Service::file.
unfoldable pub file : List Transfer → String → Result Problem Transfer
unfolding valid_id find_row
file rows id = do require (valid_id id) 400; or_raise (find_row id rows) (error 404)

abbrev pub is_expired : ℕ → Transfer → Bool
is_expired now f = leb f.expires_at now

abbrev pub is_cancelled : TransferStatus → Bool
is_cancelled cancelled = true
is_cancelled uploading = false
is_cancelled available = false
is_cancelled downloaded = false
is_cancelled expired = false
