-- ===== src/Storage/Progress.antt =====
-- The sync cursors of storage/storage.cpp: how far a peer is in a namespace.
mod Runs
pub mod Laws
use chromatin_protocol.Prelude.{ℕ, List, Bool, not, Option, none, some, ◌==◌, if◌then◌else◌, length}
use chromatin_protocol.External.Mdbx.{Mdbx}
use chromatin_protocol.Storage.Layout.{
  Storage, Io, read, make_cursor_key, SyncCursor, encode_cursor_value, decode_cursor_value,
}

abbrev pub cursor_value_size : ℕ
cursor_value_size = 20

unfoldable pub cursor_in : Option (List ℕ) → Option SyncCursor
cursor_in none = none
cursor_in (some v) =
    if not (length v == cursor_value_size) then none else some (decode_cursor_value v)

module _ ⦃M : Mdbx⦄ where
  unfoldable pub get_sync_cursor : Storage → List ℕ → List ℕ → Option SyncCursor
  unfolding cursor_in read
  get_sync_cursor s peer_hash ns = cursor_in (read s (make_cursor_key peer_hash ns) s.cursors)

  unfoldable pub set_sync_cursor : Io → Storage → List ℕ → List ℕ → SyncCursor → Storage
  set_sync_cursor io s peer_hash ns cursor =
      if io.works
      then record s {
        cursors = M.upsert (make_cursor_key peer_hash ns) (encode_cursor_value cursor) s.cursors;
      }
      else s

  unfoldable pub delete_sync_cursor : Io → Storage → List ℕ → List ℕ → Storage
  delete_sync_cursor io s peer_hash ns =
      if io.works
      then record s { cursors = M.erase (make_cursor_key peer_hash ns) s.cursors }
      else s
