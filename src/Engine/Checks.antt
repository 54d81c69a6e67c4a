-- ===== src/Engine/Checks.antt =====
-- Steps 0 to 1.7 of `BlobEngine::ingest` in engine/engine.cpp.
use chromatin_protocol.Prelude.{
  ℕ, List, Bool, false, ◌&&◌, ◌||◌, not, Option, none, some, ltb, leb, ◌==◌, if◌then◌else◌, length,
}
use chromatin_protocol.External.Mdbx.{Mdbx}
use chromatin_protocol.Codec.{
  BlobData, saturating_expiry, is_tombstone, is_bomb, has_bomb_magic, validate_bomb_structure,
  is_pubkey_blob,
}
use chromatin_protocol.Storage.Layout.{Storage}
use chromatin_protocol.Storage.Query.{has_owner_pubkey}
use chromatin_protocol.Engine.Config.{Engine, World, IngestError, bad_timestamp}

-- Step 0e: tombstones and batches are exempt.
unfoldable pub bad_ttl : Engine → BlobData → Bool
bad_ttl e blob =
    if ltb 0 e.max_ttl_seconds && (not (is_tombstone blob.body) && not (is_bomb blob.body))
    then blob.ttl == 0 || ltb e.max_ttl_seconds blob.ttl
    else false

-- Step 1.7: a payload with the BOMB magic must be permanent and well formed.
unfoldable pub bomb_check : BlobData → Option IngestError
bomb_check blob =
    if has_bomb_magic blob.body
    then (if not (blob.ttl == 0)
        then some IngestError.bomb_ttl_nonzero
        else if not (validate_bomb_structure blob.body)
        then some IngestError.bomb_malformed
        else none)
    else none

module _ ⦃M : Mdbx⦄ where
  -- Steps 0 to 1.7, which come before any cryptography.
  unfoldable pub cheap_checks : Engine → World → Storage → List ℕ → BlobData → Option IngestError
  cheap_checks e w s ns blob =
      if ltb e.blob_max_bytes (length blob.body)
      then some IngestError.oversized_blob
      else if ltb 0 e.max_storage_bytes
          && (not (is_tombstone blob.body) && leb e.max_storage_bytes (w.io 0).used_bytes)
      then some IngestError.storage_full
      else if bad_timestamp (w.clock 0) blob.timestamp
      then some IngestError.timestamp_rejected
      else if ltb 0 blob.ttl && leb (saturating_expiry blob.timestamp blob.ttl) (w.clock 1)
      then some IngestError.timestamp_rejected
      else if bad_ttl e blob
      then some IngestError.invalid_ttl
      else if length blob.signature == 0
      then some IngestError.malformed_blob
      else if not (has_owner_pubkey s ns) && not (is_pubkey_blob blob.body)
      then some IngestError.pubk_first_violation
      else bomb_check blob
