-- ===== src/Engine/Delete.antt =====
-- `BlobEngine::delete_blob` of engine/engine.cpp, step by step.
use chromatin_protocol.Prelude.{ℕ, List, not, Option, none, some, ◌==◌, if◌then◌else◌, length}
use chromatin_protocol.External.Mdbx.{Mdbx}
use chromatin_protocol.External.Crypto.{Crypto}
use chromatin_protocol.Codec.{BlobData, is_tombstone, extract_tombstone_target}
use chromatin_protocol.Storage.Layout.{Storage}
use chromatin_protocol.Storage.Query.{get_owner_pubkey}
use chromatin_protocol.Storage.Write.{store_blob}
use chromatin_protocol.Storage.Erase.{delete_blob_data}
use chromatin_protocol.Engine.Config.{World, IngestError, IngestResult, bad_timestamp, result_for}
use chromatin_protocol.Engine.Resolve.{owner_signer}
use chromatin_protocol.Engine.Ingest.{build_signing_input}

module _ ⦃M : Mdbx⦄ where
  -- Steps 0c to 1.
  unfoldable pub delete_checks : World → BlobData → Option IngestError
  delete_checks w request =
      if bad_timestamp (w.clock 0) request.timestamp
      then some IngestError.timestamp_rejected
      else if not (request.ttl == 0)
      then some IngestError.invalid_ttl
      else if length request.signature == 0
      then some IngestError.malformed_blob
      else if not (is_tombstone request.body)
      then some IngestError.malformed_blob
      else none

module _ ⦃M : Mdbx⦄ ⦃C : Crypto⦄ where
  -- Steps 4 and 5: the target goes, and the request itself is stored as the tombstone.
  unfoldable pub delete_and_store : World → Storage → List ℕ → BlobData → Storage × IngestResult
  delete_and_store w s ns request =
      let target_hash = extract_tombstone_target request.body in
      let (s', r) = store_blob (w.io 2) (delete_blob_data (w.io 3) s ns target_hash).0 ns request in
      (s', result_for r r.status)

  -- Steps 2 and 3. A delegate is refused with the same error as a stranger.
  unfoldable pub delete_with :
      World → List ℕ → BlobData → Storage × Option (List ℕ) → Storage × IngestResult
  delete_with w ns request (s, none) = (s, IngestResult.rejection IngestError.no_delegation)
  delete_with w ns request (s, some pk) =
      if not (
        C.verify (build_signing_input ns request.body request.ttl request.timestamp)
          request.signature pk)
      then (w.others 3 s, IngestResult.rejection IngestError.invalid_signature)
      else delete_and_store w (w.others 3 s) ns request

  unfoldable pub delete_after :
      World → Storage → List ℕ → BlobData → Option IngestError → Storage × IngestResult
  delete_after w s ns request (some err) = (s, IngestResult.rejection err)
  delete_after w s ns request none =
      delete_with w ns request (owner_signer w s ns (get_owner_pubkey s request.signer_hint))

  unfoldable pub delete_blob : World → Storage → List ℕ → BlobData → Storage × IngestResult
  delete_blob w s ns request = delete_after w s ns request (delete_checks w request)
