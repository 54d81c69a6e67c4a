-- ===== src/Engine/Ingest.antt =====
-- `BlobEngine::ingest` of engine/engine.cpp, step by step.
use chromatin_protocol.Prelude.{
  ℕ, ◌+◌, List, [], ◌∷◌, ◌++◌, Bool, ◌&&◌, ◌||◌, not, Option, none, some, ltb, if◌then◌else◌,
  length,
}
use chromatin_protocol.Endian.{store_u32_be, store_u64_be}
use chromatin_protocol.External.Mdbx.{Mdbx}
use chromatin_protocol.External.Crypto.{Crypto}
use chromatin_protocol.Codec.{
  BlobData, is_tombstone, extract_tombstone_target, is_bomb, extract_bomb_targets, is_pubkey_blob,
  extract_pubk_signing_pk,
}
use chromatin_protocol.Storage.Layout.{Storage, StoreResult}
use chromatin_protocol.Storage.Query.{has_blob, has_tombstone_for, get_namespace_quota}
use chromatin_protocol.Storage.Write.{store_blob_limited, over_quota}
use chromatin_protocol.Storage.Erase.{delete_blob_data}
use chromatin_protocol.Storage.Owners.{register_owner_pubkey}
use chromatin_protocol.Engine.Config.{
  Engine, World, IngestError, IngestStatus, IngestResult, effective_quota, result_for,
}
use chromatin_protocol.Engine.Checks.{cheap_checks}
use chromatin_protocol.Engine.Resolve.{Signer, owner, delegate, refused, resolve_signer}

-- wire/codec.cpp: the digest that a signature is over.
unfoldable pub build_signing_input : ⦃C : Crypto⦄ → List ℕ → List ℕ → ℕ → ℕ → List ℕ
build_signing_input ⦃C⦄ ns body ttl timestamp =
    C.sha3_256 (ns ++ (body ++ (store_u32_be ttl ++ store_u64_be timestamp)))

module _ ⦃M : Mdbx⦄ ⦃C : Crypto⦄ where
  -- The loop over the targets of a batch; `i` numbers the transactions.
  unfoldable pub delete_targets : World → ℕ → Storage → List ℕ → List (List ℕ) → Storage
  delete_targets w i s ns [] = s
  delete_targets w i s ns (t ∷ ts) =
      delete_targets w (i + 1) (delete_blob_data (w.io i) s ns t).0 ns ts

  -- Step 3.5: the deletions of a tombstone or a batch; a plain blob may be blocked.
  unfoldable pub deletions :
      World → Storage → List ℕ → BlobData → List ℕ → Storage × Option IngestError
  deletions w s ns blob hash =
      if is_tombstone blob.body
      then ((delete_blob_data (w.io 3) s ns (extract_tombstone_target blob.body)).0, none)
      else if is_bomb blob.body
      then (delete_targets w 3 s ns (extract_bomb_targets blob.body), none)
      else if has_tombstone_for s ns hash
      then (s, some IngestError.tombstoned)
      else (s, none)

  -- Step 4.5; `none` is the exception on a mismatch.
  unfoldable pub register_pubk : World → Storage → BlobData → Option Storage
  register_pubk w s blob =
      if is_pubkey_blob blob.body
      then register_owner_pubkey (w.io 1) s blob.signer_hint (extract_pubk_signing_pk blob.body)
      else some s

  -- Step 4.
  unfoldable pub store_step :
      Engine → World → Storage → List ℕ → BlobData → List ℕ → List ℕ → Storage × StoreResult
  store_step e w s ns blob hash encoded =
      let (byte_limit, count_limit) = effective_quota e ns in
      store_blob_limited (w.io 2) s ns blob hash encoded
        (if is_tombstone blob.body then 0 else e.max_storage_bytes) byte_limit count_limit

  unfoldable pub store_registered :
      Engine
      → World
      → Storage
      → List ℕ
      → BlobData
      → List ℕ
      → List ℕ
      → Option Storage
      → Storage × IngestResult
  store_registered e w s ns blob hash encoded none =
      (s, IngestResult.rejection IngestError.pubk_mismatch)
  store_registered e w s ns blob hash encoded (some s') =
      let (s'', r) = store_step e w s' ns blob hash encoded in (s'', result_for r r.status)

  unfoldable pub after_deletions :
      Engine
      → World
      → List ℕ
      → BlobData
      → List ℕ
      → List ℕ
      → Storage × Option IngestError
      → Storage × IngestResult
  after_deletions e w ns blob hash encoded (s, some err) = (s, IngestResult.rejection err)
  after_deletions e w ns blob hash encoded (s, none) =
      store_registered e w s ns blob hash encoded (register_pubk w s blob)

  -- Step 3, after which nothing waits any more.
  unfoldable pub verify_and_store :
      Engine
      → World
      → Storage
      → List ℕ
      → BlobData
      → List ℕ
      → List ℕ
      → List ℕ
      → Storage × IngestResult
  verify_and_store e w s ns blob hash encoded pk =
      if not (C.verify (build_signing_input ns blob.body blob.ttl blob.timestamp) blob.signature pk)
      then (w.others 3 s, IngestResult.rejection IngestError.invalid_signature)
      else after_deletions e w ns blob hash encoded (deletions w (w.others 3 s) ns blob hash)

  -- Step 2a, on the state that Step 2 left.
  unfoldable pub quota_full : Engine → Storage → List ℕ → BlobData → List ℕ → Bool
  quota_full e s ns blob encoded =
      let (byte_limit, count_limit) = effective_quota e ns in
      not (is_tombstone blob.body)
      && ((ltb 0 byte_limit || ltb 0 count_limit)
          && over_quota (get_namespace_quota s ns) (length encoded) byte_limit count_limit)

  -- Steps 2a to 2.5: quota, and the short cut for what is already stored.
  unfoldable pub with_key :
      Engine → World → Storage → List ℕ → BlobData → List ℕ → Storage × IngestResult
  with_key e w s ns blob pk =
      let encoded = C.encode_blob blob in
      let hash = C.sha3_256 encoded in
      if quota_full e s ns blob encoded
      then (s, IngestResult.rejection IngestError.quota_exceeded)
      else if has_blob (w.others 2 s) ns hash
      then (
        w.others 2 s,
        IngestResult.success (record {
          blob_hash = hash;
          seq_num = 0;
          status = IngestStatus.duplicate;
          replication_count = 1;
        }),
      )
      else verify_and_store e w (w.others 2 s) ns blob hash encoded pk

  unfoldable pub with_signer :
      Engine → World → List ℕ → BlobData → Storage × Signer → Storage × IngestResult
  with_signer e w ns blob (s, owner pk) = with_key e w s ns blob pk
  with_signer e w ns blob (s, delegate pk) = with_key e w s ns blob pk
  with_signer e w ns blob (s, refused err) = (s, IngestResult.rejection err)

  unfoldable pub after_checks :
      Engine → World → Storage → List ℕ → BlobData → Option IngestError → Storage × IngestResult
  after_checks e w s ns blob (some err) = (s, IngestResult.rejection err)
  after_checks e w s ns blob none = with_signer e w ns blob (resolve_signer w s ns blob)

  unfoldable pub ingest : Engine → World → Storage → List ℕ → BlobData → Storage × IngestResult
  ingest e w s ns blob = after_checks e w s ns blob (cheap_checks e w s ns blob)
