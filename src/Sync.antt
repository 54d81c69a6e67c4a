-- ===== src/Sync.antt =====
-- sync/sync_protocol.cpp: which hashes a node offers, which blobs it hands out, and how it takes in
-- those of a peer. `Wire` has the messages.
pub mod Wire
pub mod Transfer
pub mod Served
pub mod Vouched
mod Runs
use chromatin_protocol.Prelude.{
  ℕ, ◌+◌, ◌%◌, ◌^◌, List, [], ◌∷◌, Bool, true, false, not, Option, none, some, if◌then◌else◌,
  length,
}
use chromatin_protocol.External.Mdbx.{Mdbx}
use chromatin_protocol.External.Crypto.{Crypto}
use chromatin_protocol.Codec.{BlobData, is_blob_expired, is_tombstone, saturating_expiry}
use chromatin_protocol.Storage.Layout.{Storage}
use chromatin_protocol.Storage.Query.{get_blob}
use chromatin_protocol.Storage.Listing.{get_hashes_by_namespace}
use chromatin_protocol.Engine.Config.{
  Engine, World, IngestError, IngestStatus, IngestResult, WriteAck,
}
use chromatin_protocol.Engine.Ingest.{ingest}

pub record NamespacedBlob : Type 0 where
  pub target_namespace : List ℕ
  pub blob : BlobData

pub record SyncStats : Type 0 where
  pub blobs_sent : ℕ
  pub blobs_received : ℕ
  pub namespaces_synced : ℕ
  pub storage_full_count : ℕ
  pub quota_exceeded_count : ℕ

-- The arguments of the callback `OnBlobIngested`.
pub record Notification : Type 0 where
  pub namespace_id : List ℕ
  pub blob_hash : List ℕ
  pub seq_num : ℕ
  pub blob_data_size : ℕ
  pub tombstone : Bool
  pub expiry_time : ℕ

-- A blob that is there and whose time has not come.
unfoldable pub is_live : ℕ → Option BlobData → Bool
is_live now none = false
is_live now (some blob) = not (is_blob_expired blob now)

unfoldable pub push_live : ℕ → Option BlobData → List BlobData → List BlobData
push_live now none blobs = blobs
push_live now (some blob) blobs = if is_blob_expired blob now then blobs else blob ∷ blobs

module _ ⦃M : Mdbx⦄ ⦃C : Crypto⦄ where
  unfoldable pub keep_live : ℕ → Storage → List ℕ → List (List ℕ) → List (List ℕ)
  unfolding is_live
  keep_live now s ns [] = []
  keep_live now s ns (hash ∷ hashes) =
      let rest = keep_live now s ns hashes in
      if is_live now (get_blob s ns hash) then hash ∷ rest else rest

  unfoldable pub collect_namespace_hashes : ℕ → Storage → List ℕ → List (List ℕ)
  unfolding keep_live
  collect_namespace_hashes now s ns = keep_live now s ns (get_hashes_by_namespace s ns)

  unfoldable pub get_blobs_by_hashes : ℕ → Storage → List ℕ → List (List ℕ) → List BlobData
  unfolding push_live
  get_blobs_by_hashes now s ns [] = []
  get_blobs_by_hashes now s ns (hash ∷ hashes) =
      push_live now (get_blob s ns hash) (get_blobs_by_hashes now s ns hashes)

-- The store, the counters and what subscribers were told, latest first.
pub record Ingesting ⦃M : Mdbx⦄ : Type 0 where
  pub storage : Storage
  pub stats : SyncStats
  pub notified : List Notification

unfoldable pub count_error : IngestError → SyncStats → SyncStats
count_error IngestError.storage_full stats = record stats {
  storage_full_count = (stats.storage_full_count + 1) % 2 ^ 32;
}
count_error IngestError.quota_exceeded stats = record stats {
  quota_exceeded_count = (stats.quota_exceeded_count + 1) % 2 ^ 32;
}
count_error _ stats = stats

unfoldable pub notify :
    NamespacedBlob → WriteAck → IngestStatus → List Notification → List Notification
notify nb ack IngestStatus.duplicate notified = notified
notify nb ack IngestStatus.stored notified =
    record {
      namespace_id = nb.target_namespace;
      blob_hash = ack.blob_hash;
      seq_num = ack.seq_num;
      blob_data_size = length nb.blob.body % 2 ^ 32;
      tombstone = is_tombstone nb.blob.body;
      expiry_time = saturating_expiry nb.blob.timestamp nb.blob.ttl;
    }
    ∷ notified

module _ ⦃M : Mdbx⦄ where
  unfoldable pub take_result : Ingesting → NamespacedBlob → Storage × IngestResult → Ingesting
  unfolding count_error notify
  take_result g nb (s, IngestResult.success ack) = record {
    storage = s;
    stats = record (g.stats) { blobs_received = (g.stats.blobs_received + 1) % 2 ^ 32 };
    notified = notify nb ack ack.status g.notified;
  }
  take_result g nb (s, IngestResult.rejection err) = record g {
    storage = s;
    stats = count_error err g.stats;
  }

module _ ⦃M : Mdbx⦄ ⦃C : Crypto⦄ where
  unfoldable pub ingest_one : Engine → World → ℕ → Ingesting → NamespacedBlob → Ingesting
  unfolding take_result
  ingest_one e w now g nb =
      if is_blob_expired nb.blob now
      then g
      else take_result g nb (ingest e w g.storage nb.target_namespace nb.blob)

  -- Every blob meets surroundings of its own; `i` numbers them.
  unfoldable pub ingest_blobs :
      Engine → (ℕ → World) → ℕ → ℕ → Ingesting → List NamespacedBlob → Ingesting
  unfolding ingest_one
  ingest_blobs e ws now i g [] = g
  ingest_blobs e ws now i g (nb ∷ nbs) =
      ingest_blobs e ws now (i + 1) (ingest_one e (ws i) now g nb) nbs
