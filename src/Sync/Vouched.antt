-- ===== src/Sync/Vouched.antt =====
-- What subscribers are told of during a sync was verified.
use mathlib.Core.List.{Mem}
use chromatin_protocol.Prelude.{ℕ, ◌%◌, ◌^◌, length, ◌≡◌, List, true, false}
use chromatin_protocol.External.Mdbx.{Mdbx}
use chromatin_protocol.External.Crypto.{Crypto}
use chromatin_protocol.Codec.{is_tombstone, is_blob_expired, saturating_expiry}
use chromatin_protocol.Storage.Layout.{Storage}
use chromatin_protocol.Engine.Config.{Engine, World, IngestStatus, IngestResult, WriteAck}
use chromatin_protocol.Engine.Ingest.{build_signing_input, ingest}
use chromatin_protocol.Sync.{NamespacedBlob, Notification}

-- What is said of a blob that came in for a namespace: its time had not come, its signature on the
-- namespace, the payload, the ttl and the timestamp verifies under some key, and in some state
-- `ingest` acknowledged it as stored. Every part of the notification is that of this blob or of the
-- acknowledgement.
pub record IsVouchedFor ⦃M : Mdbx⦄ ⦃C : Crypto⦄ (e : Engine) (now : ℕ) (nb : NamespacedBlob)
    (n : Notification) : Type 0 where
  pub named : n.namespace_id ≡ nb.target_namespace
  pub hashed : n.blob_hash ≡ C.sha3_256 (C.encode_blob nb.blob)
  pub sized : n.blob_data_size ≡ length nb.blob.body % 2 ^ 32
  pub marked : n.tombstone ≡ is_tombstone nb.blob.body
  pub expires : n.expiry_time ≡ saturating_expiry nb.blob.timestamp nb.blob.ttl
  pub live : is_blob_expired nb.blob now ≡ false
  pub key : List ℕ
  pub verified :
      C.verify
        (build_signing_input nb.target_namespace nb.blob.body nb.blob.ttl nb.blob.timestamp)
        nb.blob.signature
        key
      ≡ true
  pub world : World
  pub store : Storage
  pub ack : WriteAck
  pub acknowledged : (ingest e world store nb.target_namespace nb.blob).1 ≡ IngestResult.success ack
  pub is_stored : ack.status ≡ IngestStatus.stored
  pub numbered : n.seq_num ≡ ack.seq_num

-- One of the blobs is what the notification is about.
abbrev pub IsAbout :
    ⦃M : Mdbx⦄ → ⦃C : Crypto⦄ → Engine → ℕ → List NamespacedBlob → Notification → Type 0
IsAbout e now nbs n = (nb : NamespacedBlob) × Mem nb nbs × IsVouchedFor e now nb n
