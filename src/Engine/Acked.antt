-- ===== src/Engine/Acked.antt =====
-- The hash that `ingest` acknowledges.
use chromatin_protocol.Prelude.{
  ℕ, ◌⊎◌, ◌≡◌, refl, arith, Option, none, some, List, Bool-cases, inl, inr,
}
use chromatin_protocol.External.Mdbx.{Mdbx}
use chromatin_protocol.External.Crypto.{Crypto}
use chromatin_protocol.Codec.{BlobData}
use chromatin_protocol.Storage.Layout.{Storage, Io, Status, StoreResult}
use chromatin_protocol.Storage.Query.{has_blob}
use chromatin_protocol.Storage.Write.{store_blob_limited, store_txn, write_blob}
use chromatin_protocol.Engine.Config.{
  Engine, World, IngestError, IngestResult, WriteAck, result_for, ack_of,
}
use chromatin_protocol.Engine.Checks.{cheap_checks}
use chromatin_protocol.Engine.Resolve.{Signer, owner, delegate, refused, resolve_signer}
use chromatin_protocol.Engine.Ingest.{
  quota_full, deletions, register_pubk, store_step, store_registered, after_deletions,
  verify_and_store, with_key, with_signer, after_checks, ingest,
}

module _ ⦃M : Mdbx⦄ ⦃C : Crypto⦄ (e : Engine) (w : World) (ns : List ℕ) (blob : BlobData)
    (ack : WriteAck) where
  abbrev content_hash : List ℕ
  content_hash = C.sha3_256 (C.encode_blob blob)

  -- What is acknowledged is the hash of the blob.
  abbrev Acked : IngestResult → Type 0
  Acked r = r ≡ IngestResult.success ack → ack.blob_hash ≡ content_hash

  result_for-Acked :
      (r : StoreResult) (status : Status)
      → (status ≡ Status.error) ⊎ (r.blob_hash ≡ content_hash)
      → Acked (result_for r status)
  unfolding result_for ack_of
  result_for-Acked r Status.stored (inl h) ok = cc
  result_for-Acked r Status.stored (inr h) ok = cc (ok, h)
  result_for-Acked r Status.duplicate (inl h) ok = cc
  result_for-Acked r Status.duplicate (inr h) ok = cc (ok, h)
  result_for-Acked r Status.capacity_exceeded h ok = cc
  result_for-Acked r Status.quota_exceeded h ok = cc
  result_for-Acked r Status.error h ok = cc

  stored_hash :
      (io : Io) (s : Storage) (encoded : List ℕ) (m b c : ℕ)
      → let r = (store_blob_limited io s ns blob content_hash encoded m b c).1 in
        (r.status ≡ Status.error) ⊎ (r.blob_hash ≡ content_hash)
  unfolding store_blob_limited store_txn write_blob
  stored_hash io s encoded m b c = elim (Bool-cases io.works) [
    | inl o ↦ inr (ground arith)
    | inr o ↦ inl (rw o refl)
  ]

  store_registered-Acked :
      (s : Storage) (encoded : List ℕ) (r : Option Storage)
      → Acked (store_registered e w s ns blob content_hash encoded r).1
  unfolding store_registered store_step
  store_registered-Acked s encoded none ok = cc
  store_registered-Acked s encoded (some s') ok =
      result_for-Acked _ _ (stored_hash (w.io 2) s' encoded _ _ _) ok

  after_deletions-Acked :
      (encoded : List ℕ) (p : Storage × Option IngestError)
      → Acked (after_deletions e w ns blob content_hash encoded p).1
  unfolding after_deletions
  after_deletions-Acked encoded (t, some err) ok = cc
  after_deletions-Acked encoded (t, none) ok =
      store_registered-Acked t encoded (register_pubk w t blob) ok

  verify_and_store-Acked :
      (s : Storage) (encoded pk : List ℕ)
      → Acked (verify_and_store e w s ns blob content_hash encoded pk).1
  unfolding verify_and_store
  verify_and_store-Acked s encoded pk ok =
      ground
        (arith, after_deletions-Acked encoded (deletions w (w.others 3 s) ns blob content_hash))

  with_key-Acked : (s : Storage) (pk : List ℕ) → Acked (with_key e w s ns blob pk).1
  unfolding with_key
  with_key-Acked s pk = elim (Bool-cases (quota_full e s ns blob (C.encode_blob blob))) [
    | inl q ↦ rw q (λ ok. cc)
    | inr q ↦ elim (Bool-cases (has_blob (w.others 2 s) ns content_hash)) [
      | inl d ↦ rw (q, d) (λ ok. cc)
      | inr d ↦ rw (q, d) (verify_and_store-Acked (w.others 2 s) (C.encode_blob blob) pk)
    ]
  ]

  with_signer-Acked : (p : Storage × Signer) → Acked (with_signer e w ns blob p).1
  unfolding with_signer
  with_signer-Acked (s, owner pk) = with_key-Acked s pk
  with_signer-Acked (s, delegate pk) = with_key-Acked s pk
  with_signer-Acked (s, refused err) = λ ok. cc

  after_checks-Acked :
      (s : Storage) (checked : Option IngestError) → Acked (after_checks e w s ns blob checked).1
  unfolding after_checks
  after_checks-Acked s (some err) = λ ok. cc
  after_checks-Acked s none = with_signer-Acked (resolve_signer w s ns blob)

-- Whatever other coroutines do to the store during the waits, and whether the blob is stored or was
-- there already: what `ingest` acknowledges is the hash of the encoded blob.
pub ingest-hash :
    ⦃M : Mdbx⦄ ⦃C : Crypto⦄ (e : Engine) (w : World) (s : Storage) (ns : List ℕ) (blob : BlobData)
    (ack : WriteAck)
    → (ingest e w s ns blob).1 ≡ IngestResult.success ack
    → ack.blob_hash ≡ C.sha3_256 (C.encode_blob blob)
unfolding ingest
ingest-hash e w s ns blob ack ok =
    after_checks-Acked e w ns blob ack s (cheap_checks e w s ns blob) ok
