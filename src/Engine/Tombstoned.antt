-- ===== src/Engine/Tombstoned.antt =====
-- A tombstone keeps its target out.
use chromatin_protocol.Prelude.{
  ℕ, ◌≡◌, ◌≢◌, arith, true, false, Option, none, some, List, Bool-cases, inl, inr,
}
use chromatin_protocol.External.Mdbx.{Mdbx}
use chromatin_protocol.External.Crypto.{Crypto}
use chromatin_protocol.Codec.{BlobData, is_tombstone, is_bomb}
use chromatin_protocol.Storage.Layout.{Storage}
use chromatin_protocol.Storage.Query.{has_blob, has_tombstone_for}
use chromatin_protocol.Engine.Config.{
  Engine, World, IngestError, IngestStatus, IngestResult, WriteAck,
}
use chromatin_protocol.Engine.Checks.{cheap_checks}
use chromatin_protocol.Engine.Resolve.{
  Signer, owner, delegate, refused, owner_signer, other_signer, resolve_signer,
}
use chromatin_protocol.Engine.Ingest.{
  quota_full, deletions, after_deletions, verify_and_store, with_key, with_signer, after_checks,
  ingest,
}

module _ ⦃M : Mdbx⦄ ⦃C : Crypto⦄ (e : Engine) (w : World) (ns : List ℕ) (blob : BlobData)
    (plain : is_tombstone blob.body ≡ false) (no_bomb : is_bomb blob.body ≡ false) (ack : WriteAck)
    (st : ack.status ≡ IngestStatus.stored) where
  abbrev content_hash : List ℕ
  content_hash = C.sha3_256 (C.encode_blob blob)

  abbrev IsBlocked : Storage → Type 0
  IsBlocked t = has_tombstone_for t ns content_hash ≡ true

  verify_and_store-blocked :
      (s : Storage) (pk : List ℕ)
      → IsBlocked (w.others 3 s)
      → (verify_and_store e w s ns blob content_hash (C.encode_blob blob) pk).1
        ≢ IngestResult.success ack
  unfolding verify_and_store deletions after_deletions
  verify_and_store-blocked s pk b = rw (plain, no_bomb, b) (λ ok. ground arith)

  module _ (kept : (i : ℕ) (t : Storage) → IsBlocked t → IsBlocked (w.others i t)) where
    with_key-blocked :
        (s : Storage) (pk : List ℕ)
        → IsBlocked s
        → (with_key e w s ns blob pk).1 ≢ IngestResult.success ack
    unfolding with_key
    with_key-blocked s pk b = elim (Bool-cases (quota_full e s ns blob (C.encode_blob blob))) [
      | inl q ↦ rw q (λ ok. cc)
      | inr q ↦ elim (Bool-cases (has_blob (w.others 2 s) ns content_hash)) [
        | inl d ↦ rw (q, d) (λ ok. cc (ok, st))
        | inr d ↦ rw (q, d) (verify_and_store-blocked (w.others 2 s) pk (kept 3 _ (kept 2 s b)))
      ]
    ]

    with_signer-blocked :
        (p : Storage × Signer)
        → IsBlocked p.0
        → (with_signer e w ns blob p).1 ≢ IngestResult.success ack
    unfolding with_signer
    with_signer-blocked (s, owner pk) b = with_key-blocked s pk b
    with_signer-blocked (s, delegate pk) b = with_key-blocked s pk b
    with_signer-blocked (s, refused err) b = λ ok. cc

    resolve_signer-IsBlocked :
        (s : Storage) → IsBlocked s → IsBlocked (resolve_signer w s ns blob).0
    unfolding resolve_signer other_signer owner_signer
    resolve_signer-IsBlocked s b = ground (arith, kept 0 s, kept 1 s, kept 1 (w.others 0 s))

    after_checks-blocked :
        (s : Storage) (checked : Option IngestError)
        → IsBlocked s
        → (after_checks e w s ns blob checked).1 ≢ IngestResult.success ack
    unfolding after_checks
    after_checks-blocked s (some err) b = λ ok. cc
    after_checks-blocked s none b =
        with_signer-blocked (resolve_signer w s ns blob) (resolve_signer-IsBlocked s b)

-- While reads find a tombstone for its content hash, so that none of them throws, a blob that is
-- neither a tombstone nor a batch is never acknowledged as stored by `ingest`, whoever signed it. A
-- read that throws counts as finding none.
pub tombstone_blocks :
    ⦃M : Mdbx⦄ ⦃C : Crypto⦄ (e : Engine) (w : World) (s : Storage) (ns : List ℕ) (blob : BlobData)
    (ack : WriteAck)
    → is_tombstone blob.body ≡ false
    → is_bomb blob.body ≡ false
    → ((i : ℕ) (t : Storage)
        → has_tombstone_for t ns (C.sha3_256 (C.encode_blob blob)) ≡ true
        → has_tombstone_for (w.others i t) ns (C.sha3_256 (C.encode_blob blob)) ≡ true)
    → has_tombstone_for s ns (C.sha3_256 (C.encode_blob blob)) ≡ true
    → ack.status ≡ IngestStatus.stored
    → (ingest e w s ns blob).1 ≢ IngestResult.success ack
unfolding ingest
tombstone_blocks e w s ns blob ack plain no_bomb kept b st =
    after_checks-blocked e w ns blob plain no_bomb ack st kept s (cheap_checks e w s ns blob) b
