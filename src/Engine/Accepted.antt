-- ===== src/Engine/Accepted.antt =====
-- What passes the checks that come before any cryptography.
use chromatin_protocol.Prelude.{
  ℕ, ◌+◌, ◌^◌, ◌≤◌, ◌<◌, ◌≡◌, ◌⊎◌, ◌↔◌, refl, arith, true, false, Option, none, some, List, length,
}
use chromatin_protocol.External.Mdbx.{Mdbx}
use chromatin_protocol.External.Crypto.{Crypto}
use chromatin_protocol.Codec.{
  BlobData, is_tombstone, is_bomb, has_bomb_magic, is_pubkey_blob, saturating_expiry,
  validate_bomb_structure,
}
use chromatin_protocol.Storage.Layout.{Storage}
use chromatin_protocol.Storage.Query.{has_owner_pubkey}
use chromatin_protocol.Engine.Config.{
  Engine, World, IngestError, IngestResult, WriteAck, bad_timestamp,
}
use chromatin_protocol.Engine.Checks.{cheap_checks, bad_ttl, bomb_check}
use chromatin_protocol.Engine.Ingest.{after_checks, ingest}

-- With a clock from the thirtieth day of 1970 on and below the last hour of a uint64, a timestamp
-- passes exactly if it is at most an hour ahead and at most thirty days back.
pub bad_timestamp_iff :
    (now timestamp : ℕ)
    → 2592000 ≤ now
    → now + 3600 < 2 ^ 64
    → (bad_timestamp now timestamp ≡ false)
      ↔ ((timestamp ≤ now + 3600) × (now ≤ timestamp + 2592000))
unfolding bad_timestamp
bad_timestamp_iff now timestamp lo hi = (λ h. ground arith, λ h. ground arith)

-- What `ingest` has established before the first signature check.
pub record WithinLimits ⦃M : Mdbx⦄ (e : Engine) (w : World) (s : Storage) (ns : List ℕ)
    (blob : BlobData) : Type 0 where
  pub size : length blob.body ≤ e.blob_max_bytes
  pub timely : bad_timestamp (w.clock 0) blob.timestamp ≡ false
  pub alive : (blob.ttl ≡ 0) ⊎ (w.clock 1 < saturating_expiry blob.timestamp blob.ttl)
  pub ttl :
      (e.max_ttl_seconds ≡ 0)
      ⊎ ((is_tombstone blob.body ≡ true)
          ⊎ ((is_bomb blob.body ≡ true) ⊎ ((0 < blob.ttl) × (blob.ttl ≤ e.max_ttl_seconds))))
  pub signed : 0 < length blob.signature
  pub registered : (has_owner_pubkey s ns ≡ true) ⊎ (is_pubkey_blob blob.body ≡ true)
  pub bomb : (has_bomb_magic blob.body ≡ false) ⊎ ((blob.ttl ≡ 0) × (is_bomb blob.body ≡ true))
  pub capacity :
      (e.max_storage_bytes ≡ 0)
      ⊎ ((is_tombstone blob.body ≡ true) ⊎ ((w.io 0).used_bytes < e.max_storage_bytes))

module _ ⦃M : Mdbx⦄ (e : Engine) (w : World) (s : Storage) (ns : List ℕ) (blob : BlobData) where
  bomb_check-none :
      bomb_check blob ≡ none
      → (has_bomb_magic blob.body ≡ false) ⊎ ((blob.ttl ≡ 0) × (is_bomb blob.body ≡ true))
  unfolding bomb_check validate_bomb_structure
  bomb_check-none h = ground arith

  cheap_checks-WithinLimits : cheap_checks e w s ns blob ≡ none → WithinLimits e w s ns blob
  unfolding cheap_checks bad_ttl
  cheap_checks-WithinLimits h = ground (arith, bomb_check-none)

  after_checks-passed :
      ⦃C : Crypto⦄ (checked : Option IngestError) (ack : WriteAck)
      → (after_checks e w s ns blob checked).1 ≡ IngestResult.success ack
      → checked ≡ none
  unfolding after_checks
  after_checks-passed (some err) ack ok = cc
  after_checks-passed none ack ok = refl

-- Every blob that `ingest` acknowledges, as stored or as a duplicate, is within the size cap, timely,
-- alive, within the ttl limit unless exempt, carries a signature, goes to a registered namespace
-- or is a PUBK, is permanent and well formed if it has the BOMB magic, and met a store that was not
-- full unless it is a tombstone.
pub ingest-WithinLimits :
    ⦃M : Mdbx⦄ ⦃C : Crypto⦄ (e : Engine) (w : World) (s : Storage) (ns : List ℕ) (blob : BlobData)
    (ack : WriteAck)
    → (ingest e w s ns blob).1 ≡ IngestResult.success ack
    → WithinLimits e w s ns blob
unfolding ingest
ingest-WithinLimits e w s ns blob ack ok =
    cheap_checks-WithinLimits e w s ns blob
      (after_checks-passed e w s ns blob (cheap_checks e w s ns blob) ack ok)
