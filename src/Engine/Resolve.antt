-- ===== src/Engine/Resolve.antt =====
-- Step 2 of `BlobEngine::ingest` in engine/engine.cpp: who signed, and for which namespace.
use chromatin_protocol.Prelude.{List, ℕ, Option, none, some, if◌then◌else◌, bytes_eq}
use chromatin_protocol.External.Mdbx.{Mdbx}
use chromatin_protocol.External.Crypto.{Crypto}
use chromatin_protocol.Codec.{
  BlobData, is_tombstone, is_delegation, is_bomb, is_pubkey_blob, extract_pubk_signing_pk,
}
use chromatin_protocol.Storage.Layout.{Storage}
use chromatin_protocol.Storage.Query.{get_owner_pubkey, get_delegate_pubkey_by_hint}
use chromatin_protocol.Engine.Config.{World, IngestError}

-- Who signed, as far as Step 2 finds out.
pub data Signer : Type 0 where
  owner : List ℕ → Signer
  delegate : List ℕ → Signer
  refused : IngestError → Signer

-- What a delegate may not write.
unfoldable pub delegate_signer : Option (List ℕ) → List ℕ → Signer
delegate_signer none body = refused IngestError.no_delegation
delegate_signer (some pk) body =
    if is_delegation body
    then refused IngestError.no_delegation
    else if is_tombstone body
    then refused IngestError.no_delegation
    else if is_bomb body
    then refused IngestError.bomb_delegate_not_allowed
    else delegate pk

module _ ⦃M : Mdbx⦄ ⦃C : Crypto⦄ where
  -- The owner lookup: the key at the hint counts if it hashes to the namespace. Hashing waits.
  unfoldable pub owner_signer :
      World → Storage → List ℕ → Option (List ℕ) → Storage × Option (List ℕ)
  owner_signer w s ns none = (s, none)
  owner_signer w s ns (some pk) =
      (w.others 0 s, if bytes_eq (C.sha3_256 pk) ns then some pk else none)

  -- The rest of Step 2: the key inside a PUBK, and else a delegation.
  unfoldable pub other_signer :
      World → List ℕ → BlobData → Storage × Option (List ℕ) → Storage × Signer
  other_signer w ns blob (s, some pk) = (s, owner pk)
  other_signer w ns blob (s, none) =
      if is_pubkey_blob blob.body
      then (let embedded = extract_pubk_signing_pk blob.body in
          (
            w.others 1 s,
            if bytes_eq (C.sha3_256 embedded) ns
                then owner embedded
                else refused IngestError.namespace_mismatch,
          ))
      else (s, delegate_signer (get_delegate_pubkey_by_hint s ns blob.signer_hint) blob.body)

  unfoldable pub resolve_signer : World → Storage → List ℕ → BlobData → Storage × Signer
  resolve_signer w s ns blob =
      other_signer w ns blob (owner_signer w s ns (get_owner_pubkey s blob.signer_hint))
