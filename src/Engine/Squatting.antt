-- ===== src/Engine/Squatting.antt =====
-- What a published key binds in the owner map.
use chromatin_protocol.Prelude.{
  ℕ, ◌≡◌, inl, inr, refl, ◌∙◌, ap, arith, true, Option, none, some, List, length, bytes_eq_self,
  Bool-cases, length-slice,
}
use chromatin_protocol.External.Mdbx.{Mdbx}
use chromatin_protocol.External.Crypto.{Crypto}
use chromatin_protocol.Codec.{BlobData, is_pubkey_blob, extract_pubk_signing_pk}
use chromatin_protocol.Storage.Layout.{Storage, Io, get}
use chromatin_protocol.Storage.Query.{owner_in, owner_of, has_blob}
use chromatin_protocol.Storage.Write.{store_blob_limited, store_txn, write_blob}
use chromatin_protocol.Storage.Owners.Binding.{register_owner_pubkey-view}
use chromatin_protocol.Engine.Config.{
  Engine, World, IngestError, IngestStatus, IngestResult, WriteAck,
}
use chromatin_protocol.Engine.Checks.{cheap_checks}
use chromatin_protocol.Engine.Resolve.{Signer, owner, delegate, refused, resolve_signer}
use chromatin_protocol.Engine.Ingest.{
  build_signing_input, quota_full, deletions, register_pubk, store_step, store_registered,
  after_deletions, verify_and_store, with_key, with_signer, after_checks, ingest,
}

pub length-extract_pubk_signing_pk :
    (body : List ℕ) → is_pubkey_blob body ≡ true → length (extract_pubk_signing_pk body) ≡ 2592
unfolding is_pubkey_blob extract_pubk_signing_pk
length-extract_pubk_signing_pk body h = length-slice 4 2592 body (ground arith)

module _ ⦃M : Mdbx⦄ ⦃C : Crypto⦄ where
  -- The store leaves the owner map alone.
  pub owner_pubkeys-store_blob :
      (io : Io) (s : Storage) (ns : List ℕ) (blob : BlobData) (hash encoded : List ℕ) (m b c : ℕ)
      → (store_blob_limited io s ns blob hash encoded m b c).0.owner_pubkeys ≡ s.owner_pubkeys
  unfolding store_blob_limited store_txn write_blob
  owner_pubkeys-store_blob io s ns blob hash encoded m b c = ground arith

module _ ⦃M : Mdbx⦄ ⦃C : Crypto⦄ (e : Engine) (w : World) (ns : List ℕ) (blob : BlobData)
    (pubk : is_pubkey_blob blob.body ≡ true) (ack : WriteAck)
    (st : ack.status ≡ IngestStatus.stored) where
  store_step-bound :
      (s : Storage) (hash encoded : List ℕ)
      → owner_of (store_step e w s ns blob hash encoded).0 blob.signer_hint
        ≡ owner_of s blob.signer_hint
  unfolding store_step owner_in
  store_step-bound s hash encoded =
      ap (λ m. owner_in (get blob.signer_hint m))
        (owner_pubkeys-store_blob (w.io 2) s ns blob hash encoded _ _ _)

  register-bound :
      (t s' : Storage)
      → register_pubk w t blob ≡ some s'
      → owner_of s' blob.signer_hint ≡ some (extract_pubk_signing_pk blob.body)
  unfolding register_pubk
  register-bound t s' r =
      register_owner_pubkey-view (w.io 1) t s' blob.signer_hint (extract_pubk_signing_pk blob.body)
        blob.signer_hint (length-extract_pubk_signing_pk blob.body pubk) (rw pubk at r)
      ∙ rw (bytes_eq_self blob.signer_hint)

  -- The state that an acknowledged call leaves binds the hint to the embedded key.
  abbrev Binds : Storage × IngestResult → Type 0
  Binds (s, r) =
      r ≡ IngestResult.success ack
      → owner_of s blob.signer_hint ≡ some (extract_pubk_signing_pk blob.body)

  store_registered-Binds :
      (t : Storage) (hash encoded : List ℕ) (r : Option Storage)
      → register_pubk w t blob ≡ r
      → Binds (store_registered e w t ns blob hash encoded r)
  unfolding store_registered
  store_registered-Binds t hash encoded none r ok = cc
  store_registered-Binds t hash encoded (some s') r ok =
      store_step-bound s' hash encoded ∙ register-bound t s' r

  after_deletions-Binds :
      (hash encoded : List ℕ) (p : Storage × Option IngestError)
      → Binds (after_deletions e w ns blob hash encoded p)
  unfolding after_deletions
  after_deletions-Binds hash encoded (t, some err) ok = cc
  after_deletions-Binds hash encoded (t, none) ok =
      store_registered-Binds t hash encoded (register_pubk w t blob) refl ok

  verify_and_store-Binds :
      (s : Storage) (hash encoded pk : List ℕ)
      → Binds (verify_and_store e w s ns blob hash encoded pk)
  unfolding verify_and_store
  verify_and_store-Binds s hash encoded pk =
      elim (Bool-cases
        (C.verify (build_signing_input ns blob.body blob.ttl blob.timestamp) blob.signature pk)) [
          | inl v ↦
              rw v (after_deletions-Binds hash encoded (deletions w (w.others 3 s) ns blob hash))
          | inr v ↦ rw v (λ ok. cc)
        ]

  with_key-Binds : (s : Storage) (pk : List ℕ) → Binds (with_key e w s ns blob pk)
  unfolding with_key
  with_key-Binds s pk =
      let encoded = C.encode_blob blob in
      let hash = C.sha3_256 encoded in
      elim (Bool-cases (quota_full e s ns blob encoded)) [
        | inl q ↦ rw q (λ ok. cc)
        | inr q ↦ elim (Bool-cases (has_blob (w.others 2 s) ns hash)) [
          | inl d ↦ rw (q, d) (λ ok. cc (ok, st))
          | inr d ↦ rw (q, d) (verify_and_store-Binds (w.others 2 s) hash encoded pk)
        ]
      ]

  with_signer-Binds : (p : Storage × Signer) → Binds (with_signer e w ns blob p)
  unfolding with_signer
  with_signer-Binds (s, owner pk) = with_key-Binds s pk
  with_signer-Binds (s, delegate pk) = with_key-Binds s pk
  with_signer-Binds (s, refused err) = λ ok. cc

  after_checks-Binds :
      (s : Storage) (checked : Option IngestError) → Binds (after_checks e w s ns blob checked)
  unfolding after_checks
  after_checks-Binds s (some err) = λ ok. cc
  after_checks-Binds s none = with_signer-Binds (resolve_signer w s ns blob)

-- When `ingest` acknowledges a PUBK as stored, the store binds the hint that the blob carries,
-- whatever it is, to the signing key inside the PUBK.
pub pubk_binds_hint :
    ⦃M : Mdbx⦄ ⦃C : Crypto⦄ (e : Engine) (w : World) (s : Storage) (ns : List ℕ) (blob : BlobData)
    (ack : WriteAck)
    → is_pubkey_blob blob.body ≡ true
    → (ingest e w s ns blob).1 ≡ IngestResult.success ack
    → ack.status ≡ IngestStatus.stored
    → owner_of (ingest e w s ns blob).0 blob.signer_hint ≡ some (extract_pubk_signing_pk blob.body)
unfolding ingest
pubk_binds_hint e w s ns blob ack pubk ok st =
    after_checks-Binds e w ns blob pubk ack st s (cheap_checks e w s ns blob) ok
