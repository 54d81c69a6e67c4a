-- ===== src/Engine/Authentic.antt =====
-- What a stored blob was signed with.
use mathlib.Core.Path.{subst}
use chromatin_protocol.Prelude.{
  ℕ, ◌≡◌, ◌⊎◌, inl, inr, refl, arith, true, false, Option, none, some, List, bytes_eq, bytes_eq→eq,
  Bool-cases, if◌then◌else◌,
}
use chromatin_protocol.External.Mdbx.{Mdbx}
use chromatin_protocol.External.Crypto.{Crypto}
use chromatin_protocol.Codec.{
  BlobData, is_tombstone, is_delegation, is_bomb, is_pubkey_blob, extract_pubk_signing_pk,
}
use chromatin_protocol.Storage.Layout.{Storage}
use chromatin_protocol.Storage.Query.{get_owner_pubkey, get_delegate_pubkey_by_hint}
use chromatin_protocol.Engine.Config.{
  Engine, World, IngestError, IngestStatus, IngestResult, WriteAck,
}
use chromatin_protocol.Engine.Checks.{cheap_checks}
use chromatin_protocol.Engine.Resolve.{
  Signer, owner, delegate, refused, delegate_signer, owner_signer, other_signer, resolve_signer,
}
use chromatin_protocol.Engine.Ingest.{
  build_signing_input, verify_and_store, with_key, with_signer, after_checks, ingest,
}

module _ ⦃M : Mdbx⦄ ⦃C : Crypto⦄ (e : Engine) (w : World) (ns : List ℕ) (blob : BlobData) where
  -- The signature is one of `pk` on the namespace, the payload, the ttl and the timestamp.
  abbrev pub SignedBy : List ℕ → Type 0
  SignedBy pk =
      C.verify (build_signing_input ns blob.body blob.ttl blob.timestamp) blob.signature pk ≡ true

  -- `pk` is a delegate's key in the state `t`, and the blob is none that is left to the owner.
  pub record DelegatedIn (t : Storage) (pk : List ℕ) : Type 0 where
    pub known : get_delegate_pubkey_by_hint t ns blob.signer_hint ≡ some pk
    pub no_delegation : is_delegation blob.body ≡ false
    pub no_tombstone : is_tombstone blob.body ≡ false
    pub no_bomb : is_bomb blob.body ≡ false

  -- What a signer is, for one who was resolved from the state `s`.
  abbrev pub IsAllowed : Storage → List ℕ → Type 0
  IsAllowed s pk = (C.sha3_256 pk ≡ ns) ⊎ (DelegatedIn s pk ⊎ DelegatedIn (w.others 0 s) pk)

  verify_and_store-signed :
      (s : Storage) (hash encoded pk : List ℕ) (ack : WriteAck)
      → (verify_and_store e w s ns blob hash encoded pk).1 ≡ IngestResult.success ack
      → SignedBy pk
  unfolding verify_and_store
  verify_and_store-signed s hash encoded pk ack ok = ground arith

  with_key-signed :
      (s : Storage) (pk : List ℕ) (ack : WriteAck)
      → (with_key e w s ns blob pk).1 ≡ IngestResult.success ack
      → ack.status ≡ IngestStatus.stored
      → SignedBy pk
  unfolding with_key
  with_key-signed s pk ack ok st = ground (
    arith,
    verify_and_store-signed (w.others 2 s) (C.sha3_256 (C.encode_blob blob)) (C.encode_blob blob) pk
        ack,
  )

  delegate_signer-delegated :
      (t : Storage) (pk : List ℕ)
      → delegate_signer (get_delegate_pubkey_by_hint t ns blob.signer_hint) blob.body ≡ delegate pk
      → DelegatedIn t pk
  unfolding delegate_signer
  delegate_signer-delegated t pk h = ground arith

  abbrev SignerIsAllowed : Storage → Signer → Type 0
  SignerIsAllowed s (owner pk) = C.sha3_256 pk ≡ ns
  SignerIsAllowed s (delegate pk) = DelegatedIn s pk ⊎ DelegatedIn (w.others 0 s) pk
  SignerIsAllowed s (refused err) = Unit {0}

  delegate-allowed :
      (s t : Storage)
      → (t ≡ s) ⊎ (t ≡ w.others 0 s)
      → (g : Signer)
      → delegate_signer (get_delegate_pubkey_by_hint t ns blob.signer_hint) blob.body ≡ g
      → SignerIsAllowed s g
  delegate-allowed s t o (owner pk) h =
      absurd (never (get_delegate_pubkey_by_hint t ns blob.signer_hint) h)
    where
      never : (o : Option (List ℕ)) → delegate_signer o blob.body ≡ owner pk → ⊥
      never o h = unfold delegate_signer in ground arith
  delegate-allowed s t (inl q) (delegate pk) h =
      inl (subst (λ u. DelegatedIn u pk) q (delegate_signer-delegated t pk h))
  delegate-allowed s t (inr q) (delegate pk) h =
      inr (subst (λ u. DelegatedIn u pk) q (delegate_signer-delegated t pk h))
  delegate-allowed s t o (refused err) h = tt

  embedded-allowed :
      (s : Storage) (pk : List ℕ)
      → SignerIsAllowed s
          (if bytes_eq (C.sha3_256 pk) ns then owner pk else refused IngestError.namespace_mismatch)
  embedded-allowed s pk = elim (Bool-cases (bytes_eq (C.sha3_256 pk) ns)) [
    | inl q ↦ rw q (bytes_eq→eq (C.sha3_256 pk) ns q)
    | inr q ↦ rw q tt
  ]

  other_signer-allowed :
      (s t : Storage)
      → (t ≡ s) ⊎ (t ≡ w.others 0 s)
      → SignerIsAllowed s (other_signer w ns blob (t, none)).1
  unfolding other_signer
  other_signer-allowed s t o = elim (Bool-cases (is_pubkey_blob blob.body)) [
    | inl q ↦ rw q (embedded-allowed s (extract_pubk_signing_pk blob.body))
    | inr q ↦ rw q (delegate-allowed s t o _ refl)
  ]

  owner-allowed :
      (s : Storage) (found : Option (List ℕ))
      → SignerIsAllowed s (other_signer w ns blob (owner_signer w s ns found)).1
  unfolding owner_signer
  owner-allowed s none = other_signer-allowed s s (inl refl)
  owner-allowed s (some pk) = elim (Bool-cases (bytes_eq (C.sha3_256 pk) ns)) [
    | inl q ↦ rw q (unfold other_signer in bytes_eq→eq (C.sha3_256 pk) ns q)
    | inr q ↦ rw q (other_signer-allowed s (w.others 0 s) (inr refl))
  ]

  with_signer-authentic :
      (s t : Storage) (g : Signer) (ack : WriteAck)
      → SignerIsAllowed s g
      → (with_signer e w ns blob (t, g)).1 ≡ IngestResult.success ack
      → ack.status ≡ IngestStatus.stored
      → (pk : List ℕ) × SignedBy pk × IsAllowed s pk
  unfolding with_signer
  with_signer-authentic s t (owner pk) ack a ok st = (pk, with_key-signed t pk ack ok st, inl a)
  with_signer-authentic s t (delegate pk) ack a ok st = (pk, with_key-signed t pk ack ok st, inr a)
  with_signer-authentic s t (refused err) ack a ok st = cc

  after_checks-authentic :
      (s : Storage) (checked : Option IngestError) (ack : WriteAck)
      → (after_checks e w s ns blob checked).1 ≡ IngestResult.success ack
      → ack.status ≡ IngestStatus.stored
      → (pk : List ℕ) × SignedBy pk × IsAllowed s pk
  unfolding after_checks resolve_signer
  after_checks-authentic s (some err) ack ok st = cc
  after_checks-authentic s none ack ok st =
      with_signer-authentic s _ _ ack (owner-allowed s (get_owner_pubkey s blob.signer_hint)) ok st

-- Whatever other coroutines do to the store during the waits: a blob that `ingest` acknowledges as
-- stored carries a signature, on its namespace, payload, ttl and timestamp, that verifies under a
-- key which either hashes to the namespace, or is the key of a delegate at the blob's hint in the
-- state that the call met or the one after its first wait. A delegate's blob is no delegation, no
-- tombstone and no batch.
pub ingest_authentic :
    ⦃M : Mdbx⦄ ⦃C : Crypto⦄ (e : Engine) (w : World) (s : Storage) (ns : List ℕ) (blob : BlobData)
    (ack : WriteAck)
    → (ingest e w s ns blob).1 ≡ IngestResult.success ack
    → ack.status ≡ IngestStatus.stored
    → (pk : List ℕ) × SignedBy e w ns blob pk × IsAllowed e w ns blob s pk
unfolding ingest
ingest_authentic e w s ns blob ack ok st =
    after_checks-authentic e w ns blob s (cheap_checks e w s ns blob) ack ok st
