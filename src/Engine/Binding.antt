-- ===== src/Engine/Binding.antt =====
-- The bindings of the owner map outlast every call of `ingest`.
use mathlib.Core.Path.{subst}
use chromatin_protocol.Prelude.{
  ℕ, ◌+◌, ◌≡◌, ◌≢◌, refl, ◌∙◌, ap, arith, true, Option, none, some, List, [], ◌∷◌, Bool-cases, inl,
  inr,
}
use chromatin_protocol.External.Mdbx.{Mdbx}
use chromatin_protocol.External.Crypto.{Crypto}
use chromatin_protocol.Codec.{
  BlobData, is_tombstone, is_bomb, is_pubkey_blob, extract_pubk_signing_pk, extract_bomb_targets,
  extract_tombstone_target,
}
use chromatin_protocol.Storage.Layout.{Storage, Io, get, make_blob_key}
use chromatin_protocol.Storage.Query.{
  owner_in, owner_of, get_owner_pubkey, owner_in, has_blob, open_value,
}
use chromatin_protocol.Storage.Erase.{delete_blob_data, delete_txn, erase_value, erase_blob}
use chromatin_protocol.Storage.Owners.Binding.{binding_stays}
use chromatin_protocol.Engine.Config.{
  Engine, World, IngestError, IngestStatus, IngestResult, WriteAck,
}
use chromatin_protocol.Engine.Checks.{cheap_checks}
use chromatin_protocol.Engine.Resolve.{
  Signer, owner, delegate, refused, owner_signer, other_signer, resolve_signer,
}
use chromatin_protocol.Engine.Ingest.{
  build_signing_input, quota_full, delete_targets, deletions, register_pubk, store_step,
  store_registered, after_deletions, verify_and_store, with_key, with_signer, after_checks, ingest,
}
use chromatin_protocol.Engine.Squatting.{owner_pubkeys-store_blob, pubk_binds_hint}

module _ ⦃M : Mdbx⦄ ⦃C : Crypto⦄ where
  delete_txn-owner_pubkeys :
      (s : Storage) (ns hash : List ℕ) (value : Option (List ℕ))
      → (delete_txn s ns hash value).0.owner_pubkeys ≡ s.owner_pubkeys
  unfolding delete_txn
  delete_txn-owner_pubkeys s ns hash none = refl
  delete_txn-owner_pubkeys s ns hash (some value) =
      opened (open_value s (make_blob_key ns hash) value)
    where
      opened :
          (o : Option BlobData) → (erase_value s ns hash value o).0.owner_pubkeys ≡ s.owner_pubkeys
      opened none = unfold erase_value in refl
      opened (some blob) = unfold erase_value erase_blob in refl

  pub delete_blob_data-owner_pubkeys :
      (io : Io) (s : Storage) (ns hash : List ℕ)
      → (delete_blob_data io s ns hash).0.owner_pubkeys ≡ s.owner_pubkeys
  unfolding delete_blob_data
  delete_blob_data-owner_pubkeys io s ns hash = elim (Bool-cases io.works) [
    | inl o ↦ rw o (delete_txn-owner_pubkeys s ns hash (get (make_blob_key ns hash) s.blobs))
    | inr o ↦ rw o
  ]

-- The hint `h` is bound to `k`, and other coroutines never unbind it.
module _ ⦃M : Mdbx⦄ ⦃C : Crypto⦄ (e : Engine) (w : World) (ns : List ℕ) (blob : BlobData)
    (h k : List ℕ) where
  abbrev pub IsBound : Storage → Type 0
  IsBound t = owner_of t h ≡ some k

  some_inj : (s s' : Storage) → some s ≡ some s' → s ≡ s'
  some_inj s s' q = cc

  same_map-IsBound : (s t : Storage) → t.owner_pubkeys ≡ s.owner_pubkeys → IsBound s → IsBound t
  unfolding owner_in
  same_map-IsBound s t q b = ap (λ m. owner_in (get h m)) q ∙ b

  delete-IsBound :
      (io : Io) (s : Storage) (hash : List ℕ)
      → IsBound s
      → IsBound (delete_blob_data io s ns hash).0
  delete-IsBound io s hash =
      same_map-IsBound s (delete_blob_data io s ns hash).0
        (delete_blob_data-owner_pubkeys io s ns hash)

  delete_targets-IsBound :
      (ts : List (List ℕ)) (i : ℕ) (s : Storage) → IsBound s → IsBound (delete_targets w i s ns ts)
  unfolding delete_targets
  delete_targets-IsBound [] i s b = b
  delete_targets-IsBound (t ∷ ts) i s b =
      delete_targets-IsBound ts (i + 1) (delete_blob_data (w.io i) s ns t).0
        (delete-IsBound (w.io i) s t b)

  deletions-IsBound :
      (s : Storage) (hash : List ℕ) → IsBound s → IsBound (deletions w s ns blob hash).0
  unfolding deletions
  deletions-IsBound s hash b = elim (Bool-cases (is_tombstone blob.body)) [
    | inl t ↦ rw t (delete-IsBound (w.io 3) s (extract_tombstone_target blob.body) b)
    | inr t ↦ elim (Bool-cases (is_bomb blob.body)) [
      | inl m ↦ rw (t, m) (delete_targets-IsBound (extract_bomb_targets blob.body) 3 s b)
      | inr m ↦ rw (t, m) (ground arith)
    ]
  ]

  store_step-IsBound :
      (s : Storage) (hash encoded : List ℕ)
      → IsBound s
      → IsBound (store_step e w s ns blob hash encoded).0
  unfolding store_step
  store_step-IsBound s hash encoded =
      same_map-IsBound s (store_step e w s ns blob hash encoded).0
        (owner_pubkeys-store_blob (w.io 2) s ns blob hash encoded _ _ _)

  register-IsBound : (s s' : Storage) → register_pubk w s blob ≡ some s' → IsBound s → IsBound s'
  unfolding register_pubk
  register-IsBound s s' r b = elim (Bool-cases (is_pubkey_blob blob.body)) [
    | inl p ↦ binding_stays (w.io 1) s s' blob.signer_hint _ h k (rw p at r) b
    | inr p ↦ subst IsBound (some_inj s s' (rw p at r)) b
  ]

  store_registered-IsBound :
      (s : Storage) (hash encoded : List ℕ) (r : Option Storage)
      → register_pubk w s blob ≡ r
      → IsBound s
      → IsBound (store_registered e w s ns blob hash encoded r).0
  unfolding store_registered
  store_registered-IsBound s hash encoded none q b = b
  store_registered-IsBound s hash encoded (some s') q b =
      store_step-IsBound s' hash encoded (register-IsBound s s' q b)

  after_deletions-IsBound :
      (hash encoded : List ℕ) (p : Storage × Option IngestError)
      → IsBound p.0
      → IsBound (after_deletions e w ns blob hash encoded p).0
  unfolding after_deletions
  after_deletions-IsBound hash encoded (t, some err) b = b
  after_deletions-IsBound hash encoded (t, none) b =
      store_registered-IsBound t hash encoded (register_pubk w t blob) refl b

  module _ (kept : (i : ℕ) (t : Storage) → IsBound t → IsBound (w.others i t)) where
    verify_and_store-IsBound :
        (s : Storage) (hash encoded pk : List ℕ)
        → IsBound s
        → IsBound (verify_and_store e w s ns blob hash encoded pk).0
    unfolding verify_and_store
    verify_and_store-IsBound s hash encoded pk b =
        let signed =
          C.verify (build_signing_input ns blob.body blob.ttl blob.timestamp) blob.signature pk in
        elim (Bool-cases signed) [
          | inl v ↦ rw v (
              after_deletions-IsBound hash encoded (deletions w (w.others 3 s) ns blob hash)
                (deletions-IsBound (w.others 3 s) hash (kept 3 s b)))
          | inr v ↦ rw v (kept 3 s b)
        ]

    with_key-IsBound :
        (s : Storage) (pk : List ℕ) → IsBound s → IsBound (with_key e w s ns blob pk).0
    unfolding with_key
    with_key-IsBound s pk b =
        let encoded = C.encode_blob blob in
        let hash = C.sha3_256 encoded in
        elim (Bool-cases (quota_full e s ns blob encoded)) [
          | inl q ↦ rw q b
          | inr q ↦ elim (Bool-cases (has_blob (w.others 2 s) ns hash)) [
            | inl d ↦ rw (q, d) (kept 2 s b)
            | inr d ↦
                rw (q, d) (verify_and_store-IsBound (w.others 2 s) hash encoded pk (kept 2 s b))
          ]
        ]

    with_signer-IsBound :
        (p : Storage × Signer) → IsBound p.0 → IsBound (with_signer e w ns blob p).0
    unfolding with_signer
    with_signer-IsBound (s, owner pk) b = with_key-IsBound s pk b
    with_signer-IsBound (s, delegate pk) b = with_key-IsBound s pk b
    with_signer-IsBound (s, refused err) b = b

    owner_signer-IsBound :
        (s : Storage) (found : Option (List ℕ)) → IsBound s → IsBound (owner_signer w s ns found).0
    unfolding owner_signer
    owner_signer-IsBound s none b = b
    owner_signer-IsBound s (some pk) b = kept 0 s b

    other_signer-IsBound :
        (p : Storage × Option (List ℕ)) → IsBound p.0 → IsBound (other_signer w ns blob p).0
    unfolding other_signer
    other_signer-IsBound (s, some pk) b = b
    other_signer-IsBound (s, none) b = elim (Bool-cases (is_pubkey_blob blob.body)) [
      | inl q ↦ rw q (kept 1 s b)
      | inr q ↦ rw q b
    ]

    after_checks-IsBound :
        (s : Storage) (checked : Option IngestError)
        → IsBound s
        → IsBound (after_checks e w s ns blob checked).0
    unfolding after_checks resolve_signer
    after_checks-IsBound s (some err) b = b
    after_checks-IsBound s none b =
        with_signer-IsBound _
          (other_signer-IsBound _ (owner_signer-IsBound s (get_owner_pubkey s blob.signer_hint) b))

-- A key that is bound to a hint stays bound to it through every call of `ingest`, whatever its
-- outcome, if the other coroutines that run in its waits keep the binding too.
pub ingest_keeps_binding :
    ⦃M : Mdbx⦄ ⦃C : Crypto⦄ (e : Engine) (w : World) (s : Storage) (ns : List ℕ) (blob : BlobData)
    (h k : List ℕ)
    → ((i : ℕ) (t : Storage) → owner_of t h ≡ some k → owner_of (w.others i t) h ≡ some k)
    → owner_of s h ≡ some k
    → owner_of (ingest e w s ns blob).0 h ≡ some k
unfolding ingest
ingest_keeps_binding e w s ns blob h k kept b =
    after_checks-IsBound e w ns blob h k kept s (cheap_checks e w s ns blob) b

-- Whoever first has a hint bound to a key shuts out every PUBK of another key that carries the hint:
-- `ingest` never acknowledges it as stored, though the other key may be the one that hashes to the
-- hint.
pub bound_hint_shuts_out :
    ⦃M : Mdbx⦄ ⦃C : Crypto⦄ (e : Engine) (w : World) (s : Storage) (ns : List ℕ) (blob : BlobData)
    (k : List ℕ) (ack : WriteAck)
    → ((i : ℕ) (t : Storage)
        → owner_of t blob.signer_hint ≡ some k
        → owner_of (w.others i t) blob.signer_hint ≡ some k)
    → owner_of s blob.signer_hint ≡ some k
    → is_pubkey_blob blob.body ≡ true
    → k ≢ extract_pubk_signing_pk blob.body
    → ack.status ≡ IngestStatus.stored
    → (ingest e w s ns blob).1 ≢ IngestResult.success ack
bound_hint_shuts_out e w s ns blob k ack kept b pubk other st ok = other (
    cc (
      ingest_keeps_binding e w s ns blob blob.signer_hint k kept b,
      pubk_binds_hint e w s ns blob ack pubk ok st,
    ))
