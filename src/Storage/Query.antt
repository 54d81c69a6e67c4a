-- ===== src/Storage/Query.antt =====
-- The readers of storage/storage.cpp, and the envelope of stored values.
use chromatin_protocol.Prelude.{
  ℕ, ◌+◌, List, ◌∷◌, ◌++◌, Bool, not, Option, none, some, ◌>>=◌, ltb, ◌==◌, if◌then◌else◌, length,
  drop, slice, get_or, is_some,
}
use chromatin_protocol.External.Mdbx.{Mdbx}
use chromatin_protocol.External.Crypto.{Crypto}
use chromatin_protocol.Codec.{BlobData, is_delegation, extract_delegate_pubkey}
use chromatin_protocol.Storage.Layout.{
  Storage, get, read, make_blob_key, NamespaceQuota, quota_value_size, decode_quota_value,
  encryption_version, envelope_overhead,
}

-- An entry of another size is not returned.
unfoldable pub owner_in : Option (List ℕ) → Option (List ℕ)
owner_in none = none
owner_in (some v) = if not (length v == 2592) then none else some v

-- An entry of another size counts as none.
unfoldable pub quota_in : Option (List ℕ) → NamespaceQuota
quota_in none = record { total_bytes = 0; blob_count = 0 }
quota_in (some v) =
    if length v == quota_value_size
    then decode_quota_value v
    else record { total_bytes = 0; blob_count = 0 }

module _ ⦃M : Mdbx⦄ where
  unfoldable pub quota_of : List ℕ → M.Map → NamespaceQuota
  unfolding quota_in
  quota_of ns quotas = quota_in (get ns quotas)

  unfoldable pub get_namespace_quota : Storage → List ℕ → NamespaceQuota
  unfolding quota_in read
  get_namespace_quota s ns = quota_in (read s ns s.quotas)

  -- The key that the owner map binds to a hint.
  abbrev pub owner_of : Storage → List ℕ → Option (List ℕ)
  owner_of s signer_hint = owner_in (get signer_hint s.owner_pubkeys)

  -- The tombstone map has an entry for the hash.
  abbrev pub marks : Storage → List ℕ → List ℕ → Bool
  marks s ns hash = is_some (get (make_blob_key ns hash) s.tombstones)

  -- The test for a duplicate inside a write transaction.
  unfoldable pub holds : Storage → List ℕ → List ℕ → Bool
  holds s ns hash = is_some (get (make_blob_key ns hash) s.blobs)

  unfoldable pub has_blob : Storage → List ℕ → List ℕ → Bool
  unfolding read
  has_blob s ns hash = is_some (read s (make_blob_key ns hash) s.blobs)

  unfoldable pub has_tombstone_for : Storage → List ℕ → List ℕ → Bool
  unfolding read
  has_tombstone_for s ns target_blob_hash =
      is_some (read s (make_blob_key ns target_blob_hash) s.tombstones)

  unfoldable pub has_owner_pubkey : Storage → List ℕ → Bool
  unfolding read
  has_owner_pubkey s signer_hint = is_some (read s signer_hint s.owner_pubkeys)

  unfoldable pub get_owner_pubkey : Storage → List ℕ → Option (List ℕ)
  unfolding owner_in read
  get_owner_pubkey s signer_hint = owner_in (read s signer_hint s.owner_pubkeys)

module _ ⦃C : Crypto⦄ where
  unfoldable pub encrypt_value : List ℕ → List ℕ → List ℕ → List ℕ → List ℕ
  encrypt_value blob_key nonce plaintext ad =
      encryption_version ∷ (nonce ++ C.encrypt plaintext ad nonce blob_key)

  -- `none` is an exception.
  unfoldable pub decrypt_value : List ℕ → List ℕ → List ℕ → Option (List ℕ)
  decrypt_value blob_key encrypted ad =
      if ltb (length encrypted) envelope_overhead
      then none
      else if not (get_or encrypted 0 0 == encryption_version)
      then none
      else C.decrypt (drop (1 + 12) encrypted) ad (slice 1 12 encrypted) blob_key

module _ ⦃M : Mdbx⦄ ⦃C : Crypto⦄ where
  -- The blob behind a stored value.
  unfoldable pub open_value : Storage → List ℕ → List ℕ → Option BlobData
  open_value s key value = do text ← decrypt_value s.blob_key value key; C.decode_blob text

  unfoldable pub get_blob : Storage → List ℕ → List ℕ → Option BlobData
  unfolding read
  get_blob s ns hash = do
    value ← read s (make_blob_key ns hash) s.blobs
    open_value s (make_blob_key ns hash) value

  unfoldable pub has_valid_delegation : Storage → List ℕ → List ℕ → Bool
  unfolding read
  has_valid_delegation s ns delegate_pubkey =
      is_some (read s (make_blob_key ns (C.sha3_256 delegate_pubkey)) s.delegations)

  unfoldable pub delegate_in : Option BlobData → Option (List ℕ)
  delegate_in none = none
  delegate_in (some blob) =
      if not (is_delegation blob.body)
      then none
      else if not (length (extract_delegate_pubkey blob.body) == 2592)
      then none
      else some (extract_delegate_pubkey blob.body)

  unfoldable pub get_delegate_pubkey_by_hint : Storage → List ℕ → List ℕ → Option (List ℕ)
  unfolding read
  get_delegate_pubkey_by_hint s ns signer_hint = do
    v ← read s (make_blob_key ns signer_hint) s.delegations
    if not (length v == 32) then none else delegate_in (get_blob s ns v)
