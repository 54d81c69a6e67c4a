-- ===== src/Storage/Erase.antt =====
-- `delete_blob_data` of storage/storage.cpp: one write transaction.
use chromatin_protocol.Prelude.{
  ℕ, ◌-◌, List, Bool, true, false, ◌&&◌, Option, none, some, ltb, ◌==◌, if◌then◌else◌, length,
  replicate,
}
use chromatin_protocol.External.Mdbx.{Mdbx}
use chromatin_protocol.External.Crypto.{Crypto}
use chromatin_protocol.Codec.{
  BlobData, is_tombstone, extract_tombstone_target, is_delegation, extract_delegate_pubkey,
  saturating_expiry,
}
use chromatin_protocol.Storage.Layout.{
  Storage, Io, get, make_blob_key, make_expiry_key, NamespaceQuota, quota_value_size,
  encode_quota_value, decode_quota_value,
}
use chromatin_protocol.Storage.Cursor.{seq_key_of}
use chromatin_protocol.Storage.Query.{open_value}

-- Both counters stop at 0.
unfoldable pub less_quota : NamespaceQuota → ℕ → NamespaceQuota
less_quota current encrypted_size = record {
  total_bytes =
      if ltb encrypted_size current.total_bytes then current.total_bytes - encrypted_size else 0;
  blob_count = if ltb 0 current.blob_count then current.blob_count - 1 else 0;
}

module _ ⦃M : Mdbx⦄ where
  unfoldable pub write_quota : List ℕ → NamespaceQuota → M.Map → M.Map
  write_quota ns q m =
      if q.total_bytes == 0 && q.blob_count == 0
      then M.erase ns m
      else M.upsert ns (encode_quota_value q) m

  unfoldable pub drop_quota_in : List ℕ → ℕ → M.Map → Option (List ℕ) → M.Map
  drop_quota_in ns encrypted_size m none = m
  drop_quota_in ns encrypted_size m (some v) =
      if length v == quota_value_size
      then write_quota ns (less_quota (decode_quota_value v) encrypted_size) m
      else m

  unfoldable pub drop_quota : List ℕ → ℕ → M.Map → M.Map
  unfolding drop_quota_in
  drop_quota ns encrypted_size m = drop_quota_in ns encrypted_size m (get ns m)

  -- The entry of the hash becomes the zero sentinel.
  unfoldable pub blank_seq : List ℕ → List ℕ → M.Map → M.Map
  blank_seq ns hash m = elim (seq_key_of ns hash (M.entries m)) [
    | none ↦ m
    | some k ↦ M.upsert k (replicate 36 0) m
  ]

  unfoldable pub drop_expiry : BlobData → List ℕ → M.Map → M.Map
  drop_expiry blob hash m =
      if ltb 0 blob.ttl
      then M.erase (make_expiry_key (saturating_expiry blob.timestamp blob.ttl) hash) m
      else m

  unfoldable pub drop_tombstone : List ℕ → BlobData → M.Map → M.Map
  drop_tombstone ns blob m =
      if is_tombstone blob.body
      then M.erase (make_blob_key ns (extract_tombstone_target blob.body)) m
      else m

module _ ⦃M : Mdbx⦄ ⦃C : Crypto⦄ where
  unfoldable pub drop_delegation : List ℕ → BlobData → M.Map → M.Map
  drop_delegation ns blob m =
      if is_delegation blob.body
      then M.erase (make_blob_key ns (C.sha3_256 (extract_delegate_pubkey blob.body))) m
      else m

  -- The erasures of the transaction, for a stored value and the blob in it.
  unfoldable pub erase_blob : Storage → List ℕ → List ℕ → List ℕ → BlobData → Storage
  erase_blob s ns hash value blob = record s {
    blobs = M.erase (make_blob_key ns hash) s.blobs;
    quotas = drop_quota ns (length value) s.quotas;
    seqs = blank_seq ns hash s.seqs;
    expiries = drop_expiry blob hash s.expiries;
    delegations = drop_delegation ns blob s.delegations;
    tombstones = drop_tombstone ns blob s.tombstones;
  }

  -- A value that does not open is an exception: the transaction is given up.
  unfoldable pub erase_value : Storage → List ℕ → List ℕ → List ℕ → Option BlobData → Storage × Bool
  erase_value s ns hash value none = (s, false)
  erase_value s ns hash value (some blob) = (erase_blob s ns hash value blob, true)

  unfoldable pub delete_txn : Storage → List ℕ → List ℕ → Option (List ℕ) → Storage × Bool
  delete_txn s ns hash none = (s, false)
  delete_txn s ns hash (some value) =
      erase_value s ns hash value (open_value s (make_blob_key ns hash) value)

  unfoldable pub delete_blob_data : Io → Storage → List ℕ → List ℕ → Storage × Bool
  delete_blob_data io s ns hash =
      if io.works then delete_txn s ns hash (get (make_blob_key ns hash) s.blobs) else (s, false)
