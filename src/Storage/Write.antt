-- ===== src/Storage/Write.antt =====
-- `store_blob` of storage/storage.cpp: one write transaction.
use chromatin_protocol.Prelude.{
  ℕ, ◌+◌, ◌%◌, ◌^◌, List, [], ◌++◌, Bool, ◌&&◌, ◌||◌, not, Option, none, some, ltb, leb,
  if◌then◌else◌, length, drop,
}
use chromatin_protocol.Endian.{read_u64_be}
use chromatin_protocol.External.Mdbx.{Mdbx}
use chromatin_protocol.External.Crypto.{Crypto}
use chromatin_protocol.Codec.{
  BlobData, is_tombstone, extract_tombstone_target, is_delegation, extract_delegate_pubkey,
  extract_blob_type, saturating_expiry,
}
use chromatin_protocol.Storage.Layout.{
  Storage, Io, Status, StoreResult, make_blob_key, make_seq_key, make_expiry_key, NamespaceQuota,
  encode_quota_value, zero_hash,
}
use chromatin_protocol.Storage.Cursor.{next_seq_num, seq_key_of}
use chromatin_protocol.Storage.Query.{holds, quota_of, encrypt_value}

-- The quota test, on the encoded size.
unfoldable pub over_quota : NamespaceQuota → ℕ → ℕ → ℕ → Bool
over_quota current size byte_limit count_limit =
    (ltb 0 byte_limit && ltb byte_limit ((current.total_bytes + size) % 2 ^ 64))
    || (ltb 0 count_limit && ltb count_limit ((current.blob_count + 1) % 2 ^ 64))

unfoldable pub existing_seq : Option (List ℕ) → ℕ
existing_seq none = 0
existing_seq (some k) = read_u64_be (drop 32 k)

module _ ⦃M : Mdbx⦄ ⦃C : Crypto⦄ where
  -- The sequence map: the value is the hash and the four bytes of the blob type.
  unfoldable pub add_seq : List ℕ → BlobData → List ℕ → ℕ → M.Map → M.Map
  add_seq ns blob hash seq = M.upsert (make_seq_key ns seq) (hash ++ extract_blob_type blob.body)

  unfoldable pub add_expiry : List ℕ → BlobData → List ℕ → M.Map → M.Map
  add_expiry ns blob hash m =
      if ltb 0 blob.ttl
      then M.upsert (make_expiry_key (saturating_expiry blob.timestamp blob.ttl) hash) ns m
      else m

  unfoldable pub add_delegation : List ℕ → BlobData → List ℕ → M.Map → M.Map
  add_delegation ns blob hash m =
      if is_delegation blob.body
      then M.upsert (make_blob_key ns (C.sha3_256 (extract_delegate_pubkey blob.body))) hash m
      else m

  unfoldable pub add_tombstone : List ℕ → BlobData → M.Map → M.Map
  add_tombstone ns blob m =
      if is_tombstone blob.body
      then M.upsert (make_blob_key ns (extract_tombstone_target blob.body)) [] m
      else m

  unfoldable pub add_quota : List ℕ → BlobData → ℕ → M.Map → M.Map
  add_quota ns blob encrypted_size m =
      if is_tombstone blob.body
      then m
      else (let current = quota_of ns m in
          M.upsert ns
            (encode_quota_value (record {
              total_bytes = (current.total_bytes + encrypted_size) % 2 ^ 64;
              blob_count = (current.blob_count + 1) % 2 ^ 64;
            }))
            m)

  -- The writes of the transaction.
  unfoldable pub write_blob :
      Io → Storage → List ℕ → BlobData → List ℕ → List ℕ → Storage × StoreResult
  write_blob io s ns blob hash encoded =
      let key = make_blob_key ns hash in
      let encrypted = encrypt_value s.blob_key io.nonce encoded key in
      let seq = next_seq_num ns (M.entries s.seqs) in
      (
        record s {
          blobs = M.upsert key encrypted s.blobs;
          seqs = add_seq ns blob hash seq s.seqs;
          expiries = add_expiry ns blob hash s.expiries;
          delegations = add_delegation ns blob hash s.delegations;
          tombstones = add_tombstone ns blob s.tombstones;
          quotas = add_quota ns blob (length encrypted) s.quotas;
        },
        record { status = Status.stored; seq_num = seq; blob_hash = hash },
      )

  -- The transaction, as far as libmdbx does not throw.
  unfoldable pub store_txn :
      Io → Storage → List ℕ → BlobData → List ℕ → List ℕ → ℕ → ℕ → ℕ → Storage × StoreResult
  store_txn io s ns blob hash encoded max_storage_bytes byte_limit count_limit =
      if holds s ns hash
      then (
        s,
        record {
          status = Status.duplicate;
          seq_num = existing_seq (seq_key_of ns hash (M.entries s.seqs));
          blob_hash = hash;
        },
      )
      else if ltb 0 max_storage_bytes
          && (not (is_tombstone blob.body) && leb max_storage_bytes io.used_bytes)
      then (s, record { status = Status.capacity_exceeded; seq_num = 0; blob_hash = hash })
      else if not (is_tombstone blob.body)
          && ((ltb 0 byte_limit || ltb 0 count_limit)
              && over_quota (quota_of ns s.quotas) (length encoded) byte_limit count_limit)
      then (s, record { status = Status.quota_exceeded; seq_num = 0; blob_hash = hash })
      else write_blob io s ns blob hash encoded

  unfoldable pub store_blob_limited :
      Io → Storage → List ℕ → BlobData → List ℕ → List ℕ → ℕ → ℕ → ℕ → Storage × StoreResult
  store_blob_limited io s ns blob hash encoded max_storage_bytes byte_limit count_limit =
      if io.works
      then store_txn io s ns blob hash encoded max_storage_bytes byte_limit count_limit
      else (s, record { status = Status.error; seq_num = 0; blob_hash = zero_hash })

  -- The overload that encodes and hashes, with no limits.
  unfoldable pub store_blob : Io → Storage → List ℕ → BlobData → Storage × StoreResult
  store_blob io s ns blob =
      let encoded = C.encode_blob blob in
      store_blob_limited io s ns blob (C.sha3_256 encoded) encoded 0 0 0
