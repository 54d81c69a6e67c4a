-- ===== src/Storage/Layout.antt =====
-- Keys and values of the maps in storage/storage.cpp, and the record of the maps.
use chromatin_protocol.Prelude.{
  ℕ, ◌+◌, List, ◌++◌, Bool, Option, none, if◌then◌else◌, drop, replicate,
}
use chromatin_protocol.Endian.{store_u32_be, store_u64_be, read_u32_be, read_u64_be}
use chromatin_protocol.External.Mdbx.{Mdbx, lookup}

unfoldable pub make_blob_key : List ℕ → List ℕ → List ℕ
make_blob_key ns hash = ns ++ hash

unfoldable pub make_seq_key : List ℕ → ℕ → List ℕ
make_seq_key ns seq_num = ns ++ store_u64_be seq_num

unfoldable pub make_expiry_key : ℕ → List ℕ → List ℕ
make_expiry_key expiry_ts hash = store_u64_be expiry_ts ++ hash

unfoldable pub make_cursor_key : List ℕ → List ℕ → List ℕ
make_cursor_key peer_hash ns = peer_hash ++ ns

pub record SyncCursor : Type 0 where
  pub seq_num : ℕ
  pub round_count : ℕ
  pub last_sync_timestamp : ℕ

unfoldable pub encode_cursor_value : SyncCursor → List ℕ
encode_cursor_value c =
    store_u64_be c.seq_num ++ (store_u32_be c.round_count ++ store_u64_be c.last_sync_timestamp)

unfoldable pub decode_cursor_value : List ℕ → SyncCursor
decode_cursor_value bytes = record {
  seq_num = read_u64_be bytes;
  round_count = read_u32_be (drop 8 bytes);
  last_sync_timestamp = read_u64_be (drop 12 bytes);
}

pub record NamespaceQuota : Type 0 where
  pub total_bytes : ℕ
  pub blob_count : ℕ

abbrev pub quota_value_size : ℕ
quota_value_size = 16

unfoldable pub encode_quota_value : NamespaceQuota → List ℕ
encode_quota_value q = store_u64_be q.total_bytes ++ store_u64_be q.blob_count

unfoldable pub decode_quota_value : List ℕ → NamespaceQuota
decode_quota_value bytes = record {
  total_bytes = read_u64_be bytes;
  blob_count = read_u64_be (drop 8 bytes);
}

abbrev pub encryption_version : ℕ
encryption_version = 0x01

-- 1 + NONCE_SIZE + TAG_SIZE
abbrev pub envelope_overhead : ℕ
envelope_overhead = 1 + 12 + 16

pub data Status : Type 0 where
  stored duplicate capacity_exceeded quota_exceeded error : Status

pub record StoreResult : Type 0 where
  pub status : Status
  pub seq_num : ℕ
  pub blob_hash : List ℕ

abbrev pub zero_hash : List ℕ
zero_hash = replicate 32 0

-- What the environment does in one operation: the nonce that libsodium draws, the size of the
-- database file, and whether no call of libmdbx throws.
pub record Io : Type 0 where
  pub nonce : List ℕ
  pub used_bytes : ℕ
  pub works : Bool

-- The maps, the key of the stored values, and for which keys a read transaction throws at present.
module _ ⦃M : Mdbx⦄ where
  pub record Storage : Type 0 where
    pub blobs : M.Map
    pub seqs : M.Map
    pub expiries : M.Map
    pub delegations : M.Map
    pub tombstones : M.Map
    pub cursors : M.Map
    pub quotas : M.Map
    pub owner_pubkeys : M.Map
    pub blob_key : List ℕ
    pub read_fails : List ℕ → Bool

  -- `txn.get`
  abbrev pub get : List ℕ → M.Map → Option (List ℕ)
  get k m = lookup k (M.entries m)

  -- What a reader of its own transaction finds. Every reader catches an exception, and then returns
  -- what it returns for a missing key.
  unfoldable pub read : Storage → List ℕ → M.Map → Option (List ℕ)
  read s k m = if s.read_fails k then none else get k m
