-- ===== src/Storage/Samples.antt =====
-- Concrete stores for runs, and one name to open every definition that a run goes through.
use chromatin_protocol.Prelude.{ℕ, false, List, [], ◌∷◌, replicate, true, bytes_eq}
use chromatin_protocol.Endian.{store_u32_be, store_u64_be, read_u32_be, read_u64_be, read_u16_be}
use chromatin_protocol.Codec.{
  BlobData, saturating_expiry, has_magic, is_tombstone, extract_tombstone_target, is_delegation,
  extract_delegate_pubkey, is_pubkey_blob, extract_pubk_signing_pk, has_bomb_magic, is_bomb,
  validate_bomb_structure, bomb_targets_loop, extract_bomb_targets, extract_blob_type,
}
use chromatin_protocol.External.Mdbx.{Mdbx, lookup, bytes_lt}
use chromatin_protocol.External.Crypto.{Crypto}
use chromatin_protocol.External.Sorted.{sorted_maps}
use chromatin_protocol.External.Samples.{plain_crypto}
use chromatin_protocol.Storage.Layout.{
  read, Storage, Io, make_blob_key, make_seq_key, make_expiry_key, encode_quota_value,
  decode_quota_value,
}
use chromatin_protocol.Storage.Cursor.{
  lower_bound, before, get_last?, is_seq_key_of, seq_after, next_seq_from, next_seq_num,
  find_seq_key, seq_key_of,
}
use chromatin_protocol.Storage.Query.{
  owner_in, quota_in, quota_of, get_namespace_quota, holds, has_blob, has_tombstone_for,
  has_owner_pubkey, get_owner_pubkey, encrypt_value, decrypt_value, open_value, get_blob,
  delegate_in, get_delegate_pubkey_by_hint,
}
use chromatin_protocol.Storage.Write.{
  over_quota, existing_seq, add_seq, add_expiry, add_delegation, add_tombstone, add_quota,
  write_blob, store_txn, store_blob_limited, store_blob,
}
use chromatin_protocol.Storage.Erase.{
  less_quota, write_quota, drop_quota_in, drop_quota, blank_seq, drop_expiry, drop_tombstone,
  drop_delegation, erase_blob, erase_value, delete_txn, delete_blob_data,
}
use chromatin_protocol.Storage.Owners.{register_in, register_owner_pubkey}

instance abbrev pub sample_maps : Mdbx
sample_maps = sorted_maps

instance abbrev pub sample_crypto : Crypto
sample_crypto = plain_crypto

-- A store that opens every definition of the storage in a run.
unfoldable pub empty_store : Storage
unfolding sorted_maps plain_crypto bytes_eq store_u32_be store_u64_be read_u32_be read_u64_be
    read_u16_be saturating_expiry has_magic is_tombstone extract_tombstone_target is_delegation
    extract_delegate_pubkey is_pubkey_blob extract_pubk_signing_pk has_bomb_magic is_bomb
    validate_bomb_structure bomb_targets_loop extract_bomb_targets extract_blob_type lookup bytes_lt
    make_blob_key make_seq_key make_expiry_key encode_quota_value decode_quota_value lower_bound
    before get_last? is_seq_key_of seq_after next_seq_from next_seq_num find_seq_key seq_key_of
    owner_in quota_in quota_of get_namespace_quota read holds has_blob has_tombstone_for
    has_owner_pubkey get_owner_pubkey encrypt_value decrypt_value open_value get_blob delegate_in
    get_delegate_pubkey_by_hint over_quota existing_seq add_seq add_expiry add_delegation
    add_tombstone add_quota write_blob store_txn store_blob_limited store_blob less_quota
    write_quota drop_quota_in drop_quota blank_seq drop_expiry drop_tombstone drop_delegation
    erase_blob erase_value delete_txn delete_blob_data register_in register_owner_pubkey
empty_store = record {
  blobs = ([], tt);
  seqs = ([], tt);
  expiries = ([], tt);
  delegations = ([], tt);
  tombstones = ([], tt);
  cursors = ([], tt);
  quotas = ([], tt);
  owner_pubkeys = ([], tt);
  blob_key = replicate 32 5;
  read_fails = λ k. false;
}

abbrev pub calm : Io
calm = record { nonce = replicate 12 1; used_bytes = 0; works = true }

abbrev pub ns_a : List ℕ
ns_a = replicate 32 0xA1

abbrev pub hint_a : List ℕ
hint_a = replicate 32 0xA2

abbrev pub note : BlobData
note = record {
  signer_hint = hint_a;
  body = 1 ∷ 2 ∷ 3 ∷ [];
  ttl = 60;
  timestamp = 3000000;
  signature = 9 ∷ [];
}

abbrev pub hash_a : List ℕ
hash_a = replicate 32 0xAA

abbrev pub marker : BlobData
marker = record {
  signer_hint = hint_a;
  body = 0xDE ∷ 0xAD ∷ 0xBE ∷ 0xEF ∷ hash_a;
  ttl = 0;
  timestamp = 3000000;
  signature = 9 ∷ [];
}
