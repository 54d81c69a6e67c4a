-- ===== src/Storage/Values.antt =====
-- Round trips of the values in storage/storage.cpp: quotas, cursors and encrypted blobs.
use chromatin_protocol.Prelude.{
  ℕ, ◌+◌, ◌^◌, ◌<◌, ◌≡◌, sym, ap, ◌∙◌, arith, some, List, ◌++◌, length, length-append, drop, slice,
  take-append, drop-append, drop-drop, le→ltb,
}
use chromatin_protocol.Endian.{store_u64_be, store_u32_be, read_u64_be, read_u32_be}
use chromatin_protocol.Endian.Words.{
  length-store_u64_be, length-store_u32_be, read_u64_be-store_u64_be, read_u64_be-store_u64_be_all,
  read_u32_be-store_u32_be,
}
use chromatin_protocol.External.Crypto.{Crypto}
use chromatin_protocol.Storage.Layout.{
  NamespaceQuota, encode_quota_value, decode_quota_value, SyncCursor, encode_cursor_value,
  decode_cursor_value,
}
use chromatin_protocol.Storage.Query.{encrypt_value, decrypt_value}

pub record IsU64Quota (q : NamespaceQuota) : Type 0 where
  pub bytes_fit : q.total_bytes < 2 ^ 64
  pub count_fits : q.blob_count < 2 ^ 64

pub decode-encode_quota_value :
    (q : NamespaceQuota) → IsU64Quota q → decode_quota_value (encode_quota_value q) ≡ q
unfolding decode_quota_value encode_quota_value
decode-encode_quota_value q h = λ i. record {
  total_bytes = read_u64_be-store_u64_be q.total_bytes (store_u64_be q.blob_count) h.bytes_fit i;
  blob_count =
      (ap read_u64_be (
            drop-append 8 (store_u64_be q.total_bytes) (store_u64_be q.blob_count)
              (length-store_u64_be q.total_bytes))
          ∙ read_u64_be-store_u64_be_all q.blob_count h.count_fits)
        i;
}

pub length-encode_quota_value : (q : NamespaceQuota) → length (encode_quota_value q) ≡ 16
unfolding encode_quota_value
length-encode_quota_value q = omega (
  arith,
  length-append (store_u64_be q.total_bytes) (store_u64_be q.blob_count),
  length-store_u64_be q.total_bytes,
  length-store_u64_be q.blob_count,
)

-- A cursor of machine integers is read back as it was written.
pub decode-encode_cursor_value :
    (c : SyncCursor)
    → c.seq_num < 2 ^ 64
    → c.round_count < 2 ^ 32
    → c.last_sync_timestamp < 2 ^ 64
    → decode_cursor_value (encode_cursor_value c) ≡ c
unfolding decode_cursor_value encode_cursor_value
decode-encode_cursor_value c hs hr hl =
    let tail : List ℕ = store_u32_be c.round_count ++ store_u64_be c.last_sync_timestamp in
    let skip : drop 8 (store_u64_be c.seq_num ++ tail) ≡ tail =
      drop-append 8 (store_u64_be c.seq_num) tail (length-store_u64_be c.seq_num) in
    let skip' : drop 12 (store_u64_be c.seq_num ++ tail) ≡ store_u64_be c.last_sync_timestamp =
      sym (drop-drop 8 4 (store_u64_be c.seq_num ++ tail))
      ∙ ap (drop 4) skip
      ∙ drop-append 4 (store_u32_be c.round_count) _ (length-store_u32_be c.round_count) in
    λ i. record {
      seq_num = read_u64_be-store_u64_be c.seq_num tail hs i;
      round_count = (ap read_u32_be skip ∙ read_u32_be-store_u32_be c.round_count _ hr) i;
      last_sync_timestamp =
          (ap read_u64_be skip' ∙ read_u64_be-store_u64_be_all c.last_sync_timestamp hl) i;
    }

module _ ⦃C : Crypto⦄ (blob_key nonce text ad : List ℕ) (size : length nonce ≡ 12) where
  envelope_nonce : slice 1 12 (encrypt_value blob_key nonce text ad) ≡ nonce
  unfolding encrypt_value
  envelope_nonce = take-append 12 nonce _ size

  envelope_text : drop 13 (encrypt_value blob_key nonce text ad) ≡ C.encrypt text ad nonce blob_key
  unfolding encrypt_value
  envelope_text = drop-append 12 nonce _ size

  pub length-encrypt_value : length (encrypt_value blob_key nonce text ad) ≡ length text + 29
  unfolding encrypt_value
  length-encrypt_value = omega (
    arith,
    length-append nonce (C.encrypt text ad nonce blob_key),
    C.length-encrypt text ad nonce blob_key,
  )

  -- What is encrypted with a 12-byte nonce is decrypted to the text.
  pub decrypt-encrypt_value :
      decrypt_value blob_key (encrypt_value blob_key nonce text ad) ad ≡ some text
  unfolding decrypt_value
  decrypt-encrypt_value =
      rw
        (
          length-encrypt_value,
          le→ltb (length text + 29) 29 (omega arith),
          envelope_nonce,
          envelope_text,
        )
        (unfold encrypt_value in C.decrypt-encrypt text ad nonce blob_key)
