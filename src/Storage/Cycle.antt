-- ===== src/Storage/Cycle.antt =====
-- The quota aggregate over a `store_blob` and the `delete_blob_data` of the same blob.
use chromatin_protocol.Prelude.{
  ℕ, ◌+◌, ◌-◌, ◌^◌, ◌<◌, ◌≡◌, ap, ◌∙◌, arith, true, false, some, List, length,
}
use chromatin_protocol.External.Mdbx.{Mdbx}
use chromatin_protocol.External.Crypto.{Crypto}
use chromatin_protocol.Codec.{BlobData, is_tombstone}
use chromatin_protocol.Storage.Layout.{
  Storage, Io, Status, get, make_blob_key, NamespaceQuota, encode_quota_value,
}
use chromatin_protocol.Storage.Query.{quota_of, quota_of, encrypt_value, open_value}
use chromatin_protocol.Storage.Write.{store_blob_limited, write_blob}
use chromatin_protocol.Storage.Erase.{
  less_quota, delete_blob_data, delete_txn, erase_value, erase_blob,
}
use chromatin_protocol.Storage.Maps.{get-upsert_self}
use chromatin_protocol.Storage.Values.{IsU64Quota, length-encrypt_value}
use chromatin_protocol.Storage.Stored.{stored_writes, open-written, open_value-written}
use chromatin_protocol.Storage.Quotas.{
  more_quota, more-IsU64Quota, counted-entry, exempt-quota, quota_of-drop_quota,
}

module _ ⦃M : Mdbx⦄ ⦃C : Crypto⦄ (io : Io) (s : Storage) (ns hash value : List ℕ)
    (blob : BlobData) where
  -- The maps after a blob was found and opened.
  delete-opened :
      io.works ≡ true
      → get (make_blob_key ns hash) s.blobs ≡ some value
      → open_value s (make_blob_key ns hash) value ≡ some blob
      → (delete_blob_data io s ns hash).0 ≡ erase_blob s ns hash value blob
  unfolding delete_blob_data delete_txn erase_value
  delete-opened w found opened = rw (w, found, opened)

  quota-delete_opened :
      (q : NamespaceQuota)
      → io.works ≡ true
      → get (make_blob_key ns hash) s.blobs ≡ some value
      → open_value s (make_blob_key ns hash) value ≡ some blob
      → IsU64Quota q
      → get ns s.quotas ≡ some (encode_quota_value q)
      → quota_of ns (delete_blob_data io s ns hash).0.quotas ≡ less_quota q (length value)
  quota-delete_opened q w found opened h e =
      rw (delete-opened w found opened)
        (unfold erase_blob in quota_of-drop_quota ns q (length value) s.quotas h e)

module _ ⦃M : Mdbx⦄ ⦃C : Crypto⦄ (io later : Io) (s : Storage) (ns : List ℕ) (blob : BlobData)
    (hash : List ℕ) (nonce : length io.nonce ≡ 12) (hint : length blob.signer_hint ≡ 32) where
  abbrev written : Storage
  written = (write_blob io s ns blob hash (C.encode_blob blob)).0

  abbrev value : List ℕ
  value = encrypt_value s.blob_key io.nonce (C.encode_blob blob) (make_blob_key ns hash)

  found : get (make_blob_key ns hash) written.blobs ≡ some value
  unfolding write_blob
  found = get-upsert_self (make_blob_key ns hash) value s.blobs

  opened : open_value written (make_blob_key ns hash) value ≡ some blob
  opened =
      open_value-written io s ns blob hash (make_blob_key ns hash) value
      ∙ open-written io s ns blob hash nonce hint (make_blob_key ns hash)

  cycle :
      (q : NamespaceQuota)
      → later.works ≡ true
      → IsU64Quota q
      → get ns written.quotas ≡ some (encode_quota_value q)
      → quota_of ns (delete_blob_data later written ns hash).0.quotas
        ≡ less_quota q (length (C.encode_blob blob) + 29)
  cycle q w h e =
      quota-delete_opened later written ns hash value blob q w found opened h e
      ∙ ap (less_quota q) (
          length-encrypt_value s.blob_key io.nonce (C.encode_blob blob) (make_blob_key ns hash)
            nonce)

less-more_quota :
    (q : NamespaceQuota) (size : ℕ)
    → 0 < size
    → q.total_bytes + size < 2 ^ 64
    → q.blob_count + 1 < 2 ^ 64
    → less_quota (more_quota q size) size ≡ q
unfolding less_quota
less-more_quota q size pos fits one = ground arith

-- Both counters of the library's truncated subtraction stop at 0 too.
less_quota_lem :
    (q : NamespaceQuota) (size : ℕ)
    → less_quota q size
      ≡ record { total_bytes = q.total_bytes - size; blob_count = q.blob_count - 1 }
unfolding less_quota
less_quota_lem q size = ground arith

-- Storing a blob that is no tombstone, under a 12-byte nonce, and deleting it again, with no call of
-- libmdbx throwing and no counter wrapping, leaves the aggregate of its namespace as it was.
pub quota_cycle :
    ⦃M : Mdbx⦄ ⦃C : Crypto⦄ (io later : Io) (s : Storage) (ns : List ℕ) (blob : BlobData)
    (hash : List ℕ) (max_storage_bytes byte_limit count_limit : ℕ)
    → length io.nonce ≡ 12
    → length blob.signer_hint ≡ 32
    → later.works ≡ true
    → is_tombstone blob.body ≡ false
    → (quota_of ns s.quotas).total_bytes + length (C.encode_blob blob) + 29 < 2 ^ 64
    → (quota_of ns s.quotas).blob_count + 1 < 2 ^ 64
    → (store_blob_limited io s ns blob hash
        (C.encode_blob blob)
        max_storage_bytes
        byte_limit
        count_limit).1.status
      ≡ Status.stored
    → quota_of ns
        (delete_blob_data later
          (store_blob_limited io s ns blob hash
            (C.encode_blob blob)
            max_storage_bytes
            byte_limit
            count_limit).0
          ns
          hash).0.quotas
      ≡ quota_of ns s.quotas
quota_cycle ⦃M⦄ ⦃C⦄ io later s ns blob hash m b c n h w t fits one ok =
    let encoded = C.encode_blob blob in
    let q = quota_of ns s.quotas in
    rw ((stored_writes io s ns blob hash encoded m b c ok).0) (
      cycle io later s ns blob hash n h (more_quota q (length encoded + 29)) w
        (more-IsU64Quota io s ns blob hash encoded n) (counted-entry io s ns blob hash encoded n t)
      ∙ less-more_quota q (length encoded + 29) (omega arith) (omega arith) one)

-- The deletion of a stored tombstone takes its size and one blob off an aggregate to which it never
-- was added. So a namespace with a well-formed quota entry `q` in which a tombstone is stored, under
-- a 12-byte nonce, and then itself deleted counts one blob less, and fewer bytes, than before,
-- though the same blobs are there.
pub tombstone_undercounts :
    ⦃M : Mdbx⦄ ⦃C : Crypto⦄ (io later : Io) (s : Storage) (ns : List ℕ) (blob : BlobData)
    (hash : List ℕ) (q : NamespaceQuota) (max_storage_bytes byte_limit count_limit : ℕ)
    → length io.nonce ≡ 12
    → length blob.signer_hint ≡ 32
    → later.works ≡ true
    → is_tombstone blob.body ≡ true
    → IsU64Quota q
    → get ns s.quotas ≡ some (encode_quota_value q)
    → (store_blob_limited io s ns blob hash
        (C.encode_blob blob)
        max_storage_bytes
        byte_limit
        count_limit).1.status
      ≡ Status.stored
    → quota_of ns
        (delete_blob_data later
          (store_blob_limited io s ns blob hash
            (C.encode_blob blob)
            max_storage_bytes
            byte_limit
            count_limit).0
          ns
          hash).0.quotas
      ≡ record {
        total_bytes = q.total_bytes - (length (C.encode_blob blob) + 29);
        blob_count = q.blob_count - 1;
      }
tombstone_undercounts ⦃M⦄ ⦃C⦄ io later s ns blob hash q m b c n h w t fit e ok =
    let encoded = C.encode_blob blob in
    rw ((stored_writes io s ns blob hash encoded m b c ok).0) (
      cycle io later s ns blob hash n h q w fit (rw (exempt-quota io s ns blob hash encoded n t) e)
      ∙ less_quota_lem q (length encoded + 29))
