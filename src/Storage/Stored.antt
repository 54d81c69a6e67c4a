-- ===== src/Storage/Stored.antt =====
-- What `store_blob` does to what a reader sees.
use mathlib.Core.Path.{subst}
use chromatin_protocol.Prelude.{
  ℕ, ◌≡◌, ◌≢◌, refl, ◌∙◌, arith, true, false, some, List, [], length, bytes_eq, bytes_eq→eq,
  Bool-cases, inl, inr, if◌then◌else◌,
}
use chromatin_protocol.External.Mdbx.{Mdbx}
use chromatin_protocol.External.Crypto.{Crypto}
use chromatin_protocol.Codec.{BlobData, is_tombstone, extract_tombstone_target}
use chromatin_protocol.Storage.Layout.{Storage, Io, Status, read, make_blob_key}
use chromatin_protocol.Storage.Query.{get_blob, holds, marks, open_value, encrypt_value}
use chromatin_protocol.Storage.Write.{write_blob, store_txn, store_blob_limited, add_tombstone}
use chromatin_protocol.Storage.Values.{decrypt-encrypt_value}

module _ ⦃M : Mdbx⦄ ⦃C : Crypto⦄ (io : Io) (s : Storage) (ns : List ℕ) (blob : BlobData)
    (hash encoded : List ℕ) where
  -- A write is all or nothing: unless the result says that the blob was stored, no map changes.
  pub unchanged_unless_stored :
      (max_storage_bytes byte_limit count_limit : ℕ)
      → (store_blob_limited io s ns blob hash encoded max_storage_bytes byte_limit
          count_limit).1.status
        ≢ Status.stored
      → (store_blob_limited io s ns blob hash encoded max_storage_bytes byte_limit count_limit).0
        ≡ s
  unfolding store_blob_limited store_txn write_blob
  unchanged_unless_stored m b c h = ground arith

  -- Where it was stored, it was not there before, and the new maps are those of `write_blob`.
  pub stored_writes :
      (max_storage_bytes byte_limit count_limit : ℕ)
      → (store_blob_limited io s ns blob hash encoded max_storage_bytes byte_limit
          count_limit).1.status
        ≡ Status.stored
      → ((store_blob_limited io s ns blob hash encoded max_storage_bytes byte_limit count_limit).0
          ≡ (write_blob io s ns blob hash encoded).0)
        × (holds s ns hash ≡ false)
  unfolding store_blob_limited store_txn
  stored_writes m b c h = ground arith

module _ ⦃M : Mdbx⦄ ⦃C : Crypto⦄ (io : Io) (s : Storage) (ns : List ℕ) (blob : BlobData)
    (hash : List ℕ) where
  abbrev pub written : Storage
  written = (write_blob io s ns blob hash (C.encode_blob blob)).0

  pub open-written :
      length io.nonce ≡ 12
      → length blob.signer_hint ≡ 32
      → (key : List ℕ)
      → open_value s key (encrypt_value s.blob_key io.nonce (C.encode_blob blob) key) ≡ some blob
  unfolding open_value
  open-written n h key =
      rw (decrypt-encrypt_value s.blob_key io.nonce (C.encode_blob blob) key n)
        (C.decode-encode_blob blob h)

  pub open_value-written :
      (key value : List ℕ) → open_value written key value ≡ open_value s key value
  unfolding open_value write_blob
  open_value-written key value = refl

  get_blob-written :
      length io.nonce ≡ 12
      → length blob.signer_hint ≡ 32
      → (ns' hash' : List ℕ) → s.read_fails (make_blob_key ns' hash') ≡ false
      → get_blob written ns' hash' ≡ (
          if bytes_eq (make_blob_key ns hash) (make_blob_key ns' hash')
          then some blob
          else get_blob s ns' hash')
  unfolding read get_blob open_value write_blob
  get_blob-written n h ns' hash' reads =
      let key = make_blob_key ns hash in
      let key' = make_blob_key ns' hash' in
      let value = encrypt_value s.blob_key io.nonce (C.encode_blob blob) key in
      elim (Bool-cases (bytes_eq key key')) [
        | inl e ↦
            rw (reads, M.lookup-upsert key key' _ s.blobs, e)
              (subst (λ k. open_value written k value ≡ some blob) (bytes_eq→eq key key' e)
                (open_value-written key _ ∙ open-written n h key))
        | inr e ↦ rw (reads, M.lookup-upsert key key' _ s.blobs, e)
      ]

  -- Nothing changes for a reader at another key, nor for one that fails.
  pub other-written :
      (ns' hash' : List ℕ)
      → bytes_eq (make_blob_key ns hash) (make_blob_key ns' hash') ≡ false
      → get_blob written ns' hash' ≡ get_blob s ns' hash'
  unfolding read get_blob open_value write_blob
  other-written ns' hash' e = elim (Bool-cases (s.read_fails (make_blob_key ns' hash'))) [
    | inl fails ↦ rw fails
    | inr reads ↦
        rw (reads, M.lookup-upsert (make_blob_key ns hash) (make_blob_key ns' hash') _ s.blobs, e)
  ]

  pub marks-written :
      (ns' hash' : List ℕ)
      → is_tombstone blob.body ≡ true
      → marks written ns' hash' ≡ (
          if bytes_eq
            (make_blob_key ns (extract_tombstone_target blob.body))
            (make_blob_key ns' hash')
          then true
          else marks s ns' hash')
  unfolding write_blob add_tombstone
  marks-written ns' hash' t =
      let key = make_blob_key ns (extract_tombstone_target blob.body) in
      let key' = make_blob_key ns' hash' in
      rw t (ground (arith, M.lookup-upsert key key' [] s.tombstones))

-- A blob with a 32-byte signer hint that is stored, under a 12-byte nonce, is what a reader gets at
-- its key, through encryption and encoding, unless the read throws; at any other key a reader gets
-- what was there before.
pub get_blob-store_blob :
    ⦃M : Mdbx⦄ ⦃C : Crypto⦄ (io : Io) (s : Storage) (ns : List ℕ) (blob : BlobData) (hash : List ℕ)
    (max_storage_bytes byte_limit count_limit : ℕ) (ns' hash' : List ℕ)
    → length io.nonce ≡ 12
    → length blob.signer_hint ≡ 32
    → s.read_fails (make_blob_key ns' hash') ≡ false
    → (store_blob_limited io s ns blob hash
        (C.encode_blob blob)
        max_storage_bytes
        byte_limit
        count_limit).1.status
      ≡ Status.stored
    → get_blob
        (store_blob_limited io s ns blob hash
          (C.encode_blob blob)
          max_storage_bytes
          byte_limit
          count_limit).0
        ns'
        hash'
      ≡ (if bytes_eq (make_blob_key ns hash) (make_blob_key ns' hash')
          then some blob
          else get_blob s ns' hash')
get_blob-store_blob ⦃M⦄ ⦃C⦄ io s ns blob hash m b c ns' hash' n h reads ok =
    rw ((stored_writes io s ns blob hash (C.encode_blob blob) m b c ok).0)
      (get_blob-written io s ns blob hash n h ns' hash' reads)
