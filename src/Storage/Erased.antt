-- ===== src/Storage/Erased.antt =====
-- What `delete_blob_data` does to what a reader sees.
use chromatin_protocol.Prelude.{
  ℕ, ◌≡◌, refl, ap, arith, true, false, ◌>>=◌, none, some, Option, List, bytes_eq, bytes_eq_iff,
  is_some, Bool-cases, Option-cases, inl, inr, if◌then◌else◌,
}
use chromatin_protocol.External.Mdbx.{Mdbx}
use chromatin_protocol.External.Crypto.{Crypto}
use chromatin_protocol.Codec.{BlobData}
use chromatin_protocol.Storage.Layout.{Storage, Io, read, get, make_blob_key}
use chromatin_protocol.Storage.Query.{get_blob, open_value}
use chromatin_protocol.Storage.Erase.{delete_blob_data, delete_txn, erase_value, erase_blob}

module _ ⦃M : Mdbx⦄ ⦃C : Crypto⦄ (s : Storage) (ns hash : List ℕ) where
  get_blob-erased :
      (value : List ℕ) (blob : BlobData) (ns' hash' : List ℕ)
      → get_blob (erase_blob s ns hash value blob) ns' hash' ≡ (
          if bytes_eq (make_blob_key ns hash) (make_blob_key ns' hash')
          then none
          else get_blob s ns' hash')
  unfolding get_blob read erase_blob open_value
  get_blob-erased value blob ns' hash' =
      let key = make_blob_key ns hash in
      let key' = make_blob_key ns' hash' in
      elim (Bool-cases (s.read_fails key')) [
        | inl fails ↦ rw fails (ground arith)
        | inr reads ↦ elim (Bool-cases (bytes_eq key key')) [
          | inl e ↦ rw (reads, M.lookup-erase key key' s.blobs, e)
          | inr e ↦ rw (reads, M.lookup-erase key key' s.blobs, e)
        ]
      ]

  -- The outcome for what was read at the key.
  delete_txn-view :
      (value : Option (List ℕ)) (ns' hash' : List ℕ)
      → get_blob (delete_txn s ns hash value).0 ns' hash' ≡ (
          if (delete_txn s ns hash value).1
          then (if bytes_eq (make_blob_key ns hash) (make_blob_key ns' hash')
              then none
              else get_blob s ns' hash')
          else get_blob s ns' hash')
  unfolding delete_txn erase_value
  delete_txn-view none ns' hash' = refl
  delete_txn-view (some value) ns' hash' =
      elim (Option-cases (open_value s (make_blob_key ns hash) value)) [
        | inl e ↦ rw e
        | inr (blob, e) ↦ rw e (get_blob-erased value blob ns' hash')
      ]

  -- The transaction succeeds exactly on the blobs that a reader sees.
  delete_txn-found :
      (value : Option (List ℕ))
      → (delete_txn s ns hash value).1 ≡ is_some (value >>= open_value s (make_blob_key ns hash))
  unfolding delete_txn erase_value
  delete_txn-found none = refl
  delete_txn-found (some value) = elim (Option-cases (open_value s (make_blob_key ns hash) value)) [
    | inl e ↦ rw e
    | inr (blob, e) ↦ rw e
  ]

  delete-found :
      (io : Io)
      → io.works ≡ true
      → s.read_fails (make_blob_key ns hash) ≡ false
      → (delete_blob_data io s ns hash).1 ≡ is_some (get_blob s ns hash)
  unfolding delete_blob_data get_blob read
  delete-found io w reads = rw w (rw reads (delete_txn-found (get (make_blob_key ns hash) s.blobs)))

  -- What was not deleted is not seen.
  kept-unseen :
      (io : Io)
      → io.works ≡ true
      → (delete_blob_data io s ns hash).1 ≡ false
      → get_blob s ns hash ≡ none
  kept-unseen io w kept = elim (Bool-cases (s.read_fails (make_blob_key ns hash))) [
    | inl fails ↦ unfold get_blob read in rw fails
    | inr reads ↦ ground (arith, delete-found io w reads)
  ]

  delete_view :
      (io : Io) (ns' hash' : List ℕ)
      → io.works ≡ true
      → get_blob (delete_blob_data io s ns hash).0 ns' hash' ≡ (
          if (delete_blob_data io s ns hash).1
          then (if bytes_eq (make_blob_key ns hash) (make_blob_key ns' hash')
              then none
              else get_blob s ns' hash')
          else get_blob s ns' hash')
  unfolding delete_blob_data
  delete_view io ns' hash' w =
      rw w (delete_txn-view (get (make_blob_key ns hash) s.blobs) ns' hash')

  same_key :
      (ns' hash' : List ℕ)
      → make_blob_key ns hash ≡ make_blob_key ns' hash'
      → get_blob s ns hash ≡ get_blob s ns' hash'
  unfolding get_blob read
  same_key ns' hash' e = ap (λ (k : List ℕ). read s k s.blobs >>= open_value s k) e

-- A call of `delete_blob_data` in which libmdbx does not throw leaves no blob for a reader at the key,
-- and what was there before at any other key.
pub deleted_view :
    ⦃M : Mdbx⦄ ⦃C : Crypto⦄ (io : Io) (s : Storage) (ns hash ns' hash' : List ℕ)
    → io.works ≡ true
    → get_blob (delete_blob_data io s ns hash).0 ns' hash' ≡ (
        if bytes_eq (make_blob_key ns hash) (make_blob_key ns' hash')
        then none
        else get_blob s ns' hash')
deleted_view ⦃M⦄ ⦃C⦄ io s ns hash ns' hash' w = ground (
  arith,
  kept-unseen s ns hash io w,
  delete_view s ns hash io ns' hash',
  same_key s ns hash ns' hash',
  bytes_eq_iff (make_blob_key ns hash) (make_blob_key ns' hash'),
)

-- A call of `delete_blob_data` in which libmdbx does not throw returns whether a reader saw a blob at
-- the key, if the read did not throw; after it a reader sees none there, and what was there before at
-- any other key.
pub get_blob-delete_blob_data :
    ⦃M : Mdbx⦄ ⦃C : Crypto⦄ (io : Io) (s : Storage) (ns hash ns' hash' : List ℕ)
    → io.works ≡ true
    → s.read_fails (make_blob_key ns hash) ≡ false
    → ((delete_blob_data io s ns hash).1 ≡ is_some (get_blob s ns hash))
      × (get_blob (delete_blob_data io s ns hash).0 ns' hash' ≡ (
          if bytes_eq (make_blob_key ns hash) (make_blob_key ns' hash')
          then none
          else get_blob s ns' hash'))
get_blob-delete_blob_data ⦃M⦄ ⦃C⦄ io s ns hash ns' hash' w reads =
    (delete-found s ns hash io w reads, deleted_view io s ns hash ns' hash' w)
