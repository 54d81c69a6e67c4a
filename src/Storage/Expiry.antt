-- ===== src/Storage/Expiry.antt =====
-- `run_expiry_scan` and `get_earliest_expiry` of storage/storage.cpp.
pub mod Order
pub mod Swept
mod Runs
use chromatin_protocol.Prelude.{
  ℕ, zero, suc, ◌+◌, List, [], ◌∷◌, Bool, false, not, Option, none, some, ltb, ◌==◌, if◌then◌else◌,
  length, take, drop,
}
use chromatin_protocol.Endian.{read_u64_be}
use chromatin_protocol.External.Mdbx.{Mdbx, Entry}
use chromatin_protocol.External.Crypto.{Crypto}
use chromatin_protocol.Codec.{BlobData, is_tombstone}
use chromatin_protocol.Storage.Layout.{Storage, Io, get, make_blob_key}
use chromatin_protocol.Storage.Query.{open_value}
use chromatin_protocol.Storage.Erase.{drop_quota, drop_tombstone}

-- The scan goes on from this entry: a key of 40 bytes whose time has come.
unfoldable pub is_due : ℕ → List ℕ → Bool
is_due now k = if not (length k == 40) then false else not (ltb now (read_u64_be k))

unfoldable pub earliest_in : List Entry → Option ℕ
earliest_in [] = none
earliest_in ((k, v) ∷ es) = if ltb (length k) 8 then none else some (read_u64_be k)

module _ ⦃M : Mdbx⦄ ⦃C : Crypto⦄ where
  -- The value of a due entry is a namespace of 32 bytes. The blob goes, with its tombstone mark or
  -- its share of the quota; the sequence and the delegation map keep what they have.
  unfoldable pub purge_blob : Storage → List ℕ → List ℕ → List ℕ → BlobData → Storage
  purge_blob s ns hash value blob = record s {
    tombstones = drop_tombstone ns blob s.tombstones;
    blobs = M.erase (make_blob_key ns hash) s.blobs;
    quotas =
        if not (is_tombstone blob.body) then drop_quota ns (length value) s.quotas else s.quotas;
  }

  -- `none` is an exception: the value does not open.
  unfoldable pub purge_opened :
      Storage → List ℕ → List ℕ → List ℕ → Option BlobData → Option Storage
  purge_opened s ns hash value none = none
  purge_opened s ns hash value (some blob) = some (purge_blob s ns hash value blob)

  unfoldable pub purge_found : Storage → List ℕ → List ℕ → Option (List ℕ) → Option Storage
  purge_found s ns hash none = some s
  purge_found s ns hash (some value) =
      purge_opened s ns hash value (open_value s (make_blob_key ns hash) value)

  unfoldable pub purge_entry : Storage → List ℕ → List ℕ → Option Storage
  purge_entry s k v =
      let ns = take 32 v in
      let hash = drop 8 k in purge_found s ns hash (get (make_blob_key ns hash) s.blobs)

  abbrev pub forget_entry : List ℕ → Storage → Storage
  forget_entry k s = record s { expiries = M.erase k s.expiries }

  abbrev scan_next : Option Storage → ℕ → (Storage → Option Storage × ℕ) → Option Storage × ℕ
  scan_next none purged later = (none, purged)
  scan_next (some s) purged later = later s

  -- The loop over the entries in key order; the count is returned even if the transaction is lost.
  unfoldable pub scan_entries : ℕ → List Entry → Storage → ℕ → Option Storage × ℕ
  scan_entries now [] s purged = (some s, purged)
  scan_entries now ((k, v) ∷ es) s purged =
      let rest =
        scan_next (purge_entry s k v) purged
          (λ t. scan_entries now es (forget_entry k t) (suc purged)) in
      if is_due now k then rest else (some s, purged)

  abbrev scan_result : Storage → Option Storage × ℕ → Storage × ℕ
  scan_result s (none, purged) = (s, purged)
  scan_result s (some t, purged) = (t, purged)

  -- `io.works` is whether the transaction starts and commits.
  unfoldable pub run_expiry_scan : Io → ℕ → Storage → Storage × ℕ
  run_expiry_scan io now s =
      if io.works then scan_result s (scan_entries now (M.entries s.expiries) s 0) else (s, 0)

  unfoldable pub get_earliest_expiry : Storage → Option ℕ
  get_earliest_expiry s = earliest_in (M.entries s.expiries)
