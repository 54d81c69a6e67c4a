-- ===== src/Storage/Runs.antt =====
-- storage/storage.cpp on concrete stores.
use chromatin_protocol.Prelude.{
  ℕ, ◌+◌, ◌-◌, ◌≤◌, ◌≡◌, refl, arith, List, replicate, true, false, some, none, bytes_eq,
  if◌then◌else◌, is_some,
}
use chromatin_protocol.External.Samples.{plain_crypto}
use chromatin_protocol.Codec.{is_tombstone}
use chromatin_protocol.Storage.Samples.{
  sample_maps, sample_crypto, empty_store, calm, ns_a, hint_a, note, hash_a, marker,
}
use chromatin_protocol.Storage.Layout.{
  Storage, Status, StoreResult, make_blob_key, NamespaceQuota, encode_quota_value, SyncCursor, get,
}
use chromatin_protocol.Storage.Query.{get_blob, quota_of}
use chromatin_protocol.Storage.Write.{store_blob_limited}
use chromatin_protocol.Storage.Erase.{delete_blob_data}
use chromatin_protocol.Storage.Owners.{register_owner_pubkey}
use chromatin_protocol.Storage.Stored.{get_blob-store_blob}
use chromatin_protocol.Storage.Erased.{get_blob-delete_blob_data}
use chromatin_protocol.Storage.Quotas.{quota_limit-store_blob}
use chromatin_protocol.Storage.Cycle.{quota_cycle, tombstone_undercounts}

abbrev encoded_note : List ℕ
encoded_note = sample_crypto.encode_blob note

abbrev stored_note : Storage × StoreResult
stored_note = store_blob_limited calm empty_store ns_a note hash_a encoded_note 0 500 5

note-stored : stored_note.1.status ≡ Status.stored
unfolding empty_store
note-stored = refl

abbrev stored_marker : Storage × StoreResult
stored_marker =
    store_blob_limited calm stored_note.0 ns_a marker hint_a (sample_crypto.encode_blob marker) 0
      500 5

marker-stored : stored_marker.1.status ≡ Status.stored
unfolding empty_store
marker-stored = refl

abbrev one_note : NamespaceQuota
one_note = record { total_bytes = 68; blob_count = 1 }

note-counted : get ns_a stored_note.0.quotas ≡ some (encode_quota_value one_note)
unfolding empty_store
note-counted = refl

-- The second copy is a duplicate.
second-duplicate :
    (store_blob_limited calm stored_note.0 ns_a note hash_a encoded_note 0 500 5).1
    ≡ record { status = Status.duplicate; seq_num = 1; blob_hash = hash_a }
unfolding empty_store
second-duplicate = refl

empty-readable : empty_store.read_fails (make_blob_key ns_a hash_a) ≡ false
unfolding empty_store
empty-readable = refl

note-readable : stored_note.0.read_fails (make_blob_key ns_a hash_a) ≡ false
unfolding empty_store
note-readable = refl

get_blob-store_blob_example : get_blob stored_note.0 ns_a hash_a ≡ (
    if bytes_eq (make_blob_key ns_a hash_a) (make_blob_key ns_a hash_a)
    then some note
    else get_blob empty_store ns_a hash_a)
get_blob-store_blob_example =
    get_blob-store_blob calm empty_store ns_a note hash_a 0 500 5 ns_a hash_a refl refl
      empty-readable note-stored

get_blob-delete_blob_data_example :
    ((delete_blob_data calm stored_note.0 ns_a hash_a).1
      ≡ is_some (get_blob stored_note.0 ns_a hash_a))
    × (get_blob (delete_blob_data calm stored_note.0 ns_a hash_a).0 ns_a hash_a ≡ (
        if bytes_eq (make_blob_key ns_a hash_a) (make_blob_key ns_a hash_a)
        then none
        else get_blob stored_note.0 ns_a hash_a))
get_blob-delete_blob_data_example =
    get_blob-delete_blob_data calm stored_note.0 ns_a hash_a ns_a hash_a refl note-readable

note-no_tombstone : is_tombstone note.body ≡ false
unfolding empty_store
note-no_tombstone = refl

marker-is_tombstone : is_tombstone marker.body ≡ true
unfolding empty_store
marker-is_tombstone = refl

fresh-quota : quota_of ns_a empty_store.quotas ≡ record { total_bytes = 0; blob_count = 0 }
unfolding empty_store
fresh-quota = refl

quota_limit-store_blob_example :
    ((quota_of ns_a stored_note.0.quotas).total_bytes ≤ 529)
    × ((quota_of ns_a stored_note.0.quotas).blob_count ≤ 5)
unfolding plain_crypto
quota_limit-store_blob_example =
    quota_limit-store_blob calm empty_store ns_a note hash_a encoded_note 0 500 5 refl (omega arith)
      (omega arith) note-no_tombstone (rw fresh-quota (omega arith)) (rw fresh-quota (omega arith))
      note-stored

quota_cycle_example :
    quota_of ns_a (delete_blob_data calm stored_note.0 ns_a hash_a).0.quotas
    ≡ quota_of ns_a empty_store.quotas
unfolding plain_crypto
quota_cycle_example =
    quota_cycle calm calm empty_store ns_a note hash_a 0 500 5 refl refl refl note-no_tombstone
      (rw fresh-quota (omega arith)) (rw fresh-quota (omega arith)) note-stored

-- One note of 68 bytes is there, but the aggregate says that there is none.
tombstone_undercounts_example :
    quota_of ns_a (delete_blob_data calm stored_marker.0 ns_a hint_a).0.quotas
    ≡ record { total_bytes = 68 - (71 + 29); blob_count = 1 - 1 }
unfolding plain_crypto
tombstone_undercounts_example =
    tombstone_undercounts calm calm stored_note.0 ns_a marker hint_a one_note 0 500 5 refl refl refl
      marker-is_tombstone (record { bytes_fit = omega arith; count_fits = omega arith })
      note-counted marker-stored

abbrev key_a : List ℕ
key_a = replicate 2592 7

abbrev bound : Storage
bound = record empty_store {
  owner_pubkeys = sample_maps.upsert hint_a key_a empty_store.owner_pubkeys;
}

key-registered : register_owner_pubkey calm empty_store hint_a key_a ≡ some bound
unfolding empty_store
key-registered = refl

abbrev cursor : SyncCursor
cursor = record { seq_num = 5000000000; round_count = 3; last_sync_timestamp = 1700000000 }
