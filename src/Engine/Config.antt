-- ===== src/Engine/Config.antt =====
-- The limits, results and surroundings of the engine in engine/engine.h and engine/engine.cpp.
use chromatin_protocol.Prelude.{
  ℕ, ◌+◌, ◌-◌, ◌%◌, ◌^◌, List, [], ◌∷◌, Bool, true, Option, none, some, ltb, if◌then◌else◌,
  bytes_eq,
}
use chromatin_protocol.External.Mdbx.{Mdbx}
use chromatin_protocol.Storage.Layout.{Storage, Io, Status, StoreResult}

pub data IngestError : Type 0 where
  namespace_mismatch invalid_signature malformed_blob oversized_blob storage_error tombstoned
        no_delegation storage_full quota_exceeded timestamp_rejected invalid_ttl
        pubk_first_violation pubk_mismatch bomb_ttl_nonzero bomb_malformed
        bomb_delegate_not_allowed :
      IngestError

pub data IngestStatus : Type 0 where
  stored duplicate : IngestStatus

pub record WriteAck : Type 0 where
  pub blob_hash : List ℕ
  pub seq_num : ℕ
  pub status : IngestStatus
  pub replication_count : ℕ

-- The two factories. The text of a rejection and the source of a success are left out.
pub data IngestResult : Type 0 where
  success : WriteAck → IngestResult
  rejection : IngestError → IngestResult

-- Limits of a namespace that replace the general ones, where they are given.
pub record QuotaOverride : Type 0 where
  pub max_bytes : Option ℕ
  pub max_count : Option ℕ

pub record Engine : Type 0 where
  pub max_storage_bytes : ℕ
  pub blob_max_bytes : ℕ
  pub namespace_quota_bytes : ℕ
  pub namespace_quota_count : ℕ
  pub max_ttl_seconds : ℕ
  pub quota_overrides : List (List ℕ × QuotaOverride)

abbrev pub value_or : Option ℕ → ℕ → ℕ
value_or none d = d
value_or (some v) d = v

unfoldable pub find_override : List ℕ → List (List ℕ × QuotaOverride) → Option QuotaOverride
find_override ns [] = none
find_override ns ((k, o) ∷ rest) = if bytes_eq k ns then some o else find_override ns rest

-- The byte and the count limit of a namespace; 0 stands for none.
unfoldable pub effective_quota : Engine → List ℕ → ℕ × ℕ
effective_quota e ns = elim (find_override ns e.quota_overrides) [
  | none ↦ (e.namespace_quota_bytes, e.namespace_quota_count)
  | some o ↦
      (value_or o.max_bytes e.namespace_quota_bytes, value_or o.max_count e.namespace_quota_count)
]

-- Step 0c: at most an hour ahead and at most thirty days back, in wrapping 64-bit arithmetic.
unfoldable pub bad_timestamp : ℕ → ℕ → Bool
bad_timestamp now timestamp =
    if ltb ((now + 3600) % 2 ^ 64) timestamp
    then true
    else ltb timestamp ((now + 2 ^ 64 - 2592000) % 2 ^ 64)

-- What a call meets from outside: the readings of the clock, the behaviour of each operation of the
-- store, and what other coroutines do to the store while this one waits for the thread pool.
pub record World ⦃M : Mdbx⦄ : Type 0 where
  pub clock : ℕ → ℕ
  pub io : ℕ → Io
  pub others : ℕ → Storage → Storage

-- The `switch` on the result of the store.
unfoldable pub ack_of : StoreResult → IngestStatus → IngestResult
ack_of r status = IngestResult.success (record {
  blob_hash = r.blob_hash;
  seq_num = r.seq_num;
  status = status;
  replication_count = 1;
})

unfoldable pub result_for : StoreResult → Status → IngestResult
unfolding ack_of
result_for r Status.stored = ack_of r IngestStatus.stored
result_for r Status.duplicate = ack_of r IngestStatus.duplicate
result_for r Status.capacity_exceeded = IngestResult.rejection IngestError.storage_full
result_for r Status.quota_exceeded = IngestResult.rejection IngestError.quota_exceeded
result_for r Status.error = IngestResult.rejection IngestError.storage_error
