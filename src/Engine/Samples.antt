-- ===== src/Engine/Samples.antt =====
-- A node and a published key, for runs of engine/engine.cpp and what stands on it.
use chromatin_protocol.Prelude.{ℕ, List, [], ◌∷◌, ◌++◌, replicate}
use chromatin_protocol.Codec.{BlobData, pubkey_magic}
use chromatin_protocol.Storage.Samples.{sample_maps, sample_crypto, empty_store, calm}
use chromatin_protocol.Engine.Config.{
  Engine, World, bad_timestamp, find_override, effective_quota, ack_of, result_for,
}
use chromatin_protocol.Engine.Checks.{bad_ttl, bomb_check, cheap_checks}
use chromatin_protocol.Engine.Resolve.{delegate_signer, owner_signer, other_signer, resolve_signer}
use chromatin_protocol.Engine.Ingest.{
  build_signing_input, delete_targets, deletions, register_pubk, store_step, store_registered,
  after_deletions, verify_and_store, quota_full, with_key, with_signer, after_checks, ingest,
}
use chromatin_protocol.Engine.Delete.{
  delete_checks, delete_and_store, delete_with, delete_after, delete_blob,
}

-- A node that opens every definition of the engine in a run.
unfoldable pub node : Engine
unfolding empty_store bad_timestamp find_override effective_quota ack_of result_for bad_ttl
    bomb_check cheap_checks delegate_signer owner_signer other_signer resolve_signer
    build_signing_input delete_targets deletions register_pubk store_step store_registered
    after_deletions verify_and_store quota_full with_key with_signer after_checks ingest
    delete_checks delete_and_store delete_with delete_after delete_blob
node = record {
  max_storage_bytes = 0;
  blob_max_bytes = 100000;
  namespace_quota_bytes = 0;
  namespace_quota_count = 0;
  max_ttl_seconds = 0;
  quota_overrides = [];
}

abbrev pub quiet : World
quiet = record { clock = λ i. 3000000; io = λ i. calm; others = λ i s. s }

abbrev pub key_a : List ℕ
key_a = replicate 2592 0

-- The namespace of the key: its digest.
abbrev pub ns_a : List ℕ
ns_a = sample_crypto.sha3_256 key_a

abbrev pub published : BlobData
published = record {
  signer_hint = ns_a;
  body = pubkey_magic ++ replicate 4160 0;
  ttl = 0;
  timestamp = 3000000;
  signature = 9 ∷ [];
}
