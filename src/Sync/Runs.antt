-- ===== src/Sync/Runs.antt =====
-- sync/sync_protocol.cpp on concrete stores.
use chromatin_protocol.Prelude.{◌≡◌, refl, arith, ℕ, List, [], ◌∷◌, some, length, replicate}
use chromatin_protocol.Endian.{write_u32_be}
use chromatin_protocol.Codec.{BlobData, is_blob_expired}
use chromatin_protocol.Storage.Samples.{sample_maps, sample_crypto, empty_store}
use chromatin_protocol.Engine.Samples.{node, quiet, ns_a, published}
use chromatin_protocol.Sync.{
  NamespacedBlob, Ingesting, count_error, notify, take_result, ingest_one, ingest_blobs,
}
use chromatin_protocol.Sync.Wire.{encode_blob_transfer, decode_blob_transfer}
use chromatin_protocol.Sync.Transfer.{decode-encode_blob_transfer}

abbrev from_peer : NamespacedBlob
from_peer = record { target_namespace = ns_a; blob = published }

abbrev start : Ingesting
start = record {
  storage = empty_store;
  stats = record {
    blobs_sent = 0;
    blobs_received = 0;
    namespaces_synced = 0;
    storage_full_count = 0;
    quota_exceeded_count = 0;
  };
  notified = [];
}

abbrev after : Ingesting
after = ingest_blobs node (λ i. quiet) 3000000 0 start (from_peer ∷ [])

-- The blob is taken in and announced once.
announced : (length after.notified ≡ 1) × (after.stats.blobs_received ≡ 1)
unfolding node is_blob_expired count_error notify take_result ingest_one ingest_blobs
announced = (refl, refl)

abbrev published_hash : List ℕ
published_hash = sample_crypto.sha3_256 (sample_crypto.encode_blob published)

abbrev letter : BlobData
letter = record {
  signer_hint = replicate 32 4;
  body = 1 ∷ 2 ∷ [];
  ttl = 0;
  timestamp = 5;
  signature = 9 ∷ [];
}

abbrev sent_letter : NamespacedBlob
sent_letter = record { target_namespace = replicate 32 7; blob = letter }

letter_size : length (sample_crypto.encode_blob letter) ≡ 38
unfolding node
letter_size = refl

transfer_size : length (encode_blob_transfer (sent_letter ∷ [])) ≡ 78
unfolding node encode_blob_transfer write_u32_be
transfer_size = refl

decode-encode_blob_transfer_example :
    decode_blob_transfer (encode_blob_transfer (sent_letter ∷ [])) ≡ some (sent_letter ∷ [])
decode-encode_blob_transfer_example =
    decode-encode_blob_transfer (sent_letter ∷ [])
      (record { ns_size = refl; hint_size = refl; short = omega (arith, letter_size) }, tt)
      (omega arith) (omega (arith, transfer_size))
