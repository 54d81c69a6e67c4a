-- ===== src/Engine/Runs.antt =====
-- engine/engine.cpp on concrete stores.
use chromatin_protocol.Prelude.{
  ℕ, ◌≡◌, ◌≢◌, refl, List, [], ◌∷◌, ◌++◌, replicate, true, false, some, none, bytes_eq, ap, get_or,
}
use chromatin_protocol.External.Samples.{plain_crypto}
use chromatin_protocol.Codec.{
  BlobData, is_tombstone, is_bomb, is_pubkey_blob, extract_pubk_signing_pk,
  extract_tombstone_target, pubkey_magic,
}
use chromatin_protocol.Storage.Samples.{sample_maps, sample_crypto, empty_store}
use chromatin_protocol.Storage.Layout.{Storage, make_blob_key}
use chromatin_protocol.Storage.Query.{marks, get_blob, owner_of, has_tombstone_for}
use chromatin_protocol.Engine.Config.{IngestError, IngestStatus, IngestResult, WriteAck}
use chromatin_protocol.Engine.Ingest.{ingest}
use chromatin_protocol.Engine.Delete.{delete_blob}
use chromatin_protocol.Engine.Samples.{node, quiet, key_a, ns_a, published}
use chromatin_protocol.Engine.Authentic.{ingest_authentic, SignedBy, IsAllowed}
use chromatin_protocol.Engine.Accepted.{ingest-WithinLimits, WithinLimits}
use chromatin_protocol.Engine.Tombstoned.{tombstone_blocks}
use chromatin_protocol.Engine.Squatting.{pubk_binds_hint}
use chromatin_protocol.Engine.Binding.{ingest_keeps_binding, bound_hint_shuts_out}
use chromatin_protocol.Engine.Acked.{ingest-hash}
use chromatin_protocol.Engine.Deleted.{delete_blob_effect, SignedByOwner}

abbrev after_published : Storage × IngestResult
after_published = ingest node quiet empty_store ns_a published

abbrev published_ack : WriteAck
published_ack = record {
  blob_hash = sample_crypto.sha3_256 (sample_crypto.encode_blob published);
  seq_num = 1;
  status = IngestStatus.stored;
  replication_count = 1;
}

published-stored : after_published.1 ≡ IngestResult.success published_ack
unfolding node
published-stored = refl

ingest_authentic_example :
    (pk : List ℕ) × SignedBy node quiet ns_a published pk
    × IsAllowed node quiet ns_a published empty_store pk
ingest_authentic_example =
    ingest_authentic node quiet empty_store ns_a published published_ack published-stored refl

ingest-hash_example :
    published_ack.blob_hash ≡ sample_crypto.sha3_256 (sample_crypto.encode_blob published)
ingest-hash_example =
    ingest-hash node quiet empty_store ns_a published published_ack published-stored

ingest-WithinLimits_example : WithinLimits node quiet empty_store ns_a published
ingest-WithinLimits_example =
    ingest-WithinLimits node quiet empty_store ns_a published published_ack published-stored

published-is_pubkey_blob : is_pubkey_blob published.body ≡ true
unfolding node
published-is_pubkey_blob = refl

pubk_binds_hint_example :
    owner_of after_published.0 ns_a ≡ some (extract_pubk_signing_pk published.body)
pubk_binds_hint_example =
    pubk_binds_hint node quiet empty_store ns_a published published_ack published-is_pubkey_blob
      published-stored refl

key-bound : owner_of after_published.0 ns_a ≡ some key_a
unfolding node
key-bound = refl

abbrev letter : BlobData
letter = record {
  signer_hint = ns_a;
  body = 1 ∷ 2 ∷ 3 ∷ [];
  ttl = 60;
  timestamp = 3000000;
  signature = 9 ∷ [];
}

letter-accepted :
    (r : WriteAck) × ((ingest node quiet after_published.0 ns_a letter).1 ≡ IngestResult.success r)
unfolding node
letter-accepted = (_, refl)

-- The key's digest is the hint that `published` has taken.
abbrev claimed : BlobData
claimed = record published { body = pubkey_magic ++ replicate 4160 1 }

claimed-is_pubkey_blob : is_pubkey_blob claimed.body ≡ true
unfolding node
claimed-is_pubkey_blob = refl

claimed-key : extract_pubk_signing_pk claimed.body ≡ replicate 2592 1
unfolding node
claimed-key = refl

other-key : key_a ≢ extract_pubk_signing_pk claimed.body
other-key = rw claimed-key (λ e. cc (ap (λ k. get_or k 0 0) e))

ingest_keeps_binding_example :
    owner_of (ingest node quiet after_published.0 ns_a letter).0 ns_a ≡ some key_a
ingest_keeps_binding_example =
    ingest_keeps_binding node quiet after_published.0 ns_a letter ns_a key_a (λ i t h. h) key-bound

bound_hint_shuts_out_example :
    (ingest node quiet after_published.0 (sample_crypto.sha3_256 (replicate 2592 1)) claimed).1
    ≢ IngestResult.success published_ack
bound_hint_shuts_out_example =
    bound_hint_shuts_out node quiet after_published.0 (sample_crypto.sha3_256 (replicate 2592 1))
      claimed key_a published_ack (λ i t h. h) key-bound claimed-is_pubkey_blob other-key refl

abbrev letter_hash : List ℕ
letter_hash = sample_crypto.sha3_256 (sample_crypto.encode_blob letter)

abbrev marked : Storage
marked = record after_published.0 {
  tombstones = sample_maps.upsert (ns_a ++ letter_hash) [] after_published.0.tombstones;
}

letter-no_tombstone : is_tombstone letter.body ≡ false
unfolding node
letter-no_tombstone = refl

letter-no_bomb : is_bomb letter.body ≡ false
unfolding node
letter-no_bomb = refl

letter-marked : has_tombstone_for marked ns_a letter_hash ≡ true
unfolding node
letter-marked = refl

letter-refused :
    (ingest node quiet marked ns_a letter).1 ≡ IngestResult.rejection IngestError.tombstoned
unfolding node
letter-refused = refl

tombstone_blocks_example :
    (ingest node quiet marked ns_a letter).1 ≢ IngestResult.success published_ack
tombstone_blocks_example =
    tombstone_blocks node quiet marked ns_a letter published_ack letter-no_tombstone letter-no_bomb
      (λ i t h. h) letter-marked refl

abbrev request : BlobData
request = record {
  signer_hint = ns_a;
  body = 0xDE ∷ 0xAD ∷ 0xBE ∷ 0xEF ∷ letter_hash;
  ttl = 0;
  timestamp = 3000000;
  signature = 9 ∷ [];
}

abbrev after_letter : Storage
after_letter = (ingest node quiet after_published.0 ns_a letter).0

letter-readable : get_blob after_letter ns_a letter_hash ≡ some letter
unfolding node
letter-readable = refl

abbrev request_ack : WriteAck
request_ack = record {
  blob_hash = sample_crypto.sha3_256 (sample_crypto.encode_blob request);
  seq_num = 3;
  status = IngestStatus.stored;
  replication_count = 1;
}

request-stored : (delete_blob quiet after_letter ns_a request).1 ≡ IngestResult.success request_ack
unfolding node
request-stored = refl

request-own_key :
    bytes_eq
      (make_blob_key ns_a (sample_crypto.sha3_256 (sample_crypto.encode_blob request)))
      (make_blob_key ns_a (extract_tombstone_target request.body))
    ≡ false
unfolding node
request-own_key = refl

delete_blob_effect_example :
    (pk : List ℕ) × SignedByOwner quiet ns_a request pk
    × (get_blob
          (delete_blob quiet after_letter ns_a request).0
          ns_a
          (extract_tombstone_target request.body)
        ≡ none)
    × (marks
          (delete_blob quiet after_letter ns_a request).0
          ns_a
          (extract_tombstone_target request.body)
        ≡ true)
unfolding plain_crypto
delete_blob_effect_example =
    delete_blob_effect quiet after_letter ns_a request request_ack refl refl refl request-own_key
      request-stored refl
