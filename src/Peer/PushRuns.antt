-- ===== src/Peer/PushRuns.antt =====
-- peer/blob_push_manager.cpp and the request handlers on concrete stores.
use chromatin_protocol.Prelude.{
  All, ℕ, ◌≡◌, ◌≤◌, refl, arith, List, [], ◌∷◌, ◌++◌, true, false, some, length, bytes_eq,
}
use chromatin_protocol.External.Samples.{plain_crypto}
use chromatin_protocol.Codec.{is_blob_expired}
use chromatin_protocol.Storage.Samples.{sample_maps, sample_crypto, empty_store}
use chromatin_protocol.Storage.Query.{get_blob}
use chromatin_protocol.Engine.Samples.{node, quiet, ns_a, published}
use chromatin_protocol.Engine.Ingest.{ingest}
use chromatin_protocol.Sync.{Notification, is_live}
use chromatin_protocol.Peer.{Link, PeerInfo}
use chromatin_protocol.Peer.Push.{
  Sent, Push, encode_namespace_hash, on_blob_ingested, encode_blob_ref, should_skip_for_peer_cap,
  has_key, on_blob_notify, handle_blob_fetch, handle_blob_fetch_response,
}
use chromatin_protocol.Peer.Dispatch.{on_node_info_response}
use chromatin_protocol.Peer.Requests.{NodeInfo, node_info_response}
use chromatin_protocol.Peer.Advertised.{is_notify_to, node_info_advertises}
use chromatin_protocol.Peer.Answers.{SameAnswer, read_exists_agree}
use chromatin_protocol.Peer.Fetched.{push_delivers}
use chromatin_protocol.Peer.Unanswered.{Event, happen_all, waits_for, IsBlocked, not_found_blocks}

abbrev link : ℕ → Link
link id = record {
  id = id;
  peer_pubkey = id ∷ [];
  initiator = true;
  uds = false;
  declared_role = 0;
  remote_address = [];
}

abbrev peer : ℕ → PeerInfo
peer id = record {
  connection = link id;
  address = [];
  is_bootstrap = false;
  role = 0;
  strike_count = 0;
  syncing = false;
  advertised_blob_cap = 0;
  sync_inbox = [];
  subscribed_namespaces = [];
  peer_is_full = false;
  bucket_tokens = 1000;
  bucket_last_refill = 5000;
  last_sync_initiated = 0;
  last_message_time = 5000;
  announced_namespaces = [];
  announce_received = false;
}

abbrev holder : Push
holder = record {
  storage = (ingest node quiet empty_store ns_a published).0;
  pending_fetches = [];
  ingests = 1;
}

abbrev newcomer : Push
newcomer = record { storage = empty_store; pending_fetches = []; ingests = 0 }

abbrev hash : List ℕ
hash = sample_crypto.sha3_256 (sample_crypto.encode_blob published)

holder-holds : get_blob holder.storage ns_a hash ≡ some published
unfolding node
holder-holds = refl

published-live : is_blob_expired published 3000000 ≡ false
unfolding is_blob_expired
published-live = refl

no_cap : should_skip_for_peer_cap (length published.body) (peer 2).advertised_blob_cap ≡ false
unfolding should_skip_for_peer_cap
no_cap = refl

newcomer-lacks : is_live 3000000 (get_blob newcomer.storage ns_a hash) ≡ false
unfolding node is_live
newcomer-lacks = refl

nothing_pending : has_key (ns_a ++ hash) [] ≡ false
unfolding has_key
nothing_pending = refl

some_byte : length (sample_crypto.encode_blob published) ≡ 4200
unfolding node
some_byte = refl

ns_size : length ns_a ≡ 32
unfolding plain_crypto
ns_size = refl

hash_size : length hash ≡ 32
hash_size = sample_crypto.length-sha3_256 _

push_delivers_example :
    let told = on_blob_notify 3000000 (peer 1) (encode_blob_ref ns_a hash 1 4164 false) newcomer in
    (fetch reply : Sent) × (told.1 ≡ fetch ∷ [])
    × (handle_blob_fetch 3000000 (peer 2) fetch.payload holder ≡ reply ∷ [])
    × (let end = handle_blob_fetch_response node quiet 3000000 1 [] reply.payload told.0 in
        (end.0.storage ≡ (ingest node quiet newcomer.storage ns_a published).0)
        × (end.0.pending_fetches ≡ newcomer.pending_fetches))
push_delivers_example =
    push_delivers node quiet 3000000 3000000 (peer 2) (peer 1) [] ns_a hash 1 4164 false published
      holder newcomer ns_size refl ns_size (omega (arith, some_byte)) holder-holds published-live
      no_cap refl newcomer-lacks nothing_pending

abbrev waiting : Push
waiting = record newcomer { pending_fetches = (ns_a ++ hash, 1) ∷ [] }

asked-waits : waits_for (encode_namespace_hash ns_a hash) 1 waiting.pending_fetches ≡ true
unfolding waits_for encode_namespace_hash plain_crypto bytes_eq
asked-waits = refl

-- The peer that was asked does not have it, another one that has it announces it twice, and a third
-- one goes.
abbrev in_vain : List Event
in_vain =
    Event.answered quiet 3000000 1 [] (0x01 ∷ [])
    ∷ Event.announced 3000001 (peer 3) (encode_blob_ref ns_a hash 1 4164 false)
    ∷ Event.ended 2
    ∷ Event.announced 3000002 (peer 3) (encode_blob_ref ns_a hash 1 4164 false)
    ∷ []

not_found_blocks_example :
    IsBlocked 1 (encode_namespace_hash ns_a hash) (happen_all node in_vain waiting)
not_found_blocks_example =
    not_found_blocks node 1 ns_a hash in_vain waiting asked-waits (refl, (tt, (refl, (tt, tt))))

abbrev small_node : NodeInfo
small_node = record {
  version = 0x34 ∷ 0x2e ∷ 0x32 ∷ [];
  uptime = 60;
  peers = 2;
  namespaces = 1;
  total_blobs = 1;
  storage_used = 4200;
  storage_max = 0;
  blob_max_bytes = 4096;
  rate_limit_bytes_per_sec = 0;
  max_subscriptions = 256;
}

abbrev big : Notification
big = record {
  namespace_id = ns_a;
  blob_hash = hash;
  seq_num = 1;
  blob_data_size = 4164;
  tombstone = false;
  expiry_time = 0;
}

node_info_advertises_example :
    let q = (on_node_info_response (node_info_response small_node) (peer 1)).peer in
    (q.advertised_blob_cap ≡ 4096)
    × All
        (λ m. is_notify_to 1 m ≡ false)
        (on_blob_ingested 3000000 (some 2) big (peer 3 ∷ (q ∷ []))).0
node_info_advertises_example =
    node_info_advertises small_node (peer 1) 3000000 (some 2) big (peer 3 ∷ []) [] (omega arith)
      (omega arith) refl (omega arith) (omega arith) (refl, tt) tt

request-long : 64 ≤ length (ns_a ++ hash)
unfolding plain_crypto
request-long = omega arith

read_exists_agree_example : SameAnswer 3000000 holder.storage (ns_a ++ hash)
read_exists_agree_example = read_exists_agree 3000000 holder.storage (ns_a ++ hash) request-long
