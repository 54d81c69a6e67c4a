-- ===== src/Peer/Runs.antt =====
-- db/peer on concrete peers.
use chromatin_protocol.Prelude.{
  ℕ, ◌≡◌, ◌≢◌, refl, arith, List, [], ◌∷◌, ◌++◌, Bool, true, false, if◌then◌else◌, replicate,
  bytes_eq, eq→bytes_eq, sym, ◌∙◌,
}
use chromatin_protocol.External.Mdbx.{bytes_lt}
use chromatin_protocol.External.Samples.{plain_crypto}
use chromatin_protocol.Storage.Samples.{sample_crypto}
use chromatin_protocol.Acl.{access_control, allow_list, insert_keys, is_closed_mode, is_allowed}
use chromatin_protocol.Peer.{Link, PeerInfo, try_consume_tokens, refill_for}
use chromatin_protocol.Peer.Bucket.{Arrival, write_all}
use chromatin_protocol.Peer.Dispatch.{
  blob_write_type, Dispatcher, Action, sync_request_type, on_peer_message, only, rejected,
  in_cooldown, begin_sync, on_sync_request, route, after_budget,
}
use chromatin_protocol.Peer.Limits.{IsKept, on_peer_message-IsKept}
use chromatin_protocol.Peer.Connected.{Manager, is_admitted, find_same}
use chromatin_protocol.Peer.Dedup.{links, arrive_both, AreRivals, dedup_agrees}

abbrev key_a : List ℕ
key_a = 1 ∷ []

abbrev key_b : List ℕ
key_b = 2 ∷ []

abbrev ns_a : List ℕ
ns_a = sample_crypto.sha3_256 key_a

abbrev ns_b : List ℕ
ns_b = sample_crypto.sha3_256 key_b

abbrev link : ℕ → List ℕ → Bool → Link
link id key initiator = record {
  id = id;
  peer_pubkey = key;
  initiator = initiator;
  uds = false;
  declared_role = 0;
  remote_address = [];
}

abbrev node : List ℕ → Manager
node own = record {
  peers = [];
  acl = access_control [] [] own;
  own_namespace = own;
  bootstrap_addresses = [];
  rate_limit_burst = 1000;
  max_peers = 8;
  max_clients = 8;
  strike_threshold = 2;
  closed = [];
  leaving = [];
  peers_connected_total = 0;
  peers_disconnected_total = 0;
}

rivals_at_a : AreRivals (node ns_a) ns_b (link 1 key_b true) (link 2 key_b false)
unfolding is_admitted is_allowed is_closed_mode access_control allow_list insert_keys find_same
rivals_at_a = record {
  first = record { named = refl; is_peer = refl; admitted = refl };
  second = record { named = refl; is_peer = refl; admitted = refl };
  opened = refl;
  met = refl;
  unknown = refl;
}

rivals_at_b : AreRivals (node ns_b) ns_a (link 2 key_a true) (link 1 key_a false)
unfolding is_admitted is_allowed is_closed_mode access_control allow_list insert_keys find_same
rivals_at_b = record {
  first = record { named = refl; is_peer = refl; admitted = refl };
  second = record { named = refl; is_peer = refl; admitted = refl };
  opened = refl;
  met = refl;
  unknown = refl;
}

namespaces-apart : bytes_eq ns_a ns_b ≡ false
unfolding plain_crypto bytes_eq
namespaces-apart = refl

namespaces-differ : ns_a ≢ ns_b
namespaces-differ = λ e. cc (sym (eq→bytes_eq ns_a ns_b e) ∙ namespaces-apart)

dedup_agrees_example :
    let lower = bytes_lt ns_a ns_b in
    (links (arrive_both true 5 6 (node ns_a) (link 1 key_b true) (link 2 key_b false))
      ≡ [] ++ ((if lower then link 1 key_b true else link 2 key_b false) ∷ []))
    × (links (arrive_both true 5 6 (node ns_b) (link 2 key_a true) (link 1 key_a false))
        ≡ [] ++ ((if lower then link 1 key_a false else link 2 key_a true) ∷ []))
dedup_agrees_example =
    dedup_agrees (node ns_a) (node ns_b) (link 1 key_b true) (link 2 key_b false)
      (link 2 key_a true) (link 1 key_a false) rivals_at_a rivals_at_b namespaces-differ true true 5
      6 5 6

-- A peer that connected at 5000 with a burst of 1000 bytes.
abbrev peer : PeerInfo
peer = record {
  connection = link 1 key_a true;
  address = [];
  is_bootstrap = false;
  role = 0;
  strike_count = 0;
  syncing = false;
  advertised_blob_cap = 0;
  sync_inbox = [];
  subscribed_namespaces = [];
  peer_is_full = false;
  bucket_tokens = 1000;
  bucket_last_refill = 5000;
  last_sync_initiated = 0;
  last_message_time = 5000;
  announced_namespaces = [];
  announce_received = false;
}

abbrev limits : Dispatcher
limits = record {
  rate_limit_bytes_per_sec = 100;
  rate_limit_burst = 1000;
  max_subscriptions = 2;
  sync_cooldown_seconds = 30;
}

abbrev write : ℕ → ℕ → Arrival
write time size = record { now = λ i. time; kind = blob_write_type; payload = replicate size 0 }

abbrev messages : List Arrival
messages = write 5000 900 ∷ write 5500 700 ∷ write 7000 200 ∷ []

-- At a hundred bytes a second the second has to be left out.
written-eleven_hundred : (write_all limits peer messages).1 ≡ 1100
unfolding write_all on_peer_message try_consume_tokens refill_for
written-eleven_hundred = refl

session-started :
    (on_peer_message limits (λ i. 6000) sync_request_type [] peer).action ≡ Action.respond_to_sync
unfolding on_peer_message try_consume_tokens refill_for after_budget route on_sync_request
    in_cooldown begin_sync only rejected
session-started = refl

on_peer_message-IsKept_example :
    IsKept limits (λ i. 6000) peer (on_peer_message limits (λ i. 6000) sync_request_type [] peer)
on_peer_message-IsKept_example =
    on_peer_message-IsKept limits (λ i. 6000) sync_request_type [] peer
      (record { tokens = omega arith; subscriptions = λ h. omega arith })
