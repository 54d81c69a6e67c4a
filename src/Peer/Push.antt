-- ===== src/Peer/Push.antt =====
-- peer/blob_push_manager.cpp: a new blob is announced to the peers and the subscribers, and a peer
-- fetches what it lacks. `source` is the connection that a blob came from, if any.
use chromatin_protocol.Prelude.{
  ℕ, ◌+◌, ◌%◌, ◌^◌, List, [], ◌∷◌, ◌++◌, Bool, true, false, ◌&&◌, ◌||◌, not, Option, none, some,
  ltb, leb, ◌==◌, if◌then◌else◌, length, get_or, drop, slice, bytes_eq,
}
use chromatin_protocol.Endian.{write_u32_be, write_u64_be}
use chromatin_protocol.External.Mdbx.{Mdbx}
use chromatin_protocol.External.Crypto.{Crypto}
use chromatin_protocol.Codec.{BlobData, is_blob_expired, is_tombstone, saturating_expiry}
use chromatin_protocol.Storage.Layout.{Storage}
use chromatin_protocol.Storage.Query.{get_blob}
use chromatin_protocol.Engine.Config.{Engine, World, IngestStatus, IngestResult, WriteAck}
use chromatin_protocol.Engine.Ingest.{ingest}
use chromatin_protocol.Reconcile.Order.{contains}
use chromatin_protocol.Sync.{NamespacedBlob, Notification, is_live}
use chromatin_protocol.Peer.{peer_role, PeerInfo}

abbrev pub notification_type : ℕ
notification_type = 21

abbrev pub blob_notify_type : ℕ
blob_notify_type = 59

abbrev pub blob_fetch_type : ℕ
blob_fetch_type = 60

abbrev pub blob_fetch_response_type : ℕ
blob_fetch_response_type = 61

-- A message that is handed to a connection.
pub record Sent : Type 0 where
  pub to : ℕ
  pub kind : ℕ
  pub payload : List ℕ

-- util/blob_helpers.h
unfoldable pub encode_blob_ref : List ℕ → List ℕ → ℕ → ℕ → Bool → List ℕ
encode_blob_ref ns hash seq_num size tombstone =
    ns
    ++ (hash
        ++ (write_u64_be seq_num
            ++ (write_u32_be size ++ ((if tombstone then 0x01 else 0x00) ∷ []))))

unfoldable pub encode_namespace_hash : List ℕ → List ℕ → List ℕ
encode_namespace_hash ns hash = ns ++ hash

-- 0 is a cap that is not known.
unfoldable pub should_skip_for_peer_cap : ℕ → ℕ → Bool
should_skip_for_peer_cap blob_size cap = ltb 0 cap && ltb cap blob_size

abbrev pub is_source : Option ℕ → ℕ → Bool
is_source none id = false
is_source (some source) id = source == id

abbrev pub replicates : List (List ℕ) → List ℕ → Bool
replicates [] ns = true
replicates (a ∷ announced) ns = contains ns (a ∷ announced)

unfoldable pub wants_notify : Option ℕ → List ℕ → ℕ → PeerInfo → Bool
unfolding should_skip_for_peer_cap
wants_notify source ns size p =
    not (is_source source p.connection.id)
    && (p.role == peer_role
        && (replicates p.announced_namespaces ns
            && not (should_skip_for_peer_cap size p.advertised_blob_cap)))

unfoldable pub wants_notification : Option ℕ → List ℕ → PeerInfo → Bool
wants_notification source ns p =
    not (is_source source p.connection.id) && contains ns p.subscribed_namespaces

unfoldable pub send_where : (PeerInfo → Bool) → ℕ → List ℕ → List PeerInfo → List Sent
send_where wants kind payload [] = []
send_where wants kind payload (p ∷ ps) =
    let rest = send_where wants kind payload ps in
    if wants p then record { to = p.connection.id; kind = kind; payload = payload } ∷ rest else rest

-- What is sent, and the time for which the expiry timer is set anew.
unfoldable pub on_blob_ingested : ℕ → Option ℕ → Notification → List PeerInfo → List Sent × Option ℕ
unfolding encode_blob_ref wants_notify wants_notification send_where
on_blob_ingested now source n peers =
    let payload =
      encode_blob_ref n.namespace_id n.blob_hash n.seq_num n.blob_data_size n.tombstone in
    if ltb 0 n.expiry_time && leb n.expiry_time now then ([], none) else (
      send_where (wants_notify source n.namespace_id n.blob_data_size) blob_notify_type payload
            peers
          ++ send_where (wants_notification source n.namespace_id) notification_type payload peers,
      (if ltb 0 n.expiry_time then some n.expiry_time else none),
    )

-- `pending_fetches` has the connection that each blob was asked of, by namespace and hash.
pub record Push ⦃M : Mdbx⦄ : Type 0 where
  pub storage : Storage
  pub pending_fetches : List (List ℕ × ℕ)
  pub ingests : ℕ

unfoldable pub has_key : List ℕ → List (List ℕ × ℕ) → Bool
has_key key [] = false
has_key key ((k, id) ∷ entries) = let rest = has_key key entries in bytes_eq k key || rest

unfoldable pub erase_key : List ℕ → List (List ℕ × ℕ) → List (List ℕ × ℕ)
erase_key key [] = []
erase_key key ((k, id) ∷ entries) =
    let rest = erase_key key entries in if bytes_eq k key then rest else (k, id) ∷ rest

unfoldable pub without_link : ℕ → List (List ℕ × ℕ) → List (List ℕ × ℕ)
without_link id [] = []
without_link id ((k, j) ∷ entries) =
    let rest = without_link id entries in if j == id then rest else (k, j) ∷ rest

unfoldable pub clean_pending_fetches : ⦃M : Mdbx⦄ → ℕ → Push → Push
unfolding without_link
clean_pending_fetches id g = record g { pending_fetches = without_link id g.pending_fetches }

module _ ⦃M : Mdbx⦄ ⦃C : Crypto⦄ where
  unfoldable pub ask_for : ℕ → PeerInfo → List ℕ → List ℕ → Push → Push × List Sent
  unfolding has_key is_live encode_namespace_hash
  ask_for now p ns hash g =
      if p.syncing
      then (g, [])
      else if is_live now (get_blob g.storage ns hash)
      then (g, [])
      else if has_key (ns ++ hash) g.pending_fetches
      then (g, [])
      else (
        record g { pending_fetches = (ns ++ hash, p.connection.id) ∷ g.pending_fetches },
        record {
          to = p.connection.id;
          kind = blob_fetch_type;
          payload = encode_namespace_hash ns hash;
        }
            ∷ [],
      )

  unfoldable pub on_blob_notify : ℕ → PeerInfo → List ℕ → Push → Push × List Sent
  unfolding ask_for
  on_blob_notify now p payload g =
      if not (length payload == 77)
      then (g, [])
      else ask_for now p (slice 0 32 payload) (slice 32 32 payload) g

  unfoldable pub fetch_reply : ℕ → ℕ → List ℕ → Option BlobData → List ℕ
  unfolding should_skip_for_peer_cap
  fetch_reply now cap ns none = 0x01 ∷ []
  fetch_reply now cap ns (some blob) =
      if is_blob_expired blob now
      then 0x01 ∷ []
      else if should_skip_for_peer_cap (length blob.body) cap
      then 0x01 ∷ []
      else 0x00 ∷ (ns ++ C.encode_blob blob)

  unfoldable pub handle_blob_fetch : ℕ → PeerInfo → List ℕ → Push → List Sent
  unfolding fetch_reply
  handle_blob_fetch now p payload g =
      let ns = slice 0 32 payload in
      let hash = slice 32 32 payload in
      if not (length payload == 64)
      then []
      else record {
        to = p.connection.id;
        kind = blob_fetch_response_type;
        payload = fetch_reply now p.advertised_blob_cap ns (get_blob g.storage ns hash);
      }
        ∷ []

  unfoldable pub announce_stored :
      ℕ → ℕ → NamespacedBlob → WriteAck → IngestStatus → List PeerInfo → List Sent × Option ℕ
  unfolding on_blob_ingested
  announce_stored now id nb ack IngestStatus.duplicate peers = ([], none)
  announce_stored now id nb ack IngestStatus.stored peers =
      on_blob_ingested now (some id)
        (record {
          namespace_id = nb.target_namespace;
          blob_hash = ack.blob_hash;
          seq_num = ack.seq_num;
          blob_data_size = length nb.blob.body % 2 ^ 32;
          tombstone = is_tombstone nb.blob.body;
          expiry_time = saturating_expiry nb.blob.timestamp nb.blob.ttl;
        })
        peers

  unfoldable pub after_fetch :
      ℕ → ℕ → NamespacedBlob → List PeerInfo → Push → IngestResult → Push × List Sent × Option ℕ
  unfolding announce_stored
  after_fetch now id nb peers g (IngestResult.rejection err) = (g, [], none)
  after_fetch now id nb peers g (IngestResult.success ack) =
      let (messages, timer) = announce_stored now id nb ack ack.status peers in
      (record g { ingests = g.ingests + 1 }, messages, timer)

  -- `none` is the exception of the decoder, which is only logged. The key is taken out whatever the
  -- outcome of `ingest` is.
  unfoldable pub take_fetched :
      Engine
      → World
      → ℕ
      → ℕ
      → List PeerInfo
      → List ℕ
      → Push
      → Option BlobData
      → Push × List Sent × Option ℕ
  unfolding after_fetch erase_key
  take_fetched e w now id peers ns g none = (g, [], none)
  take_fetched e w now id peers ns g (some blob) =
      let (s, result) = ingest e w g.storage ns blob in
      after_fetch now id (record { target_namespace = ns; blob = blob }) peers
        (record g {
          storage = s;
          pending_fetches = erase_key (ns ++ C.sha3_256 (C.encode_blob blob)) g.pending_fetches;
        })
        result

  unfoldable pub handle_blob_fetch_response :
      Engine → World → ℕ → ℕ → List PeerInfo → List ℕ → Push → Push × List Sent × Option ℕ
  unfolding take_fetched
  handle_blob_fetch_response e w now id peers payload g =
      let status = get_or payload 0 0x01 in
      if status == 0x01
      then (g, [], none)
      else if not (status == 0x00) || ltb (length payload) 34
      then (g, [], none)
      else take_fetched e w now id peers (slice 1 32 payload) g
          (C.decode_blob (drop (1 + 32) payload))
