-- ===== src/Peer/Dispatch.antt =====
-- `MessageDispatcher::on_peer_message` of peer/message_dispatcher.cpp for a connected peer, up to the
-- messages that other components and the request handlers answer.
use chromatin_protocol.Prelude.{
  ℕ, ◌+◌, ◌-◌, ◌*◌, ◌%◌, ◌^◌, List, [], ◌∷◌, ◌++◌, Bool, true, false, ◌&&◌, ◌||◌, not, ltb, ◌==◌,
  if◌then◌else◌, length, get_or, drop,
}
use chromatin_protocol.Endian.{read_u64_be}
use chromatin_protocol.Reconcile.Local.{insert_all}
use chromatin_protocol.Acl.{without}
use chromatin_protocol.Peer.{peer_role, PeerInfo, try_consume_tokens, decode_namespaces}

abbrev pub sync_request_type : ℕ
sync_request_type = 9

abbrev pub peer_list_request_type : ℕ
peer_list_request_type = 15

abbrev pub delete_type : ℕ
delete_type = 17

abbrev pub subscribe_type : ℕ
subscribe_type = 19

abbrev pub unsubscribe_type : ℕ
unsubscribe_type = 20

abbrev pub node_info_response_type : ℕ
node_info_response_type = 40

abbrev pub sync_namespace_announce_type : ℕ
sync_namespace_announce_type = 62

abbrev pub blob_write_type : ℕ
blob_write_type = 64

abbrev pub sync_reject_cooldown : ℕ
sync_reject_cooldown = 0x01

abbrev pub sync_reject_byte_rate : ℕ
sync_reject_byte_rate = 0x03

-- The limits, and the cooldown of the sync orchestrator.
pub record Dispatcher : Type 0 where
  pub rate_limit_bytes_per_sec : ℕ
  pub rate_limit_burst : ℕ
  pub max_subscriptions : ℕ
  pub sync_cooldown_seconds : ℕ

-- What is started besides the change of the peer; `hand_on` is everything behind this part.
pub data Action : Type 0 where
  nothing close_gracefully respond_to_sync respond_to_pex refuse_subscription hand_on : Action
  reject_sync : ℕ → Action

pub record Outcome : Type 0 where
  pub peer : PeerInfo
  pub rate_limited : ℕ
  pub sync_rejections : ℕ
  pub action : Action

-- The peer and the action, with counters as they were.
unfoldable pub only : PeerInfo → Action → Outcome
only p action = record { peer = p; rate_limited = 0; sync_rejections = 0; action = action }

unfoldable pub rejected : PeerInfo → Action → Outcome
rejected p action = record { peer = p; rate_limited = 0; sync_rejections = 1; action = action }

unfoldable pub route_sync_message : ℕ → List ℕ → PeerInfo → PeerInfo
route_sync_message kind payload p = record p {
  sync_inbox = p.sync_inbox ++ (record { kind = kind; payload = payload } ∷ []);
}

-- The clock is read anew at each use; `now i` is the reading `i`.
unfoldable pub in_cooldown : Dispatcher → (ℕ → ℕ) → PeerInfo → Bool
in_cooldown d now p =
    let elapsed_ms = (now 2 + 2 ^ 64 - p.last_sync_initiated) % 2 ^ 64 in
    ltb 0 d.sync_cooldown_seconds
    && (ltb 0 p.last_sync_initiated && ltb elapsed_ms (d.sync_cooldown_seconds * 1000 % 2 ^ 64))

unfoldable pub begin_sync : (ℕ → ℕ) → PeerInfo → PeerInfo
begin_sync now p = record p { last_sync_initiated = now 3; sync_inbox = [] }

unfoldable pub on_sync_request : Dispatcher → (ℕ → ℕ) → PeerInfo → Outcome
unfolding only rejected in_cooldown begin_sync
on_sync_request d now p =
    if p.syncing
    then rejected p Action.nothing
    else if in_cooldown d now p
    then rejected p (Action.reject_sync sync_reject_cooldown)
    else only (begin_sync now p) Action.respond_to_sync

unfoldable pub on_peer_list_request : List ℕ → PeerInfo → Outcome
unfolding only route_sync_message
on_peer_list_request payload p =
    only (route_sync_message peer_list_request_type payload p)
      (if p.syncing then Action.nothing else Action.respond_to_pex)

-- SyncAccept to SyncComplete, PeerListResponse, the messages of reconciliation and SyncRejected.
unfoldable pub is_sync_message : ℕ → Bool
is_sync_message kind =
    kind == 10
    || (kind == 29
        || (kind == 11
            || (kind == 26
                || (kind == 27
                    || (kind == 28
                        || (kind == 12 || (kind == 13 || (kind == 14 || kind == 16))))))))

-- The cap stands behind the version and 40 bytes; a short payload is the exception that is caught.
unfoldable pub on_node_info_response : List ℕ → PeerInfo → Outcome
unfolding only
on_node_info_response payload p =
    let offset = 1 + get_or payload 0 0 + 40 in
    if not (p.role == peer_role)
    then only p Action.nothing
    else if ltb (length payload) 1
    then only p Action.nothing
    else if ltb (length payload) (offset + 8)
    then only p Action.nothing
    else only (record p { advertised_blob_cap = read_u64_be (drop offset payload) }) Action.nothing

unfoldable pub on_subscribe : Dispatcher → List ℕ → PeerInfo → Outcome
unfolding only
on_subscribe d payload p =
    let namespaces = decode_namespaces payload in
    if ltb 0 d.max_subscriptions
      && ltb d.max_subscriptions (length p.subscribed_namespaces + length namespaces)
    then only p Action.refuse_subscription
    else only (record p { subscribed_namespaces = insert_all namespaces p.subscribed_namespaces })
        Action.nothing

unfoldable pub erase_all : List (List ℕ) → List (List ℕ) → List (List ℕ)
erase_all [] set = set
erase_all (ns ∷ namespaces) set = erase_all namespaces (without ns set)

unfoldable pub on_unsubscribe : List ℕ → PeerInfo → Outcome
unfolding only erase_all
on_unsubscribe payload p =
    only
      (record p {
        subscribed_namespaces = erase_all (decode_namespaces payload) p.subscribed_namespaces;
      })
      Action.nothing

unfoldable pub on_announce : List ℕ → PeerInfo → Outcome
unfolding only
on_announce payload p =
    only
      (record p {
        announced_namespaces = insert_all (decode_namespaces payload) [];
        announce_received = true;
      })
      Action.nothing

unfoldable pub route : Dispatcher → (ℕ → ℕ) → ℕ → List ℕ → PeerInfo → Outcome
unfolding on_sync_request on_peer_list_request is_sync_message on_node_info_response on_subscribe
    on_unsubscribe on_announce
route d now kind payload p =
    if kind == sync_request_type
    then on_sync_request d now p
    else if kind == peer_list_request_type
    then on_peer_list_request payload p
    else if is_sync_message kind
    then only (route_sync_message kind payload p) Action.nothing
    else if kind == node_info_response_type
    then on_node_info_response payload p
    else if kind == subscribe_type
    then on_subscribe d payload p
    else if kind == unsubscribe_type
    then on_unsubscribe payload p
    else if kind == sync_namespace_announce_type
    then on_announce payload p
    else only p Action.hand_on

-- Most messages are routed even where the peer has used up its bytes.
unfoldable pub after_budget : Dispatcher → (ℕ → ℕ) → ℕ → List ℕ → PeerInfo × Bool → Outcome
unfolding route rejected
after_budget d now kind payload (p, true) = route d now kind payload p
after_budget d now kind payload (p, false) =
    if kind == blob_write_type || kind == delete_type
    then record {
      peer = p;
      rate_limited = 1;
      sync_rejections = 0;
      action = Action.close_gracefully;
    }
    else if kind == sync_request_type
    then rejected p (if p.syncing then Action.nothing else Action.reject_sync sync_reject_byte_rate)
    else route d now kind payload p

unfoldable pub on_peer_message : Dispatcher → (ℕ → ℕ) → ℕ → List ℕ → PeerInfo → Outcome
unfolding after_budget
on_peer_message d now kind payload p =
    let seen = record p { last_message_time = now 0 } in
    if ltb 0 d.rate_limit_bytes_per_sec
    then after_budget d now kind payload (
        try_consume_tokens (now 1) d.rate_limit_bytes_per_sec d.rate_limit_burst (length payload)
          seen)
    else route d now kind payload seen
