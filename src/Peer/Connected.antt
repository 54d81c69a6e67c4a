-- ===== src/Peer/Connected.antt =====
-- The arrival and the end of a connection in peer/connection_manager.cpp, without what the server is
-- told about dialling again and the times of departures, which are only logged.
use chromatin_protocol.Prelude.{
  ℕ, ◌+◌, ◌%◌, ◌^◌, List, [], ◌∷◌, ◌++◌, Bool, true, false, ◌&&◌, not, Option, none, some, ltb, leb,
  ◌==◌, if◌then◌else◌, bytes_eq,
}
use chromatin_protocol.External.Mdbx.{bytes_lt}
use chromatin_protocol.External.Crypto.{Crypto}
use chromatin_protocol.Reconcile.Order.{contains}
use chromatin_protocol.Acl.{AccessControl, is_allowed}
use chromatin_protocol.Peer.{peer_role, client_role, Link, PeerInfo}

-- `closed` and `leaving` have the connections that were told to close, at once and with a goodbye,
-- latest first.
pub record Manager : Type 0 where
  pub peers : List PeerInfo
  pub acl : AccessControl
  pub own_namespace : List ℕ
  pub bootstrap_addresses : List (List ℕ)
  pub rate_limit_burst : ℕ
  pub max_peers : ℕ
  pub max_clients : ℕ
  pub strike_threshold : ℕ
  pub closed : List ℕ
  pub leaving : List ℕ
  pub peers_connected_total : ℕ
  pub peers_disconnected_total : ℕ

unfoldable pub count_role : Bool → List PeerInfo → ℕ
count_role clients [] = 0
count_role true (p ∷ ps) =
    let rest = count_role true ps in if p.role == client_role then rest + 1 else rest
count_role false (p ∷ ps) =
    let rest = count_role false ps in if p.role == client_role then rest else rest + 1

unfoldable pub should_accept_connection : Manager → Bool
should_accept_connection m =
    ltb (count_role false m.peers) m.max_peers && ltb (count_role true m.peers) m.max_clients

unfoldable pub close_link : ℕ → Manager → Manager
close_link id m = record m { closed = id ∷ m.closed }

abbrev pub role_of : Link → ℕ
role_of l = if l.uds then client_role else l.declared_role

unfoldable pub is_admitted : AccessControl → ℕ → List ℕ → Bool
is_admitted acl role ns =
    if role == client_role then is_allowed acl.clients ns else is_allowed acl.peers ns

unfoldable pub new_peer : ℕ → Manager → Link → PeerInfo
new_peer now m l = record {
  connection = l;
  address = l.remote_address;
  is_bootstrap = contains l.remote_address m.bootstrap_addresses;
  role = role_of l;
  strike_count = 0;
  syncing = false;
  advertised_blob_cap = 0;
  sync_inbox = [];
  subscribed_namespaces = [];
  peer_is_full = false;
  bucket_tokens = m.rate_limit_burst;
  bucket_last_refill = now;
  last_sync_initiated = 0;
  last_message_time = now;
  announced_namespaces = [];
  announce_received = false;
}

unfoldable pub add_peer : ℕ → Manager → Link → Manager
unfolding new_peer
add_peer now m l = record m {
  peers = m.peers ++ (new_peer now m l ∷ []);
  peers_connected_total = m.peers_connected_total + 1;
}

-- Of two connections with a peer the one stays that the side with the lower namespace opened.
unfoldable pub keeps_new : List ℕ → List ℕ → Link → Bool
keeps_new own_ns peer_ns l = if bytes_lt own_ns peer_ns then l.initiator else not l.initiator

module _ ⦃C : Crypto⦄ where
  -- The first peer with the namespace, of whatever role.
  unfoldable pub find_same : List ℕ → List PeerInfo → Option PeerInfo
  find_same ns [] = none
  find_same ns (p ∷ ps) =
      if bytes_eq (C.sha3_256 p.connection.peer_pubkey) ns then some p else find_same ns ps

  -- `peers_.erase(it)`
  unfoldable pub erase_same : List ℕ → List PeerInfo → List PeerInfo
  erase_same ns [] = []
  erase_same ns (p ∷ ps) =
      let rest = erase_same ns ps in
      if bytes_eq (C.sha3_256 p.connection.peer_pubkey) ns then ps else p ∷ rest

  unfoldable pub join : ℕ → Manager → Link → List ℕ → Option PeerInfo → Manager
  unfolding add_peer close_link keeps_new erase_same
  join now m l ns none = add_peer now m l
  join now m l ns (some p) =
      if keeps_new m.own_namespace ns l
      then add_peer now (close_link p.connection.id (record m { peers = erase_same ns m.peers })) l
      else close_link l.id m

  unfoldable pub on_peer_connected : ℕ → Manager → Link → Manager
  unfolding join find_same is_admitted
  on_peer_connected now m l =
      let ns = C.sha3_256 l.peer_pubkey in
      if not (is_admitted m.acl (role_of l) ns)
      then close_link l.id (record m { peers_disconnected_total = m.peers_disconnected_total + 1 })
      else if role_of l == peer_role
      then join now m l ns (find_same ns m.peers)
      else add_peer now m l

  -- The connections of peers and clients that are no longer allowed are closed at once.
  unfoldable pub close_unauthorized : List PeerInfo → Manager → Manager
  unfolding close_link
  close_unauthorized [] m = m
  close_unauthorized (p ∷ ps) m = close_unauthorized ps (
      if is_admitted m.acl p.role (C.sha3_256 p.connection.peer_pubkey)
      then m
      else close_link p.connection.id m)

  unfoldable pub disconnect_unauthorized_peers : Manager → Manager
  unfolding close_unauthorized
  disconnect_unauthorized_peers m = close_unauthorized m.peers m

unfoldable pub remove_link : ℕ → List PeerInfo → List PeerInfo
remove_link id [] = []
remove_link id (p ∷ ps) =
    let rest = remove_link id ps in if p.connection.id == id then rest else p ∷ rest

unfoldable pub on_peer_disconnected : Manager → Link → Manager
unfolding remove_link
on_peer_disconnected m l = record m {
  peers = remove_link l.id m.peers;
  peers_disconnected_total = m.peers_disconnected_total + 1;
}

unfoldable pub strike : ℕ → List PeerInfo → List PeerInfo
strike id [] = []
strike id (p ∷ ps) =
    let rest = strike id ps in
    if p.connection.id == id
    then record p { strike_count = (p.strike_count + 1) % 2 ^ 32 } ∷ ps
    else p ∷ rest

unfoldable pub find_peer : ℕ → List PeerInfo → Option PeerInfo
find_peer id [] = none
find_peer id (p ∷ ps) = if p.connection.id == id then some p else find_peer id ps

unfoldable pub struck : Manager → ℕ → Option PeerInfo → Manager
struck m id none = m
struck m id (some p) =
    let m' = record m { peers = strike id m.peers } in
    if leb m.strike_threshold ((p.strike_count + 1) % 2 ^ 32)
    then record m' { leaving = id ∷ m.leaving }
    else m'

unfoldable pub record_strike : Manager → ℕ → Manager
unfolding strike find_peer struck
record_strike m id = struck m id (find_peer id m.peers)
