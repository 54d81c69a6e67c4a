-- ===== src/Peer/Exchange.antt =====
-- peer/pex_manager.cpp: the peers that a node keeps in peers.json from one start to the next, and the
-- addresses that it takes from a peer's list.
use chromatin_protocol.Prelude.{
  ℕ, ◌+◌, ◌%◌, ◌^◌, ◌≡◌, List, [], ◌∷◌, Bool, true, ◌&&◌, not, ltb, leb, ◌==◌, if◌then◌else◌,
  length, take, bytes_eq,
}
use chromatin_protocol.Reconcile.Order.{contains}
use chromatin_protocol.Reconcile.Local.{set_insert}

abbrev pub max_discovered_per_round : ℕ
max_discovered_per_round = 3

abbrev pub max_persisted_peers : ℕ
max_persisted_peers = 100

abbrev pub max_persist_failures : ℕ
max_persist_failures = 3

pub record PersistedPeer : Type 0 where
  pub address : List ℕ
  pub last_seen : ℕ
  pub fail_count : ℕ
  pub pubkey_hash : List ℕ

-- What is found where peers.json should be; an entry's missing fields have their defaults.
pub data PeersFile : Type 0 where
  missing unreadable : PeersFile
  listed : List PersistedPeer → PeersFile

unfoldable pub every : {A : Type 0} → (A → Bool) → List A → Bool
every ok [] = true
every ok (x ∷ xs) = let rest = every ok xs in ok x && rest

-- `std::sort` by the time a peer was last seen, latest first. It leaves open how peers of the same time
-- stand to each other.
pub record NewestFirst : Type 0 where
  pub sort : List PersistedPeer → List PersistedPeer
  pub every-sort :
      (ok : PersistedPeer → Bool) (ps : List PersistedPeer)
      → every ok ps ≡ true
      → every ok (sort ps) ≡ true

unfoldable pub prune : List PersistedPeer → List PersistedPeer
prune [] = []
prune (p ∷ ps) =
    let rest = prune ps in if leb max_persist_failures p.fail_count then rest else p ∷ rest

-- The peers that are kept, which are those written.
unfoldable pub save_persisted_peers : NewestFirst → List PersistedPeer → List PersistedPeer
unfolding prune
save_persisted_peers newest ps =
    let kept = prune ps in
    if ltb max_persisted_peers (length kept)
    then take max_persisted_peers (newest.sort kept)
    else kept

unfoldable pub read_entries : List PersistedPeer → List PersistedPeer
read_entries [] = []
read_entries (p ∷ ps) =
    let rest = read_entries ps in
    if not (length p.address == 0) && ltb p.fail_count max_persist_failures then p ∷ rest else rest

unfoldable pub fail : PersistedPeer → PersistedPeer
fail p = record p { fail_count = (p.fail_count + 1) % 2 ^ 32 }

unfoldable pub fail_each : List PersistedPeer → List PersistedPeer
unfolding fail
fail_each [] = []
fail_each (p ∷ ps) = fail p ∷ fail_each ps

unfoldable pub load_persisted_peers :
    NewestFirst → PeersFile → List PersistedPeer → List PersistedPeer
unfolding save_persisted_peers read_entries fail_each
load_persisted_peers newest PeersFile.missing ps = ps
load_persisted_peers newest PeersFile.unreadable ps = []
load_persisted_peers newest (PeersFile.listed entries) ps =
    save_persisted_peers newest (fail_each (read_entries entries))

unfoldable pub touch : ℕ → List ℕ → Bool → List PersistedPeer → List PersistedPeer
unfolding fail
touch now address success [] =
    if success
    then record { address = address; last_seen = now; fail_count = 0; pubkey_hash = [] } ∷ []
    else []
touch now address success (p ∷ ps) =
    let rest = touch now address success ps in
    if bytes_eq p.address address
    then (if success then record p { last_seen = now; fail_count = 0 } else fail p) ∷ ps
    else p ∷ rest

unfoldable pub update_persisted_peer :
    NewestFirst → List (List ℕ) → ℕ → List ℕ → Bool → List PersistedPeer → List PersistedPeer
unfolding touch save_persisted_peers
update_persisted_peer newest bootstrap_addresses now address success ps =
    if contains address bootstrap_addresses
    then ps
    else save_persisted_peers newest (touch now address success ps)

-- What becomes of an address that a peer names.
pub data Verdict : Type 0 where
  skip stop dial : Verdict

-- `peers` counts the peers that are connected; those dialled here are not among them yet.
unfoldable pub judge : List ℕ → ℕ → ℕ → List (List ℕ) → ℕ → List ℕ → Verdict
judge bind_address max_peers peers known connected address =
    if contains address known
    then Verdict.skip
    else if bytes_eq address bind_address
    then Verdict.skip
    else if leb max_peers peers
    then Verdict.stop
    else if leb max_discovered_per_round connected
    then Verdict.stop
    else Verdict.dial

-- The known addresses after a list of addresses, and those that are dialled.
unfoldable pub handle_peer_list_response :
    List ℕ → ℕ → ℕ → List (List ℕ) → ℕ → List (List ℕ) → List (List ℕ) × List (List ℕ)
unfolding judge
handle_peer_list_response bind_address max_peers peers known connected [] = (known, [])
handle_peer_list_response bind_address max_peers peers known connected (address ∷ addresses) =
    elim (judge bind_address max_peers peers known connected address) [
      | Verdict.skip ↦
          handle_peer_list_response bind_address max_peers peers known connected addresses
      | Verdict.stop ↦ (known, [])
      | Verdict.dial ↦
          let (end, dialled) =
            handle_peer_list_response bind_address max_peers peers (set_insert address known)
              (connected + 1) addresses in
          (end, address ∷ dialled)
    ]
