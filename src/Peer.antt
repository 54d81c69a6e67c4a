-- ===== src/Peer.antt =====
-- The peers of a node in db/peer: peer_types.h, the lists of namespaces on the wire, and the token
-- bucket of message_dispatcher.cpp. `Dispatch` has what the dispatcher does itself with a message, and
-- `Connected` the arrival of a connection in connection_manager.cpp; `Push` is blob_push_manager.cpp,
-- `Requests` answers a few requests, and `Exchange` is part of pex_manager.cpp.
pub mod Dispatch
pub mod Connected
pub mod Bucket
pub mod Limits
pub mod Dedup
pub mod Push
pub mod Fetched
pub mod Unanswered
pub mod Requests
pub mod Advertised
pub mod Answers
pub mod Exchange
pub mod Persisted
pub mod Discovered
mod Runs
mod PushRuns
mod PexRuns
use chromatin_protocol.Prelude.{
  ℕ, zero, suc, ◌+◌, ◌-◌, ◌*◌, ◌/◌, ◌%◌, ◌^◌, List, [], ◌∷◌, ◌++◌, Bool, true, false, not, Option,
  none, some, ◌>>=◌, ltb, ◌==◌, if◌then◌else◌, length, slice,
}
use chromatin_protocol.Endian.{write_u16_be, read_u16_be, checked_mul, checked_add}
use chromatin_protocol.Codec.{append_hashes}
use chromatin_protocol.Reconcile.Wire.{read_hashes}

abbrev pub peer_role : ℕ
peer_role = 0

abbrev pub client_role : ℕ
client_role = 1

pub record SyncMessage : Type 0 where
  pub kind : ℕ
  pub payload : List ℕ

-- What the peers' code asks of a connection; `id` tells connections apart.
pub record Link : Type 0 where
  pub id : ℕ
  pub peer_pubkey : List ℕ
  pub initiator : Bool
  pub uds : Bool
  pub declared_role : ℕ
  pub remote_address : List ℕ

pub record PeerInfo : Type 0 where
  pub connection : Link
  pub address : List ℕ
  pub is_bootstrap : Bool
  pub role : ℕ
  pub strike_count : ℕ
  pub syncing : Bool
  pub advertised_blob_cap : ℕ
  pub sync_inbox : List SyncMessage
  pub subscribed_namespaces : List (List ℕ)
  pub peer_is_full : Bool
  pub bucket_tokens : ℕ
  pub bucket_last_refill : ℕ
  pub last_sync_initiated : ℕ
  pub last_message_time : ℕ
  pub announced_namespaces : List (List ℕ)
  pub announce_received : Bool

abbrev pub smaller : ℕ → ℕ → ℕ
smaller a b = if ltb b a then b else a

-- `elapsed_ms`, `max_elapsed` and `refill`, in wrapping 64-bit arithmetic; the rate is not 0.
unfoldable pub refill_for : ℕ → ℕ → ℕ → ℕ → ℕ
refill_for rate burst last_refill now =
    let elapsed = (now + 2 ^ 64 - last_refill) % 2 ^ 64 in
    let max_elapsed = burst * 1000 % 2 ^ 64 / rate + 1 in
    rate * smaller elapsed max_elapsed % 2 ^ 64 / 1000

unfoldable pub try_consume_tokens : ℕ → ℕ → ℕ → ℕ → PeerInfo → PeerInfo × Bool
unfolding refill_for
try_consume_tokens now rate burst bytes p =
    let refill = refill_for rate burst p.bucket_last_refill now in
    let tokens = smaller ((p.bucket_tokens + refill) % 2 ^ 64) burst in
    if ltb tokens bytes
    then (record p { bucket_tokens = tokens; bucket_last_refill = now }, false)
    else (record p { bucket_tokens = tokens - bytes; bucket_last_refill = now }, true)

-- `PeerManager::encode_namespace_list`
unfoldable pub encode_namespaces : List (List ℕ) → List ℕ
encode_namespaces namespaces = write_u16_be (length namespaces % 2 ^ 16) ++ append_hashes namespaces

-- `PeerManager::decode_namespace_list`: the payload has just that size.
unfoldable pub decode_namespaces : List ℕ → List (List ℕ)
decode_namespaces payload =
    let count = read_u16_be payload in
    if ltb (length payload) 2
    then []
    else elim (checked_mul count 32 >>= λ product. checked_add 2 product) [
      | none ↦ []
      | some expected ↦ if not (length payload == expected) then [] else read_hashes payload count 2
    ]
