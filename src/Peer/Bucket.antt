-- ===== src/Peer/Bucket.antt =====
-- The token bucket of peer/message_dispatcher.cpp over a run of messages: what it does to writes.
use chromatin_protocol.Prelude.{
  ℕ, ◌+◌, ◌^◌, ◌≤◌, ◌<◌, ◌≡◌, List, [], ◌∷◌, Bool, true, false, ◌&&◌, ◌||◌, ◌==◌, length,
  if◌then◌else◌,
}
use chromatin_protocol.Peer.{PeerInfo}
use chromatin_protocol.Peer.Dispatch.{
  delete_type, blob_write_type, Dispatcher, Action, Outcome, on_peer_message,
}

-- A message as it arrives: the readings of the clock while it is handled, its type and its bytes.
pub record Arrival : Type 0 where
  pub now : ℕ → ℕ
  pub kind : ℕ
  pub payload : List ℕ

abbrev pub is_write : ℕ → Bool
is_write kind = kind == blob_write_type || kind == delete_type

-- The bytes of a blob or a deletion that goes on to its handler.
abbrev pub is_handed_on : Action → Bool
is_handed_on Action.hand_on = true
is_handed_on _ = false

abbrev pub written : ℕ → List ℕ → Action → ℕ
written kind payload action = if is_write kind && is_handed_on action then length payload else 0

-- The peer after a run of its messages, and the bytes of blobs and deletions that got to their
-- handlers.
unfoldable pub write_all : Dispatcher → PeerInfo → List Arrival → PeerInfo × ℕ
write_all d p [] = (p, 0)
write_all d p (m ∷ messages) =
    let o = on_peer_message d m.now m.kind m.payload p in
    let (q, total) = write_all d o.peer messages in (q, written m.kind m.payload o.action + total)

-- The clock never runs backwards from `last` on, nor past 64 bits.
abbrev pub InOrder : ℕ → List Arrival → Type 0
InOrder last [] = Unit {0}
InOrder last (m ∷ messages) = (last ≤ m.now 1) × (m.now 1 < 2 ^ 64) × InOrder (m.now 1) messages

-- What the token bucket is about stays as it is.
abbrev SameBucket : PeerInfo → Outcome → Type 0
SameBucket p o =
    (o.peer.bucket_tokens ≡ p.bucket_tokens) × (o.peer.bucket_last_refill ≡ p.bucket_last_refill)

-- Where the bytes were not there, no blob and no deletion gets through.
Passes : ℕ → List ℕ → PeerInfo × Bool → Outcome → Type 0
Passes kind payload r o =
    SameBucket r.0 o × (written kind payload o.action ≤ (if r.1 then length payload else 0))
