-- ===== src/Peer/Unanswered.antt =====
-- A blob that was asked for in vain, in peer/blob_push_manager.cpp.
use chromatin_protocol.Prelude.{
  ℕ, ◌≡◌, ap, arith, List, [], ◌∷◌, ◌++◌, Bool, true, false, ◌&&◌, ◌||◌, ◌==◌, All, All-append,
  length, slice, get_or, bytes_eq, bytes_eq_iff, Bool-cases, inl, inr,
}
use chromatin_protocol.External.Mdbx.{Mdbx}
use chromatin_protocol.External.Crypto.{Crypto}
use chromatin_protocol.Storage.Query.{get_blob}
use chromatin_protocol.Engine.Config.{Engine, World}
use chromatin_protocol.Sync.{is_live}
use chromatin_protocol.Peer.{PeerInfo}
use chromatin_protocol.Peer.Push.{
  Sent, Push, encode_namespace_hash, has_key, without_link, clean_pending_fetches, ask_for,
  on_blob_notify, handle_blob_fetch_response,
}

-- What happens to the pending fetches: a peer announces a blob, one answers a fetch, a connection ends.
module _ ⦃M : Mdbx⦄ where
  pub data Event : Type 0 where
    announced : ℕ → PeerInfo → List ℕ → Event
    answered : World → ℕ → ℕ → List PeerInfo → List ℕ → Event
    ended : ℕ → Event

module _ ⦃M : Mdbx⦄ ⦃C : Crypto⦄ (e : Engine) where
  unfoldable pub happen : Event → Push → Push × List Sent
  happen (Event.announced now p payload) g = on_blob_notify now p payload g
  happen (Event.answered w now id peers payload) g =
      let (h, messages, timer) = handle_blob_fetch_response e w now id peers payload g in
      (h, messages)
  happen (Event.ended id) g = (clean_pending_fetches id g, [])

  -- A run of events, and all that is sent in it.
  unfoldable pub happen_all : List Event → Push → Push × List Sent
  happen_all [] g = (g, [])
  happen_all (v ∷ vs) g =
      let (h, messages) = happen v g in
      let (end, later) = happen_all vs h in (end, messages ++ later)

-- The blob was asked for on this connection.
unfoldable pub waits_for : List ℕ → ℕ → List (List ℕ × ℕ) → Bool
waits_for key id [] = false
waits_for key id ((k, j) ∷ entries) =
    let rest = waits_for key id entries in (bytes_eq k key && j == id) || rest

module _ ⦃M : Mdbx⦄ where
  -- No answer brings a blob, and the connection `id` does not end.
  abbrev pub IsInVain : ℕ → Event → Type 0
  IsInVain id (Event.announced now p payload) = Unit {0}
  IsInVain id (Event.answered w now j peers payload) = (get_or payload 0 0x01 == 0x00) ≡ false
  IsInVain id (Event.ended j) = (j == id) ≡ false

  -- The blob is still waited for, and none of the messages asks for it.
  abbrev pub IsBlocked : ℕ → List ℕ → Push × List Sent → Type 0
  IsBlocked id key (g, messages) =
      (waits_for key id g.pending_fetches ≡ true)
      × All (λ m. bytes_eq m.payload key ≡ false) messages

waits_for-has_key :
    (key : List ℕ) (id : ℕ) (entries : List (List ℕ × ℕ))
    → waits_for key id entries ≡ true
    → has_key key entries ≡ true
unfolding waits_for has_key
waits_for-has_key key id [] h = cc
waits_for-has_key key id ((k, j) ∷ entries) h = ground (arith, waits_for-has_key key id entries)

waits_for-without_link :
    (key : List ℕ) (id other : ℕ) (entries : List (List ℕ × ℕ))
    → (other == id) ≡ false
    → waits_for key id entries ≡ true
    → waits_for key id (without_link other entries) ≡ true
unfolding waits_for without_link
waits_for-without_link key id other [] ne h = cc
waits_for-without_link key id other ((k, j) ∷ entries) ne h =
    ground (arith, waits_for-without_link key id other entries)

module _ ⦃M : Mdbx⦄ ⦃C : Crypto⦄ (e : Engine) (id : ℕ) (key : List ℕ) where
  ask_for-IsBlocked :
      (now : ℕ) (p : PeerInfo) (ns hash : List ℕ) (g : Push)
      → waits_for key id g.pending_fetches ≡ true
      → IsBlocked id key (ask_for now p ns hash g)
  unfolding ask_for encode_namespace_hash waits_for
  ask_for-IsBlocked now p ns hash g waits = elim (Bool-cases p.syncing) [
    | inl s ↦ rw s (waits, tt)
    | inr s ↦ elim (Bool-cases (is_live now (get_blob g.storage ns hash))) [
      | inl l ↦ rw (s, l) (waits, tt)
      | inr l ↦ elim (Bool-cases (has_key (ns ++ hash) g.pending_fetches)) [
        | inl asked ↦ rw (s, l, asked) (waits, tt)
        | inr fresh ↦ rw (s, l, fresh) (ground (arith, waits), (other fresh, tt))
      ]
    ]
  ]
    where
      other : has_key (ns ++ hash) g.pending_fetches ≡ false → bytes_eq (ns ++ hash) key ≡ false
      other fresh = ground (
        arith,
        waits_for-has_key key id g.pending_fetches waits,
        bytes_eq_iff (ns ++ hash) key,
        ap (λ (k : List ℕ). has_key k g.pending_fetches),
      )

  happen-IsBlocked :
      (v : Event) (g : Push)
      → IsInVain id v
      → waits_for key id g.pending_fetches ≡ true
      → IsBlocked id key (happen e v g)
  unfolding happen on_blob_notify handle_blob_fetch_response clean_pending_fetches
  happen-IsBlocked (Event.announced now p payload) g vain waits =
      elim (Bool-cases (length payload == 77)) [
        | inl l ↦ rw l (ask_for-IsBlocked now p (slice 0 32 payload) (slice 32 32 payload) g waits)
        | inr l ↦ rw l (waits, tt)
      ]
  happen-IsBlocked (Event.answered w now j peers payload) g vain waits =
      elim (Bool-cases (get_or payload 0 0x01 == 0x01)) [
        | inl n ↦ rw n (waits, tt)
        | inr n ↦ rw (n, vain) (waits, tt)
      ]
  happen-IsBlocked (Event.ended j) g other waits =
      (waits_for-without_link key id j g.pending_fetches other waits, tt)

  happen_all-IsBlocked :
      (events : List Event) (g : Push)
      → All (IsInVain id) events
      → waits_for key id g.pending_fetches ≡ true
      → IsBlocked id key (happen_all e events g)
  unfolding happen_all
  happen_all-IsBlocked [] g vain waits = (waits, tt)
  happen_all-IsBlocked (v ∷ vs) g (now_vain, vain) waits =
      let (held, quiet) = happen-IsBlocked v g now_vain waits in
      let (end, later) = happen_all-IsBlocked vs (happen e v g).0 vain held in
      (end, All-append _ (happen e v g).1 _ quiet later)

-- A blob that a node has asked for on a connection: through any run of announcements of whatever
-- blobs by whomever, of answers that bring no blob, such as one that it is not there, and of ends of
-- other connections, nothing that the node sends asks for it again.
pub not_found_blocks :
    ⦃M : Mdbx⦄ ⦃C : Crypto⦄ (e : Engine) (id : ℕ) (ns hash : List ℕ) (events : List Event)
    (g : Push)
    → waits_for (encode_namespace_hash ns hash) id g.pending_fetches ≡ true
    → All (IsInVain id) events
    → IsBlocked id (encode_namespace_hash ns hash) (happen_all e events g)
not_found_blocks e id ns hash events g waits vain =
    happen_all-IsBlocked e id (encode_namespace_hash ns hash) events g vain waits
