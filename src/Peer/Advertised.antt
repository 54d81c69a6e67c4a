-- ===== src/Peer/Advertised.antt =====
-- The cap that a node states of itself is the one by which its peers hold blobs back.
use native.Mathlib.Nat.{mod-eq_of_lt}
use chromatin_protocol.Prelude.{
  [], ltb, leb, All, All-append, ◌⊎◌, inl, inr, Bool-cases, ℕ, ◌+◌, ◌%◌, ◌^◌, ◌≤◌, ◌<◌, ◌≡◌, refl,
  ap, ◌∙◌, arith, List, ◌∷◌, ◌++◌, Bool, true, false, ◌&&◌, not, Option, ◌==◌, lt→ltb, le→ltb,
  length, get_or, drop, At, At-next, At-room,
}
use chromatin_protocol.Endian.{store_u32_be, store_u64_be, read_u64_be}
use chromatin_protocol.Endian.Words.{length-store_u64_be, read_u64_be-store_u64_be}
use chromatin_protocol.Peer.{peer_role, PeerInfo}
use chromatin_protocol.Peer.Dispatch.{only, on_node_info_response}
use chromatin_protocol.Sync.{Notification}
use chromatin_protocol.Peer.Push.{
  Sent, blob_notify_type, notification_type, send_where, on_blob_ingested, is_source, replicates,
  should_skip_for_peer_cap, wants_notify,
}
use chromatin_protocol.Peer.Requests.{NodeInfo, counters, limits_and_types, node_info_response}

length-counters : (i : NodeInfo) → length (counters i) ≡ 40
unfolding counters store_u64_be store_u32_be
length-counters i = refl

first_byte :
    (i : NodeInfo)
    → length i.version < 256
    → 1 + get_or (node_info_response i) 0 0 + 40 ≡ 1 + length i.version + 40
unfolding node_info_response
first_byte i short = ap (λ n. 1 + n + 40) (mod-eq_of_lt short)

cap_place :
    (i : NodeInfo)
    → At
        (node_info_response i)
        (1 + length i.version + 40)
        (store_u64_be i.blob_max_bytes ++ limits_and_types i)
unfolding node_info_response
cap_place i =
    let tail : List ℕ = store_u64_be i.blob_max_bytes ++ limits_and_types i in
    let payload : List ℕ = length i.version % 256 ∷ (i.version ++ (counters i ++ tail)) in
    let at_version : At payload 1 (i.version ++ (counters i ++ tail)) = record {
      rest_at = refl;
      room = omega arith;
    } in
    At-next payload (1 + length i.version) 40 (counters i) tail
      (At-next payload 1 (length i.version) i.version (counters i ++ tail) at_version refl)
      (length-counters i)

held_back :
    (source : Option ℕ) (ns : List ℕ) (size : ℕ) (q : PeerInfo) (limit : ℕ)
    → q.advertised_blob_cap ≡ limit
    → 0 < limit
    → limit < size
    → wants_notify source ns size q ≡ false
unfolding wants_notify should_skip_for_peer_cap
held_back source ns size q limit e some_cap above =
    last_false (not (is_source source q.connection.id)) (q.role == peer_role)
      (replicates q.announced_namespaces ns) (should_skip_for_peer_cap size q.advertised_blob_cap)
      (rw e (rw (lt→ltb 0 limit some_cap, lt→ltb limit size above) refl))
  where
    last_false : (a b c d : Bool) → d ≡ true → (a && (b && (c && not d))) ≡ false
    last_false a b c false h = cc
    last_false true true true true h = refl
    last_false true true false true h = refl
    last_false true false c true h = refl
    last_false false b c true h = refl

node_info-learned :
    (i : NodeInfo) (p : PeerInfo)
    → length i.version < 256
    → i.blob_max_bytes < 2 ^ 64
    → p.role ≡ peer_role
    → (on_node_info_response (node_info_response i) p).peer.advertised_blob_cap ≡ i.blob_max_bytes
unfolding on_node_info_response only
node_info-learned i p short fits is_peer =
    let payload = node_info_response i in
    let offset = 1 + length i.version + 40 in
    let placed = cap_place i in
    let first : 1 + get_or payload 0 0 + 40 ≡ offset = first_byte i short in
    let room : offset + 8 ≤ length payload =
      At-room payload offset 8 (store_u64_be i.blob_max_bytes) (limits_and_types i) placed
        (length-store_u64_be i.blob_max_bytes) in
    let read : read_u64_be (drop offset payload) ≡ i.blob_max_bytes =
      ap read_u64_be placed.rest_at
      ∙ read_u64_be-store_u64_be i.blob_max_bytes (limits_and_types i) fits in
    let peers : (p.role == peer_role) ≡ true = ap (λ r. r == peer_role) is_peer in
    rw (peers, first)
      (rw
        (le→ltb (length payload) 1 (omega (arith, room)), le→ltb (length payload) (offset + 8) room)
        read)

-- A BlobNotify to the connection `id`.
abbrev pub is_notify_to : ℕ → Sent → Bool
is_notify_to id m = m.kind == blob_notify_type && m.to == id

notified_others :
    (id : ℕ) (wants : PeerInfo → Bool) (payload : List ℕ) (ps : List PeerInfo)
    → All (λ p. ((p.connection.id == id) ≡ false) ⊎ (wants p ≡ false)) ps
    → All (λ m. is_notify_to id m ≡ false) (send_where wants blob_notify_type payload ps)
unfolding send_where
notified_others id wants payload [] h = tt
notified_others id wants payload (p ∷ ps) (inl other, h) = elim (Bool-cases (wants p)) [
  | inl w ↦ rw w (rw other refl, notified_others id wants payload ps h)
  | inr w ↦ rw w (notified_others id wants payload ps h)
]
notified_others id wants payload (p ∷ ps) (inr w, h) = rw w (notified_others id wants payload ps h)

subscribed_only :
    (id : ℕ) (wants : PeerInfo → Bool) (payload : List ℕ) (ps : List PeerInfo)
    → All (λ m. is_notify_to id m ≡ false) (send_where wants notification_type payload ps)
unfolding send_where
subscribed_only id wants payload [] = tt
subscribed_only id wants payload (p ∷ ps) = elim (Bool-cases (wants p)) [
  | inl w ↦ rw w (refl, subscribed_only id wants payload ps)
  | inr w ↦ rw w (subscribed_only id wants payload ps)
]

others_apart :
    (id : ℕ) (wants : PeerInfo → Bool) (ps : List PeerInfo)
    → All (λ p. (p.connection.id == id) ≡ false) ps
    → All (λ p. ((p.connection.id == id) ≡ false) ⊎ (wants p ≡ false)) ps
others_apart id wants [] h = tt
others_apart id wants (p ∷ ps) (e, h) = (inl e, others_apart id wants ps h)

kept_back :
    (now : ℕ) (source : Option ℕ) (n : Notification) (before after : List PeerInfo) (q : PeerInfo)
    (id : ℕ)
    → wants_notify source n.namespace_id n.blob_data_size q ≡ false
    → All (λ p. (p.connection.id == id) ≡ false) before
    → All (λ p. (p.connection.id == id) ≡ false) after
    → All (λ m. is_notify_to id m ≡ false) (on_blob_ingested now source n (before ++ (q ∷ after))).0
unfolding on_blob_ingested
kept_back now source n before after q id unwanted b a =
    let wants = wants_notify source n.namespace_id n.blob_data_size in
    elim (Bool-cases (ltb 0 n.expiry_time && leb n.expiry_time now)) [
      | inl over ↦ rw over tt
      | inr fresh ↦ rw fresh (
          All-append _ (send_where wants blob_notify_type _ (before ++ (q ∷ after))) _
            (notified_others id wants _ (before ++ (q ∷ after)) (
              All-append _ before (q ∷ after) (others_apart id wants before b)
                (inr unwanted, others_apart id wants after a)))
            (subscribed_only id _ _ (before ++ (q ∷ after))))
    ]

-- A peer that answers with what a node with this cap says of itself, and a version of fewer than 256
-- bytes, is from then on one that has the cap; and where no two peers share a connection, it gets no
-- BlobNotify of a blob above the cap. (A subscriber is told of it by a Notification all the same.)
pub node_info_advertises :
    (i : NodeInfo) (p : PeerInfo) (now : ℕ) (source : Option ℕ) (n : Notification)
    (before after : List PeerInfo)
    → length i.version < 256
    → i.blob_max_bytes < 2 ^ 64
    → p.role ≡ peer_role
    → 0 < i.blob_max_bytes
    → i.blob_max_bytes < n.blob_data_size
    → let q = (on_node_info_response (node_info_response i) p).peer in
      All (λ r. (r.connection.id == p.connection.id) ≡ false) before
      → All (λ r. (r.connection.id == p.connection.id) ≡ false) after
      → (q.advertised_blob_cap ≡ i.blob_max_bytes)
        × All
            (λ m. is_notify_to p.connection.id m ≡ false)
            (on_blob_ingested now source n (before ++ (q ∷ after))).0
node_info_advertises i p now source n before after short fits is_peer some_cap above b a =
    let q = (on_node_info_response (node_info_response i) p).peer in
    let learned = node_info-learned i p short fits is_peer in
    (
      learned,
      kept_back now source n before after q p.connection.id
          (held_back source n.namespace_id n.blob_data_size q i.blob_max_bytes learned some_cap
            above)
          b a,
    )
