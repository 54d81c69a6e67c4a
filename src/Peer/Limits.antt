-- ===== src/Peer/Limits.antt =====
-- What holds of a peer after every message, and when a sync session begins.
use chromatin_protocol.Prelude.{
  ℕ, ◌+◌, ◌%◌, ◌^◌, ◌≤◌, ◌<◌, ◌≡◌, ◌≢◌, sym, refl, ◌∙◌, arith, List, [], ◌∷◌, Bool, true, false,
  ◌&&◌, ◌||◌, not, ltb, ◌==◌, if◌then◌else◌, length, get_or, drop, Bool-cases, inl, inr,
}
use chromatin_protocol.Reconcile.Local.{set_insert, insert_all}
use chromatin_protocol.Acl.{without}
use chromatin_protocol.Connection.Keeping.{if-keeps}
use chromatin_protocol.Endian.{read_u64_be}
use chromatin_protocol.Peer.{
  peer_role, PeerInfo, smaller, try_consume_tokens, decode_namespaces, refill_for,
}
use chromatin_protocol.Peer.Dispatch.{
  sync_request_type, peer_list_request_type, delete_type, subscribe_type, unsubscribe_type,
  node_info_response_type, sync_namespace_announce_type, blob_write_type, Dispatcher, Action,
  Outcome, only, rejected, route_sync_message, in_cooldown, begin_sync, on_sync_request,
  on_peer_list_request, is_sync_message, on_node_info_response, on_subscribe, erase_all,
  on_unsubscribe, on_announce, route, after_budget, on_peer_message,
}

set_insert_size : (h : List ℕ) (set : List (List ℕ)) → length (set_insert h set) ≤ length set + 1
unfolding set_insert
set_insert_size h [] = omega arith
set_insert_size h (x ∷ xs) = ground (arith, set_insert_size h xs)

insert_all_size : (hs set : List (List ℕ)) → length (insert_all hs set) ≤ length set + length hs
unfolding insert_all
insert_all_size [] set = omega arith
insert_all_size (h ∷ hs) set =
    omega (arith, insert_all_size hs (set_insert h set), set_insert_size h set)

without_size : (ns : List ℕ) (set : List (List ℕ)) → length (without ns set) ≤ length set
unfolding without
without_size ns [] = omega arith
without_size ns (x ∷ xs) = ground (arith, without_size ns xs)

erase_all_size : (hs set : List (List ℕ)) → length (erase_all hs set) ≤ length set
unfolding erase_all
erase_all_size [] set = omega arith
erase_all_size (h ∷ hs) set = omega (arith, erase_all_size hs (without h set), without_size h set)

-- No more tokens than the burst, and no more subscriptions than the limit, where there is one.
pub record IsWithin (d : Dispatcher) (p : PeerInfo) : Type 0 where
  pub tokens : p.bucket_tokens ≤ d.rate_limit_burst
  pub subscriptions : 0 < d.max_subscriptions → length p.subscribed_namespaces ≤ d.max_subscriptions

-- A session was started in the order that the node promises: none was active, and the cooldown, if
-- there is one, was over.
pub record IsFresh (d : Dispatcher) (now : ℕ → ℕ) (p : PeerInfo) (o : Outcome) : Type 0 where
  pub idle : p.syncing ≡ false
  pub cooled : in_cooldown d now p ≡ false
  pub emptied : o.peer.sync_inbox ≡ []

abbrev pub IsKept : Dispatcher → (ℕ → ℕ) → PeerInfo → Outcome → Type 0
IsKept d now p o = IsWithin d o.peer × (o.action ≡ Action.respond_to_sync → IsFresh d now p o)

by_test {ℓ κ} :
    {A : Type ℓ} (P : A → Type κ) (b : Bool) (x y : A)
    → (b ≡ true → P x)
    → (b ≡ false → P y)
    → P (if b then x else y)
by_test P true x y p q = p refl
by_test P false x y p q = q refl

IsWithin-same :
    (d : Dispatcher) (p q : PeerInfo)
    → q.bucket_tokens ≡ p.bucket_tokens
    → q.subscribed_namespaces ≡ p.subscribed_namespaces
    → IsWithin d p
    → IsWithin d q
IsWithin-same d p q t s v = record {
  tokens = omega (arith, t, v.tokens);
  subscriptions = λ h. rw s (v.subscriptions h);
}

module _ (d : Dispatcher) (now : ℕ → ℕ) where
  no_session :
      (p : PeerInfo) (o : Outcome)
      → IsWithin d o.peer
      → o.action ≢ Action.respond_to_sync
      → IsKept d now p o
  no_session p o v other = (v, λ e. absurd (other e))

  on_sync_request-IsKept : (p : PeerInfo) → IsWithin d p → IsKept d now p (on_sync_request d now p)
  unfolding on_sync_request only rejected begin_sync
  on_sync_request-IsKept p v =
      let P = IsKept d now p in
      by_test P p.syncing _ _ (λ s. no_session p _ v (λ e. cc))
        (λ s.
          by_test P (in_cooldown d now p) _ _ (λ c. no_session p _ v (λ e. cc))
            (λ c. (
              IsWithin-same d p _ refl refl v,
              λ e. record { idle = s; cooled = c; emptied = refl },
            )))

  on_peer_list_request-IsKept :
      (payload : List ℕ) (p : PeerInfo)
      → IsWithin d p
      → IsKept d now p (on_peer_list_request payload p)
  unfolding on_peer_list_request only route_sync_message
  on_peer_list_request-IsKept payload p v =
      no_session p _ (IsWithin-same d p _ refl refl v) (asked p.syncing)
    where
      asked :
          (b : Bool)
          → (if b then Action.nothing else Action.respond_to_pex) ≢ Action.respond_to_sync
      asked true e = cc
      asked false e = cc

  on_node_info_response-IsKept :
      (payload : List ℕ) (p : PeerInfo)
      → IsWithin d p
      → IsKept d now p (on_node_info_response payload p)
  unfolding on_node_info_response only
  on_node_info_response-IsKept payload p v =
      let quiet : Action.nothing ≢ Action.respond_to_sync = λ e. cc in
      let same : IsKept d now p (only p Action.nothing) = no_session p _ v quiet in
      let P = IsKept d now p in
      let offset = 1 + get_or payload 0 0 + 40 in
      let advertised : PeerInfo = record p {
        advertised_blob_cap = read_u64_be (drop offset payload);
      } in
      if-keeps P (not (p.role == peer_role)) _ _ same (
        if-keeps P (ltb (length payload) 1) _ _ same (
          if-keeps P (ltb (length payload) (offset + 8)) _ _ same (
            no_session p (only advertised Action.nothing) (IsWithin-same d p advertised refl refl v)
              quiet)))

  on_subscribe-IsKept :
      (payload : List ℕ) (p : PeerInfo) → IsWithin d p → IsKept d now p (on_subscribe d payload p)
  unfolding on_subscribe only
  on_subscribe-IsKept payload p v =
      let asked = decode_namespaces payload in
      let all = length p.subscribed_namespaces + length asked in
      elim (Bool-cases (ltb 0 d.max_subscriptions && ltb d.max_subscriptions all)) [
        | inl full ↦ rw full (no_session p _ v (λ e. cc))
        | inr room ↦ rw room (
            no_session p _
              (record {
                tokens = v.tokens;
                subscriptions = λ h.
                    within d.max_subscriptions all _ h room
                      (insert_all_size asked p.subscribed_namespaces);
              })
              (λ e. cc))
      ]
    where
      within :
          (limit all size : ℕ)
          → 0 < limit
          → (ltb 0 limit && ltb limit all) ≡ false
          → size ≤ all
          → size ≤ limit
      within limit all size h room fits = ground arith

  on_unsubscribe-IsKept :
      (payload : List ℕ) (p : PeerInfo) → IsWithin d p → IsKept d now p (on_unsubscribe payload p)
  unfolding on_unsubscribe only
  on_unsubscribe-IsKept payload p v =
      no_session p _
        (record {
          tokens = v.tokens;
          subscriptions = λ h. omega (
            arith,
            v.subscriptions h,
            erase_all_size (decode_namespaces payload) p.subscribed_namespaces,
          );
        })
        (λ e. cc)

  route-IsKept :
      (kind : ℕ) (payload : List ℕ) (p : PeerInfo)
      → IsWithin d p
      → IsKept d now p (route d now kind payload p)
  unfolding route only route_sync_message on_announce
  route-IsKept kind payload p v =
      let P = IsKept d now p in
      if-keeps P (kind == sync_request_type) _ _ (on_sync_request-IsKept p v) (
        if-keeps P (kind == peer_list_request_type) _ _ (on_peer_list_request-IsKept payload p v) (
          if-keeps P (is_sync_message kind) _ _
            (no_session p _ (IsWithin-same d p _ refl refl v) (λ e. cc))
            (if-keeps P (kind == node_info_response_type) _ _
              (on_node_info_response-IsKept payload p v)
              (if-keeps P (kind == subscribe_type) _ _ (on_subscribe-IsKept payload p v) (
                if-keeps P (kind == unsubscribe_type) _ _ (on_unsubscribe-IsKept payload p v) (
                  if-keeps P (kind == sync_namespace_announce_type) _ _
                    (no_session p _ (IsWithin-same d p _ refl refl v) (λ e. cc))
                    (no_session p _ v (λ e. cc))))))))

  after_budget-IsKept :
      (kind : ℕ) (payload : List ℕ) (r : PeerInfo × Bool)
      → IsWithin d r.0
      → IsKept d now r.0 (after_budget d now kind payload r)
  unfolding after_budget rejected
  after_budget-IsKept kind payload (p, true) v = route-IsKept kind payload p v
  after_budget-IsKept kind payload (p, false) v =
      let P = IsKept d now p in
      if-keeps P (kind == blob_write_type || kind == delete_type) _ _ (no_session p _ v (λ e. cc)) (
        if-keeps P (kind == sync_request_type) _ _ (no_session p _ v (refused p.syncing))
          (route-IsKept kind payload p v))
    where
      refused :
          (b : Bool) → (if b then Action.nothing else Action.reject_sync 3) ≢ Action.respond_to_sync
      refused true e = cc
      refused false e = cc

  -- The bucket's part changes nothing that a session depends on.
  same_session :
      (p q : PeerInfo) (o : Outcome)
      → q.syncing ≡ p.syncing
      → q.last_sync_initiated ≡ p.last_sync_initiated
      → IsKept d now q o
      → IsKept d now p o
  unfolding in_cooldown
  same_session p q o s l (v, fresh) = (
    v,
    λ e.
        let f = fresh e in
        record { idle = sym s ∙ f.idle; cooled = rw l at (f.cooled); emptied = f.emptied },
  )

  consumed :
      (at rate burst bytes : ℕ) (p : PeerInfo)
      → let q = (try_consume_tokens at rate burst bytes p).0 in
        (q.syncing ≡ p.syncing)
        × (q.last_sync_initiated ≡ p.last_sync_initiated)
        × (q.subscribed_namespaces ≡ p.subscribed_namespaces)
        × (q.bucket_tokens ≤ burst)
  unfolding try_consume_tokens
  consumed at rate burst bytes p =
      let tokens =
        smaller ((p.bucket_tokens + refill_for rate burst p.bucket_last_refill at) % 2 ^ 64)
          burst in
      elim (Bool-cases (ltb tokens bytes)) [
        | inl e ↦ rw e (refl, refl, refl, ground arith)
        | inr e ↦ rw e (refl, refl, refl, ground arith)
      ]

-- Whatever message a peer sends: it ends with no more tokens than the burst and no more subscriptions
-- than the limit, if it began so; and a sync session is begun for it only if none was active and the
-- cooldown was over, with an empty inbox.
pub on_peer_message-IsKept :
    (d : Dispatcher) (now : ℕ → ℕ) (kind : ℕ) (payload : List ℕ) (p : PeerInfo)
    → IsWithin d p
    → IsKept d now p (on_peer_message d now kind payload p)
unfolding on_peer_message
on_peer_message-IsKept d now kind payload p v =
    let seen = record p { last_message_time = now 0 } in
    let seen_within = IsWithin-same d p seen refl refl v in
    let rate = d.rate_limit_bytes_per_sec in
    let burst = d.rate_limit_burst in
    let r = try_consume_tokens (now 1) rate burst (length payload) seen in
    let (s, l, subs, most) = consumed d now (now 1) rate burst (length payload) seen in
    if-keeps (IsKept d now p) (ltb 0 rate) _ _
      (same_session d now p r.0 _ s l (
        after_budget-IsKept d now kind payload r
          (record { tokens = most; subscriptions = λ h. rw subs (v.subscriptions h) })))
      (same_session d now p seen _ refl refl (route-IsKept d now kind payload seen seen_within))
