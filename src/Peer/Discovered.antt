-- ===== src/Peer/Discovered.antt =====
-- Which of the addresses that a peer names are dialled.
use chromatin_protocol.Prelude.{
  ℕ, ◌+◌, ◌≤◌, ◌≡◌, refl, arith, List, [], ◌∷◌, Bool, true, ◌&&◌, not, length, bytes_eq,
}
use chromatin_protocol.Reconcile.Order.{contains}
use chromatin_protocol.Reconcile.Local.{set_insert}
use chromatin_protocol.Reconcile.Sets.{contains-set_insert}
use chromatin_protocol.Peer.Exchange.{
  Verdict, every, judge, handle_peer_list_response, max_discovered_per_round,
}

unfoldable pub is_new : List ℕ → List (List ℕ) → List ℕ → Bool
is_new bind_address known address =
    not (contains address known) && not (bytes_eq address bind_address)

judge-dial :
    (bind_address : List ℕ) (max_peers peers : ℕ) (known : List (List ℕ)) (connected : ℕ)
    (address : List ℕ)
    → judge bind_address max_peers peers known connected address ≡ Verdict.dial
    → (connected + 1 ≤ 3) × (is_new bind_address known address ≡ true)
unfolding judge is_new
judge-dial bind_address max_peers peers known connected address h = ground arith

is_new-set_insert :
    (bind_address address : List ℕ) (known dialled : List (List ℕ))
    → every (is_new bind_address (set_insert address known)) dialled ≡ true
    → every (is_new bind_address known) dialled ≡ true
unfolding every is_new
is_new-set_insert bind_address address known [] h = refl
is_new-set_insert bind_address address known (x ∷ xs) h =
    ground
      (arith, is_new-set_insert bind_address address known xs, contains-set_insert x address known)

-- What is dialled at most, and how.
unfoldable pub WithinRound : List ℕ → List (List ℕ) → ℕ → List (List ℕ) → Type 0
WithinRound bind_address known connected dialled =
    (connected + length dialled ≤ max_discovered_per_round)
    × (every (is_new bind_address known) dialled ≡ true)

dialled_first :
    (bind_address : List ℕ) (known : List (List ℕ)) (connected : ℕ) (address : List ℕ)
    (dialled : List (List ℕ))
    → is_new bind_address known address ≡ true
    → WithinRound bind_address (set_insert address known) (connected + 1) dialled
    → WithinRound bind_address known connected (address ∷ dialled)
unfolding WithinRound every
dialled_first bind_address known connected address dialled fresh later = (
  omega (arith, later.0),
  rw fresh (is_new-set_insert bind_address address known dialled later.1),
)

-- However long a peer's list is: with those already dialled in this round, no more than three
-- addresses are dialled, each of them unknown before and not the node's own.
pub discovered_fresh :
    (bind_address : List ℕ) (max_peers peers : ℕ) (known : List (List ℕ)) (connected : ℕ)
    (addresses : List (List ℕ))
    → connected ≤ max_discovered_per_round
    → WithinRound bind_address known connected
        (handle_peer_list_response bind_address max_peers peers known connected addresses).1
unfolding handle_peer_list_response WithinRound every
discovered_fresh bind_address max_peers peers known connected [] few = (omega arith, refl)
discovered_fresh bind_address max_peers peers known connected (address ∷ addresses) few =
    by_verdict (judge bind_address max_peers peers known connected address) refl
      (discovered_fresh bind_address max_peers peers known connected addresses few)
      (discovered_fresh bind_address max_peers peers (set_insert address known) (connected + 1)
        addresses)
  where
    by_verdict :
        (v : Verdict)
        → judge bind_address max_peers peers known connected address ≡ v
        → WithinRound bind_address known connected
            (handle_peer_list_response bind_address max_peers peers known connected addresses).1
        → (connected + 1 ≤ max_discovered_per_round
            → WithinRound bind_address
                (set_insert address known)
                (connected + 1)
                (handle_peer_list_response bind_address max_peers peers
                  (set_insert address known)
                  (connected + 1)
                  addresses).1)
        → WithinRound bind_address known connected
            (handle_peer_list_response bind_address max_peers peers known connected
              (address ∷ addresses)).1
    by_verdict Verdict.skip e same later = rw (handle_peer_list_response, e) same
    by_verdict Verdict.stop e same later = rw (handle_peer_list_response, e) (omega arith, refl)
    by_verdict Verdict.dial e same later =
        let fresh = judge-dial bind_address max_peers peers known connected address e in
        rw (handle_peer_list_response, e)
          (dialled_first bind_address known connected address _ fresh.1 (later fresh.0))
