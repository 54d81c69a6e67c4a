-- ===== src/Peer/PexRuns.antt =====
-- peer/pex_manager.cpp on a few peers and addresses.
use chromatin_protocol.Prelude.{ℕ, ◌≤◌, ◌≡◌, refl, arith, List, [], ◌∷◌, true, length, bytes_eq}
use chromatin_protocol.External.Mdbx.{bytes_lt}
use chromatin_protocol.Reconcile.Order.{contains}
use chromatin_protocol.Reconcile.Local.{set_insert}
use chromatin_protocol.Peer.Exchange.{
  PersistedPeer, PeersFile, NewestFirst, every, load_persisted_peers, handle_peer_list_response,
}
use chromatin_protocol.Peer.Persisted.{elsewhere, failed_twice, third_start_forgets}
use chromatin_protocol.Peer.Discovered.{WithinRound, discovered_fresh}

abbrev saved : ℕ → ℕ → PersistedPeer
saved name fails = record {
  address = name ∷ [];
  last_seen = 1000;
  fail_count = fails;
  pubkey_hash = [];
}

-- Peers that were all seen at the same time may stand as they are.
abbrev as_found : NewestFirst
as_found = record { sort = λ ps. ps; every-sort = λ ok ps h. h }

abbrev entries : List PersistedPeer
entries = saved 7 2 ∷ saved 8 0 ∷ saved 9 1 ∷ []

seven-failed : every (failed_twice (7 ∷ [])) entries ≡ true
unfolding every failed_twice elsewhere bytes_eq
seven-failed = refl

eight_stays :
    load_persisted_peers as_found (PeersFile.listed entries) [] ≡ saved 8 1 ∷ saved 9 2 ∷ []
unfolding load_persisted_peers
eight_stays = refl

third_start_forgets_example :
    let loaded = load_persisted_peers as_found (PeersFile.listed entries) [] in
    (length loaded ≤ 100) × (every (elsewhere (7 ∷ [])) loaded ≡ true)
third_start_forgets_example = third_start_forgets as_found entries [] (7 ∷ []) seven-failed

abbrev named : List (List ℕ)
named = (1 ∷ []) ∷ (2 ∷ []) ∷ (3 ∷ []) ∷ (4 ∷ []) ∷ (5 ∷ []) ∷ (6 ∷ []) ∷ []

three_dialled :
    (handle_peer_list_response (2 ∷ []) 32 1 ((1 ∷ []) ∷ []) 0 named).1
    ≡ (3 ∷ []) ∷ (4 ∷ []) ∷ (5 ∷ []) ∷ []
unfolding handle_peer_list_response contains set_insert bytes_eq bytes_lt
three_dialled = refl

discovered_fresh_example :
    WithinRound
      (2 ∷ [])
      ((1 ∷ []) ∷ [])
      0
      (handle_peer_list_response (2 ∷ []) 32 1 ((1 ∷ []) ∷ []) 0 named).1
discovered_fresh_example = discovered_fresh (2 ∷ []) 32 1 ((1 ∷ []) ∷ []) 0 named (omega arith)
