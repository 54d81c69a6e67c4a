-- ===== src/Peer/Persisted.antt =====
-- How long peers.json keeps a peer that is never reached.
use chromatin_protocol.Prelude.{
  ℕ, zero, suc, if◌then◌else◌, ◌≤◌, ◌≡◌, refl, arith, List, [], ◌∷◌, Bool, true, ◌||◌, not, ltb,
  leb, length, take, length-take, bytes_eq,
}
use chromatin_protocol.Peer.Exchange.{
  PersistedPeer, PeersFile, NewestFirst, every, prune, save_persisted_peers, read_entries, fail,
  fail_each, load_persisted_peers, max_persisted_peers,
}

every-take :
    (ok : PersistedPeer → Bool) (n : ℕ) (ps : List PersistedPeer)
    → every ok ps ≡ true
    → every ok (take n ps) ≡ true
unfolding every
every-take ok zero ps h = refl
every-take ok (suc n) [] h = refl
every-take ok (suc n) (p ∷ ps) h = ground (arith, every-take ok n ps)

every-save :
    (newest : NewestFirst) (ok : PersistedPeer → Bool) (ps : List PersistedPeer)
    → every ok (prune ps) ≡ true
    → every ok (save_persisted_peers newest ps) ≡ true
unfolding save_persisted_peers
every-save newest ok ps h =
    let kept =
      every-take ok max_persisted_peers (newest.sort (prune ps))
        (newest.every-sort ok (prune ps) h) in
    ground (arith, kept, h)

length-cut :
    (n : ℕ) (kept sorted : List PersistedPeer)
    → length (if ltb n (length kept) then take n sorted else kept) ≤ n
length-cut n kept sorted = ground (arith, length-take n sorted)

length-save :
    (newest : NewestFirst) (ps : List PersistedPeer)
    → length (save_persisted_peers newest ps) ≤ max_persisted_peers
unfolding save_persisted_peers
length-save newest ps = length-cut max_persisted_peers (prune ps) (newest.sort (prune ps))

unfoldable pub elsewhere : List ℕ → PersistedPeer → Bool
elsewhere address p = not (bytes_eq p.address address)

unfoldable pub failed_twice : List ℕ → PersistedPeer → Bool
unfolding elsewhere
failed_twice address p = elsewhere address p || leb 2 p.fail_count

forgotten :
    (address : List ℕ) (entries : List PersistedPeer)
    → every (failed_twice address) entries ≡ true
    → every (elsewhere address) (prune (fail_each (read_entries entries))) ≡ true
unfolding every prune fail_each read_entries fail failed_twice elsewhere
forgotten address [] h = refl
forgotten address (p ∷ ps) h = ground (arith, forgotten address ps)

-- A start of the node reads no more than 100 peers from peers.json, and none of an address all of
-- whose entries say that two starts before have failed, although the limit is three.
pub third_start_forgets :
    (newest : NewestFirst) (entries ps : List PersistedPeer) (address : List ℕ)
    → every (failed_twice address) entries ≡ true
    → let loaded = load_persisted_peers newest (PeersFile.listed entries) ps in
      (length loaded ≤ 100) × (every (elsewhere address) loaded ≡ true)
unfolding load_persisted_peers
third_start_forgets newest entries ps address h =
    let read = fail_each (read_entries entries) in
    (
      length-save newest read,
      every-save newest (elsewhere address) read (forgotten address entries h),
    )
