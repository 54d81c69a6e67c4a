-- ===== src/Peer/Dedup.antt =====
-- Two nodes that have opened a connection to each other keep the same one.
use mathlib.Core.List.{map, map-append}
use chromatin_protocol.Prelude.{
  ℕ, ◌≡◌, ◌≢◌, refl, sym, ap, ◌∙◌, List, [], ◌∷◌, ◌++◌, Bool, true, false, not, none, some, ◌==◌,
  if◌then◌else◌, Bool-cases, inl, inr, bytes_eq, bytes_ne, eq→bytes_eq,
}
use chromatin_protocol.External.Mdbx.{bytes_lt}
use chromatin_protocol.External.Sorted.{bytes_lt_total}
use chromatin_protocol.External.Crypto.{Crypto}
use chromatin_protocol.Reconcile.Order.{bytes_lt_asymm}
use chromatin_protocol.Acl.{AccessControl}
use chromatin_protocol.Peer.{peer_role, Link, PeerInfo}
use chromatin_protocol.Peer.Connected.{
  Manager, role_of, is_admitted, new_peer, add_peer, close_link, keeps_new, find_same, erase_same,
  join, on_peer_connected,
}

abbrev pub links : Manager → List Link
links m = map (λ (p : PeerInfo). p.connection) m.peers

module _ ⦃C : Crypto⦄ where
  -- A connection that the access control lets in as a peer's, with a key of the namespace.
  pub record IsPeerOf (m : Manager) (ns : List ℕ) (l : Link) : Type 0 where
    pub named : C.sha3_256 l.peer_pubkey ≡ ns
    pub is_peer : role_of l ≡ peer_role
    pub admitted : is_admitted m.acl (role_of l) ns ≡ true

  -- Two of them, one opened by each side, on a node that knows no other.
  pub record AreRivals (m : Manager) (ns : List ℕ) (ours theirs : Link) : Type 0 where
    pub first : IsPeerOf m ns ours
    pub second : IsPeerOf m ns theirs
    pub opened : ours.initiator ≡ true
    pub met : theirs.initiator ≡ false
    pub unknown : find_same ns m.peers ≡ none

  find_same-append :
      (ns : List ℕ) (ps : List PeerInfo) (p : PeerInfo)
      → find_same ns ps ≡ none
      → bytes_eq (C.sha3_256 p.connection.peer_pubkey) ns ≡ true
      → (find_same ns (ps ++ (p ∷ [])) ≡ some p) × (erase_same ns (ps ++ (p ∷ [])) ≡ ps)
  unfolding find_same erase_same
  find_same-append ns [] p none_yet is = rw is (refl, refl)
  find_same-append ns (q ∷ ps) p none_yet is =
      elim (Bool-cases (bytes_eq (C.sha3_256 q.connection.peer_pubkey) ns)) [
        | inl e ↦ absurd (some_none (rw e at none_yet))
        | inr e ↦
            let (found, left) = find_same-append ns ps p (rw e at none_yet) is in
            (rw e found, rw e (ap (λ (t : List PeerInfo). q ∷ t) left))
      ]
    where
      some_none : some q ≡ none → ⊥
      some_none h = cc

  second_of :
      {A : Type 0} (a b : Bool) (x y z : A)
      → a ≡ true
      → b ≡ true
      → (if not a then x else if b then y else z) ≡ y
  second_of true true x y z p q = refl
  second_of true false x y z p q = cc
  second_of false b x y z p q = cc

  arrives :
      (now : ℕ) (m : Manager) (ns : List ℕ) (x : Link)
      → IsPeerOf m ns x
      → on_peer_connected now m x ≡ join now m x ns (find_same ns m.peers)
  unfolding on_peer_connected
  arrives now m ns x v =
      second_of (is_admitted m.acl (role_of x) (C.sha3_256 x.peer_pubkey)) (role_of x == peer_role)
        _ _ _ (ap (is_admitted m.acl (role_of x)) v.named ∙ v.admitted)
        (ap (λ r. r == peer_role) v.is_peer)
      ∙ ap (λ (n : List ℕ). join now m x n (find_same n m.peers)) v.named

  same_node :
      (m n : Manager) (ns : List ℕ) (l : Link) → n.acl ≡ m.acl → IsPeerOf m ns l → IsPeerOf n ns l
  same_node m n ns l a v = record {
    named = v.named;
    is_peer = v.is_peer;
    admitted = ap (λ (acl : AccessControl). is_admitted acl (role_of l) ns) a ∙ v.admitted;
  }

  -- The first connection is added, and the second takes its place or is closed.
  settles :
      (now later : ℕ) (m : Manager) (ns : List ℕ) (x y : Link)
      → IsPeerOf m ns x
      → IsPeerOf m ns y
      → find_same ns m.peers ≡ none
      → links (on_peer_connected later (on_peer_connected now m x) y)
        ≡ links m ++ ((if keeps_new m.own_namespace ns y then y else x) ∷ [])
  unfolding join add_peer close_link new_peer
  settles now later m ns x y v w none_yet =
      let n = add_peer now m x in
      let added : on_peer_connected now m x ≡ n =
        arrives now m ns x v ∙ ap (join now m x ns) none_yet in
      let (found, left) =
        find_same-append ns m.peers (new_peer now m x) none_yet (eq→bytes_eq _ ns v.named) in
      let again : on_peer_connected later n y ≡ join later n y ns (some (new_peer now m x)) =
        arrives later n ns y (same_node m n ns y refl w) ∙ ap (join later n y ns) found in
      ap (λ (k : Manager). links (on_peer_connected later k y)) added
      ∙ ap links again
      ∙ elim (Bool-cases (keeps_new m.own_namespace ns y)) [
        | inl k ↦ rw (k, left) (map-append _ m.peers _)
        | inr k ↦ rw k (map-append _ m.peers _)
      ]

  -- Both connections arrive, the node's own first or second.
  abbrev pub arrive_both : Bool → ℕ → ℕ → Manager → Link → Link → Manager
  arrive_both ours_first now later m ours theirs =
      if ours_first
      then on_peer_connected later (on_peer_connected now m ours) theirs
      else on_peer_connected later (on_peer_connected now m theirs) ours

  either_order :
      (ours_first : Bool) (now later : ℕ) (m : Manager) (ns : List ℕ) (ours theirs : Link)
      → AreRivals m ns ours theirs
      → links (arrive_both ours_first now later m ours theirs)
        ≡ links m ++ ((if bytes_lt m.own_namespace ns then ours else theirs) ∷ [])
  unfolding keeps_new
  either_order true now later m ns ours theirs v =
      settles now later m ns ours theirs v.first v.second v.unknown
      ∙ elim (Bool-cases (bytes_lt m.own_namespace ns)) [
        | inl e ↦ rw (e, v.met) refl
        | inr e ↦ rw (e, v.met) refl
      ]
  either_order false now later m ns ours theirs v =
      settles now later m ns theirs ours v.second v.first v.unknown
      ∙ elim (Bool-cases (bytes_lt m.own_namespace ns)) [
        | inl e ↦ rw (e, v.opened) refl
        | inr e ↦ rw (e, v.opened) refl
      ]

  -- Two nodes of different namespaces that know no connection to each other, and at each of which one
  -- that it has opened itself and one that the other has opened arrive, in whatever order on each
  -- side: both end up with one more connection, the one that the node with the lower namespace has
  -- opened.
  pub dedup_agrees :
      (a b : Manager) (ours_a theirs_a ours_b theirs_b : Link)
      → AreRivals a b.own_namespace ours_a theirs_a
      → AreRivals b a.own_namespace ours_b theirs_b
      → a.own_namespace ≢ b.own_namespace
      → (first_a first_b : Bool) (now_a later_a now_b later_b : ℕ)
      → let lower = bytes_lt a.own_namespace b.own_namespace in
        (links (arrive_both first_a now_a later_a a ours_a theirs_a)
          ≡ links a ++ ((if lower then ours_a else theirs_a) ∷ []))
        × (links (arrive_both first_b now_b later_b b ours_b theirs_b)
            ≡ links b ++ ((if lower then theirs_b else ours_b) ∷ []))
  dedup_agrees a b ours_a theirs_a ours_b theirs_b va vb other first_a first_b now_a later_a now_b
        later_b =
      (
        either_order first_a now_a later_a a b.own_namespace ours_a theirs_a va,
        either_order first_b now_b later_b b a.own_namespace ours_b theirs_b vb
            ∙ ap (λ (l : Link). links b ++ (l ∷ []))
                (opposite _ _ theirs_b ours_b (one_lower a.own_namespace b.own_namespace other)),
      )
    where
      one_lower : (xs ys : List ℕ) → xs ≢ ys → bytes_lt ys xs ≡ not (bytes_lt xs ys)
      one_lower xs ys ne = elim (Bool-cases (bytes_lt xs ys)) [
        | inl e ↦ bytes_lt_asymm xs ys e ∙ ap not (sym e)
        | inr e ↦ bytes_lt_total xs ys e (bytes_ne xs ys ne) ∙ ap not (sym e)
      ]

      opposite : (p q : Bool) (x y : Link) → q ≡ not p → (if q then y else x) ≡ (if p then x else y)
      opposite true true x y h = cc
      opposite true false x y h = refl
      opposite false true x y h = refl
      opposite false false x y h = cc
