-- ===== src/Handshake/Vouched.antt =====
-- Whatever arrives, a handshake that succeeds has verified the peer's signature on this session.
use chromatin_protocol.Prelude.{
  ℕ, [], ◌+◌, ◌++◌, ◌≡◌, refl, List, Bool, true, false, ◌||◌, Option, ◌==◌, length, slice, bytes_eq,
}
use chromatin_protocol.External.Crypto.{Crypto}
use chromatin_protocol.External.Transport.{Transport, Keys, DecodedMessage}
use chromatin_protocol.Frame.{AuthPayload}
use chromatin_protocol.Connection.{
  Connection, Network, Io, and_then, change, require, from, send_raw, recv_raw,
}
use chromatin_protocol.Connection.Keeping.{if-keeps, send_raw-keeps, recv_raw-keeps}
use chromatin_protocol.Handshake.{
  kem_pubkey_type, trusted_hello_type, pq_required_type, public_key_size, nonce_size, Draw, start,
  receive_kem_ciphertext, receive_kem_pubkey, derive_lightweight_session_keys,
}
use chromatin_protocol.Handshake.Paths.{
  use_keys, set_peer, set_authenticated, recv_auth, verify_auth, send_auth,
  do_handshake_initiator_pq, light_initiator, do_handshake_initiator_trusted,
  do_handshake_responder_trusted, do_handshake_responder_pq, do_handshake_responder_pq_fallback,
  respond, do_handshake,
}
use chromatin_protocol.Handshake.Outcome.{
  Post->>=, keeps-Post, Out, Out-Untouched, IsChecked, IsChecked-Untouched, IsVouching,
  IsVouching-Untouched, IsSettled, Settled, Known, require-Post, recv_auth-Post, verify_auth-Post,
  send_auth-Post, settle, initiator_tail,
}

module _ ⦃C : Crypto⦄ ⦃K : Keys⦄ ⦃T : Transport⦄ ⦃N : Network⦄ where
  Out-step {ℓ} :
      {A : Type ℓ} (r : Connection × Option A) (f : A → Io (Unit {0}))
      → Out r.0
      → ((a : A) (d : Connection) → Out d → Settled (f a d))
      → Settled (and_then r f)
  Out-step r f p k = Post->>= (λ _. Out) (λ _. IsSettled) r f (keeps-Post Out (λ _ q. q) r p) k

  require_step :
      (b : Bool) (f : Unit {0} → Io (Unit {0})) (d : Connection)
      → Out d
      → ((e : Connection) → Out e → Settled (f tt e))
      → Settled (and_then (require b d) f)
  require_step b f d p k =
      Post->>= (λ _. Out) (λ _. IsSettled) (require b d) f (require-Post Out b d (λ _ q. q) p)
        (λ _ e q. k e q)

  initiator_pq-Settled :
      (draw : Draw) (c : Connection) → Out c → Settled (do_handshake_initiator_pq draw c)
  unfolding do_handshake_initiator_pq use_keys
  initiator_pq-Settled draw c p =
      Out-step (send_raw (start c.identity draw.seed) c) _ (send_raw-keeps Out-Untouched _ c p)
        (λ _ d q. Out-step (recv_raw d) _ (recv_raw-keeps Out-Untouched d q) (λ kem_ct e r.
          Out-step (from (receive_kem_ciphertext c.identity draw.seed kem_ct) e) _ r
            (λ keys f s. initiator_tail (λ _. true) (use_keys keys f) s)))

  light_initiator-Settled :
      (nonce response : List ℕ) (c : Connection)
      → Out c
      → Settled (light_initiator nonce response c)
  unfolding light_initiator use_keys
  light_initiator-Settled nonce response c p =
      require_step (length response == nonce_size + public_key_size) _ c p (λ d q.
        initiator_tail (λ auth. bytes_eq auth.pubkey (slice nonce_size public_key_size response)) _
          q)

  initiator_trusted-Settled :
      (draw : Draw) (c : Connection) → Out c → Settled (do_handshake_initiator_trusted draw c)
  unfolding do_handshake_initiator_trusted
  initiator_trusted-Settled draw c p =
      Out-step (send_raw (T.encode trusted_hello_type (draw.nonce ++ c.identity.public_key) 0) c) _
        (send_raw-keeps Out-Untouched _ c p)
        (λ _ d q. Out-step (recv_raw d) _ (recv_raw-keeps Out-Untouched d q) (λ response e r.
          Out-step (from (T.decode response) e) _ r (λ m f s.
            if-keeps (λ (g : Io (Unit {0})). Settled (g f)) (m.kind == trusted_hello_type) _ _
              (light_initiator-Settled draw.nonce m.payload f s)
              (if-keeps (λ (g : Io (Unit {0})). Settled (g f)) (m.kind == pq_required_type) _ _
                (initiator_pq-Settled draw f s) s))))

  -- A responder notes its peer before it has sent its own signature.
  vouched_tail :
      (auth : AuthPayload) (d : Connection)
      → IsChecked auth d
      → Settled (and_then (send_auth (set_peer auth d)) (λ _. change set_authenticated))
  unfolding set_peer set_authenticated
  vouched_tail auth d k =
      Post->>= (λ _. IsVouching) (λ _. IsSettled) (send_auth (set_peer auth d)) _
        (send_auth-Post IsVouching (set_peer auth d) IsVouching-Untouched (λ _ q. q.0)
          (
            k.out,
            record { role_known = k.role_known; signature = auth.signature; signed = k.signed },
          ))
        (λ _ e q. (
          refl,
          record { role_known = q.1.role_known; signature = q.1.signature; signed = q.1.signed },
        ))

  responder_pq-Settled :
      (draw : Draw) (first_msg : List ℕ) (c : Connection)
      → Out c
      → Settled (do_handshake_responder_pq draw first_msg c)
  unfolding do_handshake_responder_pq use_keys set_peer
  responder_pq-Settled draw first_msg c p =
      Out-step (from (receive_kem_pubkey c.identity draw.coins first_msg) c) _ p
        (λ (keys, claimed, response) d q.
          Out-step (send_raw response d) _ (send_raw-keeps Out-Untouched response d q) (λ _ e r.
            Post->>= Known (λ _. IsSettled) (recv_auth (use_keys keys e)) _
              (recv_auth-Post (use_keys keys e) r)
              (λ auth f s.
                Post->>= (λ _. IsChecked auth) (λ _. IsSettled) (verify_auth auth f) _
                  (verify_auth-Post auth f s) (λ _ g t. vouched_tail auth g t))))

  responder_fallback-Settled :
      (draw : Draw) (c : Connection) → Out c → Settled (do_handshake_responder_pq_fallback draw c)
  unfolding do_handshake_responder_pq_fallback
  responder_fallback-Settled draw c p =
      Out-step (send_raw (T.encode pq_required_type [] 0) c) _ (send_raw-keeps Out-Untouched _ c p)
        (λ _ d q.
          Out-step (recv_raw d) _ (recv_raw-keeps Out-Untouched d q)
            (λ raw e r. responder_pq-Settled draw raw e r))

  responder_trusted-Settled :
      (draw : Draw) (hello : List ℕ) (c : Connection)
      → Out c
      → Settled (do_handshake_responder_trusted draw hello c)
  unfolding do_handshake_responder_trusted use_keys set_peer
  responder_trusted-Settled draw hello c p =
      let claimed = slice nonce_size public_key_size hello in
      require_step (length hello == nonce_size + public_key_size) _ c p (λ d q.
        Out-step (send_raw (T.encode trusted_hello_type (draw.nonce ++ d.identity.public_key) 0) d)
          _ (send_raw-keeps Out-Untouched _ d q)
          (λ _ e r.
            let e' =
              use_keys
                (derive_lightweight_session_keys (slice 0 nonce_size hello) draw.nonce claimed
                  d.identity.public_key false)
                e in
            Post->>= Known (λ _. IsSettled) (recv_auth e') _ (recv_auth-Post e' r)
              (λ auth f s.
                Post->>= (λ _. Known auth) (λ _. IsSettled)
                  (require (bytes_eq auth.pubkey claimed) f) _
                  (require-Post (Known auth) (bytes_eq auth.pubkey claimed) f (λ _ t. t.0) s)
                  (λ _ g t.
                    Post->>= (λ _. IsChecked auth) (λ _. IsSettled) (verify_auth auth g) _
                      (verify_auth-Post auth g t)
                      (λ _ h v.
                        Post->>= (λ _. IsChecked auth) (λ _. IsSettled) (send_auth h) _
                          (send_auth-Post (IsChecked auth) h (IsChecked-Untouched auth)
                            (λ _ w. w.out) v)
                          (λ _ k w. settle auth k w))))))

  respond-Settled :
      (draw : Draw) (trusted : Bool) (first_msg : List ℕ) (m : DecodedMessage) (c : Connection)
      → Out c
      → Settled (respond draw trusted first_msg m c)
  unfolding respond
  respond-Settled draw trusted first_msg m c p =
      let S : Io (Unit {0}) → Type 0 = λ g. Settled (g c) in
      if-keeps S (m.kind == trusted_hello_type) _ _
        (if-keeps S trusted _ _ (responder_trusted-Settled draw m.payload c p)
          (responder_fallback-Settled draw c p))
        (if-keeps S (m.kind == kem_pubkey_type) _ _ (responder_pq-Settled draw first_msg c p) p)

  -- On every path of the handshake and whatever the other side sends: it fails and leaves the
  -- connection unauthenticated, or it authenticates the connection, and then the peer's role is an
  -- implemented one and a signature on this session's fingerprint was verified under the peer's key.
  pub do_handshake-Settled :
      (draw : Draw) (c : Connection) → c.authenticated ≡ false → Settled (do_handshake draw c)
  unfolding do_handshake
  do_handshake-Settled draw c p =
      let S : Io (Unit {0}) → Type 0 = λ g. Settled (g c) in
      if-keeps S c.is_initiator _ _
        (if-keeps S (c.is_uds || c.address_trusted) _ _ (initiator_trusted-Settled draw c p)
          (initiator_pq-Settled draw c p))
        (Out-step (recv_raw c) _ (recv_raw-keeps Out-Untouched c p) (λ first_msg d q.
          Out-step (from (T.decode first_msg) d) _ q
            (λ m e r. respond-Settled draw (c.is_uds || c.address_trusted) first_msg m e r)))
