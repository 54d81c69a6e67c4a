-- ===== src/Handshake/Session.antt =====
-- What a PQ handshake of net/connection.cpp comes to, between two honest sides and in general.
use chromatin_protocol.Prelude.{
  bytes_ne, ℕ, ◌≤◌, ◌<◌, ◌≡◌, ◌≢◌, refl, sym, ap, ◌∙◌, arith, List, [], ◌++◌, append-nil, true,
  false, Option, some, length, length-append,
}
use chromatin_protocol.External.Crypto.{Crypto}
use chromatin_protocol.External.Transport.{Transport, Keys}
use chromatin_protocol.Frame.{max_frame_size, is_implemented_role, write_frame}
use chromatin_protocol.Frame.Stream.{read_frame-write_frame}
use chromatin_protocol.Frame.Auth.{decode-encode_auth_payload}
use chromatin_protocol.Connection.{Connection, Identity, Network, nonce_limit}
use chromatin_protocol.Connection.Frames.{AllWritten, recv_raw_lem}
use chromatin_protocol.Handshake.{
  kem_pubkey_type, kem_ciphertext_type, public_key_size, SessionKeys, Draw, PeerAuth,
  derive_session_keys, directional_keys, start, auth_message, responder_verify_peer_auth,
}
use chromatin_protocol.Handshake.Paths.{
  do_handshake_initiator_pq, do_handshake_responder_pq, respond, do_handshake,
}
use chromatin_protocol.Handshake.Agreement.{
  IsIdentity, raw, auth_frame, auth_decoded, auth_message-fits, agreed, responder_lem,
  initiator_lem,
}

-- The two ends of one session.
pub record IsPaired (a b : Connection) : Type 0 where
  pub forth : a.send_key ≡ b.recv_key
  pub back : b.send_key ≡ a.recv_key
  pub forth_counter : a.send_counter ≡ b.recv_counter
  pub back_counter : b.send_counter ≡ a.recv_counter
  pub same_session : a.session_fingerprint ≡ b.session_fingerprint
  pub a_knows_b :
      (a.authenticated ≡ true)
      × (a.peer_pubkey ≡ b.identity.public_key)
      × (a.peer_role ≡ b.local_role)
  pub b_knows_a :
      (b.authenticated ≡ true)
      × (b.peer_pubkey ≡ a.identity.public_key)
      × (b.peer_role ≡ a.local_role)

-- A connection before its handshake, of a node with a key pair.
pub record IsReady ⦃C : Crypto⦄ ⦃K : Keys⦄ (c : Connection) : Type 0 where
  pub is_open : c.closed ≡ false
  pub honest : IsIdentity c.identity
  pub known_role : is_implemented_role c.local_role ≡ true
  pub fresh : c.outgoing ≡ []
  pub s_room : c.send_counter < nonce_limit
  pub r_room : c.recv_counter < nonce_limit

module _ ⦃C : Crypto⦄ ⦃K : Keys⦄ ⦃T : Transport⦄ ⦃N : Network⦄ where
  start-fits :
      (seed claimed : List ℕ)
      → length claimed ≡ public_key_size
      → length (T.encode kem_pubkey_type (K.kem_public seed ++ claimed) 0) ≤ max_frame_size
  start-fits seed claimed size = omega (
    arith,
    T.length-encode kem_pubkey_type (K.kem_public seed ++ claimed) 0,
    length-append (K.kem_public seed) claimed,
    K.length-kem_public seed,
    size,
  )

  -- A responder that reads a KEM key first goes the PQ way, trusted or not.
  responds_pq :
      (draw : Draw) (seed claimed rest : List ℕ) (c : Connection)
      → length claimed ≡ public_key_size
      → c.closed ≡ false
      → c.is_initiator ≡ false
      → let first = T.encode kem_pubkey_type (K.kem_public seed ++ claimed) 0 in
        do_handshake draw (record c { incoming = raw first ++ rest })
        ≡ do_handshake_responder_pq draw first (record c { incoming = rest })
  unfolding do_handshake respond
  responds_pq draw seed claimed rest c size is_open responder =
      let first = T.encode kem_pubkey_type (K.kem_public seed ++ claimed) 0 in
      rw
        (
          responder,
          recv_raw_lem first rest (record c { is_initiator = false }) is_open
              (start-fits seed claimed size),
          T.decode-encode kem_pubkey_type (K.kem_public seed ++ claimed) 0 (omega arith)
              (omega arith),
        )
        refl

  initiates_pq :
      (draw : Draw) (c : Connection)
      → c.is_initiator ≡ true
      → c.is_uds ≡ false
      → c.address_trusted ≡ false
      → do_handshake draw c ≡ do_handshake_initiator_pq draw c
  unfolding do_handshake
  initiates_pq draw c initiator tcp distrust = simp (initiator, tcp, distrust)

  -- `HandshakeResponder::verify_peer_auth` refuses such a payload.
  refused :
      (claimed : List ℕ) (peer : Identity) (role : ℕ) (keys : SessionKeys) (counter : ℕ)
      → IsIdentity peer
      → is_implemented_role role ≡ true
      → claimed ≢ peer.public_key
      → responder_verify_peer_auth claimed keys counter
          (auth_frame peer role keys keys.recv_key counter)
        ≡ PeerAuth.auth_failed
  unfolding responder_verify_peer_auth
  refused claimed peer role keys counter honest known other =
      let size : length peer.public_key ≡ public_key_size =
        rw honest (K.length-public_of peer.secret_key) in
      let message = auth_message peer keys.session_fingerprint role in
      let shape : auth_frame peer role keys keys.recv_key counter
          ≡ write_frame message keys.recv_key counter ++ [] =
        sym (append-nil (write_frame message keys.recv_key counter)) in
      rw
        (
          shape,
          read_frame-write_frame message keys.recv_key counter []
              (auth_message-fits peer keys.session_fingerprint role size),
          auth_decoded peer keys.session_fingerprint role,
          decode-encode_auth_payload role peer.public_key
              (K.sign peer.secret_key keys.session_fingerprint) known size,
          bytes_ne peer.public_key claimed (λ e. other (sym e)),
        )
        refl

  -- A responder authenticates whoever signs the session, whatever signing key came with the KEM key,
  -- although that key went into the session's fingerprint.
  pub responder_takes_signer :
      (draw : Draw) (seed claimed : List ℕ) (peer : Identity) (role : ℕ) (c : Connection)
      → AllWritten
      → IsReady c
      → c.is_initiator ≡ false
      → IsIdentity peer
      → is_implemented_role role ≡ true
      → length claimed ≡ public_key_size
      → claimed ≢ peer.public_key
      → let keys =
          derive_session_keys
            (K.encaps_ss draw.coins (K.kem_public seed))
            claimed
            c.identity.public_key
            false in
        let auth = auth_frame peer role keys keys.recv_key c.recv_counter in
        let first = T.encode kem_pubkey_type (K.kem_public seed ++ claimed) 0 in
        let end = do_handshake draw (record c { incoming = raw first ++ auth }) in
        (end.1 ≡ some tt)
        × (end.0.peer_pubkey ≡ peer.public_key)
        × (responder_verify_peer_auth claimed keys c.recv_counter auth ≡ PeerAuth.auth_failed)
  responder_takes_signer draw seed claimed peer role c ok w responder honest known size other =
      let keys =
        derive_session_keys (K.encaps_ss draw.coins (K.kem_public seed)) claimed
          c.identity.public_key false in
      let auth = auth_frame peer role keys keys.recv_key c.recv_counter in
      let first = T.encode kem_pubkey_type (K.kem_public seed ++ claimed) 0 in
      let end =
        responds_pq draw seed claimed auth c size w.is_open responder
        ∙ (λ i.
            do_handshake_responder_pq draw first (record c { incoming = sym (append-nil auth) i }))
        ∙ responder_lem draw seed claimed peer role [] c ok honest known size w.is_open w.s_room
            w.r_room in
      (
        ap (λ (r : Connection × Option (Unit {0})). r.1) end,
        ap (λ (r : Connection × Option (Unit {0})). r.0.peer_pubkey) end,
        refused claimed peer role keys c.recv_counter honest known other,
      )

  -- Two ready sides, an initiator that trusts no address and a responder, whose counters are in step,
  -- on a network that loses nothing: some bytes in each direction are just what the one side writes
  -- when it reads the other's, both handshakes succeed on them, and the sides end up with the same
  -- session, crosswise keys and counters, and each other's key and role.
  pub handshake_agrees :
      (di dr : Draw) (a b : Connection)
      → AllWritten
      → IsReady a
      → IsReady b
      → a.is_initiator ≡ true
      → b.is_initiator ≡ false
      → a.is_uds ≡ false
      → a.address_trusted ≡ false
      → a.send_counter ≡ b.recv_counter
      → b.send_counter ≡ a.recv_counter
      → (forth back : List ℕ) × (let i = do_handshake di (record a { incoming = back }) in
          let r = do_handshake dr (record b { incoming = forth }) in
          (i.1 ≡ some tt)
          × (r.1 ≡ some tt)
          × (i.0.outgoing ≡ forth)
          × (r.0.outgoing ≡ back)
          × IsPaired i.0 r.0)
  unfolding derive_session_keys directional_keys start
  handshake_agrees di dr a b ok wa wb ini res tcp distrust forth_counter back_counter =
      let ss = K.encaps_ss dr.coins (K.kem_public di.seed) in
      let ka = derive_session_keys ss a.identity.public_key b.identity.public_key true in
      let kb = derive_session_keys ss a.identity.public_key b.identity.public_key false in
      let first = start a.identity di.seed in
      let response =
        T.encode kem_ciphertext_type
          (K.encaps_ct dr.coins (K.kem_public di.seed) ++ b.identity.public_key) 0 in
      let auth_a = auth_frame a.identity a.local_role ka ka.send_key a.send_counter in
      let auth_b = auth_frame b.identity b.local_role kb kb.send_key b.send_counter in
      let forth : List ℕ = raw first ++ auth_a in
      let back : List ℕ = raw response ++ auth_b in
      let size : length a.identity.public_key ≡ public_key_size =
        rw (wa.honest) (K.length-public_of a.identity.secret_key) in
      let read_a : auth_a ≡ auth_frame a.identity a.local_role kb kb.recv_key b.recv_counter ++ [] =
        ap (λ n. auth_frame a.identity a.local_role ka ka.send_key n) forth_counter
        ∙ sym (append-nil (auth_frame a.identity a.local_role kb kb.recv_key b.recv_counter)) in
      let read_b : auth_b ≡ auth_frame b.identity b.local_role ka ka.recv_key a.recv_counter ++ [] =
        ap (λ n. auth_frame b.identity b.local_role kb kb.send_key n) back_counter
        ∙ sym (append-nil (auth_frame b.identity b.local_role ka ka.recv_key a.recv_counter)) in
      let i : do_handshake di (record a { incoming = back })
          ≡ (agreed ka b.identity b.local_role first [] a, some tt) =
        initiates_pq di (record a { incoming = back }) ini tcp distrust
        ∙ (λ j. do_handshake_initiator_pq di (record a { incoming = raw response ++ read_b j }))
        ∙ initiator_lem di dr.coins b.identity b.local_role [] a ok wb.honest wb.known_role
            wa.is_open wa.s_room wa.r_room in
      let r : do_handshake dr (record b { incoming = forth })
          ≡ (agreed kb a.identity a.local_role response [] b, some tt) =
        responds_pq dr di.seed a.identity.public_key auth_a b size wb.is_open res
        ∙ (λ j. do_handshake_responder_pq dr first (record b { incoming = read_a j }))
        ∙ responder_lem dr di.seed a.identity.public_key a.identity a.local_role [] b ok wa.honest
            wa.known_role size wb.is_open wb.s_room wb.r_room in
      let pair : IsPaired (agreed ka b.identity b.local_role first [] a)
          (agreed kb a.identity a.local_role response [] b) =
        record {
          forth = refl;
          back = refl;
          forth_counter = omega arith;
          back_counter = omega arith;
          same_session = refl;
          a_knows_b = (refl, refl, refl);
          b_knows_a = (refl, refl, refl);
        } in
      (
        forth,
        back,
        (
          ap (λ (x : Connection × Option (Unit {0})). x.1) i,
          ap (λ (x : Connection × Option (Unit {0})). x.1) r,
          ap (λ (x : Connection × Option (Unit {0})). x.0.outgoing) i
              ∙ ap (λ (o : List ℕ). o ++ forth) wa.fresh,
          ap (λ (x : Connection × Option (Unit {0})). x.0.outgoing) r
              ∙ ap (λ (o : List ℕ). o ++ back) wb.fresh,
          rw (i, r) pair,
        ),
      )
