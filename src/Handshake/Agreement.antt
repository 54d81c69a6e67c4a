-- ===== src/Handshake/Agreement.antt =====
-- Two honest sides of a PQ handshake: what each writes is what the other one reads.
use chromatin_protocol.Prelude.{
  ℕ, ◌+◌, ◌%◌, ◌^◌, ◌≤◌, ◌<◌, ◌≡◌, refl, arith, List, ◌++◌, append_assoc, true, false, some, length,
  length-append, slice, take-append, drop-append, take_all,
}
use chromatin_protocol.Endian.{store_u32_be, write_u32_be}
use chromatin_protocol.Endian.Words.{length-write_u32_be}
use chromatin_protocol.External.Crypto.{Crypto}
use chromatin_protocol.External.Transport.{Transport, Keys}
use chromatin_protocol.Frame.{max_frame_size, is_implemented_role, encode_auth_payload, write_frame}
use chromatin_protocol.Frame.Auth.{decode-encode_auth_payload}
use chromatin_protocol.Connection.{Connection, Identity, Network, nonce_limit}
use chromatin_protocol.Connection.Frames.{
  AllWritten, wrote, read, send_raw_lem, recv_raw_lem, send_encrypted_lem, recv_encrypted_lem,
}
use chromatin_protocol.Handshake.{
  kem_pubkey_type, kem_ciphertext_type, auth_signature_type, public_key_size, kem_size, SessionKeys,
  Draw, derive_session_keys, start, receive_kem_ciphertext, receive_kem_pubkey, auth_message,
}
use chromatin_protocol.Handshake.Paths.{
  use_keys, set_peer, set_authenticated, recv_auth, verify_auth, send_auth,
  do_handshake_initiator_pq, do_handshake_responder_pq,
}

-- A node's identity: the public key is that of the secret key.
abbrev pub IsIdentity : ⦃C : Crypto⦄ ⦃K : Keys⦄ → Identity → Type 0
IsIdentity ⦃C⦄ ⦃K⦄ i = i.public_key ≡ K.public_of i.secret_key

abbrev pub raw : List ℕ → List ℕ
raw bytes = store_u32_be (length bytes % 2 ^ 32) ++ bytes

slice-front {ℓ} : {A : Type ℓ} (n : ℕ) (xs ys : List A) → length xs ≡ n → slice 0 n (xs ++ ys) ≡ xs
slice-front n xs ys e = take-append n xs ys e

slice-back {ℓ} :
    {A : Type ℓ} (m n : ℕ) (xs ys : List A)
    → length xs ≡ m
    → length ys ≡ n
    → slice m n (xs ++ ys) ≡ ys
slice-back m n xs ys e f = rw (drop-append m xs ys e) (take_all n ys f)

module _ ⦃C : Crypto⦄ ⦃K : Keys⦄ ⦃T : Transport⦄ where
  receive_kem_pubkey_lem :
      (identity : Identity) (coins seed claimed : List ℕ)
      → length claimed ≡ public_key_size
      → receive_kem_pubkey identity coins
          (T.encode kem_pubkey_type (K.kem_public seed ++ claimed) 0)
        ≡ some (
          derive_session_keys
              (K.encaps_ss coins (K.kem_public seed))
              claimed
              identity.public_key
              false,
          claimed,
          T.encode kem_ciphertext_type
              (K.encaps_ct coins (K.kem_public seed) ++ identity.public_key)
              0,
        )
  unfolding receive_kem_pubkey
  receive_kem_pubkey_lem identity coins seed claimed size =
      let payload : List ℕ = K.kem_public seed ++ claimed in
      let total : length payload ≡ 4160 =
        omega (arith, length-append (K.kem_public seed) claimed, K.length-kem_public seed) in
      rw
        (
          T.decode-encode kem_pubkey_type payload 0 (omega arith) (omega arith),
          total,
          slice-front kem_size (K.kem_public seed) claimed (K.length-kem_public seed),
          slice-back kem_size public_key_size (K.kem_public seed) claimed (K.length-kem_public seed)
              size,
        )
        refl

  receive_kem_ciphertext_lem :
      (identity : Identity) (coins seed peer : List ℕ)
      → length peer ≡ public_key_size
      → receive_kem_ciphertext identity seed
          (T.encode kem_ciphertext_type (K.encaps_ct coins (K.kem_public seed) ++ peer) 0)
        ≡ some (
            derive_session_keys
              (K.encaps_ss coins (K.kem_public seed))
              identity.public_key
              peer
              true)
  unfolding receive_kem_ciphertext
  receive_kem_ciphertext_lem identity coins seed peer size =
      let ct : List ℕ = K.encaps_ct coins (K.kem_public seed) in
      let total : length (ct ++ peer) ≡ 4160 =
        omega (arith, length-append ct peer, K.length-encaps_ct coins (K.kem_public seed)) in
      rw
        (
          T.decode-encode kem_ciphertext_type (ct ++ peer) 0 (omega arith) (omega arith),
          total,
          slice-front kem_size ct peer (K.length-encaps_ct coins (K.kem_public seed)),
          slice-back kem_size public_key_size ct peer (K.length-encaps_ct coins (K.kem_public seed))
              size,
          K.decaps-encaps seed coins,
        )
        refl

  pub auth_message-fits :
      (identity : Identity) (fingerprint : List ℕ) (role : ℕ)
      → length identity.public_key ≡ public_key_size
      → length (auth_message identity fingerprint role) + 16 ≤ max_frame_size
  unfolding auth_message encode_auth_payload
  auth_message-fits identity fingerprint role size = omega (
    arith,
    T.length-encode auth_signature_type
        (encode_auth_payload role identity.public_key (K.sign identity.secret_key fingerprint)) 0,
    length-append (write_u32_be (length identity.public_key % 2 ^ 32))
        (identity.public_key ++ K.sign identity.secret_key fingerprint),
    length-append identity.public_key (K.sign identity.secret_key fingerprint),
    length-write_u32_be (length identity.public_key % 2 ^ 32),
    K.length-sign identity.secret_key fingerprint,
  )

  pub auth_decoded :
      (identity : Identity) (fingerprint : List ℕ) (role : ℕ)
      → T.decode (auth_message identity fingerprint role)
        ≡ some (record {
          kind = auth_signature_type;
          payload =
              encode_auth_payload role identity.public_key (K.sign identity.secret_key fingerprint);
          request_id = 0;
        })
  unfolding auth_message
  auth_decoded identity fingerprint role =
      T.decode-encode auth_signature_type
        (encode_auth_payload role identity.public_key (K.sign identity.secret_key fingerprint)) 0
        (omega arith) (omega arith)

  -- The frame with a side's authentication is read by the other side, and its signature is one.
  recv_auth_lem :
      (identity : Identity) (role : ℕ) (rest : List ℕ) (c : Connection)
      → IsIdentity identity
      → is_implemented_role role ≡ true
      → c.closed ≡ false
      → c.recv_counter < nonce_limit
      → recv_auth (record c {
        incoming =
            write_frame (auth_message identity c.session_fingerprint role) c.recv_key c.recv_counter
            ++ rest;
      })
        ≡ (
          read 1 rest c,
          some (record {
            role = role;
            pubkey = identity.public_key;
            signature = K.sign identity.secret_key c.session_fingerprint;
          }),
        )
  unfolding recv_auth
  recv_auth_lem identity role rest c honest known is_open room =
      let message = auth_message identity c.session_fingerprint role in
      let signature = K.sign identity.secret_key c.session_fingerprint in
      let size : length identity.public_key ≡ public_key_size =
        rw honest (K.length-public_of identity.secret_key) in
      rw
        (
          recv_encrypted_lem message rest c is_open room
              (auth_message-fits identity c.session_fingerprint role size),
          auth_decoded identity c.session_fingerprint role,
          decode-encode_auth_payload role identity.public_key signature known size,
        )
        refl

  abbrev pub auth_frame : Identity → ℕ → SessionKeys → List ℕ → ℕ → List ℕ
  auth_frame identity role keys key counter =
      write_frame (auth_message identity keys.session_fingerprint role) key counter

  -- A side that has the keys, has written `bytes` so far and has authenticated its peer.
  abbrev pub agreed : SessionKeys → Identity → ℕ → List ℕ → List ℕ → Connection → Connection
  agreed keys peer role bytes rest c = record c {
    send_key = keys.send_key;
    recv_key = keys.recv_key;
    session_fingerprint = keys.session_fingerprint;
    incoming = rest;
    send_counter = c.send_counter + 1;
    recv_counter = c.recv_counter + 1;
    writes = c.writes + 1 + 1 + (1 + 1);
    outgoing =
        c.outgoing
        ++ (raw bytes ++ auth_frame c.identity c.local_role keys keys.send_key c.send_counter);
    peer_role = role;
    peer_pubkey = peer.public_key;
    authenticated = true;
  }

module _ ⦃C : Crypto⦄ ⦃K : Keys⦄ ⦃T : Transport⦄ ⦃N : Network⦄ where
  signed :
      (identity : Identity) (message : List ℕ)
      → IsIdentity identity
      → C.verify message (K.sign identity.secret_key message) identity.public_key ≡ true
  signed identity message honest = rw honest (K.verify-sign identity.secret_key message)

  -- The responder, on a KEM key with any claim of a signing key, and the authentication of `peer`.
  pub responder_lem :
      (draw : Draw) (seed claimed : List ℕ) (peer : Identity) (role : ℕ) (rest : List ℕ)
      (c : Connection)
      → AllWritten
      → IsIdentity peer
      → is_implemented_role role ≡ true
      → length claimed ≡ public_key_size
      → c.closed ≡ false
      → c.send_counter < nonce_limit
      → c.recv_counter < nonce_limit
      → let keys =
          derive_session_keys
            (K.encaps_ss draw.coins (K.kem_public seed))
            claimed
            c.identity.public_key
            false in
        do_handshake_responder_pq draw
          (T.encode kem_pubkey_type (K.kem_public seed ++ claimed) 0)
          (record c { incoming = auth_frame peer role keys keys.recv_key c.recv_counter ++ rest })
        ≡ (
          agreed keys peer role
              (T.encode kem_ciphertext_type
                (K.encaps_ct draw.coins (K.kem_public seed) ++ c.identity.public_key)
                0)
              rest
              c,
          some tt,
        )
  unfolding do_handshake_responder_pq use_keys verify_auth set_peer send_auth set_authenticated
  responder_lem draw seed claimed peer role rest c ok honest known size is_open s_room r_room =
      let keys =
        derive_session_keys (K.encaps_ss draw.coins (K.kem_public seed)) claimed
          c.identity.public_key false in
      let response =
        T.encode kem_ciphertext_type
          (K.encaps_ct draw.coins (K.kem_public seed) ++ c.identity.public_key) 0 in
      let frame : List ℕ = auth_frame peer role keys keys.recv_key c.recv_counter ++ rest in
      let c1 : Connection = record c { incoming = frame } in
      let c2 : Connection = record c {
        writes = c.writes + 1 + 1;
        outgoing = c.outgoing ++ raw response;
        send_key = keys.send_key;
        recv_key = keys.recv_key;
        session_fingerprint = keys.session_fingerprint;
      } in
      let c3 : Connection = record (read 1 rest c2) {
        peer_role = role;
        peer_pubkey = peer.public_key;
      } in
      let message = auth_message c.identity keys.session_fingerprint c.local_role in
      rw
        (
          receive_kem_pubkey_lem c.identity draw.coins seed claimed size,
          send_raw_lem response c1 ok is_open,
          recv_auth_lem peer role rest c2 honest known is_open r_room,
          signed peer keys.session_fingerprint honest,
          send_encrypted_lem message c3 ok is_open s_room,
          append_assoc c.outgoing (raw response) (write_frame message keys.send_key c.send_counter),
        )
        refl

  pub initiator_lem :
      (draw : Draw) (coins : List ℕ) (peer : Identity) (role : ℕ) (rest : List ℕ) (c : Connection)
      → AllWritten
      → IsIdentity peer
      → is_implemented_role role ≡ true
      → c.closed ≡ false
      → c.send_counter < nonce_limit
      → c.recv_counter < nonce_limit
      → let keys =
          derive_session_keys
            (K.encaps_ss coins (K.kem_public draw.seed))
            c.identity.public_key
            peer.public_key
            true in
        let response =
          T.encode kem_ciphertext_type
            (K.encaps_ct coins (K.kem_public draw.seed) ++ peer.public_key)
            0 in
        do_handshake_initiator_pq draw (record c {
          incoming =
              raw response ++ (auth_frame peer role keys keys.recv_key c.recv_counter ++ rest);
        })
        ≡ (agreed keys peer role (start c.identity draw.seed) rest c, some tt)
  unfolding do_handshake_initiator_pq use_keys verify_auth set_peer send_auth set_authenticated
  initiator_lem draw coins peer role rest c ok honest known is_open s_room r_room =
      let size : length peer.public_key ≡ public_key_size =
        rw honest (K.length-public_of peer.secret_key) in
      let keys =
        derive_session_keys (K.encaps_ss coins (K.kem_public draw.seed)) c.identity.public_key
          peer.public_key true in
      let payload : List ℕ = K.encaps_ct coins (K.kem_public draw.seed) ++ peer.public_key in
      let response = T.encode kem_ciphertext_type payload 0 in
      let frame : List ℕ = auth_frame peer role keys keys.recv_key c.recv_counter ++ rest in
      let c1 : Connection = record c { incoming = raw response ++ frame } in
      let c2 : Connection = record c {
        writes = c.writes + 1 + 1;
        outgoing = c.outgoing ++ raw (start c.identity draw.seed);
      } in
      let c3 : Connection = record c2 {
        incoming = frame;
        send_key = keys.send_key;
        recv_key = keys.recv_key;
        session_fingerprint = keys.session_fingerprint;
      } in
      let message = auth_message c.identity keys.session_fingerprint c.local_role in
      let fits : length response ≤ max_frame_size = omega (
        arith,
        T.length-encode kem_ciphertext_type payload 0,
        length-append (K.encaps_ct coins (K.kem_public draw.seed)) peer.public_key,
        K.length-encaps_ct coins (K.kem_public draw.seed),
        size,
      ) in
      rw
        (
          send_raw_lem (start c.identity draw.seed) c1 ok is_open,
          recv_raw_lem response frame c2 is_open fits,
          receive_kem_ciphertext_lem c.identity coins draw.seed peer.public_key size,
          send_encrypted_lem message c3 ok is_open s_room,
          recv_auth_lem peer role rest
              (wrote 1 (write_frame message keys.send_key c.send_counter) c3) honest known is_open
              r_room,
          signed peer keys.session_fingerprint honest,
          append_assoc c.outgoing (raw (start c.identity draw.seed))
              (write_frame message keys.send_key c.send_counter),
        )
        refl
