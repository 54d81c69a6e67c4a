-- ===== src/Handshake/Paths.antt =====
-- net/connection.cpp: `do_handshake` and its paths.
use chromatin_protocol.Prelude.{
  ℕ, ◌+◌, List, [], ◌++◌, Bool, true, false, ◌||◌, ◌==◌, if◌then◌else◌, length, slice, bytes_eq,
}
use chromatin_protocol.External.Crypto.{Crypto}
use chromatin_protocol.External.Transport.{Transport, Keys, DecodedMessage}
use chromatin_protocol.Frame.{AuthPayload, decode_auth_payload}
use chromatin_protocol.Connection.{
  Connection, Network, Io, ◌>>=◌, ◌>>◌, failed, this, change, require, from, send_raw, recv_raw,
  send_encrypted, recv_encrypted,
}
use chromatin_protocol.Handshake.{
  kem_pubkey_type, auth_signature_type, trusted_hello_type, pq_required_type, public_key_size,
  nonce_size, SessionKeys, Draw, derive_lightweight_session_keys, start, receive_kem_ciphertext,
  receive_kem_pubkey, auth_message,
}

-- `session_keys_ = …`
unfoldable pub use_keys : SessionKeys → Connection → Connection
use_keys keys c = record c {
  send_key = keys.send_key;
  recv_key = keys.recv_key;
  session_fingerprint = keys.session_fingerprint;
}

-- `peer_role_` and `peer_pubkey_`
unfoldable pub set_peer : AuthPayload → Connection → Connection
set_peer auth c = record c { peer_role = auth.role; peer_pubkey = auth.pubkey }

unfoldable pub set_authenticated : Connection → Connection
set_authenticated c = record c { authenticated = true }

module _ ⦃C : Crypto⦄ ⦃T : Transport⦄ where
  -- What every path does to read the other side's authentication, up to the payload.
  unfoldable pub recv_auth : Io AuthPayload
  recv_auth = do
    raw ← recv_encrypted
    m ← from (T.decode raw)
    require (m.kind == auth_signature_type)
    from (decode_auth_payload m.payload)

  unfoldable pub verify_auth : AuthPayload → Io (Unit {0})
  verify_auth auth = do
    c ← this
    require (C.verify c.session_fingerprint auth.signature auth.pubkey)

module _ ⦃C : Crypto⦄ ⦃K : Keys⦄ ⦃T : Transport⦄ ⦃N : Network⦄ where
  unfoldable pub send_auth : Io (Unit {0})
  send_auth = do
    c ← this
    send_encrypted (auth_message c.identity c.session_fingerprint c.local_role)

  unfoldable pub do_handshake_initiator_pq : Draw → Io (Unit {0})
  unfolding recv_auth verify_auth send_auth use_keys set_peer set_authenticated
  do_handshake_initiator_pq draw = do
    c ← this
    send_raw (start c.identity draw.seed)
    kem_ct ← recv_raw
    keys ← from (receive_kem_ciphertext c.identity draw.seed kem_ct)
    change (use_keys keys)
    send_auth
    auth ← recv_auth
    verify_auth auth
    change (set_peer auth)
    change set_authenticated

  -- Both sides trust each other: `response` is the payload of the responder's hello.
  unfoldable pub light_initiator : List ℕ → List ℕ → Io (Unit {0})
  unfolding recv_auth verify_auth send_auth use_keys set_peer set_authenticated
  light_initiator nonce response = do
    require (length response == nonce_size + public_key_size)
    c ← this
    let claimed = slice nonce_size public_key_size response
    change (
        use_keys (
          derive_lightweight_session_keys nonce (slice 0 nonce_size response) c.identity.public_key
            claimed true))
    send_auth
    auth ← recv_auth
    require (bytes_eq auth.pubkey claimed)
    verify_auth auth
    change (set_peer auth)
    change set_authenticated

  -- A responder that wants the other handshake gets it from the start.
  unfoldable pub do_handshake_initiator_trusted : Draw → Io (Unit {0})
  unfolding light_initiator do_handshake_initiator_pq
  do_handshake_initiator_trusted draw = do
    c ← this
    send_raw (T.encode trusted_hello_type (draw.nonce ++ c.identity.public_key) 0)
    response ← recv_raw
    m ← from (T.decode response)
    if m.kind == trusted_hello_type
        then light_initiator draw.nonce m.payload
        else if m.kind == pq_required_type
        then do_handshake_initiator_pq draw
        else failed

  unfoldable pub do_handshake_responder_trusted : Draw → List ℕ → Io (Unit {0})
  unfolding recv_auth verify_auth send_auth use_keys set_peer set_authenticated
  do_handshake_responder_trusted draw hello = do
    require (length hello == nonce_size + public_key_size)
    c ← this
    let claimed = slice nonce_size public_key_size hello
    send_raw (T.encode trusted_hello_type (draw.nonce ++ c.identity.public_key) 0)
    change (
        use_keys (
          derive_lightweight_session_keys (slice 0 nonce_size hello) draw.nonce claimed
            c.identity.public_key false))
    auth ← recv_auth
    require (bytes_eq auth.pubkey claimed)
    verify_auth auth
    send_auth
    change (set_peer auth)
    change set_authenticated

  -- The key that came with the KEM key goes into the session keys, and is not compared with the one
  -- in the authentication.
  unfoldable pub do_handshake_responder_pq : Draw → List ℕ → Io (Unit {0})
  unfolding recv_auth verify_auth send_auth use_keys set_peer set_authenticated
  do_handshake_responder_pq draw first_msg = do
    c ← this
    (keys, claimed, response) ← from (receive_kem_pubkey c.identity draw.coins first_msg)
    send_raw response
    change (use_keys keys)
    auth ← recv_auth
    verify_auth auth
    change (set_peer auth)
    send_auth
    change set_authenticated

  unfoldable pub do_handshake_responder_pq_fallback : Draw → Io (Unit {0})
  unfolding do_handshake_responder_pq
  do_handshake_responder_pq_fallback draw = do
    send_raw (T.encode pq_required_type [] 0)
    kem_pk_raw ← recv_raw
    do_handshake_responder_pq draw kem_pk_raw

  unfoldable pub respond : Draw → Bool → List ℕ → DecodedMessage → Io (Unit {0})
  unfolding do_handshake_responder_trusted do_handshake_responder_pq_fallback
  respond draw trusted first_msg m =
      if m.kind == trusted_hello_type
      then (if trusted
          then do_handshake_responder_trusted draw m.payload
          else do_handshake_responder_pq_fallback draw)
      else if m.kind == kem_pubkey_type
      then do_handshake_responder_pq draw first_msg
      else failed

  unfoldable pub do_handshake : Draw → Io (Unit {0})
  unfolding do_handshake_initiator_trusted respond
  do_handshake draw = do
    c ← this
    let trusted = c.is_uds || c.address_trusted
    if c.is_initiator
        then (if trusted
            then do_handshake_initiator_trusted draw
            else do_handshake_initiator_pq draw)
        else (do
          first_msg ← recv_raw
          m ← from (T.decode first_msg)
          respond draw trusted first_msg m)
