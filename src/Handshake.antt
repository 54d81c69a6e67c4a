-- ===== src/Handshake.antt =====
-- net/handshake.cpp: session keys and the two sides' messages; `Paths` has the handshake of
-- net/connection.cpp. What the node draws at random is an argument.
pub mod Paths
pub mod Outcome
pub mod Vouched
pub mod Agreement
pub mod Session
mod Runs
use chromatin_protocol.Prelude.{
  ◌>>=◌, ℕ, ◌+◌, List, [], ◌∷◌, ◌++◌, Bool, true, false, ◌&&◌, ◌||◌, not, Option, none, some, ◌==◌,
  if◌then◌else◌, length, take, drop, slice, bytes_eq,
}
use chromatin_protocol.External.Crypto.{Crypto}
use chromatin_protocol.External.Transport.{Transport, Keys, DecodedMessage}
use chromatin_protocol.Frame.{
  AuthPayload, ReadFrame, encode_auth_payload, decode_auth_payload, write_frame, read_frame,
}
use chromatin_protocol.Connection.{Identity}

abbrev pub kem_pubkey_type : ℕ
kem_pubkey_type = 1

abbrev pub kem_ciphertext_type : ℕ
kem_ciphertext_type = 2

abbrev pub auth_signature_type : ℕ
auth_signature_type = 3

abbrev pub trusted_hello_type : ℕ
trusted_hello_type = 23

abbrev pub pq_required_type : ℕ
pq_required_type = 24

abbrev pub public_key_size : ℕ
public_key_size = 2592

-- `KEM::PUBLIC_KEY_SIZE` and `KEM::CIPHERTEXT_SIZE`
abbrev pub kem_size : ℕ
kem_size = 1568

abbrev pub nonce_size : ℕ
nonce_size = 32

-- "chromatin-init-to-resp-v1" and "chromatin-resp-to-init-v1"
abbrev pub init_to_resp : List ℕ
init_to_resp =
    b'c' ∷ b'h' ∷ b'r' ∷ b'o' ∷ b'm' ∷ b'a' ∷ b't' ∷ b'i' ∷ b'n' ∷ b'-' ∷ b'i' ∷ b'n' ∷ b'i' ∷ b't'
    ∷ b'-' ∷ b't' ∷ b'o' ∷ b'-' ∷ b'r' ∷ b'e' ∷ b's' ∷ b'p' ∷ b'-' ∷ b'v' ∷ b'1' ∷ []

abbrev pub resp_to_init : List ℕ
resp_to_init =
    b'c' ∷ b'h' ∷ b'r' ∷ b'o' ∷ b'm' ∷ b'a' ∷ b't' ∷ b'i' ∷ b'n' ∷ b'-' ∷ b'r' ∷ b'e' ∷ b's' ∷ b'p'
    ∷ b'-' ∷ b't' ∷ b'o' ∷ b'-' ∷ b'i' ∷ b'n' ∷ b'i' ∷ b't' ∷ b'-' ∷ b'v' ∷ b'1' ∷ []

pub record SessionKeys : Type 0 where
  pub send_key : List ℕ
  pub recv_key : List ℕ
  pub session_fingerprint : List ℕ

-- The nonce of a trusted hello, the seed of the ephemeral KEM key and the coins of an encapsulation.
pub record Draw : Type 0 where
  pub nonce : List ℕ
  pub seed : List ℕ
  pub coins : List ℕ

module _ ⦃C : Crypto⦄ ⦃K : Keys⦄ where
  -- The end of both derivations.
  unfoldable pub directional_keys : List ℕ → List ℕ → Bool → SessionKeys
  directional_keys prk fingerprint is_initiator =
      let forth = K.expand prk init_to_resp 32 in
      let back = K.expand prk resp_to_init 32 in
      if is_initiator
      then record { send_key = forth; recv_key = back; session_fingerprint = fingerprint }
      else record { send_key = back; recv_key = forth; session_fingerprint = fingerprint }

  unfoldable pub derive_session_keys : List ℕ → List ℕ → List ℕ → Bool → SessionKeys
  derive_session_keys shared_secret initiator_pk responder_pk =
      directional_keys (K.extract [] shared_secret)
        (C.sha3_256 (shared_secret ++ (initiator_pk ++ responder_pk)))

  unfoldable pub derive_lightweight_session_keys :
      List ℕ → List ℕ → List ℕ → List ℕ → Bool → SessionKeys
  derive_lightweight_session_keys initiator_nonce responder_nonce initiator_pk responder_pk =
      let ikm : List ℕ = initiator_nonce ++ responder_nonce in
      let salt : List ℕ = initiator_pk ++ responder_pk in
      directional_keys (K.extract salt ikm) (C.sha3_256 (ikm ++ salt))

module _ ⦃C : Crypto⦄ ⦃K : Keys⦄ ⦃T : Transport⦄ where
  -- `HandshakeInitiator::start`
  unfoldable pub start : Identity → List ℕ → List ℕ
  start identity seed = T.encode kem_pubkey_type (K.kem_public seed ++ identity.public_key) 0

  -- `none` is `InvalidMessage`.
  unfoldable pub receive_kem_ciphertext : Identity → List ℕ → List ℕ → Option SessionKeys
  receive_kem_ciphertext identity seed message = T.decode message >>= λ m.
      (if not (m.kind == kem_ciphertext_type)
          || not (length m.payload == kem_size + public_key_size)
        then none
        else some (
            derive_session_keys (K.decaps (slice 0 kem_size m.payload) (K.kem_secret seed))
              identity.public_key (slice kem_size public_key_size m.payload) true))

  -- `HandshakeResponder::receive_kem_pubkey`: the keys, the signing key that the initiator claims, and
  -- the response.
  unfoldable pub receive_kem_pubkey :
      Identity → List ℕ → List ℕ → Option (SessionKeys × List ℕ × List ℕ)
  receive_kem_pubkey identity coins message = T.decode message >>= λ m.
      (if not (m.kind == kem_pubkey_type) || not (length m.payload == kem_size + public_key_size)
        then none
        else (let kem_pk = slice 0 kem_size m.payload in
            let claimed = slice kem_size public_key_size m.payload in
            some (
              derive_session_keys (K.encaps_ss coins kem_pk) claimed identity.public_key false,
              claimed,
              T.encode kem_ciphertext_type (K.encaps_ct coins kem_pk ++ identity.public_key) 0,
            )))

  unfoldable pub auth_message : Identity → List ℕ → ℕ → List ℕ
  auth_message identity fingerprint role =
      T.encode auth_signature_type
        (encode_auth_payload role identity.public_key (K.sign identity.secret_key fingerprint)) 0

  -- `create_auth_message` of both sides; the counter is the sender's, from 0 on.
  unfoldable pub create_auth_message : Identity → SessionKeys → ℕ → ℕ → List ℕ
  create_auth_message identity keys counter role =
      write_frame (auth_message identity keys.session_fingerprint role) keys.send_key counter

-- The outcome of `verify_peer_auth`: the peer's key, or an error. `thrown` is an exception.
pub data PeerAuth : Type 0 where
  success : List ℕ → PeerAuth
  auth_failed decrypt_failed invalid_message thrown : PeerAuth

module _ ⦃C : Crypto⦄ ⦃T : Transport⦄ where
  unfoldable pub check_payload : (List ℕ → Bool) → SessionKeys → Option AuthPayload → PeerAuth
  check_payload is_expected keys none = PeerAuth.invalid_message
  check_payload is_expected keys (some auth) =
      if not (is_expected auth.pubkey)
      then PeerAuth.auth_failed
      else if C.verify keys.session_fingerprint auth.signature auth.pubkey
      then PeerAuth.success auth.pubkey
      else PeerAuth.auth_failed

  unfoldable pub check_message : (List ℕ → Bool) → SessionKeys → Option DecodedMessage → PeerAuth
  unfolding check_payload
  check_message is_expected keys none = PeerAuth.invalid_message
  check_message is_expected keys (some m) =
      if m.kind == auth_signature_type
      then check_payload is_expected keys (decode_auth_payload m.payload)
      else PeerAuth.invalid_message

  unfoldable pub check_frame : (List ℕ → Bool) → SessionKeys → ReadFrame → PeerAuth
  unfolding check_message
  check_frame is_expected keys (ReadFrame.frame r) =
      check_message is_expected keys (T.decode r.plaintext)
  check_frame is_expected keys ReadFrame.failed = PeerAuth.decrypt_failed
  check_frame is_expected keys ReadFrame.thrown = PeerAuth.thrown

  -- `HandshakeInitiator::verify_peer_auth` takes whatever key is in the payload.
  unfoldable pub initiator_verify_peer_auth : SessionKeys → ℕ → List ℕ → PeerAuth
  unfolding check_frame
  initiator_verify_peer_auth keys counter message =
      check_frame (λ _. true) keys (read_frame message keys.recv_key counter)

  -- `HandshakeResponder::verify_peer_auth` wants the key that came with the KEM key.
  unfoldable pub responder_verify_peer_auth : List ℕ → SessionKeys → ℕ → List ℕ → PeerAuth
  unfolding check_frame
  responder_verify_peer_auth initiator_signing_pubkey keys counter message =
      check_frame (λ pubkey. bytes_eq pubkey initiator_signing_pubkey) keys
        (read_frame message keys.recv_key counter)
