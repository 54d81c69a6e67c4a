-- ===== src/External/Transport.antt =====
-- The FlatBuffers codec of a transport message, as net/protocol.cpp uses it, and the keys and
-- signatures of a handshake: HKDF, ML-KEM-1024 and the node's ML-DSA-87 identity.
use chromatin_protocol.Prelude.{
  ℕ, ◌+◌, ◌^◌, ◌≤◌, ◌<◌, ◌≡◌, ◌≢◌, true, Option, some, List, length, get_or,
}
use chromatin_protocol.External.Crypto.{Crypto}

pub record DecodedMessage : Type 0 where
  pub kind : ℕ
  pub payload : List ℕ
  pub request_id : ℕ

-- `TransportCodec`. A table starts at a multiple of four, so that the first byte of a message, the
-- low byte of its offset, is one too.
pub record Transport : Type 0 where
  pub encode : ℕ → List ℕ → ℕ → List ℕ
  pub decode : List ℕ → Option DecodedMessage
  pub decode-encode :
      (kind : ℕ) (payload : List ℕ) (request_id : ℕ)
      → kind < 256
      → request_id < 2 ^ 32
      → decode (encode kind payload request_id)
        ≡ some (record { kind = kind; payload = payload; request_id = request_id })
  pub head-encode :
      (kind : ℕ) (payload : List ℕ) (request_id : ℕ)
      → get_or (encode kind payload request_id) 0 0 ≢ 1
  pub length-encode :
      (kind : ℕ) (payload : List ℕ) (request_id : ℕ)
      → length (encode kind payload request_id) ≤ length payload + 64

pub record Keys ⦃C : Crypto⦄ : Type 0 where
  -- HKDF: salt and key material; PRK, context and length
  pub extract : List ℕ → List ℕ → List ℕ
  pub expand : List ℕ → List ℕ → ℕ → List ℕ
  -- ML-KEM: the keys that a seed gives, and a ciphertext with its secret for a public key
  pub kem_public : List ℕ → List ℕ
  pub kem_secret : List ℕ → List ℕ
  pub encaps_ct : List ℕ → List ℕ → List ℕ
  pub encaps_ss : List ℕ → List ℕ → List ℕ
  pub decaps : List ℕ → List ℕ → List ℕ
  pub decaps-encaps :
      (seed coins : List ℕ)
      → decaps (encaps_ct coins (kem_public seed)) (kem_secret seed)
        ≡ encaps_ss coins (kem_public seed)
  pub length-kem_public : (seed : List ℕ) → length (kem_public seed) ≡ 1568
  pub length-encaps_ct : (coins key : List ℕ) → length (encaps_ct coins key) ≡ 1568
  -- `NodeIdentity::sign` with a secret key, and the public key of that
  pub sign : List ℕ → List ℕ → List ℕ
  pub public_of : List ℕ → List ℕ
  pub length-public_of : (secret : List ℕ) → length (public_of secret) ≡ 2592
  pub length-sign : (secret message : List ℕ) → length (sign secret message) ≤ 4627
  pub verify-sign :
      (secret message : List ℕ) → C.verify message (sign secret message) (public_of secret) ≡ true
