-- ===== src/External/Crypto.antt =====
-- liboqs, libsodium and FlatBuffers as the node uses them.
use chromatin_protocol.Prelude.{ℕ, ◌+◌, ◌≡◌, Bool, Option, some, List, length}
use chromatin_protocol.Codec.{BlobData}

pub record Crypto : Type 0 where
  -- SHA3-256
  pub sha3_256 : List ℕ → List ℕ
  pub length-sha3_256 : (m : List ℕ) → length (sha3_256 m) ≡ 32
  -- `Signer::verify`, of ML-DSA-87: message, signature, public key
  pub verify : List ℕ → List ℕ → List ℕ → Bool
  -- ChaCha20-Poly1305: text, associated data, nonce, key
  pub encrypt : List ℕ → List ℕ → List ℕ → List ℕ → List ℕ
  pub decrypt : List ℕ → List ℕ → List ℕ → List ℕ → Option (List ℕ)
  pub decrypt-encrypt :
      (text ad nonce key : List ℕ) → decrypt (encrypt text ad nonce key) ad nonce key ≡ some text
  pub length-encrypt :
      (text ad nonce key : List ℕ) → length (encrypt text ad nonce key) ≡ length text + 16
  -- `encode_blob` and `decode_blob` over the FlatBuffers runtime; `none` is an exception
  pub encode_blob : BlobData → List ℕ
  pub decode_blob : List ℕ → Option BlobData
  pub decode-encode_blob :
      (b : BlobData) → length b.signer_hint ≡ 32 → decode_blob (encode_blob b) ≡ some b
