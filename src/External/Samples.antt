-- ===== src/External/Samples.antt =====
-- Concrete instances of the interfaces, for runs: sorted lists for libmdbx, and a checksum, a padding
-- and a plain record format for the cryptography and FlatBuffers.
use chromatin_protocol.Prelude.{
  ℕ, zero, ◌+◌, ◌-◌, ◌*◌, ◌%◌, ◌≡◌, refl, ap, arith, Bool, true, Option, none, some, List, [], ◌∷◌,
  ◌++◌, length, length-append, take, drop, replicate, take-append, drop-append,
}
use chromatin_protocol.Codec.{BlobData}
use chromatin_protocol.External.Crypto.{Crypto}

pub checksum : ℕ → List ℕ → ℕ
checksum acc [] = acc
checksum acc (x ∷ xs) = checksum ((acc * 3 + x + 1) % 65521) xs

pub digest : List ℕ → List ℕ
digest m = checksum 7 m ∷ replicate 31 0

pub length-digest : (m : List ℕ) → length (digest m) ≡ 32
unfolding digest
length-digest m = refl

-- Any signature counts as one of any key.
pub signed : List ℕ → List ℕ → List ℕ → Bool
signed message signature key = true

pub pad : List ℕ → List ℕ → List ℕ → List ℕ → List ℕ
pad text ad nonce key = text ++ replicate 16 0

pub unpad : List ℕ → List ℕ → List ℕ → List ℕ → Option (List ℕ)
unpad padded ad nonce key = some (take (length padded - 16) padded)

pub length-pad : (text ad nonce key : List ℕ) → length (pad text ad nonce key) ≡ length text + 16
unfolding pad
length-pad text ad nonce key = length-append text (replicate 16 0)

pub unpad-pad :
    (text ad nonce key : List ℕ) → unpad (pad text ad nonce key) ad nonce key ≡ some text
unfolding pad unpad
unpad-pad text ad nonce key =
    ap some (
      take-append _ text (replicate 16 0) (omega (arith, length-append text (replicate 16 (zero)))))

pub write_record : BlobData → List ℕ
write_record b = b.signer_hint ++ (b.ttl ∷ b.timestamp ∷ length b.body ∷ (b.body ++ b.signature))

pub read_fields : List ℕ → List ℕ → Option BlobData
read_fields hint (ttl ∷ timestamp ∷ n ∷ rest) = some (record {
  signer_hint = hint;
  body = take n rest;
  ttl = ttl;
  timestamp = timestamp;
  signature = drop n rest;
})
read_fields hint _ = none

pub read_record : List ℕ → Option BlobData
unfolding read_fields
read_record bytes = read_fields (take 32 bytes) (drop 32 bytes)

pub read-write_record :
    (b : BlobData) → length b.signer_hint ≡ 32 → read_record (write_record b) ≡ some b
unfolding read_record write_record
read-write_record b h = rw (
  take-append 32 b.signer_hint (b.ttl ∷ b.timestamp ∷ length b.body ∷ (b.body ++ b.signature)) h,
  drop-append 32 b.signer_hint (b.ttl ∷ b.timestamp ∷ length b.body ∷ (b.body ++ b.signature)) h,
  take-append (length b.body) b.body b.signature refl,
  drop-append (length b.body) b.body b.signature refl,
)

unfoldable pub plain_crypto : Crypto
unfolding digest checksum signed pad unpad write_record read_record
plain_crypto = record {
  sha3_256 = digest;
  length-sha3_256 = length-digest;
  verify = signed;
  encrypt = pad;
  decrypt = unpad;
  decrypt-encrypt = unpad-pad;
  length-encrypt = length-pad;
  encode_blob = write_record;
  decode_blob = read_record;
  decode-encode_blob = read-write_record;
}
