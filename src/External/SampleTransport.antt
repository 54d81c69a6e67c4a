-- ===== src/External/SampleTransport.antt =====
-- Concrete instances of the transport codec and of the keys of a handshake, for runs: a plain record
-- format, and keys that are made of their inputs without any secrecy.
use chromatin_protocol.Prelude.{
  ℕ, zero, suc, ◌+◌, ◌^◌, ◌≤◌, ◌<◌, ◌≡◌, ◌≢◌, refl, ap, arith, true, Option, none, some, List, ◌∷◌,
  ◌++◌, length, length-append, get_or, take, drop, replicate, drop-append,
}
use chromatin_protocol.Endian.{store_u32_be, read_u32_be}
use chromatin_protocol.Endian.Words.{length-store_u32_be, read_u32_be-store_u32_be}
use chromatin_protocol.External.Crypto.{Crypto}
use chromatin_protocol.External.Samples.{plain_crypto}
use chromatin_protocol.External.Transport.{Transport, Keys, DecodedMessage}

pub write_message : ℕ → List ℕ → ℕ → List ℕ
write_message kind payload request_id = 0 ∷ kind ∷ (store_u32_be request_id ++ payload)

pub read_message : List ℕ → Option DecodedMessage
read_message (flag ∷ kind ∷ rest) =
    some (record { kind = kind; payload = drop 4 rest; request_id = read_u32_be rest })
read_message _ = none

pub read-write_message :
    (kind : ℕ) (payload : List ℕ) (request_id : ℕ)
    → kind < 256
    → request_id < 2 ^ 32
    → read_message (write_message kind payload request_id)
      ≡ some (record { kind = kind; payload = payload; request_id = request_id })
unfolding read_message write_message
read-write_message kind payload request_id hk hr =
    rw
      (
        drop-append 4 (store_u32_be request_id) payload (length-store_u32_be request_id),
        read_u32_be-store_u32_be request_id payload hr,
      )
      refl

pub head-write_message :
    (kind : ℕ) (payload : List ℕ) (request_id : ℕ)
    → get_or (write_message kind payload request_id) 0 0 ≢ 1
unfolding write_message
head-write_message kind payload request_id e = omega arith

pub length-write_message :
    (kind : ℕ) (payload : List ℕ) (request_id : ℕ)
    → length (write_message kind payload request_id) ≤ length payload + 64
unfolding write_message
length-write_message kind payload request_id =
    omega (arith, length-append (store_u32_be request_id) payload, length-store_u32_be request_id)

unfoldable pub plain_transport : Transport
unfolding write_message read_message
plain_transport = record {
  encode = write_message;
  decode = read_message;
  decode-encode = read-write_message;
  head-encode = head-write_message;
  length-encode = length-write_message;
}

pub length-replicate : (n x : ℕ) → length (replicate n x) ≡ n
length-replicate zero x = refl
length-replicate (suc n) x = ap suc (length-replicate n x)

pub public_of : List ℕ → List ℕ
public_of secret = replicate 2592 7

pub length-public_of : (secret : List ℕ) → length (public_of secret) ≡ 2592
unfolding public_of
length-public_of secret = length-replicate 2592 7

pub mark : List ℕ → List ℕ → List ℕ
mark secret message = replicate 64 1

pub length-mark : (secret message : List ℕ) → length (mark secret message) ≤ 4627
unfolding mark
length-mark secret message = omega arith

pub marked :
    (secret message : List ℕ)
    → (λ (C : Crypto). C.verify message (mark secret message) (public_of secret)) plain_crypto
      ≡ true
unfolding plain_crypto
marked secret message = refl

unfoldable pub plain_keys : Keys ⦃C = plain_crypto⦄
unfolding mark public_of
plain_keys = record {
  extract = λ salt ikm. salt ++ ikm;
  expand = λ prk context n. take n (context ++ prk);
  kem_public = λ seed. replicate 1568 7;
  kem_secret = λ seed. seed;
  encaps_ct = λ coins key. replicate 1568 9;
  encaps_ss = λ coins key. replicate 32 3;
  decaps = λ ct secret. replicate 32 3;
  decaps-encaps = λ seed coins. refl;
  length-kem_public = λ seed. length-replicate 1568 7;
  length-encaps_ct = λ coins key. length-replicate 1568 9;
  sign = mark;
  public_of = public_of;
  length-public_of = length-public_of;
  length-sign = length-mark;
  verify-sign = marked;
}
