-- ===== src/Frame.antt =====
-- net/framing.h and net/framing.cpp: encrypted frames with a length prefix and counter nonces, and
-- net/auth_helpers.h with net/role.h: the payload of the authentication message.
pub mod Stream
pub mod Auth
mod Runs
use chromatin_protocol.Prelude.{
  ℕ, suc, ◌+◌, ◌*◌, ◌-◌, ◌%◌, ◌^◌, List, [], ◌∷◌, ◌++◌, Bool, ◌||◌, not, Option, none, some, ◌>>=◌,
  ltb, ◌==◌, if◌then◌else◌, length, get_or, drop, slice, replicate,
}
use chromatin_protocol.Endian.{store_u32_be, store_u64_be, write_u32_be, read_u32_be}
use chromatin_protocol.External.Crypto.{Crypto}

abbrev pub max_frame_size : ℕ
max_frame_size = 2 * 1024 * 1024

abbrev pub frame_header_size : ℕ
frame_header_size = 4

-- Four zero bytes and the counter.
unfoldable pub make_nonce : ℕ → List ℕ
make_nonce counter = replicate 4 0 ++ store_u64_be counter

pub record FrameResult : Type 0 where
  pub plaintext : List ℕ
  pub bytes_consumed : ℕ

-- `failed` is the null result of a decryption, `thrown` an exception.
pub data ReadFrame : Type 0 where
  frame : FrameResult → ReadFrame
  failed thrown : ReadFrame

unfoldable pub frame_of : Option (List ℕ) → ℕ → ReadFrame
frame_of none ct_len = ReadFrame.failed
frame_of (some plaintext) ct_len =
    ReadFrame.frame (record { plaintext = plaintext; bytes_consumed = frame_header_size + ct_len })

module _ ⦃C : Crypto⦄ where
  unfoldable pub write_frame : List ℕ → List ℕ → ℕ → List ℕ
  write_frame plaintext key counter =
      let ciphertext = C.encrypt plaintext [] (make_nonce counter) key in
      store_u32_be (length ciphertext % 2 ^ 32) ++ ciphertext

  unfoldable pub read_frame : List ℕ → List ℕ → ℕ → ReadFrame
  read_frame buffer key counter =
      if ltb (length buffer) frame_header_size
      then ReadFrame.thrown
      else (let ct_len = read_u32_be buffer in
          if ltb max_frame_size ct_len
          then ReadFrame.thrown
          else if ltb (length buffer) (frame_header_size + ct_len)
          then ReadFrame.thrown
          else frame_of
              (C.decrypt (slice frame_header_size ct_len buffer) [] (make_nonce counter) key)
              ct_len)

-- `Role` by its byte; the roles that are implemented.
unfoldable pub is_implemented_role : ℕ → Bool
is_implemented_role b = b == 0 || b == 1

pub record AuthPayload : Type 0 where
  pub role : ℕ
  pub pubkey : List ℕ
  pub signature : List ℕ

unfoldable pub encode_auth_payload : ℕ → List ℕ → List ℕ → List ℕ
encode_auth_payload role signing_pubkey signature =
    role ∷ (write_u32_be (length signing_pubkey % 2 ^ 32) ++ (signing_pubkey ++ signature))

unfoldable pub decode_auth_payload : List ℕ → Option AuthPayload
decode_auth_payload bytes =
    if ltb (length bytes) 5
    then none
    else if not (is_implemented_role (get_or bytes 0 0))
    then none
    else (let pk_size = read_u32_be (slice 1 4 bytes) in
        if not (pk_size == 2592)
        then none
        else if ltb (length bytes - 5) pk_size
        then none
        else some (record {
          role = get_or bytes 0 0;
          pubkey = slice 5 pk_size bytes;
          signature = drop (5 + pk_size) bytes;
        }))
