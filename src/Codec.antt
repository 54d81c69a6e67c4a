-- ===== src/Codec.antt =====
-- wire/codec.h and wire/codec.cpp: the blob record, its expiry, and the payload formats that the
-- node itself reads: tombstones, delegations, published keys, names and batched tombstones.
mod Magic
pub mod Expiry
pub mod Tombstone
pub mod Delegation
pub mod Name
pub mod Bomb
pub mod Kinds
mod Runs
use chromatin_protocol.Prelude.{
  ℕ, zero, suc, ◌+◌, ◌-◌, ◌*◌, ◌%◌, ◌^◌, List, [], ◌∷◌, ◌++◌, Bool, true, false, ◌&&◌, not, Option,
  none, some, ltb, leb, ◌==◌, if◌then◌else◌, length, drop, get_or, slice, bytes_eq,
}
use chromatin_protocol.Endian.{read_u16_be, read_u32_be, write_u16_be, write_u32_be, size_mod}

-- `body` is the field `data`.
pub record BlobData : Type 0 where
  pub signer_hint : List ℕ
  pub body : List ℕ
  pub ttl : ℕ
  pub timestamp : ℕ
  pub signature : List ℕ

abbrev pub u64_max : ℕ
u64_max = 2 ^ 64 - 1

unfoldable pub saturating_expiry : ℕ → ℕ → ℕ
saturating_expiry timestamp ttl =
    if ttl == 0
    then 0
    else if ltb (u64_max - ttl) timestamp
    then u64_max
    else (timestamp + ttl) % 2 ^ 64

unfoldable pub is_blob_expired : BlobData → ℕ → Bool
is_blob_expired blob now =
    if blob.ttl == 0 then false else leb (saturating_expiry blob.timestamp blob.ttl) now

-- `memcmp(data, magic, 4) == 0`, on at least four bytes.
unfoldable pub has_magic : List ℕ → List ℕ → Bool
has_magic magic bytes = bytes_eq (slice 0 4 bytes) magic

abbrev pub tombstone_magic : List ℕ
tombstone_magic = 0xDE ∷ 0xAD ∷ 0xBE ∷ 0xEF ∷ []

abbrev pub tombstone_data_size : ℕ
tombstone_data_size = 36

unfoldable pub is_tombstone : List ℕ → Bool
is_tombstone bytes =
    if not (length bytes == tombstone_data_size) then false else has_magic tombstone_magic bytes

unfoldable pub extract_tombstone_target : List ℕ → List ℕ
extract_tombstone_target bytes = slice 4 32 bytes

unfoldable pub make_tombstone_data : List ℕ → List ℕ
make_tombstone_data target_hash = tombstone_magic ++ target_hash

abbrev pub delegation_magic : List ℕ
delegation_magic = 0xDE ∷ 0x1E ∷ 0x6A ∷ 0x7E ∷ []

abbrev pub delegation_pubkey_size : ℕ
delegation_pubkey_size = 2592

abbrev pub delegation_data_size : ℕ
delegation_data_size = 4 + delegation_pubkey_size

unfoldable pub is_delegation : List ℕ → Bool
is_delegation bytes =
    if not (length bytes == delegation_data_size) then false else has_magic delegation_magic bytes

unfoldable pub extract_delegate_pubkey : List ℕ → List ℕ
extract_delegate_pubkey bytes = slice 4 delegation_pubkey_size bytes

unfoldable pub make_delegation_data : List ℕ → List ℕ
make_delegation_data delegate_pubkey = delegation_magic ++ delegate_pubkey

abbrev pub pubkey_magic : List ℕ
pubkey_magic = 0x50 ∷ 0x55 ∷ 0x42 ∷ 0x4B ∷ []

abbrev pub pubkey_data_size : ℕ
pubkey_data_size = 4 + 2592 + 1568

unfoldable pub is_pubkey_blob : List ℕ → Bool
is_pubkey_blob bytes =
    length bytes == pubkey_data_size
    && (get_or bytes 0 0 == 0x50
        && (get_or bytes 1 0 == 0x55 && (get_or bytes 2 0 == 0x42 && get_or bytes 3 0 == 0x4B)))

unfoldable pub extract_pubk_signing_pk : List ℕ → List ℕ
extract_pubk_signing_pk bytes = slice 4 2592 bytes

abbrev pub name_magic : List ℕ
name_magic = 0x4E ∷ 0x41 ∷ 0x4D ∷ 0x45 ∷ []

abbrev pub name_min_data_size : ℕ
name_min_data_size = 4 + 2 + 0 + 32

-- The two bytes of the span are there, by the first test, so the reader does not throw.
unfoldable pub is_name : List ℕ → Bool
is_name bytes =
    if ltb (length bytes) name_min_data_size
    then false
    else if not (has_magic name_magic bytes)
    then false
    else (let name_len = read_u16_be (slice 4 2 bytes) in length bytes == 4 + 2 + name_len + 32)

pub record NamePayload : Type 0 where
  pub name : List ℕ
  pub target_hash : List ℕ

unfoldable pub parse_name_payload : List ℕ → Option NamePayload
parse_name_payload bytes =
    if not (is_name bytes)
    then none
    else (let name_len = read_u16_be (slice 4 2 bytes) in
        some
          (record { name = slice 6 name_len bytes; target_hash = slice (6 + name_len) 32 bytes }))

-- `none` is the exception `std::invalid_argument`.
unfoldable pub make_name_data : List ℕ → List ℕ → Option (List ℕ)
make_name_data name target_hash =
    if ltb 65535 (length name)
    then none
    else some (name_magic ++ (write_u16_be (length name % 2 ^ 16) ++ (name ++ target_hash)))

abbrev pub bomb_magic : List ℕ
bomb_magic = 0x42 ∷ 0x4F ∷ 0x4D ∷ 0x42 ∷ []

abbrev pub bomb_min_data_size : ℕ
bomb_min_data_size = 4 + 4

unfoldable pub has_bomb_magic : List ℕ → Bool
has_bomb_magic bytes =
    if ltb (length bytes) bomb_min_data_size then false else has_magic bomb_magic bytes

unfoldable pub is_bomb : List ℕ → Bool
is_bomb bytes =
    if ltb (length bytes) bomb_min_data_size
    then false
    else if not (has_magic bomb_magic bytes)
    then false
    else (let count = read_u32_be (drop 4 bytes) in
        let expected = (8 + count * 32) % size_mod in length bytes == expected)

unfoldable pub validate_bomb_structure : List ℕ → Bool
validate_bomb_structure = is_bomb

-- The loop of `extract_bomb_targets`: `left` rounds are to come, and `i` is the counter.
unfoldable pub bomb_targets_loop : List ℕ → ℕ → ℕ → List (List ℕ)
bomb_targets_loop bytes zero i = []
bomb_targets_loop bytes (suc left) i =
    slice (8 + i * 32) 32 bytes ∷ bomb_targets_loop bytes left (i + 1)

unfoldable pub extract_bomb_targets : List ℕ → List (List ℕ)
extract_bomb_targets bytes = bomb_targets_loop bytes (read_u32_be (drop 4 bytes)) 0

-- `buf.insert(buf.end(), h.begin(), h.end())` for each hash.
unfoldable pub append_hashes : List (List ℕ) → List ℕ
append_hashes [] = []
append_hashes (h ∷ hs) = h ++ append_hashes hs

unfoldable pub make_bomb_data : List (List ℕ) → Option (List ℕ)
make_bomb_data targets =
    if ltb (2 ^ 32 - 1) (length targets)
    then none
    else some (bomb_magic ++ (write_u32_be (length targets % 2 ^ 32) ++ append_hashes targets))

-- The first four bytes, or zeros.
unfoldable pub extract_blob_type : List ℕ → List ℕ
extract_blob_type bytes = if leb 4 (length bytes) then slice 0 4 bytes else 0 ∷ 0 ∷ 0 ∷ 0 ∷ []
