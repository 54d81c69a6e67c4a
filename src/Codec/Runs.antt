-- ===== src/Codec/Runs.antt =====
-- wire/codec.cpp on concrete payloads.
use chromatin_protocol.Prelude.{
  ℕ, ◌≡◌, refl, ◌++◌, List, [], ◌∷◌, true, false, some, replicate, bytes_eq,
}
use chromatin_protocol.Endian.{read_u16_be, read_u32_be}
use chromatin_protocol.Codec.{
  is_name, has_magic, is_tombstone, NamePayload, parse_name_payload, name_magic, is_bomb,
  bomb_magic,
}

abbrev hash_a : List ℕ
hash_a = replicate 32 0xAA

abbrev hash_b : List ℕ
hash_b = replicate 32 0xBB

abbrev name_bytes : List ℕ
name_bytes = name_magic ++ (0 ∷ 2 ∷ 0x68 ∷ 0x69 ∷ hash_a)

abbrev hi_payload : NamePayload
hi_payload = record { name = 0x68 ∷ 0x69 ∷ []; target_hash = hash_a }

abbrev bomb_bytes : List ℕ
bomb_bytes = bomb_magic ++ (0 ∷ 0 ∷ 0 ∷ 1 ∷ hash_a)

truncated_bomb : is_bomb (bomb_magic ++ (0 ∷ 0 ∷ 0 ∷ 2 ∷ hash_a)) ≡ false
unfolding is_bomb has_magic bytes_eq read_u32_be
truncated_bomb = refl

bomb_bytes-is_bomb : is_bomb bomb_bytes ≡ true
unfolding is_bomb has_magic bytes_eq read_u32_be
bomb_bytes-is_bomb = refl

name_bytes-parsed : parse_name_payload name_bytes ≡ some hi_payload
unfolding parse_name_payload is_name has_magic bytes_eq read_u16_be
name_bytes-parsed = refl

tombstone-accepted : is_tombstone (0xDE ∷ 0xAD ∷ 0xBE ∷ 0xEF ∷ hash_a) ≡ true
unfolding is_tombstone has_magic bytes_eq
tombstone-accepted = refl
