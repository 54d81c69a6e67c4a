-- ===== src/Codec/Kinds.antt =====
-- The payload formats exclude one another.
use chromatin_protocol.Prelude.{
  ℕ, ◌+◌, ◌≤◌, ◌≡◌, arith, Bool, true, List, [], ◌∷◌, slice, bytes_eq→eq, if◌then◌else◌,
}
use chromatin_protocol.Codec.{
  is_tombstone, is_delegation, is_pubkey_blob, is_name, is_bomb, has_bomb_magic, has_magic,
  tombstone_magic, delegation_magic, pubkey_magic, name_magic, bomb_magic,
}

abbrev pub count_true : List Bool → ℕ
count_true [] = 0
count_true (b ∷ bs) = (if b then 1 else 0) + count_true bs

type_of_magic : (magic bytes : List ℕ) → has_magic magic bytes ≡ true → slice 0 4 bytes ≡ magic
unfolding has_magic
type_of_magic magic bytes h = bytes_eq→eq _ magic h

module _ (bytes : List ℕ) where
  type-is_tombstone : is_tombstone bytes ≡ true → slice 0 4 bytes ≡ tombstone_magic
  unfolding is_tombstone
  type-is_tombstone h = ground (arith, type_of_magic tombstone_magic bytes)

  type-is_delegation : is_delegation bytes ≡ true → slice 0 4 bytes ≡ delegation_magic
  unfolding is_delegation
  type-is_delegation h = ground (arith, type_of_magic delegation_magic bytes)

  type-is_name : is_name bytes ≡ true → slice 0 4 bytes ≡ name_magic
  unfolding is_name
  type-is_name h = ground (arith, type_of_magic name_magic bytes)

  type-has_bomb_magic : has_bomb_magic bytes ≡ true → slice 0 4 bytes ≡ bomb_magic
  unfolding has_bomb_magic
  type-has_bomb_magic h = ground (arith, type_of_magic bomb_magic bytes)

  pub is_bomb→has_bomb_magic : is_bomb bytes ≡ true → has_bomb_magic bytes ≡ true
  unfolding is_bomb has_bomb_magic
  is_bomb→has_bomb_magic h = ground arith

type-is_pubkey_blob :
    (bytes : List ℕ) → is_pubkey_blob bytes ≡ true → slice 0 4 bytes ≡ pubkey_magic
unfolding is_pubkey_blob
type-is_pubkey_blob [] h = ground arith
type-is_pubkey_blob (a ∷ []) h = ground arith
type-is_pubkey_blob (a ∷ b ∷ []) h = ground arith
type-is_pubkey_blob (a ∷ b ∷ c ∷ []) h = ground arith
type-is_pubkey_blob (a ∷ b ∷ c ∷ d ∷ r) h = ground arith

-- Any bytes pass at most one of the tests for a tombstone, a delegation, a published key, a name
-- and a batch with the BOMB magic.
pub kinds_exclusive :
    (bytes : List ℕ)
    → count_true (
        is_tombstone bytes
        ∷ is_delegation bytes
        ∷ is_pubkey_blob bytes
        ∷ is_name bytes
        ∷ has_bomb_magic bytes
        ∷ [])
      ≤ 1
kinds_exclusive bytes = ground (
  arith,
  type-is_tombstone bytes,
  type-is_delegation bytes,
  type-is_pubkey_blob bytes,
  type-is_name bytes,
  type-has_bomb_magic bytes,
)
