-- ===== src/Storage/Owners.antt =====
-- `register_owner_pubkey` of storage/storage.cpp.
pub mod Binding
use chromatin_protocol.Prelude.{
  ℕ, List, Bool, ◌&&◌, Option, none, some, ◌==◌, if◌then◌else◌, length, bytes_eq,
}
use chromatin_protocol.External.Mdbx.{Mdbx}
use chromatin_protocol.Storage.Layout.{Storage, Io, get}

module _ ⦃M : Mdbx⦄ where
  unfoldable pub register_in : Storage → List ℕ → List ℕ → Option (List ℕ) → Option Storage
  register_in s signer_hint pubkey none =
      some (record s { owner_pubkeys = M.upsert signer_hint pubkey s.owner_pubkeys })
  register_in s signer_hint pubkey (some existing) =
      if length existing == 2592 && bytes_eq existing pubkey then some s else none

  -- `none` is an exception.
  unfoldable pub register_owner_pubkey : Io → Storage → List ℕ → List ℕ → Option Storage
  register_owner_pubkey io s signer_hint pubkey =
      if io.works then register_in s signer_hint pubkey (get signer_hint s.owner_pubkeys) else none
