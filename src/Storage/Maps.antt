-- ===== src/Storage/Maps.antt =====
-- Reading a map after a write to it.
use chromatin_protocol.Prelude.{ℕ, ◌≡◌, ◌∙◌, false, none, some, List, bytes_eq, bytes_eq_self}
use chromatin_protocol.External.Mdbx.{Mdbx}
use chromatin_protocol.Storage.Layout.{get}

module _ ⦃M : Mdbx⦄ (k v : List ℕ) (m : M.Map) where
  pub get-upsert_self : get k (M.upsert k v m) ≡ some v
  get-upsert_self = M.lookup-upsert k k v m ∙ rw (bytes_eq_self k)

  pub get-upsert_ne : (j : List ℕ) → bytes_eq k j ≡ false → get j (M.upsert k v m) ≡ get j m
  get-upsert_ne j h = M.lookup-upsert k j v m ∙ rw h

module _ ⦃M : Mdbx⦄ (k : List ℕ) (m : M.Map) where
  pub get-erase_self : get k (M.erase k m) ≡ none
  get-erase_self = M.lookup-erase k k m ∙ rw (bytes_eq_self k)
