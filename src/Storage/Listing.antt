-- ===== src/Storage/Listing.antt =====
-- `get_hashes_by_namespace` of storage/storage.cpp.
use chromatin_protocol.Prelude.{
  ℕ, ◌||◌, Bool, List, [], ◌∷◌, ◌&&◌, not, ◌==◌, if◌then◌else◌, length, take, bytes_eq,
}
use chromatin_protocol.External.Mdbx.{Mdbx, Entry}
use chromatin_protocol.Storage.Layout.{Storage, make_seq_key, zero_hash}
use chromatin_protocol.Storage.Cursor.{is_seq_key_of, lower_bound}

-- The walk from the cursor on, which ends early where it throws. An entry with the zero hash is what a deletion leaves behind.
unfoldable pub hashes_from : (List ℕ → Bool) → List ℕ → List Entry → List (List ℕ)
hashes_from fails ns [] = []
hashes_from fails ns ((k, v) ∷ es) =
    let rest = hashes_from fails ns es in
    if fails k || not (is_seq_key_of ns k)
    then []
    else if length v == 36 && not (bytes_eq (take 32 v) zero_hash)
    then take 32 v ∷ rest
    else rest

module _ ⦃M : Mdbx⦄ where
  unfoldable pub get_hashes_by_namespace : Storage → List ℕ → List (List ℕ)
  get_hashes_by_namespace s ns =
      hashes_from s.read_fails ns (lower_bound (make_seq_key ns 1) (M.entries s.seqs))
