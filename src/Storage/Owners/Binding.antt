-- ===== src/Storage/Owners/Binding.antt =====
-- The owner map binds a hint once.
use chromatin_protocol.Prelude.{
  ℕ, ◌≡◌, arith, Option, none, some, List, bytes_eq, bytes_eq_iff, if◌then◌else◌, length,
}
use chromatin_protocol.External.Mdbx.{Mdbx}
use chromatin_protocol.Storage.Layout.{Storage, Io, get}
use chromatin_protocol.Storage.Query.{owner_in, owner_of}
use chromatin_protocol.Storage.Owners.{register_owner_pubkey, register_in}

module _ ⦃M : Mdbx⦄ (s : Storage) (hint pubkey : List ℕ) (size : length pubkey ≡ 2592) where
  register_in-view :
      (found : Option (List ℕ)) (s' : Storage) (h : List ℕ)
      → get hint s.owner_pubkeys ≡ found
      → register_in s hint pubkey found ≡ some s'
      → owner_of s' h ≡ (if bytes_eq hint h then some pubkey else owner_of s h)
  unfolding register_in owner_in
  register_in-view none s' h e ok = ground (arith, M.lookup-upsert hint h pubkey s.owner_pubkeys)
  register_in-view (some existing) s' h e ok =
      ground (arith, bytes_eq_iff existing pubkey, bytes_eq_iff hint h)

-- Without an exception, registering a 2592-byte key makes it the one that is read at its hint, and
-- leaves every other hint as it was.
pub register_owner_pubkey-view :
    ⦃M : Mdbx⦄ (io : Io) (s s' : Storage) (hint pubkey h : List ℕ)
    → length pubkey ≡ 2592
    → register_owner_pubkey io s hint pubkey ≡ some s'
    → owner_of s' h ≡ (if bytes_eq hint h then some pubkey else owner_of s h)
unfolding register_owner_pubkey
register_owner_pubkey-view io s s' hint pubkey h size ok =
    ground (arith, register_in-view s hint pubkey size (get hint s.owner_pubkeys) s' h)

-- A key that is read at a hint stays: no registration replaces it.
pub binding_stays :
    ⦃M : Mdbx⦄ (io : Io) (s s' : Storage) (hint pubkey h k : List ℕ)
    → register_owner_pubkey io s hint pubkey ≡ some s'
    → owner_of s h ≡ some k
    → owner_of s' h ≡ some k
unfolding register_owner_pubkey register_in owner_in
binding_stays ⦃M⦄ io s s' hint pubkey h k ok bound =
    ground (arith, M.lookup-upsert hint h pubkey s.owner_pubkeys, bytes_eq_iff hint h)
