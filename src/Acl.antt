-- ===== src/Acl.antt =====
-- acl/access_control.cpp: which clients and peers may connect, by the namespaces of their keys. Clients
-- and peers have an `AllowList` each. A text is a list of characters' codes.
pub mod Hex
pub mod Reloaded
mod Runs
use chromatin_protocol.Prelude.{
  ℕ, zero, suc, ◌+◌, ◌-◌, ◌*◌, ◌/◌, ◌%◌, List, [], ◌∷◌, Bool, true, false, ◌&&◌, not, ltb, leb,
  if◌then◌else◌, length, get_or, bytes_eq,
}
use chromatin_protocol.Reconcile.Order.{contains}
use chromatin_protocol.Reconcile.Local.{set_insert}

-- Any other character counts as 0; the configuration has refused it before.
unfoldable pub hex_val : ℕ → ℕ
hex_val c =
    if leb b'0' c && leb c b'9'
    then c - b'0'
    else if leb b'a' c && leb c b'f'
    then c - b'a' + 10
    else if leb b'A' c && leb c b'F'
    then c - b'A' + 10
    else 0

-- The loop over the bytes that are `left`, from the character `i * 2` on. The fields of `hi << 4 | lo`
-- are disjoint.
unfoldable pub bytes_from : List ℕ → ℕ → ℕ → List ℕ
unfolding hex_val
bytes_from hex zero i = []
bytes_from hex (suc left) i =
    (hex_val (get_or hex (i * 2) 0) * 16 + hex_val (get_or hex (i * 2 + 1) 0)) % 256
    ∷ bytes_from hex left (i + 1)

unfoldable pub hex_to_bytes : List ℕ → List ℕ
unfolding bytes_from
hex_to_bytes hex = bytes_from hex 32 0

-- util/hex.h: lower-case digits.
abbrev pub hex_chars : List ℕ
hex_chars =
    b'0' ∷ b'1' ∷ b'2' ∷ b'3' ∷ b'4' ∷ b'5' ∷ b'6' ∷ b'7' ∷ b'8' ∷ b'9' ∷ b'a' ∷ b'b' ∷ b'c' ∷ b'd'
    ∷ b'e' ∷ b'f' ∷ []

unfoldable pub to_hex : List ℕ → List ℕ
to_hex [] = []
to_hex (b ∷ bytes) = get_or hex_chars (b / 16 % 16) 0 ∷ get_or hex_chars (b % 16) 0 ∷ to_hex bytes

-- `std::set` of namespaces, with the number of keys that were configured.
pub record AllowList : Type 0 where
  pub allowed_keys : List (List ℕ)
  pub configured_count : ℕ

unfoldable pub insert_keys : List (List ℕ) → List (List ℕ) → List (List ℕ)
insert_keys [] set = set
insert_keys (hex ∷ hexes) set = insert_keys hexes (set_insert (hex_to_bytes hex) set)

unfoldable pub allow_list : List (List ℕ) → List ℕ → AllowList
unfolding insert_keys
allow_list hex_keys own =
    let keys = insert_keys hex_keys [] in
    record {
      allowed_keys = if ltb 0 (length hex_keys) then set_insert own keys else keys;
      configured_count = length hex_keys;
    }

unfoldable pub is_closed_mode : AllowList → Bool
is_closed_mode a = ltb 0 a.configured_count

unfoldable pub is_allowed : AllowList → List ℕ → Bool
unfolding is_closed_mode
is_allowed a namespace_hash =
    if not (is_closed_mode a) then true else contains namespace_hash a.allowed_keys

-- `old_keys`: the node's own namespace is left out.
unfoldable pub without : List ℕ → List (List ℕ) → List (List ℕ)
without own [] = []
without own (key ∷ keys) =
    let rest = without own keys in if not (bytes_eq key own) then key ∷ rest else rest

-- The keys that the set does not have.
unfoldable pub count_missing : List (List ℕ) → List (List ℕ) → ℕ
count_missing [] set = 0
count_missing (key ∷ keys) set =
    let rest = count_missing keys set in if not (contains key set) then rest + 1 else rest

pub record Reload : Type 0 where
  pub list : AllowList
  pub added : ℕ
  pub removed : ℕ

-- What `reload` does, once for the clients and once for the peers.
unfoldable pub reload_list : List ℕ → AllowList → List (List ℕ) → Reload
unfolding allow_list without count_missing
reload_list own a hex_keys =
    let new_keys = insert_keys hex_keys [] in
    let old_keys = without own a.allowed_keys in
    record {
      list = allow_list hex_keys own;
      added = count_missing new_keys old_keys;
      removed = count_missing old_keys new_keys;
    }

pub record AccessControl : Type 0 where
  pub clients : AllowList
  pub peers : AllowList
  pub own_namespace : List ℕ

unfoldable pub access_control : List (List ℕ) → List (List ℕ) → List ℕ → AccessControl
unfolding allow_list
access_control client_hex_keys peer_hex_keys own = record {
  clients = allow_list client_hex_keys own;
  peers = allow_list peer_hex_keys own;
  own_namespace = own;
}

-- `ReloadResult`
pub record Counts : Type 0 where
  pub client_added : ℕ
  pub client_removed : ℕ
  pub peer_added : ℕ
  pub peer_removed : ℕ

unfoldable pub reload : AccessControl → List (List ℕ) → List (List ℕ) → AccessControl × Counts
unfolding reload_list
reload acl client_hex_keys peer_hex_keys =
    let c = reload_list acl.own_namespace acl.clients client_hex_keys in
    let p = reload_list acl.own_namespace acl.peers peer_hex_keys in
    (
      record acl { clients = c.list; peers = p.list },
      record {
        client_added = c.added;
        client_removed = c.removed;
        peer_added = p.added;
        peer_removed = p.removed;
      },
    )
