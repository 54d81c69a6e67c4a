-- ===== src/Acl/Reloaded.antt =====
-- Who is allowed under a list of configured keys.
use mathlib.Core.List.{map}
use chromatin_protocol.Prelude.{ℕ, ◌≡◌, refl, arith, List, [], ◌∷◌, ◌||◌, ◌==◌, length, bytes_eq}
use chromatin_protocol.Reconcile.Order.{contains}
use chromatin_protocol.Reconcile.Local.{set_insert}
use chromatin_protocol.Reconcile.Sets.{contains-set_insert}
use chromatin_protocol.Acl.{hex_to_bytes, insert_keys, allow_list, is_closed_mode, is_allowed}

contains-insert_keys :
    (ns : List ℕ) (hexes set : List (List ℕ))
    → contains ns (insert_keys hexes set)
      ≡ (contains ns (map hex_to_bytes hexes) || contains ns set)
unfolding contains insert_keys
contains-insert_keys ns [] set = refl
contains-insert_keys ns (hex ∷ hexes) set = ground (
  arith,
  contains-insert_keys ns hexes (set_insert (hex_to_bytes hex) set),
  contains-set_insert ns (hex_to_bytes hex) set,
)

-- Everyone may connect where no key is configured; otherwise exactly the node itself and those whose
-- namespace is what one of the configured texts spells.
pub is_allowed-allow_list :
    (hexes : List (List ℕ)) (own ns : List ℕ)
    → is_allowed (allow_list hexes own) ns
      ≡ (length hexes == 0 || (bytes_eq own ns || contains ns (map hex_to_bytes hexes)))
unfolding is_allowed is_closed_mode allow_list contains
is_allowed-allow_list [] own ns = refl
is_allowed-allow_list (hex ∷ hexes) own ns = ground (
  arith,
  contains-set_insert ns own (insert_keys (hex ∷ hexes) []),
  contains-insert_keys ns (hex ∷ hexes) [],
)
