-- ===== src/Acl/Runs.antt =====
-- acl/access_control.cpp on concrete lists.
use mathlib.Core.List.{map}
use chromatin_protocol.Prelude.{
  ℕ, ◌≡◌, refl, List, [], ◌∷◌, true, ◌||◌, ◌==◌, length, replicate, bytes_eq,
}
use chromatin_protocol.External.Mdbx.{bytes_lt}
use chromatin_protocol.Reconcile.Order.{contains}
use chromatin_protocol.Reconcile.Local.{set_insert}
use chromatin_protocol.Acl.{
  hex_val, bytes_from, hex_to_bytes, to_hex, insert_keys, allow_list, is_closed_mode, is_allowed,
}
use chromatin_protocol.Acl.Reloaded.{is_allowed-allow_list}

abbrev own : List ℕ
own = replicate 32 171

abbrev friend : List ℕ
friend = replicate 32 18

abbrev stranger : List ℕ
stranger = replicate 32 5

-- 171 is `ab`.
own-shown : to_hex (171 ∷ []) ≡ b'a' ∷ b'b' ∷ []
unfolding to_hex
own-shown = refl

is_allowed-allow_list_example : is_allowed (allow_list (to_hex friend ∷ []) own) stranger ≡ (
    length (to_hex friend ∷ []) == 0
    || (bytes_eq own stranger || contains stranger (map hex_to_bytes (to_hex friend ∷ []))))
is_allowed-allow_list_example = is_allowed-allow_list (to_hex friend ∷ []) own stranger

friend-allowed : is_allowed (allow_list (to_hex friend ∷ []) own) friend ≡ true
unfolding is_allowed is_closed_mode allow_list insert_keys set_insert contains hex_to_bytes
    bytes_from hex_val to_hex bytes_eq bytes_lt
friend-allowed = refl
