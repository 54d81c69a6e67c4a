-- ===== src/Codec/Tombstone.antt =====
-- Tombstone payloads: what `make_tombstone_data` builds is what `is_tombstone` accepts.
use chromatin_protocol.Prelude.{
  ℕ, ◌≡◌, refl, sym, ap, ◌∙◌, arith, true, List, ◌++◌, length, length-drop, drop, take_all,
}
use chromatin_protocol.Codec.{
  is_tombstone, make_tombstone_data, extract_tombstone_target, has_magic, tombstone_magic,
}
use chromatin_protocol.Codec.Magic.{has_magic-append, has_magic→append}

-- A tombstone made for a 32-byte hash is accepted, and its target is that hash.
pub is_tombstone-make :
    (h : List ℕ)
    → length h ≡ 32
    → (is_tombstone (make_tombstone_data h) ≡ true)
      × (extract_tombstone_target (make_tombstone_data h) ≡ h)
unfolding is_tombstone make_tombstone_data extract_tombstone_target
is_tombstone-make h e = (ground (arith, has_magic-append tombstone_magic h refl), take_all 32 h e)

-- Every payload that is accepted was made from its target.
pub make-extract_tombstone_target :
    (bytes : List ℕ)
    → is_tombstone bytes ≡ true
    → make_tombstone_data (extract_tombstone_target bytes) ≡ bytes
unfolding is_tombstone make_tombstone_data extract_tombstone_target
make-extract_tombstone_target bytes h =
    let size : length bytes ≡ 36 = ground arith in
    let magic : has_magic tombstone_magic bytes ≡ true = ground arith in
    ap (λ (t : List ℕ). tombstone_magic ++ t)
      (take_all 32 (drop 4 bytes) (omega (arith, length-drop 4 bytes)))
    ∙ sym (has_magic→append tombstone_magic bytes magic)
