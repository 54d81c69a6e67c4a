-- ===== src/Codec/Delegation.antt =====
-- Delegation payloads: what `make_delegation_data` builds is what `is_delegation` accepts.
use chromatin_protocol.Prelude.{
  ℕ, ◌≡◌, refl, sym, ap, ◌∙◌, arith, true, List, ◌++◌, length, length-drop, drop, take_all,
}
use chromatin_protocol.Codec.{
  is_delegation, make_delegation_data, extract_delegate_pubkey, has_magic, delegation_magic,
}
use chromatin_protocol.Codec.Magic.{has_magic-append, has_magic→append}

-- A delegation made for a 2592-byte key is accepted, and its delegate is that key.
pub is_delegation-make :
    (pk : List ℕ)
    → length pk ≡ 2592
    → (is_delegation (make_delegation_data pk) ≡ true)
      × (extract_delegate_pubkey (make_delegation_data pk) ≡ pk)
unfolding is_delegation make_delegation_data extract_delegate_pubkey
is_delegation-make pk e =
    (ground (arith, has_magic-append delegation_magic pk refl), take_all 2592 pk e)

-- Every payload that is accepted was made from its delegate key.
pub make-extract_delegate_pubkey :
    (bytes : List ℕ)
    → is_delegation bytes ≡ true
    → make_delegation_data (extract_delegate_pubkey bytes) ≡ bytes
unfolding is_delegation make_delegation_data extract_delegate_pubkey
make-extract_delegate_pubkey bytes h =
    let size : length bytes ≡ 2596 = ground arith in
    let magic : has_magic delegation_magic bytes ≡ true = ground arith in
    ap (λ (t : List ℕ). delegation_magic ++ t)
      (take_all 2592 (drop 4 bytes) (omega (arith, length-drop 4 bytes)))
    ∙ sym (has_magic→append delegation_magic bytes magic)
