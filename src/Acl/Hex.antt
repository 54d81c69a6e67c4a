-- ===== src/Acl/Hex.antt =====
-- Namespaces as hexadecimal text.
use mathlib.Core.Path.{ap₂}
use chromatin_protocol.Prelude.{
  ℕ, zero, suc, ◌+◌, ◌*◌, ◌/◌, ◌%◌, ◌<◌, ◌≡◌, refl, sym, ap, ◌∙◌, arith, List, [], ◌∷◌, length,
  get_or, drop, drop-drop, AreBytes, IsHash,
}
use chromatin_protocol.Reconcile.WireTrips.{get_or-drop}
use chromatin_protocol.Acl.{hex_val, bytes_from, hex_to_bytes, hex_chars, to_hex}

hex_val-digit : (n : ℕ) → n < 16 → hex_val (get_or hex_chars n 0) ≡ n
unfolding hex_val
hex_val-digit zero h = refl
hex_val-digit (suc zero) h = refl
hex_val-digit (suc (suc zero)) h = refl
hex_val-digit (suc (suc (suc zero))) h = refl
hex_val-digit (suc (suc (suc (suc zero)))) h = refl
hex_val-digit (suc (suc (suc (suc (suc zero))))) h = refl
hex_val-digit (suc (suc (suc (suc (suc (suc zero)))))) h = refl
hex_val-digit (suc (suc (suc (suc (suc (suc (suc zero))))))) h = refl
hex_val-digit (suc (suc (suc (suc (suc (suc (suc (suc zero)))))))) h = refl
hex_val-digit (suc (suc (suc (suc (suc (suc (suc (suc (suc zero))))))))) h = refl
hex_val-digit (suc (suc (suc (suc (suc (suc (suc (suc (suc (suc zero)))))))))) h = refl
hex_val-digit (suc (suc (suc (suc (suc (suc (suc (suc (suc (suc (suc zero))))))))))) h = refl
hex_val-digit (suc (suc (suc (suc (suc (suc (suc (suc (suc (suc (suc (suc zero)))))))))))) h = refl
hex_val-digit (suc (suc (suc (suc (suc (suc (suc (suc (suc (suc (suc (suc (suc zero))))))))))))) h =
    refl
hex_val-digit
      (suc (suc (suc (suc (suc (suc (suc (suc (suc (suc (suc (suc (suc (suc zero)))))))))))))) h =
    refl
hex_val-digit
      (suc (suc (suc (suc (suc (suc (suc (suc (suc (suc (suc (suc (suc (suc (suc zero)))))))))))))))
      h =
    refl
hex_val-digit
      (suc
        (suc (suc (suc (suc (suc (suc (suc (suc (suc (suc (suc (suc (suc (suc (suc n))))))))))))))))
      h =
    absurd (omega arith)

bytes_from-to_hex :
    (text bytes : List ℕ) (i : ℕ)
    → AreBytes bytes
    → drop (i * 2) text ≡ to_hex bytes
    → bytes_from text (length bytes) i ≡ bytes
unfolding bytes_from to_hex
bytes_from-to_hex text [] i h at = refl
bytes_from-to_hex text (b ∷ bytes) i (lt, h) at =
    let hi = get_or hex_chars (b / 16 % 16) 0 in
    let lo = get_or hex_chars (b % 16) 0 in
    let first : get_or text (i * 2) 0 ≡ hi =
      get_or-drop (i * 2) text 0 ∙ ap (λ (t : List ℕ). get_or t 0 0) at in
    let second : get_or text (i * 2 + 1) 0 ≡ lo =
      get_or-drop (i * 2 + 1) text 0
      ∙ ap (λ (t : List ℕ). get_or t 0 0) (sym (drop-drop (i * 2) 1 text) ∙ ap (drop 1) at) in
    let later : drop ((i + 1) * 2) text ≡ to_hex bytes =
      ap (λ n. drop n text) (omega arith) ∙ sym (drop-drop (i * 2) 2 text) ∙ ap (drop 2) at in
    ap₂ (λ (x : ℕ) (xs : List ℕ). x ∷ xs)
      (omega (
        arith,
        lt,
        ap hex_val first ∙ hex_val-digit (b / 16 % 16) (omega arith),
        ap hex_val second ∙ hex_val-digit (b % 16) (omega arith),
      ))
      (bytes_from-to_hex text bytes (i + 1) h later)

-- The text that a namespace is shown as is read back as that namespace.
pub hex_to_bytes-to_hex : (ns : List ℕ) → IsHash ns → hex_to_bytes (to_hex ns) ≡ ns
unfolding hex_to_bytes
hex_to_bytes-to_hex ns v =
    ap (λ n. bytes_from (to_hex ns) n 0) (sym v.size)
    ∙ bytes_from-to_hex (to_hex ns) ns 0 v.bytes refl
