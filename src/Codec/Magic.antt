-- ===== src/Codec/Magic.antt =====
-- The four magic bytes at the head of a payload.
use chromatin_protocol.Prelude.{
  ℕ, ◌≡◌, sym, ap, ◌∙◌, true, List, ◌++◌, length, drop, take-append, take-append-drop, bytes_eq→eq,
  eq→bytes_eq,
}
use chromatin_protocol.Codec.{has_magic}

pub has_magic-append :
    (magic rest : List ℕ) → length magic ≡ 4 → has_magic magic (magic ++ rest) ≡ true
unfolding has_magic
has_magic-append magic rest e = eq→bytes_eq _ magic (take-append 4 magic rest e)

-- What has the magic starts with it.
pub has_magic→append :
    (magic bytes : List ℕ) → has_magic magic bytes ≡ true → bytes ≡ magic ++ drop 4 bytes
unfolding has_magic
has_magic→append magic bytes h =
    sym (take-append-drop 4 bytes) ∙ ap (λ (t : List ℕ). t ++ drop 4 bytes) (bytes_eq→eq _ magic h)
