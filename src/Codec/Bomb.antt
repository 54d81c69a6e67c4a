-- ===== src/Codec/Bomb.antt =====
-- BOMB payloads: printing and extracting are inverse to each other.
use mathlib.Core.Path.{subst, ap₂}
use native.Mathlib.Nat.{mod-eq_of_lt}
use chromatin_protocol.Prelude.{
  ℕ, zero, suc, ◌+◌, ◌-◌, ◌*◌, ◌%◌, ◌^◌, ◌≤◌, ◌<◌, ◌≡◌, refl, sym, ap, ◌∙◌, arith, true, some, List,
  [], ◌∷◌, ◌++◌, append-nil, append_assoc, length, length-append, length-drop, take-add, take_all,
  drop, drop-drop, slice, drop-slice, length-slice, All, All-slice, IsByte, AreBytes, At, At-start,
  At-slice, At-next, le→ltb,
}
use chromatin_protocol.Endian.{write_u32_be, read_u32_be, size_mod}
use chromatin_protocol.Endian.Words.{
  length-write_u32_be, read_u32_be-At, read_u32_be-lt, write_u32_be-read_u32_be,
}
use chromatin_protocol.Codec.{
  is_bomb, has_magic, bomb_magic, bomb_targets_loop, extract_bomb_targets, append_hashes,
  make_bomb_data,
}
use chromatin_protocol.Codec.Magic.{has_magic-append, has_magic→append}

-- Each target has the size of a hash.
abbrev pub AreHashes : List (List ℕ) → Type 0
AreHashes = All (λ h. length h ≡ 32)

pub length-append_hashes :
    (hs : List (List ℕ)) → AreHashes hs → length (append_hashes hs) ≡ length hs * 32
unfolding append_hashes
length-append_hashes [] h = omega arith
length-append_hashes (x ∷ hs) h =
    omega (arith, length-append x (append_hashes hs), length-append_hashes hs h.1, h.0)

next_target : (i : ℕ) → 8 + i * 32 + 32 ≡ 8 + (i + 1) * 32
next_target i = omega arith

bomb_targets_loop-At :
    (bytes : List ℕ) (hs : List (List ℕ)) (i : ℕ) (rest : List ℕ)
    → AreHashes hs
    → At bytes (8 + i * 32) (append_hashes hs ++ rest)
    → bomb_targets_loop bytes (length hs) i ≡ hs
unfolding bomb_targets_loop append_hashes
bomb_targets_loop-At bytes [] i rest h at = refl
bomb_targets_loop-At bytes (x ∷ hs) i rest h at =
    let here : At bytes (8 + i * 32) (x ++ (append_hashes hs ++ rest)) =
      subst (At bytes (8 + i * 32)) (append_assoc x (append_hashes hs) rest) at in
    let there : At bytes (8 + (i + 1) * 32) (append_hashes hs ++ rest) =
      subst (λ k. At bytes k (append_hashes hs ++ rest)) (next_target i)
        (At-next bytes (8 + i * 32) 32 x (append_hashes hs ++ rest) here h.0) in
    ap₂ (λ (y : List ℕ) (ys : List (List ℕ)). y ∷ ys)
      (At-slice bytes (8 + i * 32) 32 x (append_hashes hs ++ rest) here h.0)
      (bomb_targets_loop-At bytes hs (i + 1) rest h.1 there)

-- What the loop extracts, written out again, is the part of the payload that it read.
append-bomb_targets_loop :
    (bytes : List ℕ) (left i : ℕ)
    → append_hashes (bomb_targets_loop bytes left i) ≡ slice (8 + i * 32) (left * 32) bytes
unfolding bomb_targets_loop append_hashes
append-bomb_targets_loop bytes zero i = refl
append-bomb_targets_loop bytes (suc left) i =
    rw
      (
        append-bomb_targets_loop bytes left (i + 1),
        ← next_target i,
        ← drop-drop (8 + i * 32) 32 bytes,
      )
      (sym (take-add 32 (left * 32) (drop (8 + i * 32) bytes))
        ∙ ap (λ (n : ℕ). slice (8 + i * 32) n bytes) (omega arith))

is_bomb_intro :
    (bytes : List ℕ)
    → has_magic bomb_magic bytes ≡ true
    → length bytes ≡ (8 + read_u32_be (drop 4 bytes) * 32) % size_mod
    → 8 ≤ length bytes
    → is_bomb bytes ≡ true
unfolding is_bomb
is_bomb_intro bytes h e room = ground arith

is_bomb_elim :
    (bytes : List ℕ)
    → is_bomb bytes ≡ true
    → (has_magic bomb_magic bytes ≡ true)
      × (length bytes ≡ (8 + read_u32_be (drop 4 bytes) * 32) % size_mod)
      × (8 ≤ length bytes)
unfolding is_bomb
is_bomb_elim bytes h = ground arith

module _ (hs : List (List ℕ)) (few : length hs < 2 ^ 32) (sizes : AreHashes hs) where
  abbrev printed : List ℕ
  printed = bomb_magic ++ (write_u32_be (length hs) ++ append_hashes hs)

  At-count : At printed 4 (write_u32_be (length hs) ++ append_hashes hs)
  At-count = At-next printed 0 4 bomb_magic _ (At-start printed) refl

  At-targets : At printed (8 + 0 * 32) (append_hashes hs ++ [])
  At-targets = rw append-nil (At-next printed 4 4 _ _ At-count (length-write_u32_be (length hs)))

  count_field : read_u32_be (drop 4 printed) ≡ length hs
  count_field = read_u32_be-At printed 4 (length hs) (append_hashes hs) At-count few

  length-printed : length printed ≡ 8 + length hs * 32
  length-printed = omega (
    arith,
    length-append (write_u32_be (length hs)) (append_hashes hs),
    length-append_hashes hs sizes,
    length-write_u32_be (length hs),
  )

  is_bomb-printed : is_bomb printed ≡ true
  is_bomb-printed =
      is_bomb_intro printed (has_magic-append bomb_magic _ refl)
        (rw count_field (omega (arith, length-printed))) (omega (arith, length-printed))

  extract-printed : extract_bomb_targets printed ≡ hs
  unfolding extract_bomb_targets
  extract-printed = rw count_field (bomb_targets_loop-At printed hs 0 [] sizes At-targets)

-- Fewer than 2 ^ 32 targets of 32 bytes are printed to a payload that is accepted and from which
-- exactly these targets are extracted.
pub extract-make_bomb_data :
    (hs : List (List ℕ))
    → length hs < 2 ^ 32
    → AreHashes hs
    → (bytes : List ℕ) × (make_bomb_data hs ≡ some bytes)
      × (is_bomb bytes ≡ true)
      × (extract_bomb_targets bytes ≡ hs)
unfolding make_bomb_data
extract-make_bomb_data hs few sizes =
    (printed hs few sizes, ground arith, is_bomb-printed hs few sizes, extract-printed hs few sizes)

pub length-bomb_targets_loop :
    (bytes : List ℕ) (left i : ℕ) → length (bomb_targets_loop bytes left i) ≡ left
unfolding bomb_targets_loop
length-bomb_targets_loop bytes zero i = refl
length-bomb_targets_loop bytes (suc left) i = ap suc (length-bomb_targets_loop bytes left (i + 1))

module _ (bytes : List ℕ) (b : AreBytes bytes) (ok : is_bomb bytes ≡ true) where
  count : ℕ
  count = read_u32_be (drop 4 bytes)

  count_bytes : drop 4 bytes ≡ slice 4 4 bytes ++ drop 8 bytes
  count_bytes = drop-slice 4 4 bytes

  length-field : length (slice 4 4 bytes) ≡ 4
  length-field = length-slice 4 4 bytes (is_bomb_elim bytes ok).2

  count-lt : count < 2 ^ 32
  unfolding count
  count-lt =
      rw count_bytes (read_u32_be-lt _ (drop 8 bytes) length-field (All-slice IsByte 4 4 bytes b))

  size_of : length bytes ≡ 8 + count * 32
  unfolding count
  size_of = omega (arith, (is_bomb_elim bytes ok).1, count-lt)

  field_bytes : write_u32_be count ≡ slice 4 4 bytes
  unfolding count
  field_bytes =
      ap (λ (t : List ℕ). write_u32_be (read_u32_be t)) count_bytes
      ∙ write_u32_be-read_u32_be _ (drop 8 bytes) length-field (All-slice IsByte 4 4 bytes b)

  target_bytes : append_hashes (extract_bomb_targets bytes) ≡ drop 8 bytes
  unfolding count extract_bomb_targets
  target_bytes =
      append-bomb_targets_loop bytes count 0
      ∙ take_all (count * 32) (drop 8 bytes) (omega (arith, length-drop 8 bytes, size_of))

  length-extract : length (extract_bomb_targets bytes) ≡ count
  unfolding count extract_bomb_targets
  length-extract = length-bomb_targets_loop bytes count 0

  reassembled :
      bomb_magic ++ (write_u32_be count ++ append_hashes (extract_bomb_targets bytes)) ≡ bytes
  reassembled =
      rw (field_bytes, target_bytes, ← count_bytes)
        (sym (has_magic→append bomb_magic bytes (is_bomb_elim bytes ok).0))

-- A payload of bytes that is accepted is the one that is printed from its targets.
pub make-extract_bomb_targets :
    (bytes : List ℕ)
    → AreBytes bytes
    → is_bomb bytes ≡ true
    → make_bomb_data (extract_bomb_targets bytes) ≡ some bytes
unfolding make_bomb_data
make-extract_bomb_targets bytes b ok =
    let few : count bytes b ok < 2 ^ 32 = count-lt bytes b ok in
    rw
      (
        length-extract bytes b ok,
        le→ltb (2 ^ 32 - 1) (count bytes b ok) (omega arith),
        mod-eq_of_lt few,
      )
      (ap some (reassembled bytes b ok))
