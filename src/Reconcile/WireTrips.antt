-- ===== src/Reconcile/WireTrips.antt =====
-- Round trips of the messages of sync/reconciliation.cpp.
use mathlib.Core.Path.{subst, ap₂}
use native.Mathlib.Nat.{mod-eq_of_lt}
use chromatin_protocol.Prelude.{
  ℕ, zero, suc, ◌+◌, ◌*◌, ◌%◌, ◌^◌, ◌≤◌, ◌<◌, ◌≡◌, refl, ap, ◌∙◌, arith, List, [], ◌∷◌, ◌++◌,
  append_assoc, append-nil, some, le→ltb, length, get_or, drop, At, At-start, At-slice, At-next,
  At-room,
}
use chromatin_protocol.Endian.{write_u32_be, read_u32_be, checked_mul, checked_add, size_mod}
use chromatin_protocol.Endian.Words.{length-write_u32_be, read_u32_be-At}
use chromatin_protocol.Endian.Sizes.{checked_add_exact, checked_mul_exact}
use chromatin_protocol.Codec.{append_hashes}
use chromatin_protocol.Codec.Bomb.{AreHashes, length-append_hashes}
use chromatin_protocol.Reconcile.Wire.{
  reconcile_version, ReconcileInit, encode_reconcile_init, decode_reconcile_init, read_hashes,
  encode_reconcile_items, decode_reconcile_items,
}

pub get_or-drop : (n : ℕ) (xs : List ℕ) (d : ℕ) → get_or xs n d ≡ get_or (drop n xs) 0 d
get_or-drop zero xs d = refl
get_or-drop (suc n) [] d = refl
get_or-drop (suc n) (x ∷ xs) d = get_or-drop n xs d

pub get_or-At :
    (payload : List ℕ) (offset x : ℕ) (rest : List ℕ) (d : ℕ)
    → At payload offset (x ∷ rest)
    → get_or payload offset d ≡ x
get_or-At payload offset x rest d at = get_or-drop offset payload d ∙ rw (at.rest_at) refl

pub read_hashes-At :
    (payload : List ℕ) (hs : List (List ℕ)) (offset : ℕ) (rest : List ℕ)
    → AreHashes hs
    → At payload offset (append_hashes hs ++ rest)
    → read_hashes payload (length hs) offset ≡ hs
unfolding read_hashes append_hashes
read_hashes-At payload [] offset rest h at = refl
read_hashes-At payload (x ∷ hs) offset rest h at =
    let here : At payload offset (x ++ (append_hashes hs ++ rest)) =
      subst (At payload offset) (append_assoc x (append_hashes hs) rest) at in
    ap₂ (λ (y : List ℕ) (ys : List (List ℕ)). y ∷ ys)
      (At-slice payload offset 32 x (append_hashes hs ++ rest) here h.0)
      (read_hashes-At payload hs (offset + 32) rest h.1
        (At-next payload offset 32 x (append_hashes hs ++ rest) here h.0))

-- The overflow checks of the decoders pass where the items are within the payload.
pub checked-items :
    (count offset size : ℕ)
    → count < 2 ^ 32
    → offset + count * 32 ≤ size
    → size < size_mod
    → (checked_mul count 32 ≡ some (count * 32))
      × (checked_add offset (count * 32) ≡ some (offset + count * 32))
checked-items count offset size few room fits = (
  ground (arith, checked_mul_exact count 32),
  ground (arith, checked_add_exact offset (count * 32)),
)

-- An init message of this version, with fields of their sizes, is read back.
pub decode-encode_reconcile_init :
    (init : ReconcileInit)
    → init.version ≡ reconcile_version
    → length init.namespace_id ≡ 32
    → init.count < 2 ^ 32
    → length init.fingerprint ≡ 32
    → decode_reconcile_init (encode_reconcile_init init) ≡ some init
unfolding decode_reconcile_init encode_reconcile_init
decode-encode_reconcile_init init v n c f =
    let payload : List ℕ =
      init.version ∷ (init.namespace_id ++ (write_u32_be init.count ++ init.fingerprint)) in
    let at_ns : At payload 1 (init.namespace_id ++ (write_u32_be init.count ++ init.fingerprint)) =
      record { rest_at = refl; room = omega arith } in
    let at_count : At payload 33 (write_u32_be init.count ++ init.fingerprint) =
      At-next payload 1 32 init.namespace_id _ at_ns n in
    let at_fp : At payload 37 (init.fingerprint ++ []) =
      rw append-nil
        (At-next payload 33 4 _ init.fingerprint at_count (length-write_u32_be init.count)) in
    let size : 69 ≤ length payload = At-room payload 37 32 init.fingerprint [] at_fp f in
    rw (le→ltb (length payload) 69 size, v)
      (ap some (λ i. record {
        version = reconcile_version;
        namespace_id = At-slice payload 1 32 init.namespace_id _ at_ns n i;
        count = read_u32_be-At payload 33 init.count init.fingerprint at_count c i;
        fingerprint = At-slice payload 37 32 init.fingerprint [] at_fp f i;
      }))

-- Fewer than 2^32 hashes of 32 bytes for a namespace of 32, in a payload of less than 2^64 bytes, are
-- read back.
pub decode-encode_reconcile_items :
    (namespace_id : List ℕ) (items : List (List ℕ))
    → length namespace_id ≡ 32
    → AreHashes items
    → length items < 2 ^ 32
    → length (encode_reconcile_items namespace_id items) < size_mod
    → decode_reconcile_items (encode_reconcile_items namespace_id items)
      ≡ some (record { namespace_id = namespace_id; items = items })
unfolding decode_reconcile_items encode_reconcile_items
decode-encode_reconcile_items ns items n h few fits =
    let n32 = length items % 2 ^ 32 in
    let payload : List ℕ = ns ++ (write_u32_be n32 ++ append_hashes items) in
    let at_count : At payload 32 (write_u32_be n32 ++ append_hashes items) =
      At-next payload 0 32 ns _ (At-start payload) n in
    let at_items : At payload 36 (append_hashes items ++ []) =
      rw append-nil
        (At-next payload 32 4 _ (append_hashes items) at_count (length-write_u32_be n32)) in
    let counted : read_u32_be (drop 32 payload) ≡ length items =
      read_u32_be-At payload 32 n32 (append_hashes items) at_count (omega arith)
      ∙ mod-eq_of_lt few in
    let room : 36 + length items * 32 ≤ length payload =
      At-room payload 36 (length items * 32) (append_hashes items) [] at_items
        (length-append_hashes items h) in
    let (mul, add) = checked-items (length items) 36 (length payload) few room fits in
    rw (counted, mul, le→ltb (length payload) 36 (omega (arith, room)))
      (rw (add, le→ltb (length payload) (36 + length items * 32) room)
        (ap some (λ i. record {
          namespace_id = At-slice payload 0 32 ns _ (At-start payload) n i;
          items = read_hashes-At payload items 36 [] h at_items i;
        })))
