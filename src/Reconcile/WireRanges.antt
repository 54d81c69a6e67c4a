-- ===== src/Reconcile/WireRanges.antt =====
-- The round trip of a message of ranges.
use mathlib.Core.Path.{subst}
use native.Mathlib.Nat.{mod-eq_of_lt}
use chromatin_protocol.Prelude.{
  ℕ, ◌+◌, ◌*◌, ◌%◌, ◌^◌, ◌≤◌, ◌<◌, ◌≡◌, refl, sym, ap, ◌∙◌, arith, List, [], ◌∷◌, ◌++◌,
  append_assoc, Option, some, le→ltb, length, drop, At, At-start, At-slice, At-next, At-room, All,
}
use chromatin_protocol.Endian.{write_u32_be, read_u32_be, size_mod}
use chromatin_protocol.Endian.Words.{length-write_u32_be, read_u32_be-At}
use chromatin_protocol.Codec.{append_hashes}
use chromatin_protocol.Codec.Bomb.{AreHashes, length-append_hashes}
use chromatin_protocol.Reconcile.{RangeMode, RangeEntry, skip_entry, item_entry, fingerprint_entry}
use chromatin_protocol.Reconcile.Wire.{
  mode_byte, mode_of, encode_mode_data, encode_entries, encode_reconcile_ranges, read_hashes,
  decode_item_list, decode_mode_data, decode_entry, decode_entries, decode_reconcile_ranges,
}
use chromatin_protocol.Reconcile.WireTrips.{get_or-At, read_hashes-At, checked-items}

-- What an entry of each mode has on the wire: nothing, a count and a fingerprint, or its items.
abbrev pub IsWireMode : RangeMode → RangeEntry → Type 0
IsWireMode RangeMode.skip range = range ≡ skip_entry range.upper_bound
IsWireMode RangeMode.fingerprint range =
    (range ≡ fingerprint_entry range.upper_bound range.count range.fingerprint)
    × ((range.count < 2 ^ 32) × (length range.fingerprint ≡ 32))
IsWireMode RangeMode.item_list range =
    (range ≡ item_entry range.upper_bound range.count range.items)
    × ((range.count < 2 ^ 32) × ((length range.items ≡ range.count) × AreHashes range.items))

abbrev pub IsWireEntry : RangeEntry → Type 0
IsWireEntry range = (length range.upper_bound ≡ 32) × IsWireMode range.mode range

-- What a decoder gives at an offset: the entry, and the offset of what follows.
abbrev Decodes : List ℕ → List ℕ → RangeEntry → Option (RangeEntry × ℕ) → Type 0
Decodes payload rest range found =
    (next : ℕ) × ((found ≡ some (range, next)) × At payload next rest)

module _ (payload rest : List ℕ) (range : RangeEntry) (offset : ℕ)
    (fits : length payload < size_mod) where
  fingerprint-Decodes :
      IsWireMode RangeMode.fingerprint range
      → At payload offset ((write_u32_be range.count ++ range.fingerprint) ++ rest)
      → Decodes payload rest range
          (decode_mode_data payload range.upper_bound offset RangeMode.fingerprint)
  unfolding decode_mode_data
  fingerprint-Decodes (e, (c, f)) at =
      let here : At payload offset (write_u32_be range.count ++ (range.fingerprint ++ rest)) =
        subst (At payload offset) (append_assoc (write_u32_be range.count) range.fingerprint rest)
          at in
      let at_fp : At payload (offset + 4) (range.fingerprint ++ rest) =
        At-next payload offset 4 _ (range.fingerprint ++ rest) here
          (length-write_u32_be range.count) in
      let room : offset + 4 + 32 ≤ length payload =
        At-room payload (offset + 4) 32 range.fingerprint rest at_fp f in
      (
        offset + 4 + 32,
        (
          rw
              (
                le→ltb (length payload) (offset + 4 + 32) room,
                read_u32_be-At payload offset range.count (range.fingerprint ++ rest) here c,
                At-slice payload (offset + 4) 32 range.fingerprint rest at_fp f,
              )
              (ap (λ r. some (r, offset + 4 + 32)) (sym e)),
          At-next payload (offset + 4) 32 range.fingerprint rest at_fp f,
        ),
      )

  item_list-Decodes :
      IsWireMode RangeMode.item_list range
      → At payload offset ((write_u32_be range.count ++ append_hashes range.items) ++ rest)
      → Decodes payload rest range
          (decode_mode_data payload range.upper_bound offset RangeMode.item_list)
  unfolding decode_mode_data decode_item_list
  item_list-Decodes (e, (c, (n, h))) at =
      let items = append_hashes range.items in
      let size : length items ≡ range.count * 32 =
        length-append_hashes range.items h ∙ ap (λ k. k * 32) n in
      let here : At payload offset (write_u32_be range.count ++ (items ++ rest)) =
        subst (At payload offset) (append_assoc (write_u32_be range.count) items rest) at in
      let at_items : At payload (offset + 4) (items ++ rest) =
        At-next payload offset 4 _ (items ++ rest) here (length-write_u32_be range.count) in
      let room : offset + 4 + range.count * 32 ≤ length payload =
        At-room payload (offset + 4) (range.count * 32) items rest at_items size in
      let (mul, add) = checked-items range.count (offset + 4) (length payload) c room fits in
      let listed : read_hashes payload range.count (offset + 4) ≡ range.items =
        ap (λ k. read_hashes payload k (offset + 4)) (sym n)
        ∙ read_hashes-At payload range.items (offset + 4) rest h at_items in
      (
        offset + 4 + range.count * 32,
        (
          rw
              (
                read_u32_be-At payload offset range.count (items ++ rest) here c,
                le→ltb (length payload) (offset + 4) (omega (arith, room)),
                mul,
              )
              (rw (add, le→ltb (length payload) (offset + 4 + range.count * 32) room, listed)
                (ap (λ r. some (r, offset + 4 + range.count * 32)) (sym e))),
          At-next payload (offset + 4) (range.count * 32) items rest at_items size,
        ),
      )

  mode-Decodes :
      (mode : RangeMode)
      → IsWireMode mode range
      → At payload offset (encode_mode_data mode range ++ rest)
      → Decodes payload rest range (decode_mode_data payload range.upper_bound offset mode)
  unfolding encode_mode_data
  mode-Decodes RangeMode.skip e at =
      (offset, (unfold decode_mode_data in ap (λ r. some (r, offset)) (sym e), at))
  mode-Decodes RangeMode.fingerprint e at = fingerprint-Decodes e at
  mode-Decodes RangeMode.item_list e at = item_list-Decodes e at

mode_of_byte : (mode : RangeMode) → mode_of (mode_byte mode) ≡ some mode
unfolding mode_of
mode_of_byte RangeMode.skip = refl
mode_of_byte RangeMode.fingerprint = refl
mode_of_byte RangeMode.item_list = refl

module _ (payload : List ℕ) (fits : length payload < size_mod) where
  entry-Decodes :
      (range : RangeEntry) (rest : List ℕ) (offset : ℕ)
      → IsWireEntry range
      → At payload offset (
          range.upper_bound ++ (mode_byte range.mode ∷ (encode_mode_data range.mode range ++ rest)))
      → Decodes payload rest range (decode_entry payload offset)
  unfolding decode_entry
  entry-Decodes range rest offset (u, m) at =
      let tail : List ℕ = encode_mode_data range.mode range ++ rest in
      let at_mode : At payload (offset + 32) (mode_byte range.mode ∷ tail) =
        At-next payload offset 32 range.upper_bound _ at u in
      let at_data : At payload (offset + 32 + 1) tail =
        At-next payload (offset + 32) 1 (mode_byte range.mode ∷ []) tail at_mode refl in
      rw
        (
          le→ltb (length payload) (offset + 33) (omega (arith, at_mode.room)),
          get_or-At payload (offset + 32) (mode_byte range.mode) tail 0 at_mode,
          mode_of_byte range.mode,
          At-slice payload offset 32 range.upper_bound _ at u,
        )
        (mode-Decodes payload rest range (offset + 32 + 1) fits range.mode m at_data)

  entries-decoded :
      (ranges : List RangeEntry) (offset : ℕ)
      → All IsWireEntry ranges
      → At payload offset (encode_entries ranges)
      → decode_entries payload (length ranges) offset ≡ some ranges
  unfolding decode_entries encode_entries
  entries-decoded [] offset h at = refl
  entries-decoded (range ∷ ranges) offset (e, h) at =
      let (next, (found, there)) = entry-Decodes range (encode_entries ranges) offset e at in
      rw found (rw (entries-decoded ranges next h there) refl)

-- Fewer than 2^32 ranges with 32-byte bounds, each with the fields that its mode has on the wire and
-- the defaults elsewhere, for a namespace of 32 bytes, in a payload of less than 2^64 bytes, are read
-- back.
pub decode-encode_reconcile_ranges :
    (namespace_id : List ℕ) (ranges : List RangeEntry)
    → length namespace_id ≡ 32
    → All IsWireEntry ranges
    → length ranges < 2 ^ 32
    → length (encode_reconcile_ranges namespace_id ranges) < size_mod
    → decode_reconcile_ranges (encode_reconcile_ranges namespace_id ranges)
      ≡ some (record { namespace_id = namespace_id; ranges = ranges })
unfolding decode_reconcile_ranges encode_reconcile_ranges
decode-encode_reconcile_ranges ns ranges n h few fits =
    let n32 = length ranges % 2 ^ 32 in
    let payload : List ℕ = ns ++ (write_u32_be n32 ++ encode_entries ranges) in
    let at_count : At payload 32 (write_u32_be n32 ++ encode_entries ranges) =
      At-next payload 0 32 ns _ (At-start payload) n in
    let at_ranges : At payload 36 (encode_entries ranges) =
      At-next payload 32 4 _ (encode_entries ranges) at_count (length-write_u32_be n32) in
    let counted : read_u32_be (drop 32 payload) ≡ length ranges =
      read_u32_be-At payload 32 n32 (encode_entries ranges) at_count (omega arith)
      ∙ mod-eq_of_lt few in
    rw (counted, le→ltb (length payload) 36 (omega (arith, at_ranges.room)))
      (rw (entries-decoded payload fits ranges 36 h at_ranges) (
        ap some (λ i. record {
          namespace_id = At-slice payload 0 32 ns _ (At-start payload) n i;
          ranges = ranges;
        })))
