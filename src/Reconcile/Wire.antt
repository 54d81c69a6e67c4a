-- ===== src/Reconcile/Wire.antt =====
-- The messages of sync/reconciliation.cpp. A payload is shorter than 2^63 bytes, so that `offset + 36`
-- does not wrap where the offset is within it.
use chromatin_protocol.Prelude.{
  ℕ, zero, suc, ◌+◌, ◌*◌, ◌%◌, ◌^◌, List, [], ◌∷◌, ◌++◌, not, Option, none, some, ◌>>=◌, ltb, ◌==◌,
  if◌then◌else◌, length, get_or, drop, slice,
}
use chromatin_protocol.Endian.{write_u32_be, read_u32_be, checked_mul, checked_add}
use chromatin_protocol.Codec.{append_hashes}
use chromatin_protocol.Reconcile.{RangeMode, RangeEntry, skip_entry, item_entry, fingerprint_entry}

abbrev pub reconcile_version : ℕ
reconcile_version = 0x01

pub record ReconcileInit : Type 0 where
  pub version : ℕ
  pub namespace_id : List ℕ
  pub count : ℕ
  pub fingerprint : List ℕ

pub record DecodedRanges : Type 0 where
  pub namespace_id : List ℕ
  pub ranges : List RangeEntry

pub record DecodedItems : Type 0 where
  pub namespace_id : List ℕ
  pub items : List (List ℕ)

unfoldable pub encode_reconcile_init : ReconcileInit → List ℕ
encode_reconcile_init init =
    init.version ∷ (init.namespace_id ++ (write_u32_be init.count ++ init.fingerprint))

unfoldable pub decode_reconcile_init : List ℕ → Option ReconcileInit
decode_reconcile_init payload =
    if ltb (length payload) (1 + 32 + 4 + 32)
    then none
    else if not (get_or payload 0 0 == reconcile_version)
    then none
    else some (record {
      version = get_or payload 0 0;
      namespace_id = slice 1 32 payload;
      count = read_u32_be (drop 33 payload);
      fingerprint = slice 37 32 payload;
    })

abbrev pub mode_byte : RangeMode → ℕ
mode_byte RangeMode.skip = 0
mode_byte RangeMode.fingerprint = 1
mode_byte RangeMode.item_list = 2

-- Any other byte is refused by the `default` of the decoder.
unfoldable pub mode_of : ℕ → Option RangeMode
mode_of b =
    if b == 0
    then some RangeMode.skip
    else if b == 1
    then some RangeMode.fingerprint
    else if b == 2
    then some RangeMode.item_list
    else none

unfoldable pub encode_mode_data : RangeMode → RangeEntry → List ℕ
encode_mode_data RangeMode.skip range = []
encode_mode_data RangeMode.fingerprint range = write_u32_be range.count ++ range.fingerprint
encode_mode_data RangeMode.item_list range = write_u32_be range.count ++ append_hashes range.items

unfoldable pub encode_entries : List RangeEntry → List ℕ
encode_entries [] = []
encode_entries (range ∷ ranges) =
    range.upper_bound
    ++ (mode_byte range.mode ∷ (encode_mode_data range.mode range ++ encode_entries ranges))

unfoldable pub encode_reconcile_ranges : List ℕ → List RangeEntry → List ℕ
encode_reconcile_ranges namespace_id ranges =
    namespace_id ++ (write_u32_be (length ranges % 2 ^ 32) ++ encode_entries ranges)

-- The loop that copies `left` hashes from `offset` on.
unfoldable pub read_hashes : List ℕ → ℕ → ℕ → List (List ℕ)
read_hashes payload zero offset = []
read_hashes payload (suc left) offset =
    slice offset 32 payload ∷ read_hashes payload left (offset + 32)

unfoldable pub decode_item_list : List ℕ → List ℕ → ℕ → Option (RangeEntry × ℕ)
decode_item_list payload upper_bound offset =
    let count = read_u32_be (drop offset payload) in
    if ltb (length payload) (offset + 4)
    then none
    else (checked_mul count 32 >>= λ items_size.
        checked_add (offset + 4) items_size >>= λ items_end.
        if ltb (length payload) items_end
        then none
        else some (
          item_entry upper_bound count (read_hashes payload count (offset + 4)),
          offset + 4 + count * 32,
        ))

-- The `switch`: the entry and the offset behind it.
unfoldable pub decode_mode_data : List ℕ → List ℕ → ℕ → RangeMode → Option (RangeEntry × ℕ)
decode_mode_data payload upper_bound offset RangeMode.skip = some (skip_entry upper_bound, offset)
decode_mode_data payload upper_bound offset RangeMode.fingerprint =
    if ltb (length payload) (offset + 4 + 32)
    then none
    else some (
      fingerprint_entry upper_bound (read_u32_be (drop offset payload))
          (slice (offset + 4) 32 payload),
      offset + 4 + 32,
    )
decode_mode_data payload upper_bound offset RangeMode.item_list =
    decode_item_list payload upper_bound offset

unfoldable pub decode_entry : List ℕ → ℕ → Option (RangeEntry × ℕ)
decode_entry payload offset =
    if ltb (length payload) (offset + 33)
    then none
    else (mode_of (get_or payload (offset + 32) 0) >>= λ mode.
        decode_mode_data payload (slice offset 32 payload) (offset + 32 + 1) mode)

unfoldable pub decode_entries : List ℕ → ℕ → ℕ → Option (List RangeEntry)
decode_entries payload zero offset = some []
decode_entries payload (suc left) offset = do
  p ← decode_entry payload offset
  ranges ← decode_entries payload left p.1
  some (p.0 ∷ ranges)

unfoldable pub decode_reconcile_ranges : List ℕ → Option DecodedRanges
decode_reconcile_ranges payload =
    if ltb (length payload) (32 + 4)
    then none
    else (decode_entries payload (read_u32_be (drop 32 payload)) (32 + 4) >>= λ ranges.
        some (record { namespace_id = slice 0 32 payload; ranges = ranges }))

unfoldable pub encode_reconcile_items : List ℕ → List (List ℕ) → List ℕ
encode_reconcile_items namespace_id items =
    namespace_id ++ (write_u32_be (length items % 2 ^ 32) ++ append_hashes items)

unfoldable pub decode_reconcile_items : List ℕ → Option DecodedItems
decode_reconcile_items payload =
    let count = read_u32_be (drop 32 payload) in
    if ltb (length payload) (32 + 4)
    then none
    else (checked_mul count 32 >>= λ items_size. checked_add (32 + 4) items_size >>= λ total.
        if ltb (length payload) total
        then none
        else some (record {
          namespace_id = slice 0 32 payload;
          items = read_hashes payload count (32 + 4);
        }))
