-- ===== src/Reconcile.antt =====
-- sync/reconciliation.h and sync/reconciliation.cpp: the algorithm that finds the difference of two
-- sorted hash lists by comparing fingerprints of ranges. `Wire` has the messages; the proofs are in
-- the other children.
pub mod Order
pub mod Local
pub mod Honest
pub mod Answer
pub mod Rounds
pub mod Sets
pub mod Turns
pub mod Ending
pub mod Correct
pub mod Safe
pub mod Wire
pub mod WireTrips
pub mod WireRanges
mod Runs
use Prim.Native.Nat.{bit_xor}
use chromatin_protocol.Prelude.{
  ℕ, zero, suc, ◌+◌, ◌-◌, ◌/◌, ◌%◌, ◌^◌, List, [], ◌∷◌, ◌++◌, Bool, true, false, ◌&&◌, Option, none,
  some, ◌>>=◌, ltb, leb, ◌==◌, if◌then◌else◌, length, get_or, slice, replicate, bytes_eq,
}
use chromatin_protocol.External.Mdbx.{bytes_lt}

pub data RangeMode : Type 0 where
  skip fingerprint item_list : RangeMode

pub record RangeEntry : Type 0 where
  pub upper_bound : List ℕ
  pub mode : RangeMode
  pub count : ℕ
  pub fingerprint : List ℕ
  pub items : List (List ℕ)

pub record ReconcileResult : Type 0 where
  pub response_ranges : List RangeEntry
  pub have_items : List (List ℕ)
  pub complete : Bool

abbrev pub split_threshold : ℕ
split_threshold = 16

abbrev pub max_reconcile_rounds : ℕ
max_reconcile_rounds = 64

abbrev pub min_hash : List ℕ
min_hash = replicate 32 0

abbrev pub max_hash : List ℕ
max_hash = replicate 32 0xFF

-- `fp[b] ^= sorted[i][b]`
unfoldable pub xor_bytes : List ℕ → List ℕ → List ℕ
xor_bytes [] ys = []
xor_bytes (x ∷ xs) [] = x ∷ xs
xor_bytes (x ∷ xs) (y ∷ ys) = bit_xor x y ∷ xor_bytes xs ys

unfoldable pub xor_items : List ℕ → List (List ℕ) → List ℕ
xor_items fp [] = fp
xor_items fp (h ∷ hs) = xor_items (xor_bytes fp h) hs

-- The loop does nothing where `end` is below `begin`.
unfoldable pub xor_fingerprint : List (List ℕ) → ℕ → ℕ → List ℕ
xor_fingerprint sorted begin end = xor_items min_hash (slice begin (end - begin) sorted)

-- `std::lower_bound` on a sorted vector, as an index: how many elements are below `bound`.
unfoldable pub bound_index : List (List ℕ) → List ℕ → ℕ
bound_index [] bound = 0
bound_index (x ∷ xs) bound =
    let rest = bound_index xs bound in if bytes_lt x bound then suc rest else 0

unfoldable pub range_indices : List (List ℕ) → List ℕ → List ℕ → ℕ × ℕ
range_indices sorted lower_bound upper_bound =
    (bound_index sorted lower_bound, bound_index sorted upper_bound)

-- `e - b` on `size_t`, which wraps where the bounds are inverted.
abbrev pub index_gap : ℕ → ℕ → ℕ
index_gap b e = (e + 2 ^ 64 - b) % 2 ^ 64

unfoldable pub count_in_range : List (List ℕ) → List ℕ → List ℕ → ℕ
count_in_range sorted lower_bound upper_bound =
    let (b, e) = range_indices sorted lower_bound upper_bound in index_gap b e

abbrev pub skip_entry : List ℕ → RangeEntry
skip_entry upper_bound = record {
  upper_bound = upper_bound;
  mode = RangeMode.skip;
  count = 0;
  fingerprint = min_hash;
  items = [];
}

abbrev pub item_entry : List ℕ → ℕ → List (List ℕ) → RangeEntry
item_entry upper_bound count items = record {
  upper_bound = upper_bound;
  mode = RangeMode.item_list;
  count = count;
  fingerprint = min_hash;
  items = items;
}

abbrev pub fingerprint_entry : List ℕ → ℕ → List ℕ → RangeEntry
fingerprint_entry upper_bound count fp = record {
  upper_bound = upper_bound;
  mode = RangeMode.fingerprint;
  count = count;
  fingerprint = fp;
  items = [];
}

-- `items.assign` of the elements from `b` to `e`; inverted iterators are no range (`none`).
unfoldable pub list_items : List (List ℕ) → List ℕ → ℕ → ℕ → Option RangeEntry
list_items sorted upper_bound b e =
    if ltb e b
    then none
    else some (item_entry upper_bound (index_gap b e % 2 ^ 32) (slice b (e - b) sorted))

-- The two halves; `our_sorted[mid]` must be an element.
unfoldable pub split_range : List (List ℕ) → List ℕ → ℕ → ℕ → Option (List RangeEntry)
split_range sorted upper_bound b e =
    let mid = (b + index_gap b e / 2) % 2 ^ 64 in
    if ltb mid (length sorted)
    then some (
        fingerprint_entry (get_or sorted mid min_hash) (index_gap b mid % 2 ^ 32)
          (xor_fingerprint sorted b mid)
        ∷ fingerprint_entry upper_bound (index_gap mid e % 2 ^ 32) (xor_fingerprint sorted mid e)
        ∷ [])
    else none

-- One received range. `none` stands for what the source leaves undefined.
unfoldable pub answer_fingerprint : List (List ℕ) → List ℕ → RangeEntry → Option ReconcileResult
answer_fingerprint sorted lower_bound range =
    let (b, e) = range_indices sorted lower_bound range.upper_bound in
    let our_count = index_gap b e % 2 ^ 32 in
    if bytes_eq (xor_fingerprint sorted b e) range.fingerprint && our_count == range.count
    then some (record {
      response_ranges = skip_entry range.upper_bound ∷ [];
      have_items = [];
      complete = true;
    })
    else if leb our_count split_threshold
    then (list_items sorted range.upper_bound b e >>= λ entry.
        some (record { response_ranges = entry ∷ []; have_items = []; complete = false }))
    else (split_range sorted range.upper_bound b e >>= λ halves.
        some (record { response_ranges = halves; have_items = []; complete = false }))

unfoldable pub answer_items : List (List ℕ) → List ℕ → RangeEntry → Option ReconcileResult
answer_items sorted lower_bound range =
    let (b, e) = range_indices sorted lower_bound range.upper_bound in
    list_items sorted range.upper_bound b e >>= λ entry.
    some (record { response_ranges = entry ∷ []; have_items = range.items; complete = true })

unfoldable pub answer_as : RangeMode → List (List ℕ) → List ℕ → RangeEntry → Option ReconcileResult
answer_as RangeMode.skip sorted lower_bound range = some (record {
  response_ranges = skip_entry range.upper_bound ∷ [];
  have_items = [];
  complete = true;
})
answer_as RangeMode.fingerprint sorted lower_bound range =
    answer_fingerprint sorted lower_bound range
answer_as RangeMode.item_list sorted lower_bound range = answer_items sorted lower_bound range

-- The loop of `process_ranges`, with the lower bound that it carries.
unfoldable pub process_from : List (List ℕ) → List ℕ → List RangeEntry → Option ReconcileResult
process_from sorted lower_bound [] =
    some (record { response_ranges = []; have_items = []; complete = true })
process_from sorted lower_bound (range ∷ ranges) = do
  answer ← answer_as range.mode sorted lower_bound range
  rest ← process_from sorted range.upper_bound ranges
  some (record {
    response_ranges = answer.response_ranges ++ rest.response_ranges;
    have_items = answer.have_items ++ rest.have_items;
    complete = answer.complete && rest.complete;
  })

unfoldable pub process_ranges : List (List ℕ) → List RangeEntry → Option ReconcileResult
process_ranges our_sorted received_ranges = process_from our_sorted min_hash received_ranges
