-- ===== src/Reconcile/Safe.antt =====
-- When the answer to a message is defined.
use chromatin_protocol.Prelude.{
  ℕ, ◌-◌, ◌^◌, ◌<◌, ◌≡◌, refl, arith, List, [], ◌∷◌, true, false, Option, none, is_some, length,
  bytes_eq,
}
use chromatin_protocol.Reconcile.{
  RangeMode, RangeEntry, ReconcileResult, min_hash, bound_index, range_indices, xor_items,
  xor_fingerprint, skip_entry, item_entry, fingerprint_entry, list_items, split_range,
  answer_fingerprint, answer_items, answer_as, process_from, process_ranges,
}
use chromatin_protocol.Reconcile.Order.{Le, bound_index-le, bound_index_mono}

-- No upper bound is below the one before.
abbrev pub BoundsAscend : List ℕ → List RangeEntry → Type 0
BoundsAscend lo [] = Unit {0}
BoundsAscend lo (range ∷ ranges) = Le lo range.upper_bound × BoundsAscend range.upper_bound ranges

abbrev IsDefined : Option ReconcileResult → Type 0
IsDefined found = is_some found ≡ true

module _ (sorted : List (List ℕ)) (fits : length sorted < 2 ^ 64) where
  answer-IsDefined :
      (mode : RangeMode) (lo : List ℕ) (range : RangeEntry)
      → Le lo range.upper_bound
      → IsDefined (answer_as mode sorted lo range)
  unfolding answer_as answer_items answer_fingerprint range_indices list_items split_range
  answer-IsDefined RangeMode.skip lo range up = refl
  answer-IsDefined RangeMode.item_list lo range up =
      ground (arith, bound_index_mono sorted lo range.upper_bound up)
  answer-IsDefined RangeMode.fingerprint lo range up = ground (
    arith,
    bound_index_mono sorted lo range.upper_bound up,
    bound_index-le sorted range.upper_bound,
  )

  process-IsDefined :
      (lo : List ℕ) (ranges : List RangeEntry)
      → BoundsAscend lo ranges
      → IsDefined (process_from sorted lo ranges)
  unfolding process_from
  process-IsDefined lo [] h = refl
  process-IsDefined lo (range ∷ ranges) (up, h) =
      ground (
        arith,
        answer-IsDefined range.mode lo range up,
        process-IsDefined range.upper_bound ranges h,
      )

-- Received ranges whose upper bounds never go down are answered without inverted iterators and
-- without an index past the end, whatever their modes, counts, fingerprints and items are.
pub process_ranges-IsDefined :
    (our_sorted : List (List ℕ)) (received_ranges : List RangeEntry)
    → length our_sorted < 2 ^ 64
    → BoundsAscend min_hash received_ranges
    → is_some (process_ranges our_sorted received_ranges) ≡ true
unfolding process_ranges
process_ranges-IsDefined our_sorted received_ranges fits h =
    process-IsDefined our_sorted fits min_hash received_ranges h

empty-fingerprint : (xs : List (List ℕ)) (b e : ℕ) → e < b → xor_fingerprint xs b e ≡ min_hash
unfolding xor_fingerprint xor_items
empty-fingerprint xs b e h = rw (none_between b e h) refl
  where
    none_between : (b e : ℕ) → e < b → e - b ≡ 0
    none_between b e h = omega arith

inverted-items :
    (xs : List (List ℕ)) (high low : List ℕ) (count : ℕ) (items : List (List ℕ))
    → bound_index xs low < bound_index xs high
    → answer_items xs high (item_entry low count items) ≡ none
unfolding answer_items range_indices list_items
inverted-items xs high low count items h = ground arith

inverted-fingerprint :
    (xs : List (List ℕ)) (high low : List ℕ) (count : ℕ) (fp : List ℕ)
    → length xs < 2 ^ 31
    → bound_index xs low < bound_index xs high
    → bytes_eq min_hash fp ≡ false
    → answer_fingerprint xs high (fingerprint_entry low count fp) ≡ none
unfolding answer_fingerprint range_indices list_items split_range
inverted-fingerprint xs high low count fp small h other =
    rw (empty-fingerprint xs (bound_index xs high) (bound_index xs low) h, other)
      (ground (arith, bound_index-le xs high))

-- But the bounds come from the peer, and nothing tests them. Where a skipped range up to `high` is
-- followed by a range down to `low`, with elements between the two in a list of fewer than 2^31, the
-- answer is undefined, be the second range an item list or a fingerprint of any count and value but
-- the one that matches by chance.
pub inverted_bounds_undefined :
    (our_sorted : List (List ℕ)) (high low : List ℕ) (count : ℕ) (items : List (List ℕ))
    (fp : List ℕ)
    → length our_sorted < 2 ^ 31
    → bound_index our_sorted low < bound_index our_sorted high
    → bytes_eq min_hash fp ≡ false
    → (process_ranges our_sorted (skip_entry high ∷ item_entry low count items ∷ []) ≡ none)
      × (process_ranges our_sorted (skip_entry high ∷ fingerprint_entry low count fp ∷ []) ≡ none)
unfolding process_ranges process_from answer_as
inverted_bounds_undefined our_sorted high low count items fp small inverted other = (
  rw (inverted-items our_sorted high low count items inverted) refl,
  rw (inverted-fingerprint our_sorted high low count fp small inverted other) refl,
)
