-- ===== src/Reconcile/Runs.antt =====
-- sync/reconciliation.cpp on concrete lists.
use chromatin_protocol.Prelude.{
  ℕ, zero, suc, ◌+◌, ◌≡◌, refl, arith, List, [], ◌∷◌, Bool, true, ◌&&◌, not, none, some, is_some,
  length, replicate, All, ◌==◌, bytes_eq,
}
use chromatin_protocol.Endian.{write_u32_be}
use chromatin_protocol.External.Mdbx.{bytes_lt}
use chromatin_protocol.Codec.{append_hashes}
use chromatin_protocol.Reconcile.{
  RangeEntry, max_hash, xor_bytes, xor_items, xor_fingerprint, bound_index, range_indices,
  skip_entry, item_entry, fingerprint_entry, list_items, split_range, answer_fingerprint,
  answer_items, answer_as, process_from, process_ranges,
}
use chromatin_protocol.Reconcile.Order.{IsAscending, between, contains}
use chromatin_protocol.External.Sorted.{bytes_lt_trans}
use chromatin_protocol.Reconcile.Local.{
  set_insert, insert_all, items_of, collect, exchange, missing_in, reconcile_local,
}
use chromatin_protocol.Reconcile.Honest.{AreReconcilable}
use chromatin_protocol.Reconcile.Sets.{AreBelowMax}
use chromatin_protocol.Reconcile.Correct.{reconcile_local_exact}
use chromatin_protocol.Reconcile.Safe.{process_ranges-IsDefined, inverted_bounds_undefined}
use chromatin_protocol.Reconcile.Wire.{
  ReconcileInit, encode_mode_data, encode_entries, encode_reconcile_ranges, decode_reconcile_ranges,
}
use chromatin_protocol.Reconcile.WireRanges.{decode-encode_reconcile_ranges}

abbrev hash_of : ℕ → List ℕ
hash_of n = n ∷ replicate 31 1

-- `count` hashes from `hash_of n` on.
abbrev hashes_from : ℕ → ℕ → List (List ℕ)
hashes_from n zero = []
hashes_from n (suc count) = hash_of n ∷ hashes_from (n + 1) count

abbrev twenty : List (List ℕ)
twenty = hashes_from 1 20

abbrev is_chain : List (List ℕ) → Bool
is_chain [] = true
is_chain (x ∷ []) = true
is_chain (x ∷ y ∷ ys) = let rest = is_chain (y ∷ ys) in bytes_lt x y && rest

All-weaken :
    (x y : List ℕ) (ys : List (List ℕ))
    → bytes_lt x y ≡ true
    → All (λ z. bytes_lt y z ≡ true) ys
    → All (λ z. bytes_lt x z ≡ true) ys
All-weaken x y [] h a = tt
All-weaken x y (z ∷ ys) h a = (bytes_lt_trans x y z h a.0, All-weaken x y ys h a.1)

is_chain-IsAscending : (xs : List (List ℕ)) → is_chain xs ≡ true → IsAscending xs
is_chain-IsAscending [] h = tt
is_chain-IsAscending (x ∷ []) h = (tt, tt)
is_chain-IsAscending (x ∷ y ∷ ys) h =
    let rest = is_chain-IsAscending (y ∷ ys) (ground arith) in
    let first : bytes_lt x y ≡ true = ground arith in
    ((first, All-weaken x y ys first rest.0), rest)

abbrev are_below : List (List ℕ) → Bool
are_below [] = true
are_below (x ∷ xs) = let rest = are_below xs in length x == 32 && (bytes_lt x max_hash && rest)

are_below-AreBelowMax : (xs : List (List ℕ)) → are_below xs ≡ true → AreBelowMax xs
are_below-AreBelowMax [] h = tt
are_below-AreBelowMax (x ∷ xs) h =
    ((ground arith, ground arith), are_below-AreBelowMax xs (ground arith))

twenty-IsAscending : IsAscending twenty
unfolding bytes_lt
twenty-IsAscending = is_chain-IsAscending twenty refl

twenty-AreBelowMax : AreBelowMax twenty
unfolding bytes_lt
twenty-AreBelowMax = are_below-AreBelowMax twenty refl

no_length : (xs : List (List ℕ)) → 0 ≡ length xs → [] ≡ xs
no_length [] h = refl
no_length (x ∷ xs) h = absurd (omega arith)

nothing-twenty : AreReconcilable [] twenty
unfolding bound_index
nothing-twenty = record {
  ascending_p = tt;
  ascending_q = twenty-IsAscending;
  fits_p = omega arith;
  fits_q = omega arith;
  no_collision = λ lo hi c f. no_length (between twenty lo hi) c;
}

-- Twenty hashes are too many for one message: the range is split.
all_twenty : reconcile_local [] twenty ≡ some (twenty, [])
unfolding bytes_lt bytes_eq xor_bytes xor_items xor_fingerprint bound_index range_indices list_items
    split_range answer_fingerprint answer_items answer_as process_from process_ranges contains
    set_insert insert_all items_of collect exchange missing_in reconcile_local
all_twenty = refl

reconcile_local_exact_example :
    (d : List (List ℕ) × List (List ℕ)) × (reconcile_local [] twenty ≡ some d)
    × ((h : List ℕ) → contains h d.0 ≡ (contains h twenty && not (contains h [])))
    × ((h : List ℕ) → contains h d.1 ≡ (contains h [] && not (contains h twenty)))
reconcile_local_exact_example = reconcile_local_exact [] twenty nothing-twenty tt twenty-AreBelowMax

abbrev message : List RangeEntry
message =
    skip_entry (hash_of 5)
    ∷ item_entry (hash_of 9) 1 (hash_of 7 ∷ [])
    ∷ fingerprint_entry max_hash 3 (hash_of 2)
    ∷ []

process_ranges-IsDefined_example : is_some (process_ranges twenty message) ≡ true
unfolding bytes_lt
process_ranges-IsDefined_example =
    process_ranges-IsDefined twenty message (omega arith) (refl, (refl, (refl, tt)))

inverted_bounds_undefined_example :
    (process_ranges twenty (skip_entry (hash_of 9) ∷ item_entry (hash_of 5) 0 [] ∷ []) ≡ none)
    × (process_ranges twenty
          (skip_entry (hash_of 9) ∷ fingerprint_entry (hash_of 5) 0 (hash_of 2) ∷ [])
        ≡ none)
unfolding bytes_lt bound_index bytes_eq
inverted_bounds_undefined_example =
    inverted_bounds_undefined twenty (hash_of 9) (hash_of 5) 0 [] (hash_of 2) (omega arith)
      (omega arith) refl

abbrev init : ReconcileInit
init = record { version = 1; namespace_id = hash_of 3; count = 20; fingerprint = hash_of 4 }

decode-encode_reconcile_ranges_example :
    decode_reconcile_ranges (encode_reconcile_ranges (hash_of 3) message)
    ≡ some (record { namespace_id = hash_of 3; ranges = message })
unfolding encode_reconcile_ranges encode_entries encode_mode_data write_u32_be append_hashes
decode-encode_reconcile_ranges_example =
    decode-encode_reconcile_ranges (hash_of 3) message refl
      (
        (refl, refl),
        (
          (refl, (refl, (omega arith, (refl, (refl, tt))))),
          ((refl, (refl, (omega arith, refl))), tt),
        ),
      )
      (omega arith) (omega arith)
