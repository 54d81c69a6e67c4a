-- ===== src/Reconcile/Answer.antt =====
-- Each answer to honest ranges is honest, and splits what it cannot settle.
use mathlib.Core.List.{append-nil}
use chromatin_protocol.Prelude.{
  ℕ, ◌+◌, ◌-◌, ◌/◌, ◌%◌, ◌^◌, ◌≤◌, ◌<◌, ◌≡◌, refl, sym, ◌∙◌, arith, List, [], ◌∷◌, Bool, true,
  false, ◌&&◌, Option, some, ◌>>=◌, length, get_or, bytes_eq, bytes_eq→eq, Bool-cases, inl, inr,
  leb, ◌==◌, if◌then◌else◌, lt→ltb,
}
use chromatin_protocol.Reconcile.{
  RangeMode, RangeEntry, ReconcileResult, split_threshold, min_hash, xor_items, xor_fingerprint,
  bound_index, range_indices, index_gap, skip_entry, item_entry, fingerprint_entry, list_items,
  split_range, answer_fingerprint, answer_items, answer_as,
}
use chromatin_protocol.Reconcile.Order.{
  Le, bound_index-le, bound_index_mono, get-lt, get-Le, bound_index-get, between, length-between,
  bytes_lt_asymm,
}
use chromatin_protocol.Reconcile.Local.{items_of, items_in}
use chromatin_protocol.Reconcile.Honest.{
  span, AreReconcilable, EntryIsHonest, half, IsAnswer, ordered, inside, list_items-between,
  agree-covered, items-covered,
}

module _ (p q : List (List ℕ)) (w : AreReconcilable p q) (s r : ℕ) (lo : List ℕ)
    (range : RangeEntry) (up : Le lo range.upper_bound) where
  abbrev hi : List ℕ
  hi = range.upper_bound

  -- What is known of an answer: it exists, and is a right one.
  abbrev pub HasAnswer : Option ReconcileResult → List (List ℕ) → Type 0
  HasAnswer found received =
      (a : ReconcileResult) × ((found ≡ some a) × IsAnswer p q s r lo hi received a)

  agreed :
      between p lo hi ≡ between q lo hi
      → IsAnswer p q s r lo hi []
          (record { response_ranges = skip_entry hi ∷ []; have_items = []; complete = true })
  agreed e = record {
    honest = (up, (sym e, refl));
    gathered = refl;
    small = λ n. (tt, tt);
    covered = λ c. agree-covered p q w lo hi up e [] _;
  }

  skip-HasAnswer :
      between p lo hi ≡ between q lo hi → HasAnswer (answer_as RangeMode.skip q lo range) []
  unfolding answer_as
  skip-HasAnswer e = (_, (refl, agreed e))

  abbrev own_items : RangeEntry
  own_items =
      item_entry hi (index_gap (bound_index q lo) (bound_index q hi) % 2 ^ 32) (between q lo hi)

  items_of-own : items_of (own_items ∷ []) ≡ between q lo hi
  unfolding items_of
  items_of-own = append-nil (between q lo hi)

  item_list-HasAnswer :
      range.items ≡ between p lo hi
      → HasAnswer (answer_as RangeMode.item_list q lo range) range.items
  unfolding answer_as answer_items range_indices
  item_list-HasAnswer e = (
    record { response_ranges = own_items ∷ []; have_items = range.items; complete = true },
    (
      rw (list_items-between p q w lo hi up),
      record {
        honest = (up, (refl, refl));
        gathered = refl;
        small = λ n. (tt, tt);
        covered = λ c. rw e (items-covered p q w lo hi up (items_of (own_items ∷ [])) items_of-own);
      },
    ),
  )

  -- A fingerprint, from here on.
  module _ (count : range.count ≡ span p lo hi)
      (fp : range.fingerprint ≡ xor_items min_hash (between p lo hi))
      (sender_bound : span p lo hi ≤ s) (own_bound : span q lo hi ≤ r) where
    abbrev our_count : ℕ
    our_count = index_gap (bound_index q lo) (bound_index q hi) % 2 ^ 32

    our_count-span : our_count ≡ span q lo hi
    our_count-span = omega (arith, ordered p q w lo hi up, inside p q w lo hi up)

    abbrev matches : Bool
    matches =
        bytes_eq (xor_fingerprint q (bound_index q lo) (bound_index q hi)) range.fingerprint
        && our_count == range.count

    matched : matches ≡ true → between p lo hi ≡ between q lo hi
    unfolding xor_fingerprint
    matched m =
        w.no_collision lo hi
          (ground
            (arith, our_count-span, length-between p lo hi up, length-between q lo hi up, count))
          (sym fp ∙ sym (bytes_eq→eq _ range.fingerprint (ground arith)))

    listed :
        IsAnswer p q s r lo hi []
          (record { response_ranges = own_items ∷ []; have_items = []; complete = false })
    listed = record {
      honest = (up, (refl, refl));
      gathered = refl;
      small = λ n. (tt, tt);
      covered = λ c. cc;
    }

    module _ (large : 16 < span q lo hi) where
      abbrev low : ℕ
      low = bound_index q lo

      abbrev high : ℕ
      high = bound_index q hi

      abbrev mid : ℕ
      mid = low + (high - low) / 2

      abbrev pivot : List ℕ
      pivot = get_or q mid min_hash

      mid-lt : mid < length q
      mid-lt = omega (arith, bound_index-le q hi)

      pivot_index : bound_index q pivot ≡ mid
      pivot_index = bound_index-get q mid min_hash w.ascending_q mid-lt

      lo-pivot : Le lo pivot
      lo-pivot = get-Le q lo mid min_hash w.ascending_q (omega arith) mid-lt

      pivot-hi : Le pivot hi
      pivot-hi = bytes_lt_asymm pivot hi (get-lt q hi mid min_hash (omega arith))

      abbrev halves : List RangeEntry
      halves =
          fingerprint_entry pivot (index_gap low mid % 2 ^ 32) (xor_fingerprint q low mid)
          ∷ fingerprint_entry hi (index_gap mid high % 2 ^ 32) (xor_fingerprint q mid high)
          ∷ []

      middle : (low + index_gap low high / 2) % 2 ^ 64 ≡ mid
      middle = omega (arith, inside p q w lo hi up)

      split_range-halves : split_range q hi low high ≡ some halves
      unfolding split_range
      split_range-halves = rw (middle, lt→ltb mid (length q) mid-lt)

      lower_half :
          EntryIsHonest q p
            (half r)
            s
            RangeMode.fingerprint
            lo
            (fingerprint_entry pivot (index_gap low mid % 2 ^ 32) (xor_fingerprint q low mid))
      unfolding xor_fingerprint
      lower_half = (
        rw pivot_index (omega (arith, inside p q w lo hi up)),
        (
          rw pivot_index,
          (rw pivot_index (omega arith), omega (arith, bound_index_mono p pivot hi pivot-hi)),
        ),
      )

      upper_half :
          EntryIsHonest q p
            (half r)
            s
            RangeMode.fingerprint
            pivot
            (fingerprint_entry hi (index_gap mid high % 2 ^ 32) (xor_fingerprint q mid high))
      unfolding xor_fingerprint
      upper_half = (
        rw pivot_index (omega (arith, inside p q w lo hi up)),
        (
          rw pivot_index,
          (rw pivot_index (omega arith), omega (arith, bound_index_mono p lo pivot lo-pivot)),
        ),
      )

      split :
          IsAnswer p q s r lo hi []
            (record { response_ranges = halves; have_items = []; complete = false })
      split = record {
        honest = (lo-pivot, (lower_half, (pivot-hi, (upper_half, refl))));
        gathered = refl;
        small = λ n. absurd (omega arith);
        covered = λ c. cc;
      }

    abbrev unmatched : Option ReconcileResult
    unmatched =
        if leb our_count split_threshold
        then (list_items q hi (bound_index q lo) (bound_index q hi) >>= λ entry.
            some (record { response_ranges = entry ∷ []; have_items = []; complete = false }))
        else (split_range q hi (bound_index q lo) (bound_index q hi) >>= λ halves.
            some (record { response_ranges = halves; have_items = []; complete = false }))

    unmatched-HasAnswer : HasAnswer unmatched []
    unmatched-HasAnswer = elim (Bool-cases (leb our_count split_threshold)) [
      | inl small ↦ rw small (
        record { response_ranges = own_items ∷ []; have_items = []; complete = false },
        (rw (list_items-between p q w lo hi up), listed),
      )
      | inr big ↦
          let large : 16 < span q lo hi = ground (arith, our_count-span) in
          rw big (
            record { response_ranges = halves large; have_items = []; complete = false },
            (rw (split_range-halves large), split large),
          )
    ]

    by_match : answer_as RangeMode.fingerprint q lo range ≡ (
        if matches
        then some
            (record { response_ranges = skip_entry hi ∷ []; have_items = []; complete = true })
        else unmatched)
    unfolding answer_as answer_fingerprint range_indices
    by_match = refl

    fingerprint-HasAnswer : HasAnswer (answer_as RangeMode.fingerprint q lo range) []
    fingerprint-HasAnswer = rw by_match (elim (Bool-cases matches) [
      | inl m ↦ rw m (_, (refl, agreed (matched m)))
      | inr m ↦ rw m unmatched-HasAnswer
    ])

-- An honest entry has an answer, whatever its mode.
pub entry-HasAnswer :
    (p q : List (List ℕ)) (w : AreReconcilable p q) (s r : ℕ) (lo : List ℕ) (range : RangeEntry)
    (up : Le lo range.upper_bound) (mode : RangeMode)
    → EntryIsHonest p q s r mode lo range
    → HasAnswer p q w s r lo range up (answer_as mode q lo range) (items_in mode range)
entry-HasAnswer p q w s r lo range up RangeMode.skip e = skip-HasAnswer p q w s r lo range up e
entry-HasAnswer p q w s r lo range up RangeMode.item_list e =
    item_list-HasAnswer p q w s r lo range up e
entry-HasAnswer p q w s r lo range up RangeMode.fingerprint (c, (f, (b, d))) =
    fingerprint-HasAnswer p q w s r lo range up c f b d
