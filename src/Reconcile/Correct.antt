-- ===== src/Reconcile/Correct.antt =====
-- `reconcile_local` ends within its rounds and finds the difference of the two lists.
use chromatin_protocol.Prelude.{ℕ, ◌≡◌, refl, arith, List, [], true, false, ◌&&◌, not, some, length}
use chromatin_protocol.External.Mdbx.{bytes_lt}
use chromatin_protocol.Reconcile.{
  min_hash, max_hash, max_reconcile_rounds, bound_index, xor_fingerprint,
}
use chromatin_protocol.Reconcile.Order.{Le, contains, All-contains, bound_index-le}
use chromatin_protocol.Reconcile.Local.{missing_in, opening, reconcile_local}
use chromatin_protocol.Reconcile.Honest.{AreReconcilable}
use chromatin_protocol.Reconcile.Sets.{
  contains-missing_in, AreBelowMax, bytes_lt-zeros, bound_index-min, bound_index-max,
}
use chromatin_protocol.Reconcile.Turns.{IsHonestTurn}
use chromatin_protocol.Reconcile.Ending.{limit, Ends, limit-Ends}

-- The opening message, for hashes below the largest one.
module _ (a b : List (List ℕ)) (w : AreReconcilable a b) (hashes_a : AreBelowMax a) where
  whole : bound_index a max_hash ≡ length a
  whole = bound_index-max a hashes_a

  opening-honest : IsHonestTurn a b (limit 28) (limit 28) false (opening a).current_ranges
  unfolding xor_fingerprint bytes_lt
  opening-honest = (
    refl,
    (
      (
        rw (whole, bound_index-min a hashes_a) (omega (arith, w.fits_p)),
        (
          rw (whole, bound_index-min a hashes_a) refl,
          (
            omega (arith, bound_index-le a max_hash, w.fits_p),
            omega (arith, bound_index-le b max_hash, w.fits_q),
          ),
        ),
      ),
      refl,
    ),
  )

  opening-Ends : Ends a b w max_reconcile_rounds (opening a)
  opening-Ends =
      limit-Ends a b w max_reconcile_rounds 28 28 [] [] (opening a).current_ranges false
        (omega arith) opening-honest
        (record { from_a = λ h c. unfold contains in cc; from_b = λ h c. unfold contains in cc })

above_zeros :
    (xs : List (List ℕ)) (h : List ℕ) → AreBelowMax xs → contains h xs ≡ true → Le min_hash h
above_zeros xs h a c =
    bytes_lt-zeros 32 h
      (All-contains (λ k. (length k ≡ 32) × (bytes_lt k max_hash ≡ true)) xs h a c).0

below_max :
    (xs : List (List ℕ)) (h : List ℕ)
    → AreBelowMax xs
    → contains h xs ≡ true
    → bytes_lt h max_hash ≡ true
below_max xs h a c = (All-contains (λ k. (length k ≡ 32) × (bytes_lt k max_hash ≡ true)) xs h a c).1

-- For two strictly ascending lists of 32-byte hashes below the largest one, each of fewer than 2^32
-- elements, and no two different ranges of them with the same bounds, count and fingerprint:
-- `reconcile_local` returns, so its 64 rounds are enough and no range is undefined. Its first list
-- has exactly what is in `b` and not in `a`, its second what is in `a` and not in `b`.
pub reconcile_local_exact :
    (a b : List (List ℕ))
    → AreReconcilable a b
    → AreBelowMax a
    → AreBelowMax b
    → (d : List (List ℕ) × List (List ℕ)) × (reconcile_local a b ≡ some d)
      × ((h : List ℕ) → contains h d.0 ≡ (contains h b && not (contains h a)))
      × ((h : List ℕ) → contains h d.1 ≡ (contains h a && not (contains h b)))
unfolding reconcile_local
reconcile_local_exact a b w ha hb =
    let (s, (ends, (sound, found))) = opening-Ends a b w ha in
    (
      (missing_in a s.items_from_b, missing_in b s.items_from_a),
      rw ends refl,
      (λ h. ground (
        arith,
        contains-missing_in h a s.items_from_b,
        sound.from_b h,
        λ (c : contains h b ≡ true). found.only_b h (above_zeros b h hb c) (below_max b h hb c) c,
      )),
      (λ h. ground (
        arith,
        contains-missing_in h b s.items_from_a,
        sound.from_a h,
        λ (c : contains h a ≡ true). found.only_a h (above_zeros a h ha c) (below_max a h ha c) c,
      )),
    )
