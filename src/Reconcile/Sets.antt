-- ===== src/Reconcile/Sets.antt =====
-- The sets of collected items, and bounds on hashes.
use chromatin_protocol.Prelude.{
  ℕ, zero, suc, ◌≡◌, refl, ap, arith, List, [], ◌∷◌, true, false, ◌&&◌, ◌||◌, not, length,
  replicate, bytes_eq, bytes_eq_iff, bytes_eq→eq, All,
}
use chromatin_protocol.External.Mdbx.{bytes_lt}
use chromatin_protocol.Reconcile.{min_hash, max_hash, bound_index}
use chromatin_protocol.Reconcile.Order.{contains}
use chromatin_protocol.Reconcile.Local.{set_insert, insert_all, missing_in}

pub contains-set_insert :
    (h k : List ℕ) (xs : List (List ℕ))
    → contains h (set_insert k xs) ≡ (bytes_eq k h || contains h xs)
unfolding contains set_insert
contains-set_insert h k [] = refl
contains-set_insert h k (x ∷ xs) =
    ground (arith, contains-set_insert h k xs, bytes_eq_iff k x, bytes_eq_iff k h, bytes_eq_iff x h)

pub contains-insert_all :
    (h : List ℕ) (ks xs : List (List ℕ))
    → contains h (insert_all ks xs) ≡ (contains h ks || contains h xs)
unfolding contains insert_all
contains-insert_all h [] xs = refl
contains-insert_all h (k ∷ ks) xs =
    ground (arith, contains-insert_all h ks (set_insert k xs), contains-set_insert h k xs)

pub contains-missing_in :
    (h : List ℕ) (sorted xs : List (List ℕ))
    → contains h (missing_in sorted xs) ≡ (contains h xs && not (contains h sorted))
unfolding contains missing_in
contains-missing_in h sorted [] = refl
contains-missing_in h sorted (x ∷ xs) =
    ground (arith, contains-missing_in h sorted xs, bytes_eq→eq x h, ap (λ k. contains k sorted))

-- Hashes of 32 bytes, and not all of them 0xFF.
abbrev pub AreBelowMax : List (List ℕ) → Type 0
AreBelowMax = All (λ h. (length h ≡ 32) × (bytes_lt h max_hash ≡ true))

pub bytes_lt-zeros : (n : ℕ) (h : List ℕ) → length h ≡ n → bytes_lt h (replicate n 0) ≡ false
unfolding bytes_lt
bytes_lt-zeros zero h e = refl
bytes_lt-zeros (suc n) [] e = absurd (omega arith)
bytes_lt-zeros (suc n) (x ∷ h) e = ground (arith, bytes_lt-zeros n h (omega arith))

pub bound_index-min : (xs : List (List ℕ)) → AreBelowMax xs → bound_index xs min_hash ≡ 0
unfolding bound_index
bound_index-min [] h = refl
bound_index-min (x ∷ xs) ((e, u), h) = rw (bytes_lt-zeros 32 x e) refl

pub bound_index-max : (xs : List (List ℕ)) → AreBelowMax xs → bound_index xs max_hash ≡ length xs
unfolding bound_index
bound_index-max [] h = refl
bound_index-max (x ∷ xs) ((e, u), h) = rw (u, bound_index-max xs h) refl
