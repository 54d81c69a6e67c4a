-- ===== src/Reconcile/Order.antt =====
-- Indices into a sorted hash list, as `std::lower_bound` finds them.
use mathlib.Core.Path.{subst}
use native.Mathlib.Nat.{suc-sub-suc, sub-zero}
use chromatin_protocol.Prelude.{
  ℕ, zero, suc, ◌-◌, ◌≤◌, ◌<◌, ◌≡◌, refl, arith, List, [], ◌∷◌, Bool, true, false, ◌||◌, length,
  length-take, length-drop, take, drop, get_or, slice, bytes_eq, bytes_eq→eq, bytes_eq_iff,
  Bool-cases, inl, inr, All,
}
use chromatin_protocol.External.Mdbx.{bytes_lt}
use chromatin_protocol.External.Sorted.{bytes_lt_trans, bytes_lt_total}
use chromatin_protocol.Reconcile.{bound_index}

-- `h` is not above `k`.
abbrev pub Le : List ℕ → List ℕ → Type 0
Le h k = bytes_lt k h ≡ false

pub bytes_lt_irrefl : (xs : List ℕ) → bytes_lt xs xs ≡ false
unfolding bytes_lt
bytes_lt_irrefl [] = refl
bytes_lt_irrefl (x ∷ xs) = ground (arith, bytes_lt_irrefl xs)

pub bytes_lt_asymm : (xs ys : List ℕ) → bytes_lt xs ys ≡ true → bytes_lt ys xs ≡ false
bytes_lt_asymm xs ys h = ground (arith, bytes_lt_trans xs ys xs, bytes_lt_irrefl xs)

pub lt_of_lt_of_Le : (x h k : List ℕ) → bytes_lt x h ≡ true → Le h k → bytes_lt x k ≡ true
lt_of_lt_of_Le x h k p q =
    ground (arith, bytes_lt_total x k, bytes_lt_trans k x h, bytes_eq_iff x k)

pub Le_trans : (x h k : List ℕ) → Le x h → Le h k → Le x k
Le_trans x h k p q = ground (arith, lt_of_lt_of_Le k x h, bytes_lt_asymm k h)

-- Strictly ascending.
abbrev pub IsAscending : List (List ℕ) → Type 0
IsAscending [] = Unit {0}
IsAscending (x ∷ xs) = All (λ y. bytes_lt x y ≡ true) xs × IsAscending xs

pub bound_index-le : (xs : List (List ℕ)) (h : List ℕ) → bound_index xs h ≤ length xs
unfolding bound_index
bound_index-le [] h = omega arith
bound_index-le (x ∷ xs) h = ground (arith, bound_index-le xs h)

pub bound_index_mono :
    (xs : List (List ℕ)) (h k : List ℕ) → Le h k → bound_index xs h ≤ bound_index xs k
unfolding bound_index
bound_index_mono [] h k p = omega arith
bound_index_mono (x ∷ xs) h k p = ground (arith, bound_index_mono xs h k, lt_of_lt_of_Le x h k)

-- What stands before the index is below the bound.
pub get-lt :
    (xs : List (List ℕ)) (h : List ℕ) (i : ℕ) (d : List ℕ)
    → i < bound_index xs h
    → bytes_lt (get_or xs i d) h ≡ true
unfolding bound_index
get-lt [] h i d p = absurd (omega arith)
get-lt (x ∷ xs) h zero d p = ground arith
get-lt (x ∷ xs) h (suc i) d p = ground (arith, get-lt xs h i d)

All-get :
    (P : List ℕ → Type 0) (xs : List (List ℕ)) (i : ℕ) (d : List ℕ)
    → All P xs
    → i < length xs
    → P (get_or xs i d)
All-get P [] i d a p = absurd (omega arith)
All-get P (x ∷ xs) zero d a p = a.0
All-get P (x ∷ xs) (suc i) d a p = All-get P xs i d a.1 (omega arith)

-- What stands at the index or after it is not.
pub get-Le :
    (xs : List (List ℕ)) (h : List ℕ) (i : ℕ) (d : List ℕ)
    → IsAscending xs
    → bound_index xs h ≤ i
    → i < length xs
    → Le h (get_or xs i d)
unfolding bound_index
get-Le [] h i d a p q = absurd (omega arith)
get-Le (x ∷ xs) h zero d a p q = ground arith
get-Le (x ∷ xs) h (suc i) d (a, b) p q = ground (
  arith,
  get-Le xs h i d b,
  All-get (λ y. bytes_lt x y ≡ true) xs i d a,
  bytes_lt_trans x (get_or xs i d) h,
)

-- An element is found at its own index.
pub bound_index-get :
    (xs : List (List ℕ)) (i : ℕ) (d : List ℕ)
    → IsAscending xs
    → i < length xs
    → bound_index xs (get_or xs i d) ≡ i
unfolding bound_index
bound_index-get [] i d a p = absurd (omega arith)
bound_index-get (x ∷ xs) zero d a p = unfold bound_index in ground (arith, bytes_lt_irrefl x)
bound_index-get (x ∷ xs) (suc i) d a p =
    ground (arith, bound_index-get xs i d a.1, All-get (λ y. bytes_lt x y ≡ true) xs i d a.0)

-- The elements between two bounds.
abbrev pub between : List (List ℕ) → List ℕ → List ℕ → List (List ℕ)
between xs lo hi = slice (bound_index xs lo) (bound_index xs hi - bound_index xs lo) xs

-- `std::set::find` and the like.
unfoldable pub contains : List ℕ → List (List ℕ) → Bool
contains h [] = false
contains h (x ∷ xs) = let rest = contains h xs in bytes_eq x h || rest

pub length-between :
    (xs : List (List ℕ)) (lo hi : List ℕ)
    → Le lo hi
    → length (between xs lo hi) ≡ bound_index xs hi - bound_index xs lo
length-between xs lo hi p = omega (
  arith,
  length-take (bound_index xs hi - bound_index xs lo) (drop (bound_index xs lo) xs),
  length-drop (bound_index xs lo) xs,
  bound_index-le xs hi,
  bound_index_mono xs lo hi p,
)

contains-take :
    (h : List ℕ) (n : ℕ) (xs : List (List ℕ)) → contains h (take n xs) ≡ true → contains h xs ≡ true
unfolding contains
contains-take h zero xs m = cc
contains-take h (suc n) [] m = cc
contains-take h (suc n) (x ∷ xs) m = ground (arith, contains-take h n xs)

contains-drop :
    (h : List ℕ) (n : ℕ) (xs : List (List ℕ)) → contains h (drop n xs) ≡ true → contains h xs ≡ true
unfolding contains
contains-drop h zero xs m = m
contains-drop h (suc n) [] m = cc
contains-drop h (suc n) (x ∷ xs) m = ground (arith, contains-drop h n xs m)

-- Only elements of the list stand between two bounds.
pub contains-between :
    (xs : List (List ℕ)) (lo hi h : List ℕ)
    → contains h (between xs lo hi) ≡ true
    → contains h xs ≡ true
contains-between xs lo hi h m =
    contains-drop h (bound_index xs lo) xs
      (contains-take h (bound_index xs hi - bound_index xs lo) (drop (bound_index xs lo) xs) m)

pub All-contains :
    (P : List ℕ → Type 0) (xs : List (List ℕ)) (h : List ℕ) → All P xs → contains h xs ≡ true → P h
unfolding contains
All-contains P [] h a m = absurd (ground arith)
All-contains P (x ∷ xs) h a m = elim (Bool-cases (bytes_eq x h)) [
  | inl e ↦ subst P (bytes_eq→eq x h e) a.0
  | inr e ↦ All-contains P xs h a.1 (ground arith)
]

contains-prefix :
    (xs : List (List ℕ)) (hi h : List ℕ)
    → IsAscending xs
    → contains h xs ≡ true
    → bytes_lt h hi ≡ true
    → contains h (take (bound_index xs hi) xs) ≡ true
unfolding bound_index contains
contains-prefix [] hi h a m p = m
contains-prefix (x ∷ xs) hi h a m p = elim (Bool-cases (bytes_lt x hi)) [
  | inl q ↦ rw q (ground (arith, contains-prefix xs hi h a.1))
  | inr q ↦ absurd (
      ground (
        arith,
        bytes_eq→eq x h,
        bytes_lt_trans x h hi,
        All-contains (λ y. bytes_lt x y ≡ true) xs h a.0,
      ))
]

-- And all of them that are within the bounds do.
pub between-contains :
    (xs : List (List ℕ)) (lo hi h : List ℕ)
    → IsAscending xs
    → contains h xs ≡ true
    → Le lo h
    → bytes_lt h hi ≡ true
    → contains h (between xs lo hi) ≡ true
unfolding bound_index contains
between-contains [] lo hi h a m p q = m
between-contains (x ∷ xs) lo hi h a m p q =
    let later = between-contains xs lo hi h a.1 in
    elim (Bool-cases (bytes_lt x lo)) [
      | inl u ↦
          let above : bytes_lt x h ≡ true = lt_of_lt_of_Le x lo h u p in
          let deeper : bytes_lt x hi ≡ true = bytes_lt_trans x h hi above q in
          rw (u, deeper)
            (rw suc-sub-suc (later (ground (arith, bytes_eq_iff x h, bytes_lt_irrefl x)) p q))
      | inr u ↦ rw u (rw sub-zero (unfold bound_index in contains-prefix (x ∷ xs) hi h a m q))
    ]
