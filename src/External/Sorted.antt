-- ===== src/External/Sorted.antt =====
-- Sorted association lists meet the interface of libmdbx.
use mathlib.Core.Path.{subst}
use chromatin_protocol.Prelude.{
  ℕ, ◌≡◌, sym, refl, arith, true, false, none, some, List, [], ◌∷◌, if◌then◌else◌, bytes_eq,
  bytes_eq→eq, bytes_eq_iff, Bool-cases, inl, inr,
}
use chromatin_protocol.External.Mdbx.{Mdbx, Entry, Above, IsSorted, lookup, bytes_lt}

pub bytes_lt_trans :
    (xs ys zs : List ℕ) → bytes_lt xs ys ≡ true → bytes_lt ys zs ≡ true → bytes_lt xs zs ≡ true
unfolding bytes_lt
bytes_lt_trans xs [] zs h k = ground arith
bytes_lt_trans xs (y ∷ ys) [] h k = cc
bytes_lt_trans [] (y ∷ ys) (z ∷ zs) h k = ground arith
bytes_lt_trans (x ∷ xs) (y ∷ ys) (z ∷ zs) h k = ground (arith, bytes_lt_trans xs ys zs)

pub bytes_lt_total :
    (xs ys : List ℕ) → bytes_lt xs ys ≡ false → bytes_eq xs ys ≡ false → bytes_lt ys xs ≡ true
unfolding bytes_lt bytes_eq
bytes_lt_total [] [] h k = cc
bytes_lt_total [] (y ∷ ys) h k = cc
bytes_lt_total (x ∷ xs) [] h k = ground arith
bytes_lt_total (x ∷ xs) (y ∷ ys) h k = ground (arith, bytes_lt_total xs ys)

pub insert : List ℕ → List ℕ → List Entry → List Entry
insert k v [] = (k, v) ∷ []
insert k v ((j, w) ∷ es) =
    let rest = insert k v es in
    if bytes_lt k j
    then (k, v) ∷ (j, w) ∷ es
    else if bytes_eq k j
    then (k, v) ∷ es
    else (j, w) ∷ rest

pub without : List ℕ → List Entry → List Entry
without k [] = []
without k ((j, w) ∷ es) = let rest = without k es in if bytes_eq k j then rest else (j, w) ∷ rest

Above-insert :
    (j k v : List ℕ) (es : List Entry) → bytes_lt j k ≡ true → Above j es → Above j (insert k v es)
unfolding insert
Above-insert j k v [] h a = (h, tt)
Above-insert j k v ((i, w) ∷ es) h (hi, a) = elim (Bool-cases (bytes_lt k i)) [
  | inl e ↦ rw e (h, (hi, a))
  | inr e ↦ elim (Bool-cases (bytes_eq k i)) [
    | inl q ↦ rw (e, q) (h, a)
    | inr q ↦ rw (e, q) (hi, Above-insert j k v es h a)
  ]
]

Above-weaken : (j k : List ℕ) (es : List Entry) → bytes_lt j k ≡ true → Above k es → Above j es
Above-weaken j k [] h a = tt
Above-weaken j k ((i, w) ∷ es) h (hi, a) = (bytes_lt_trans j k i h hi, Above-weaken j k es h a)

pub insert-IsSorted : (k v : List ℕ) (es : List Entry) → IsSorted es → IsSorted (insert k v es)
unfolding insert
insert-IsSorted k v [] s = (tt, tt)
insert-IsSorted k v ((i, w) ∷ es) (a, s) = elim (Bool-cases (bytes_lt k i)) [
  | inl e ↦ rw e ((e, Above-weaken k i es e a), (a, s))
  | inr e ↦ elim (Bool-cases (bytes_eq k i)) [
    | inl q ↦ rw (e, q) (subst (λ x. Above x es) (sym (bytes_eq→eq k i q)) a, s)
    | inr q ↦ rw (e, q) (Above-insert i k v es (bytes_lt_total k i e q) a, insert-IsSorted k v es s)
  ]
]

Above-without : (j k : List ℕ) (es : List Entry) → Above j es → Above j (without k es)
unfolding without
Above-without j k [] a = tt
Above-without j k ((i, w) ∷ es) (hi, a) = elim (Bool-cases (bytes_eq k i)) [
  | inl q ↦ rw q (Above-without j k es a)
  | inr q ↦ rw q (hi, Above-without j k es a)
]

pub without-IsSorted : (k : List ℕ) (es : List Entry) → IsSorted es → IsSorted (without k es)
unfolding without
without-IsSorted k [] s = tt
without-IsSorted k ((i, w) ∷ es) (a, s) = elim (Bool-cases (bytes_eq k i)) [
  | inl q ↦ rw q (without-IsSorted k es s)
  | inr q ↦ rw q (Above-without i k es a, without-IsSorted k es s)
]

pub lookup-insert :
    (k j v : List ℕ) (es : List Entry)
    → lookup j (insert k v es) ≡ (if bytes_eq k j then some v else lookup j es)
unfolding insert lookup
lookup-insert k j v [] = ground arith
lookup-insert k j v ((i, w) ∷ es) =
    ground (arith, bytes_eq_iff k j, bytes_eq_iff k i, bytes_eq_iff i j, lookup-insert k j v es)

pub lookup-without :
    (k j : List ℕ) (es : List Entry)
    → lookup j (without k es) ≡ (if bytes_eq k j then none else lookup j es)
unfolding without lookup
lookup-without k j [] = ground arith
lookup-without k j ((i, w) ∷ es) =
    ground (arith, bytes_eq_iff k j, bytes_eq_iff k i, bytes_eq_iff i j, lookup-without k j es)

pub lookup-none : (k : List ℕ) → lookup k [] ≡ none
unfolding lookup
lookup-none k = refl

unfoldable pub sorted_maps : Mdbx
unfolding insert without
sorted_maps = record {
  Map = (es : List Entry) × IsSorted es;
  empty = ([], tt);
  upsert = λ k v m. (insert k v m.0, insert-IsSorted k v m.0 m.1);
  erase = λ k m. (without k m.0, without-IsSorted k m.0 m.1);
  entries = λ m. m.0;
  entries-IsSorted = λ m. m.1;
  lookup-empty = lookup-none;
  lookup-upsert = λ k j v m. lookup-insert k j v m.0;
  lookup-erase = λ k j m. lookup-without k j m.0;
}
