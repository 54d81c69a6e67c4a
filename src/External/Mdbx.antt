-- ===== src/External/Mdbx.antt =====
-- libmdbx as the node uses it: ordered maps from byte strings to byte strings.
use chromatin_protocol.Prelude.{
  ℕ, ◌≡◌, Bool, true, false, Option, none, some, List, [], ◌∷◌, ltb, ◌==◌, if◌then◌else◌, bytes_eq,
}

-- The key order: byte by byte, and a prefix first.
unfoldable pub bytes_lt : List ℕ → List ℕ → Bool
bytes_lt xs [] = false
bytes_lt [] (y ∷ ys) = true
bytes_lt (x ∷ xs) (y ∷ ys) =
    let rest = bytes_lt xs ys in if ltb x y then true else if x == y then rest else false

abbrev pub Entry : Type 0
Entry = List ℕ × List ℕ

unfoldable pub lookup : List ℕ → List Entry → Option (List ℕ)
lookup k [] = none
lookup k ((j, v) ∷ es) = if bytes_eq j k then some v else lookup k es

-- Each key is above all before it.
abbrev pub Above : List ℕ → List Entry → Type 0
Above k [] = Unit {0}
Above k ((j, v) ∷ es) = (bytes_lt k j ≡ true) × Above k es

abbrev pub IsSorted : List Entry → Type 0
IsSorted [] = Unit {0}
IsSorted ((k, v) ∷ es) = Above k es × IsSorted es

pub record Mdbx : Type 1 where
  pub Map : Type 0
  pub empty : Map
  pub upsert : List ℕ → List ℕ → Map → Map
  pub erase : List ℕ → Map → Map
  -- what a cursor walks through
  pub entries : Map → List Entry
  pub entries-IsSorted : (m : Map) → IsSorted (entries m)
  pub lookup-empty : (k : List ℕ) → lookup k (entries empty) ≡ none
  pub lookup-upsert :
      (k j v : List ℕ) (m : Map)
      → lookup j (entries (upsert k v m)) ≡ (if bytes_eq k j then some v else lookup j (entries m))
  pub lookup-erase :
      (k j : List ℕ) (m : Map)
      → lookup j (entries (erase k m)) ≡ (if bytes_eq k j then none else lookup j (entries m))
