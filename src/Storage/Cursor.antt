-- ===== src/Storage/Cursor.antt =====
-- Walks through the sequence map of storage/storage.cpp, on the entries in key order.
use chromatin_protocol.Prelude.{
  ℕ, ◌+◌, ◌-◌, ◌%◌, ◌^◌, List, [], ◌∷◌, Bool, ◌&&◌, not, Option, none, some, ◌==◌, if◌then◌else◌,
  length, take, drop, bytes_eq,
}
use chromatin_protocol.Endian.{read_u64_be}
use chromatin_protocol.External.Mdbx.{Entry, bytes_lt}
use chromatin_protocol.Storage.Layout.{make_seq_key}

-- `cursor.lower_bound`: the entries from the first key on that is not below `k`, and those before.
unfoldable pub lower_bound : List ℕ → List Entry → List Entry
lower_bound k [] = []
lower_bound k ((j, v) ∷ es) = if bytes_lt j k then lower_bound k es else (j, v) ∷ es

unfoldable pub before : List ℕ → List Entry → List Entry
before k [] = []
before k ((j, v) ∷ es) = let rest = before k es in if bytes_lt j k then (j, v) ∷ rest else []

-- `cursor.to_last`
unfoldable pub get_last? : List Entry → Option Entry
get_last? [] = none
get_last? (e ∷ []) = some e
get_last? (e ∷ f ∷ es) = get_last? (f ∷ es)

-- A sequence key of the namespace.
unfoldable pub is_seq_key_of : List ℕ → List ℕ → Bool
is_seq_key_of ns k = length k == 40 && bytes_eq (take 32 k) ns

-- One more than the number in the key, if it is one of the namespace.
unfoldable pub seq_after : List ℕ → Option Entry → ℕ
seq_after ns none = 1
seq_after ns (some (k, v)) =
    if is_seq_key_of ns k then (read_u64_be (drop 32 k) + 1) % 2 ^ 64 else 1

unfoldable pub next_seq_from : List ℕ → List Entry → List Entry → ℕ
next_seq_from ns earlier [] = seq_after ns (get_last? earlier)
next_seq_from ns earlier ((k, v) ∷ es) =
    if is_seq_key_of ns k
    then (read_u64_be (drop 32 k) + 1) % 2 ^ 64
    else seq_after ns (get_last? earlier)

unfoldable pub next_seq_num : List ℕ → List Entry → ℕ
next_seq_num ns es =
    let upper_key = make_seq_key ns (2 ^ 64 - 1) in
    next_seq_from ns (before upper_key es) (lower_bound upper_key es)

-- The scan for the sequence key of a hash, from the cursor on.
unfoldable pub find_seq_key : List ℕ → List ℕ → List Entry → Option (List ℕ)
find_seq_key ns hash [] = none
find_seq_key ns hash ((k, v) ∷ es) =
    let rest = find_seq_key ns hash es in
    if not (is_seq_key_of ns k)
    then none
    else if length v == 36 && bytes_eq (take 32 v) hash
    then some k
    else rest

unfoldable pub seq_key_of : List ℕ → List ℕ → List Entry → Option (List ℕ)
seq_key_of ns hash es = find_seq_key ns hash (lower_bound (make_seq_key ns 1) es)
