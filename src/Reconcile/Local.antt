-- ===== src/Reconcile/Local.antt =====
-- `reconcile_local` of sync/reconciliation.cpp: both sides of the protocol, round by round.
use chromatin_protocol.Prelude.{
  ℕ, zero, suc, ◌%◌, ◌^◌, List, [], ◌∷◌, ◌++◌, Bool, false, not, Option, some, ◌>>=◌, if◌then◌else◌,
  length, bytes_eq,
}
use chromatin_protocol.External.Mdbx.{bytes_lt}
use chromatin_protocol.Reconcile.{
  RangeMode, RangeEntry, ReconcileResult, max_hash, max_reconcile_rounds, xor_fingerprint,
  fingerprint_entry, process_ranges,
}
use chromatin_protocol.Reconcile.Order.{contains}

-- `std::set<Hash32>`: ascending, each element once.
unfoldable pub set_insert : List ℕ → List (List ℕ) → List (List ℕ)
set_insert h [] = h ∷ []
set_insert h (x ∷ xs) =
    let rest = set_insert h xs in
    if bytes_lt h x then h ∷ x ∷ xs else if bytes_eq h x then x ∷ xs else x ∷ rest

unfoldable pub insert_all : List (List ℕ) → List (List ℕ) → List (List ℕ)
insert_all [] set = set
insert_all (h ∷ hs) set = insert_all hs (set_insert h set)

abbrev pub items_in : RangeMode → RangeEntry → List (List ℕ)
items_in RangeMode.item_list range = range.items
items_in _ range = []

-- The items of all ranges that are item lists.
unfoldable pub items_of : List RangeEntry → List (List ℕ)
items_of [] = []
items_of (range ∷ ranges) = items_in range.mode range ++ items_of ranges

pub record Exchange : Type 0 where
  pub items_from_a : List (List ℕ)
  pub items_from_b : List (List ℕ)
  pub current_ranges : List RangeEntry
  pub a_turn : Bool

-- What one round adds: the received items are the other side's, the response's our own.
unfoldable pub collect : Exchange → ReconcileResult → Exchange
collect s result =
    let received = items_of s.current_ranges in
    let sent = items_of result.response_ranges in
    if s.a_turn
    then record s {
      items_from_b = insert_all result.have_items (insert_all received s.items_from_b);
      items_from_a = insert_all sent s.items_from_a;
    }
    else record s {
      items_from_a = insert_all result.have_items (insert_all received s.items_from_a);
      items_from_b = insert_all sent s.items_from_b;
    }

-- The other side's turn, after a round from `s` in which items were collected.
abbrev pub next_turn : Exchange → Exchange → ReconcileResult → Exchange
next_turn s collected result = record collected {
  current_ranges = result.response_ranges;
  a_turn = not s.a_turn;
}

-- The rounds that are `left`, from a state on.
unfoldable pub exchange : List (List ℕ) → List (List ℕ) → ℕ → Exchange → Option Exchange
exchange sorted_a sorted_b zero s = some s
exchange sorted_a sorted_b (suc left) s = do
  result ← process_ranges (if s.a_turn then sorted_a else sorted_b) s.current_ranges
  let collected = collect s result in
      let rest = exchange sorted_a sorted_b left (next_turn s collected result) in
      if result.complete then some collected else rest

-- Elements of the set that are not in the list.
unfoldable pub missing_in : List (List ℕ) → List (List ℕ) → List (List ℕ)
missing_in sorted [] = []
missing_in sorted (h ∷ hs) =
    let rest = missing_in sorted hs in if contains h sorted then rest else h ∷ rest

abbrev pub opening : List (List ℕ) → Exchange
opening sorted_a = record {
  items_from_a = [];
  items_from_b = [];
  current_ranges =
      fingerprint_entry max_hash (length sorted_a % 2 ^ 32)
        (xor_fingerprint sorted_a 0 (length sorted_a))
      ∷ [];
  a_turn = false;
}

-- What only `b` has, and what only `a` has.
unfoldable pub reconcile_local :
    List (List ℕ) → List (List ℕ) → Option (List (List ℕ) × List (List ℕ))
reconcile_local sorted_a sorted_b = do
  s ← exchange sorted_a sorted_b max_reconcile_rounds (opening sorted_a)
  some (missing_in sorted_a s.items_from_b, missing_in sorted_b s.items_from_a)
