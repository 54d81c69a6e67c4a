-- ===== src/Reconcile/Turns.antt =====
-- One turn of the exchange: what it collects is true, and in the last turn it is all.
use chromatin_protocol.Prelude.{ℕ, ◌≡◌, ap, arith, List, Bool, true, false}
use chromatin_protocol.External.Mdbx.{bytes_lt}
use chromatin_protocol.Reconcile.{RangeEntry, ReconcileResult, min_hash, max_hash}
use chromatin_protocol.Reconcile.Order.{Le, contains}
use chromatin_protocol.Reconcile.Local.{insert_all, items_of, Exchange, collect}
use chromatin_protocol.Reconcile.Honest.{AreHonest, half, IsAnswer}
use chromatin_protocol.Reconcile.Sets.{contains-insert_all}
use chromatin_protocol.Reconcile.Rounds.{honest-contains}

abbrev pub state : Bool → List (List ℕ) → List (List ℕ) → List RangeEntry → Exchange
state turn from_a from_b ranges = record {
  items_from_a = from_a;
  items_from_b = from_b;
  current_ranges = ranges;
  a_turn = turn;
}

module _ (a b : List (List ℕ)) where
  -- Who sent the current ranges, and who answers them.
  abbrev pub sender : Bool → List (List ℕ)
  sender true = b
  sender false = a

  abbrev pub answerer : Bool → List (List ℕ)
  answerer true = a
  answerer false = b

  -- Only true items have been collected.
  pub record IsSound (s : Exchange) : Type 0 where
    pub from_a : (h : List ℕ) → contains h s.items_from_a ≡ true → contains h a ≡ true
    pub from_b : (h : List ℕ) → contains h s.items_from_b ≡ true → contains h b ≡ true

  -- And all that only one side has, but for the largest hash.
  pub record IsFound (s : Exchange) : Type 0 where
    pub only_a :
        (h : List ℕ)
        → Le min_hash h
        → bytes_lt h max_hash ≡ true
        → contains h a ≡ true
        → contains h b ≡ false
        → contains h s.items_from_a ≡ true
    pub only_b :
        (h : List ℕ)
        → Le min_hash h
        → bytes_lt h max_hash ≡ true
        → contains h b ≡ true
        → contains h a ≡ false
        → contains h s.items_from_b ≡ true

  abbrev pub IsHonestTurn : ℕ → ℕ → Bool → List RangeEntry → Type 0
  IsHonestTurn m n turn ranges =
      AreHonest (sender turn) (answerer turn) m n min_hash max_hash ranges

  abbrev pub IsTurnAnswer : ℕ → ℕ → Bool → List RangeEntry → ReconcileResult → Type 0
  IsTurnAnswer m n turn ranges result =
      IsAnswer (sender turn) (answerer turn) m n min_hash max_hash (items_of ranges) result

  module _ (m n : ℕ) (from_a from_b : List (List ℕ)) (ranges : List RangeEntry)
      (result : ReconcileResult) where
    pub collect-IsSound :
        (turn : Bool)
        → IsHonestTurn m n turn ranges
        → IsTurnAnswer m n turn ranges result
        → IsSound (state turn from_a from_b ranges)
        → IsSound (collect (state turn from_a from_b ranges) result)
    unfolding collect
    collect-IsSound true h x o = record {
      from_a = λ k c. ground (
        arith,
        contains-insert_all k (items_of result.response_ranges) from_a,
        o.from_a k,
        honest-contains a b (half n) m min_hash max_hash result.response_ranges k x.honest,
      );
      from_b = λ k c. ground (
        arith,
        contains-insert_all k result.have_items (insert_all (items_of ranges) from_b),
        contains-insert_all k (items_of ranges) from_b,
        o.from_b k,
        honest-contains b a m n min_hash max_hash ranges k h,
        ap (contains k) x.gathered,
      );
    }
    collect-IsSound false h x o = record {
      from_b = λ k c. ground (
        arith,
        contains-insert_all k (items_of result.response_ranges) from_b,
        o.from_b k,
        honest-contains b a (half n) m min_hash max_hash result.response_ranges k x.honest,
      );
      from_a = λ k c. ground (
        arith,
        contains-insert_all k result.have_items (insert_all (items_of ranges) from_a),
        contains-insert_all k (items_of ranges) from_a,
        o.from_a k,
        honest-contains a b m n min_hash max_hash ranges k h,
        ap (contains k) x.gathered,
      );
    }

    pub collect-IsFound :
        (turn : Bool)
        → IsTurnAnswer m n turn ranges result
        → result.complete ≡ true
        → IsFound (collect (state turn from_a from_b ranges) result)
    unfolding collect
    collect-IsFound true x done = record {
      only_a = λ k l u c d. ground (
        arith,
        contains-insert_all k (items_of result.response_ranges) from_a,
        (x.covered done k l u).1 c d,
      );
      only_b = λ k l u c d. ground (
        arith,
        contains-insert_all k result.have_items (insert_all (items_of ranges) from_b),
        contains-insert_all k (items_of ranges) from_b,
        (x.covered done k l u).0 c d,
      );
    }
    collect-IsFound false x done = record {
      only_b = λ k l u c d. ground (
        arith,
        contains-insert_all k (items_of result.response_ranges) from_b,
        (x.covered done k l u).1 c d,
      );
      only_a = λ k l u c d. ground (
        arith,
        contains-insert_all k result.have_items (insert_all (items_of ranges) from_a),
        contains-insert_all k (items_of ranges) from_a,
        (x.covered done k l u).0 c d,
      );
    }
