-- ===== src/Reconcile/Ending.antt =====
-- The rounds that are left are enough.
use mathlib.Core.Path.{subst}
use chromatin_protocol.Prelude.{
  ℕ, zero, suc, ◌+◌, ◌*◌, ◌≤◌, ◌≡◌, refl, sym, arith, List, Bool, true, false, not, some,
  Bool-cases, inl, inr,
}
use chromatin_protocol.Reconcile.{
  RangeEntry, ReconcileResult, min_hash, max_hash, process_from, process_ranges,
}
use chromatin_protocol.Reconcile.Local.{Exchange, collect, next_turn, exchange}
use chromatin_protocol.Reconcile.Honest.{AreReconcilable, AreHonest, half, AreResolved}
use chromatin_protocol.Reconcile.Rounds.{process-IsAnswer, resolved-Completes}
use chromatin_protocol.Reconcile.Turns.{
  sender, answerer, state, IsSound, IsFound, IsHonestTurn, IsTurnAnswer, collect-IsSound,
  collect-IsFound,
}

-- 16 times a power of two.
abbrev pub limit : ℕ → ℕ
limit zero = 16
limit (suc k) = limit k * 2

half-limit : (k : ℕ) → half (limit (suc k)) ≡ limit k
half-limit k = omega arith

flip : (p q : List (List ℕ)) → AreReconcilable p q → AreReconcilable q p
flip p q w = record {
  ascending_p = w.ascending_q;
  ascending_q = w.ascending_p;
  fits_p = w.fits_q;
  fits_q = w.fits_p;
  no_collision = λ lo hi c f. sym (w.no_collision lo hi (sym c) (sym f));
}

module _ (a b : List (List ℕ)) (w : AreReconcilable a b) where
  -- From a state on, the rounds that are left are enough, and the items are right.
  abbrev pub Ends : ℕ → Exchange → Type 0
  Ends left s =
      (s' : Exchange) × ((exchange a b left s ≡ some s') × (IsSound a b s' × IsFound a b s'))

  -- One round: complete now, or with the answer as the other side's ranges.
  round-Ends :
      (m n left : ℕ) (from_a from_b : List (List ℕ)) (ranges : List RangeEntry) (turn : Bool)
      → IsHonestTurn a b m n turn ranges
      → IsSound a b (state turn from_a from_b ranges)
      → ((result : ReconcileResult)
          → process_from (answerer a b turn) min_hash ranges ≡ some result
          → IsTurnAnswer a b m n turn ranges result
          → IsSound a b (collect (state turn from_a from_b ranges) result)
          → result.complete ≡ false
          → Ends left (
              next_turn
                (state turn from_a from_b ranges)
                (collect (state turn from_a from_b ranges) result)
                result))
      → Ends (suc left) (state turn from_a from_b ranges)
  unfolding exchange process_ranges
  round-Ends m n left from_a from_b ranges true h o next =
      let (result, (found, x)) = process-IsAnswer b a (flip a b w) m n min_hash max_hash ranges h in
      let sound = collect-IsSound a b m n from_a from_b ranges result true h x o in
      rw found (elim (Bool-cases result.complete) [
        | inl c ↦
            rw c (_, (refl, (sound, collect-IsFound a b m n from_a from_b ranges result true x c)))
        | inr c ↦ rw c (next result found x sound c)
      ])
  round-Ends m n left from_a from_b ranges false h o next =
      let (result, (found, x)) = process-IsAnswer a b w m n min_hash max_hash ranges h in
      let sound = collect-IsSound a b m n from_a from_b ranges result false h x o in
      rw found (elim (Bool-cases result.complete) [
        | inl c ↦
            rw c (_, (refl, (sound, collect-IsFound a b m n from_a from_b ranges result false x c)))
        | inr c ↦ rw c (next result found x sound c)
      ])

  resolved-Ends :
      (m n left : ℕ) (from_a from_b : List (List ℕ)) (ranges : List RangeEntry) (turn : Bool)
      → IsHonestTurn a b m n turn ranges
      → AreResolved ranges
      → IsSound a b (state turn from_a from_b ranges)
      → Ends (suc left) (state turn from_a from_b ranges)
  resolved-Ends m n left from_a from_b ranges turn h u o =
      round-Ends m n left from_a from_b ranges turn h o (λ result found x sound c.
        absurd (cc (c, resolved-Completes (answerer a b turn) min_hash ranges u result found)))

  turned :
      (m n : ℕ) (turn : Bool) (ranges : List RangeEntry)
      → AreHonest (answerer a b turn) (sender a b turn) m n min_hash max_hash ranges
      → IsHonestTurn a b m n (not turn) ranges
  turned m n true ranges h = h
  turned m n false ranges h = h

  next-IsSound :
      (s c : Exchange) (result : ReconcileResult)
      → IsSound a b c
      → IsSound a b (next_turn s c result)
  next-IsSound s c result o = record { from_a = o.from_a; from_b = o.from_b }

  -- The answerer's ranges halve at each of its turns: `j` more turns of the answerer and `k` of the
  -- sender, and two rounds to settle.
  pub limit-Ends :
      (left j k : ℕ) (from_a from_b : List (List ℕ)) (ranges : List RangeEntry) (turn : Bool)
      → j + k + 2 ≤ left
      → IsHonestTurn a b (limit k) (limit j) turn ranges
      → IsSound a b (state turn from_a from_b ranges)
      → Ends left (state turn from_a from_b ranges)
  limit-Ends zero j k from_a from_b ranges turn e h o = absurd (omega arith)
  limit-Ends (suc zero) j k from_a from_b ranges turn e h o = absurd (omega arith)
  limit-Ends (suc (suc left)) zero k from_a from_b ranges turn e h o =
      round-Ends (limit k) 16 (suc left) from_a from_b ranges turn h o (λ result found x sound c.
        resolved-Ends (half 16) (limit k) left
          (collect (state turn from_a from_b ranges) result).items_from_a
          (collect (state turn from_a from_b ranges) result).items_from_b result.response_ranges
          (not turn) (turned (half 16) (limit k) turn result.response_ranges x.honest)
          (x.small (omega arith))
          (next-IsSound (state turn from_a from_b ranges)
            (collect (state turn from_a from_b ranges) result) result sound))
  limit-Ends (suc (suc left)) (suc j) k from_a from_b ranges turn e h o =
      round-Ends (limit k) (limit (suc j)) (suc left) from_a from_b ranges turn h o
        (λ result found x sound c.
          limit-Ends (suc left) k j (collect (state turn from_a from_b ranges) result).items_from_a
            (collect (state turn from_a from_b ranges) result).items_from_b result.response_ranges
            (not turn) (omega arith)
            (subst (λ i. IsHonestTurn a b i (limit k) (not turn) result.response_ranges)
              (half-limit j)
              (turned (half (limit (suc j))) (limit k) turn result.response_ranges x.honest))
            (next-IsSound (state turn from_a from_b ranges)
              (collect (state turn from_a from_b ranges) result) result sound))
