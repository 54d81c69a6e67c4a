-- ===== src/Reconcile/Rounds.antt =====
-- A whole message of honest ranges, and the rounds until both sides are done.
use mathlib.Core.Path.{subst}
use chromatin_protocol.Prelude.{
  ℕ, ◌≡◌, refl, sym, ap, ◌∙◌, arith, List, [], ◌∷◌, ◌++◌, true, ◌&&◌, ◌||◌, Option, some,
  Bool-cases, inl, inr, append_assoc, Option-cases, All-append,
}
use chromatin_protocol.External.Mdbx.{bytes_lt}
use chromatin_protocol.Reconcile.{
  RangeMode, RangeEntry, ReconcileResult, answer_as, answer_items, list_items, range_indices,
  process_from,
}
use chromatin_protocol.Reconcile.Order.{Le, contains, contains-between}
use chromatin_protocol.Reconcile.Local.{items_of, items_in}
use chromatin_protocol.Reconcile.Honest.{
  AreReconcilable, EntryIsHonest, AreHonest, AreHonest-append, AreCovered, half, IsResolvedMode,
  IsResolved, AreResolved, IsAnswer,
}
use chromatin_protocol.Reconcile.Answer.{entry-HasAnswer}

pub contains-append :
    (h : List ℕ) (xs ys : List (List ℕ)) → contains h (xs ++ ys) ≡ (contains h xs || contains h ys)
unfolding contains
contains-append h [] ys = refl
contains-append h (x ∷ xs) ys = ground (arith, contains-append h xs ys)

pub items_of-append : (xs ys : List RangeEntry) → items_of (xs ++ ys) ≡ items_of xs ++ items_of ys
unfolding items_of
items_of-append [] ys = refl
items_of-append (x ∷ xs) ys =
    ap (λ (t : List (List ℕ)). items_in x.mode x ++ t) (items_of-append xs ys)
    ∙ sym (append_assoc (items_in x.mode x) (items_of xs) (items_of ys))

module _ (p q : List (List ℕ)) where
  -- What is covered up to `mid` and from there on is covered.
  AreCovered-append :
      (lo mid hi : List ℕ) (r1 r2 s1 s2 : List (List ℕ))
      → AreCovered p q lo mid r1 s1
      → AreCovered p q mid hi r2 s2
      → AreCovered p q lo hi (r1 ++ r2) (s1 ++ s2)
  AreCovered-append lo mid hi r1 r2 s1 s2 a b h l u =
      rw (contains-append h r1 r2, contains-append h s1 s2)
        (elim (Bool-cases (bytes_lt h mid)) [
          | inl e ↦ ((λ m n. rw ((a h l e).0 m n)), (λ m n. rw ((a h l e).1 m n)))
          | inr e ↦
              ((λ m n. ground (arith, (b h e u).0 m n)), (λ m n. ground (arith, (b h e u).1 m n)))
        ])

  join-IsAnswer :
      (s r : ℕ) (lo mid hi : List ℕ) (r1 r2 : List (List ℕ)) (a b : ReconcileResult)
      → IsAnswer p q s r lo mid r1 a
      → IsAnswer p q s r mid hi r2 b
      → IsAnswer p q s r lo hi (r1 ++ r2) (record {
        response_ranges = a.response_ranges ++ b.response_ranges;
        have_items = a.have_items ++ b.have_items;
        complete = a.complete && b.complete;
      })
  join-IsAnswer s r lo mid hi r1 r2 a b x y = record {
    honest =
        AreHonest-append q p (half r) s lo mid hi a.response_ranges b.response_ranges x.honest
          y.honest;
    gathered = rw (x.gathered, y.gathered);
    small = λ n. All-append IsResolved a.response_ranges b.response_ranges (x.small n) (y.small n);
    covered = λ c. rw (items_of-append a.response_ranges b.response_ranges) (
        AreCovered-append lo mid hi r1 r2 _ _ (x.covered (ground arith))
          (y.covered (ground arith)));
  }

  module _ (w : AreReconcilable p q) (s r : ℕ) where
    pub process-IsAnswer :
        (lo hi : List ℕ) (ranges : List RangeEntry)
        → AreHonest p q s r lo hi ranges
        → (a : ReconcileResult) × ((process_from q lo ranges ≡ some a)
            × IsAnswer p q s r lo hi (items_of ranges) a)
    unfolding process_from items_of
    process-IsAnswer lo hi [] h = (
      record { response_ranges = []; have_items = []; complete = true },
      (
        refl,
        record {
          honest = h;
          gathered = refl;
          small = λ n. tt;
          covered = λ c x l u. absurd (empty x l (subst (λ k. bytes_lt x k ≡ true) (sym h) u));
        },
      ),
    )
      where
        empty : (x : List ℕ) → Le lo x → bytes_lt x lo ≡ true → ⊥
        empty x l u = cc
    process-IsAnswer lo hi (range ∷ ranges) (up, (e, h)) =
        let (a, (found, x)) = entry-HasAnswer p q w s r lo range up range.mode e in
        let (b, (rest, y)) = process-IsAnswer range.upper_bound hi ranges h in
        (_, (rw (found, rest), join-IsAnswer s r lo range.upper_bound hi _ _ a b x y))

entry-contains :
    (p q : List (List ℕ)) (s r : ℕ) (lo : List ℕ) (range : RangeEntry) (h : List ℕ)
    (mode : RangeMode)
    → EntryIsHonest p q s r mode lo range
    → contains h (items_in mode range) ≡ true
    → contains h p ≡ true
entry-contains p q s r lo range h RangeMode.skip e m = unfold contains in cc
entry-contains p q s r lo range h RangeMode.fingerprint e m = unfold contains in cc
entry-contains p q s r lo range h RangeMode.item_list e m =
    contains-between p lo range.upper_bound h (sym (ap (contains h) e) ∙ m)

-- Where nothing but skipped ranges and item lists arrives, the exchange is complete.
abbrev Completes : Option ReconcileResult → Type 0
Completes found = (a : ReconcileResult) → found ≡ some a → a.complete ≡ true

entry-Completes :
    (q : List (List ℕ)) (lo : List ℕ) (range : RangeEntry) (mode : RangeMode)
    → IsResolvedMode mode
    → Completes (answer_as mode q lo range)
unfolding answer_as answer_items list_items range_indices
entry-Completes q lo range RangeMode.skip u a e = ground arith
entry-Completes q lo range RangeMode.item_list u a e = ground arith
entry-Completes q lo range RangeMode.fingerprint u a e = absurd u

pub resolved-Completes :
    (q : List (List ℕ)) (lo : List ℕ) (ranges : List RangeEntry)
    → AreResolved ranges
    → Completes (process_from q lo ranges)
unfolding process_from
resolved-Completes q lo [] u a e = ground arith
resolved-Completes q lo (range ∷ ranges) (u, us) a e =
    elim (Option-cases (answer_as range.mode q lo range)) [
      | inl n ↦ absurd (cc (rw n at e))
      | inr (x, n) ↦ elim (Option-cases (process_from q range.upper_bound ranges)) [
        | inl m ↦ absurd (cc (rw (n, m) at e))
        | inr (y, m) ↦
            let first : x.complete ≡ true = entry-Completes q lo range range.mode u x n in
            let later : y.complete ≡ true = resolved-Completes q range.upper_bound ranges us y m in
            ground (arith, rw (n, m) at e)
      ]
    ]

-- The items that honest ranges carry are elements of the sender's list.
pub honest-contains :
    (p q : List (List ℕ)) (s r : ℕ) (lo hi : List ℕ) (ranges : List RangeEntry) (h : List ℕ)
    → AreHonest p q s r lo hi ranges
    → contains h (items_of ranges) ≡ true
    → contains h p ≡ true
unfolding items_of
honest-contains p q s r lo hi [] h a m = unfold contains in cc
honest-contains p q s r lo hi (range ∷ ranges) h (up, (e, a)) m =
    let later = honest-contains p q s r range.upper_bound hi ranges h a in
    ground (
      arith,
      contains-append h (items_in range.mode range) (items_of ranges),
      later,
      entry-contains p q s r lo range h range.mode e,
    )
