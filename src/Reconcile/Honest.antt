-- ===== src/Reconcile/Honest.antt =====
-- Ranges that tell the truth about the list of their sender, and the answer to them.
use mathlib.Core.Path.{subst}
use chromatin_protocol.Prelude.{
  ℕ, ◌+◌, ◌-◌, ◌/◌, ◌%◌, ◌^◌, ◌≤◌, ◌<◌, ◌≡◌, sym, ap, ◌∙◌, arith, List, [], ◌∷◌, ◌++◌, true, false,
  some, length, le→ltb, All,
}
use chromatin_protocol.External.Mdbx.{bytes_lt}
use chromatin_protocol.Reconcile.{
  RangeMode, RangeEntry, ReconcileResult, min_hash, xor_items, bound_index, index_gap, item_entry,
  list_items,
}
use chromatin_protocol.Reconcile.Order.{
  Le, IsAscending, bound_index-le, bound_index_mono, between, contains, contains-between,
  between-contains,
}
use chromatin_protocol.Reconcile.Local.{items_of}

-- How many elements stand between two bounds.
abbrev pub span : List (List ℕ) → List ℕ → List ℕ → ℕ
span xs lo hi = bound_index xs hi - bound_index xs lo

-- Two lists that the protocol can compare: ascending, of sizes that fit a uint32, and without two
-- different ranges of the same bounds, count and fingerprint.
pub record AreReconcilable (p q : List (List ℕ)) : Type 0 where
  pub ascending_p : IsAscending p
  pub ascending_q : IsAscending q
  pub fits_p : length p < 2 ^ 32
  pub fits_q : length q < 2 ^ 32
  pub no_collision :
      (lo hi : List ℕ)
      → length (between p lo hi) ≡ length (between q lo hi)
      → xor_items min_hash (between p lo hi) ≡ xor_items min_hash (between q lo hi)
      → between p lo hi ≡ between q lo hi

-- An entry of the sender `p` to `q` that starts at `lo`; a fingerprint is of at most `s` elements of
-- `p`, where `q` has at most `r`.
abbrev pub EntryIsHonest :
    List (List ℕ) → List (List ℕ) → ℕ → ℕ → RangeMode → List ℕ → RangeEntry → Type 0
EntryIsHonest p q s r RangeMode.skip lo range =
    between p lo range.upper_bound ≡ between q lo range.upper_bound
EntryIsHonest p q s r RangeMode.item_list lo range = range.items ≡ between p lo range.upper_bound
EntryIsHonest p q s r RangeMode.fingerprint lo range =
    (range.count ≡ span p lo range.upper_bound)
    × ((range.fingerprint ≡ xor_items min_hash (between p lo range.upper_bound))
        × ((span p lo range.upper_bound ≤ s) × (span q lo range.upper_bound ≤ r)))

-- The ranges lead from `lo` to `hi` without gaps.
abbrev pub AreHonest :
    List (List ℕ) → List (List ℕ) → ℕ → ℕ → List ℕ → List ℕ → List RangeEntry → Type 0
AreHonest p q s r lo hi [] = lo ≡ hi
AreHonest p q s r lo hi (range ∷ ranges) =
    Le lo range.upper_bound
    × (EntryIsHonest p q s r range.mode lo range × AreHonest p q s r range.upper_bound hi ranges)

pub AreHonest-append :
    (p q : List (List ℕ)) (s r : ℕ) (lo mid hi : List ℕ) (xs ys : List RangeEntry)
    → AreHonest p q s r lo mid xs
    → AreHonest p q s r mid hi ys
    → AreHonest p q s r lo hi (xs ++ ys)
AreHonest-append p q s r lo mid hi [] ys a b = subst (λ k. AreHonest p q s r k hi ys) (sym a) b
AreHonest-append p q s r lo mid hi (x ∷ xs) ys (l, (e, a)) b =
    (l, (e, AreHonest-append p q s r x.upper_bound mid hi xs ys a b))

-- What only one side has between the bounds is among the received or the sent items.
abbrev pub AreCovered :
    List (List ℕ) → List (List ℕ) → List ℕ → List ℕ → List (List ℕ) → List (List ℕ) → Type 0
AreCovered p q lo hi received sent =
    (h : List ℕ)
    → Le lo h
    → bytes_lt h hi ≡ true
    → (contains h p ≡ true → contains h q ≡ false → contains h received ≡ true)
      × (contains h q ≡ true → contains h p ≡ false → contains h sent ≡ true)

abbrev pub half : ℕ → ℕ
half n = (n + 1) / 2

-- No fingerprint is left to compare.
abbrev pub IsResolvedMode : RangeMode → Type 0
IsResolvedMode RangeMode.skip = Unit {0}
IsResolvedMode RangeMode.item_list = Unit {0}
IsResolvedMode RangeMode.fingerprint = ⊥

abbrev pub IsResolved : RangeEntry → Type 0
IsResolved range = IsResolvedMode range.mode

abbrev pub AreResolved : List RangeEntry → Type 0
AreResolved = All IsResolved

-- The answer of `q` to ranges of `p` from `lo` to `hi`.
pub record IsAnswer (p q : List (List ℕ)) (s r : ℕ) (lo hi : List ℕ) (received : List (List ℕ))
    (a : ReconcileResult) : Type 0 where
  pub honest : AreHonest q p (half r) s lo hi a.response_ranges
  pub gathered : a.have_items ≡ received
  pub small : r ≤ 16 → AreResolved a.response_ranges
  pub covered : a.complete ≡ true → AreCovered p q lo hi received (items_of a.response_ranges)

pub index_gap_exact : (b e : ℕ) → b ≤ e → e < 2 ^ 32 → index_gap b e ≡ e - b
index_gap_exact b e p q = omega arith

module _ (p q : List (List ℕ)) (w : AreReconcilable p q) (lo hi : List ℕ) (up : Le lo hi) where
  pub ordered : bound_index q lo ≤ bound_index q hi
  ordered = bound_index_mono q lo hi up

  pub inside : bound_index q hi < 2 ^ 32
  inside = omega (arith, bound_index-le q hi, w.fits_q)

  pub list_items-between :
      list_items q hi (bound_index q lo) (bound_index q hi)
      ≡ some (
          item_entry hi
            (index_gap (bound_index q lo) (bound_index q hi) % 2 ^ 32)
            (between q lo hi))
  unfolding list_items
  list_items-between = rw (le→ltb (bound_index q hi) (bound_index q lo) ordered)

  pub agree-covered :
      between p lo hi ≡ between q lo hi
      → (received sent : List (List ℕ)) → AreCovered p q lo hi received sent
  agree-covered e received sent h l u = (
    (λ m n. ground (
      arith,
      between-contains p lo hi h w.ascending_p m l u,
      ap (contains h) e,
      contains-between q lo hi h,
    )),
    λ m n. ground (
      arith,
      between-contains q lo hi h w.ascending_q m l u,
      ap (contains h) e,
      contains-between p lo hi h,
    ),
  )

  pub items-covered :
      (sent : List (List ℕ)) → sent ≡ between q lo hi → AreCovered p q lo hi (between p lo hi) sent
  items-covered sent e h l u = (
    (λ m n. between-contains p lo hi h w.ascending_p m l u),
    λ m n. ap (contains h) e ∙ between-contains q lo hi h w.ascending_q m l u,
  )
