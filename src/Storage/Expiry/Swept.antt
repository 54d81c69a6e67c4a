-- ===== src/Storage/Expiry/Swept.antt =====
-- After a scan nothing that was due is left in the expiry map.
use mathlib.Core.Path.{subst}
use chromatin_protocol.Prelude.{
  ℕ, suc, ◌≤◌, ◌≡◌, refl, sym, ap, ◌∙◌, arith, List, [], ◌∷◌, true, false, none, some, is_some,
  Option-cases, Bool-cases, inl, inr, if◌then◌else◌, length, take, drop, bytes_eq, bytes_eq→eq,
  AreBytes, All,
}
use chromatin_protocol.Endian.{read_u64_be}
use chromatin_protocol.External.Mdbx.{Mdbx, Entry, lookup, Above, IsSorted, bytes_lt}
use chromatin_protocol.External.Crypto.{Crypto}
use chromatin_protocol.Storage.Layout.{Storage, Io, get, make_blob_key}
use chromatin_protocol.Storage.Query.{open_value}
use chromatin_protocol.Codec.{BlobData}
use chromatin_protocol.Storage.Expiry.{
  is_due, purge_blob, purge_opened, purge_found, purge_entry, forget_entry, scan_entries,
  run_expiry_scan,
}
use chromatin_protocol.Reconcile.Order.{bytes_lt_irrefl}
use chromatin_protocol.Storage.Expiry.Order.{read_u64_be-bytes_lt}

-- Every key has the 40 bytes that `make_expiry_key` builds.
abbrev pub AreExpiryKeys : List Entry → Type 0
AreExpiryKeys = All (λ e. (length e.0 ≡ 40) × AreBytes e.0)

found-Above :
    (k0 k v : List ℕ) (es : List Entry) → Above k0 es → lookup k es ≡ some v → bytes_lt k0 k ≡ true
unfolding lookup
found-Above k0 k v [] a f = cc
found-Above k0 k v ((j, w) ∷ es) (l, a) f = elim (Bool-cases (bytes_eq j k)) [
  | inl e ↦ subst (λ x. bytes_lt k0 x ≡ true) (bytes_eq→eq j k e) l
  | inr e ↦ found-Above k0 k v es a (rw e at f)
]

found-AreExpiryKeys :
    (k v : List ℕ) (es : List Entry)
    → AreExpiryKeys es
    → lookup k es ≡ some v
    → (length k ≡ 40) × AreBytes k
unfolding lookup
found-AreExpiryKeys k v [] a f = cc
found-AreExpiryKeys k v ((j, w) ∷ es) (l, a) f = elim (Bool-cases (bytes_eq j k)) [
  | inl e ↦ subst (λ x. (length x ≡ 40) × AreBytes x) (bytes_eq→eq j k e) l
  | inr e ↦ found-AreExpiryKeys k v es a (rw e at f)
]

later_not_due :
    (now : ℕ) (k0 k : List ℕ)
    → length k0 ≡ 40
    → AreBytes k0
    → length k ≡ 40
    → AreBytes k
    → bytes_lt k0 k ≡ true
    → is_due now k0 ≡ false
    → is_due now k ≡ false
unfolding is_due
later_not_due now k0 k n b m c l d =
    let le : read_u64_be k0 ≤ read_u64_be k =
      read_u64_be-bytes_lt k0 k (omega arith) (omega arith) b c l in
    ground arith

absent-Above : (k0 : List ℕ) (es : List Entry) → Above k0 es → lookup k0 es ≡ none
absent-Above k0 es a = elim (Option-cases (lookup k0 es)) [
  | inl n ↦ n
  | inr (v, f) ↦ absurd (cc (bytes_lt_irrefl k0, found-Above k0 k0 v es a f))
]

module _ ⦃M : Mdbx⦄ ⦃C : Crypto⦄ where
  purge_entry-expiries :
      (s t : Storage) (k v : List ℕ) → purge_entry s k v ≡ some t → t.expiries ≡ s.expiries
  unfolding purge_entry purge_found purge_opened purge_blob
  purge_entry-expiries s t k v e = ground arith

module _ ⦃M : Mdbx⦄ ⦃C : Crypto⦄ (now : ℕ) where
  -- The map keeps what is not due.
  abbrev IsSwept : Storage → Storage → Type 0
  IsSwept s s' =
      (k : List ℕ) → get k s'.expiries ≡ (if is_due now k then none else get k s.expiries)

  lookup-nil : (k : List ℕ) → lookup k [] ≡ none
  unfolding lookup
  lookup-nil k = refl

  -- Behind an entry that is not due nothing is.
  untouched :
      (k0 v0 : List ℕ) (es : List Entry) (s : Storage)
      → Above k0 es
      → (length k0 ≡ 40) × AreBytes k0
      → AreExpiryKeys es
      → ((k : List ℕ) → get k s.expiries ≡ lookup k ((k0, v0) ∷ es))
      → is_due now k0 ≡ false
      → IsSwept s s
  unfolding lookup
  untouched k0 v0 es s o (n0, b0) ks m d k = elim (Bool-cases (is_due now k)) [
    | inr u ↦ rw u
    | inl u ↦ elim (Bool-cases (bytes_eq k0 k)) [
      | inl q ↦ absurd (cc (ap (is_due now) (bytes_eq→eq k0 k q), u, d))
      | inr q ↦ elim (Option-cases (lookup k es)) [
        | inl f ↦ rw (u, m k, q, f)
        | inr (v, f) ↦
            let (n, b) = found-AreExpiryKeys k v es ks f in
            absurd (cc (u, later_not_due now k0 k n0 b0 n b (found-Above k0 k v es o f) d))
      ]
    ]
  ]

  -- The entry that was read is forgotten, and the rest is what is still to come.
  forgotten :
      (k0 v0 : List ℕ) (es : List Entry) (s t : Storage)
      → t.expiries ≡ s.expiries
      → Above k0 es
      → ((k : List ℕ) → get k s.expiries ≡ lookup k ((k0, v0) ∷ es))
      → (k : List ℕ) → get k (forget_entry k0 t).expiries ≡ lookup k es
  unfolding lookup
  forgotten k0 v0 es s t kept o m k = elim (Bool-cases (bytes_eq k0 k)) [
    | inl q ↦
        rw (M.lookup-erase k0 k t.expiries, q)
          (subst (λ x. none ≡ lookup x es) (bytes_eq→eq k0 k q) (sym (absent-Above k0 es o)))
    | inr q ↦ rw (M.lookup-erase k0 k t.expiries, q) (ap (get k) kept ∙ rw q at (m k))
  ]

  still_due :
      (k0 k : List ℕ) (s t : Storage)
      → t.expiries ≡ s.expiries
      → is_due now k0 ≡ true
      → (if is_due now k then none else get k (forget_entry k0 t).expiries)
        ≡ (if is_due now k then none else get k s.expiries)
  still_due k0 k s t kept d = elim (Bool-cases (is_due now k)) [
    | inl u ↦ rw u
    | inr u ↦ elim (Bool-cases (bytes_eq k0 k)) [
      | inl q ↦ absurd (cc (ap (is_due now) (bytes_eq→eq k0 k q), u, d))
      | inr q ↦ rw (u, M.lookup-erase k0 k t.expiries, q) (ap (get k) kept)
    ]
  ]

  scan-IsSwept :
      (es : List Entry) (s s' : Storage) (purged n : ℕ)
      → IsSorted es
      → AreExpiryKeys es
      → ((k : List ℕ) → get k s.expiries ≡ lookup k es)
      → scan_entries now es s purged ≡ (some s', n)
      → IsSwept s s'
  unfolding scan_entries
  scan-IsSwept [] s s' purged n o ks m e k = ground (arith, m k, lookup-nil k)
  scan-IsSwept ((k0, v0) ∷ es) s s' purged n (o, os) (l, ks) m e k =
      elim (Bool-cases (is_due now k0)) [
        | inl d ↦ elim (Option-cases (purge_entry s k0 v0)) [
          | inl p ↦ absurd (cc (rw (d, p) at e))
          | inr (t, p) ↦
              let kept = purge_entry-expiries s t k0 v0 p in
              let swept =
                scan-IsSwept es (forget_entry k0 t) s' (suc purged) n os ks
                  (forgotten k0 v0 es s t kept o m) (rw (d, p) at e) k in
              swept ∙ still_due k0 k s t kept d
        ]
        | inr d ↦
            let same : s ≡ s' = cc (rw d at e) in
            ap (λ u. get k u.expiries) (sym same) ∙ untouched k0 v0 es s o l ks m d k
      ]

-- Every stored value opens.
abbrev pub IsReadable : ⦃M : Mdbx⦄ ⦃C : Crypto⦄ → Storage → Type 0
IsReadable s =
    (key value : List ℕ) → get key s.blobs ≡ some value → is_some (open_value s key value) ≡ true

module _ ⦃M : Mdbx⦄ ⦃C : Crypto⦄ where
  open_value-purged :
      (s : Storage) (ns hash value : List ℕ) (blob : BlobData) (k key v : List ℕ)
      → open_value (forget_entry k (purge_blob s ns hash value blob)) key v ≡ open_value s key v
  unfolding open_value purge_blob
  open_value-purged s ns hash value blob k key v = refl

  purge_blob-IsReadable :
      (s : Storage) (ns hash value : List ℕ) (blob : BlobData) (k : List ℕ)
      → IsReadable s
      → IsReadable (forget_entry k (purge_blob s ns hash value blob))
  purge_blob-IsReadable s ns hash value blob k r key v f =
      ap is_some (open_value-purged s ns hash value blob k key v)
      ∙ r key v
          (unfold purge_blob in ground (arith, M.lookup-erase (make_blob_key ns hash) key s.blobs))

  forget-IsReadable : (s : Storage) (k : List ℕ) → IsReadable s → IsReadable (forget_entry k s)
  unfolding open_value
  forget-IsReadable s k r = r

  -- A readable store survives the purge of any entry.
  purge_entry-IsReadable :
      (s : Storage) (k v : List ℕ)
      → IsReadable s
      → (t : Storage) × ((purge_entry s k v ≡ some t) × IsReadable (forget_entry k t))
  unfolding purge_entry purge_found purge_opened
  purge_entry-IsReadable s k v r =
      let ns = take 32 v in
      let hash = drop 8 k in
      let key = make_blob_key ns hash in
      elim (Option-cases (get key s.blobs)) [
        | inl f ↦ (s, (rw f refl, forget-IsReadable s k r))
        | inr (value, f) ↦ elim (Option-cases (open_value s key value)) [
          | inl o ↦ absurd (cc (r key value f, ap is_some o))
          | inr (blob, o) ↦ (
            purge_blob s ns hash value blob,
            (rw (f, o) refl, purge_blob-IsReadable s ns hash value blob k r),
          )
        ]
      ]

  scan_entries-ends :
      (now : ℕ) (es : List Entry) (s : Storage) (purged : ℕ)
      → IsReadable s
      → (s' : Storage) × (n : ℕ) × (scan_entries now es s purged ≡ (some s', n))
  unfolding scan_entries
  scan_entries-ends now [] s purged r = (s, purged, refl)
  scan_entries-ends now ((k, v) ∷ es) s purged r = elim (Bool-cases (is_due now k)) [
    | inr d ↦ rw d (s, purged, refl)
    | inl d ↦
        let (t, (p, r')) = purge_entry-IsReadable s k v r in
        rw (d, p) (scan_entries-ends now es (forget_entry k t) (suc purged) r')
  ]

-- In a store whose values all open and whose expiry keys all have their 40 bytes, a scan in which the
-- transaction starts and commits takes every entry whose time has come off the expiry map, and only
-- those: no exception leaves it half done, and stopping at the first entry that is not due misses none.
pub run_expiry_scan_swept :
    ⦃M : Mdbx⦄ ⦃C : Crypto⦄ (io : Io) (now : ℕ) (s : Storage) (k : List ℕ)
    → io.works ≡ true
    → AreExpiryKeys (M.entries s.expiries)
    → IsReadable s
    → get k (run_expiry_scan io now s).0.expiries
      ≡ (if is_due now k then none else get k s.expiries)
unfolding run_expiry_scan
run_expiry_scan_swept ⦃M⦄ ⦃C⦄ io now s k w ks r =
    let es = M.entries s.expiries in
    let (s', n, e) = scan_entries-ends now es s 0 r in
    rw (w, e) (scan-IsSwept now es s s' 0 n (M.entries-IsSorted s.expiries) ks (λ j. refl) e k)
