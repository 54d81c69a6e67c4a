-- ===== src/Storage/Expiry/Runs.antt =====
-- The expiry scan on a store with one note.
use chromatin_protocol.Prelude.{
  ℕ, ◌≡◌, ◌∙◌, refl, sym, ap, arith, List, true, some, none, is_some, bytes_eq, bytes_eq→eq,
  Bool-cases, inl, inr, if◌then◌else◌,
}
use chromatin_protocol.Storage.Samples.{
  sample_maps, sample_crypto, empty_store, calm, ns_a, note, hash_a,
}
use chromatin_protocol.Storage.Layout.{Storage, get, make_expiry_key, make_blob_key}
use chromatin_protocol.Storage.Query.{open_value, encrypt_value}
use chromatin_protocol.Storage.Write.{store_blob_limited}
use chromatin_protocol.Storage.Expiry.{
  is_due, purge_blob, purge_opened, purge_found, purge_entry, scan_entries, run_expiry_scan,
}
use chromatin_protocol.Storage.Expiry.Swept.{AreExpiryKeys, IsReadable, run_expiry_scan_swept}

abbrev with_note : Storage
with_note =
    (store_blob_limited calm empty_store ns_a note hash_a (sample_crypto.encode_blob note) 0 500
      5).0

abbrev note_key : List ℕ
note_key = make_expiry_key 3000060 hash_a

-- A minute after the note's timestamp it is purged, a second before that it is not.
purged_in_time : (run_expiry_scan calm 3000060 with_note).1 ≡ 1
unfolding empty_store is_due purge_blob purge_opened purge_found purge_entry scan_entries
    run_expiry_scan
purged_in_time = refl

kept_until_then : (run_expiry_scan calm 3000059 with_note).1 ≡ 0
unfolding empty_store is_due purge_blob purge_opened purge_found purge_entry scan_entries
    run_expiry_scan
kept_until_then = refl

single-IsReadable :
    (s : Storage) (k0 v0 : List ℕ)
    → ((key : List ℕ) → get key s.blobs ≡ (if bytes_eq k0 key then some v0 else none))
    → is_some (open_value s k0 v0) ≡ true
    → IsReadable s
single-IsReadable s k0 v0 all opens key value f = elim (Bool-cases (bytes_eq k0 key)) [
  | inl q ↦
      let same : v0 ≡ value = cc (f, rw q at (all key)) in
      sym (ap (λ k. is_some (open_value s k value)) (bytes_eq→eq k0 key q))
      ∙ sym (ap (λ v. is_some (open_value s k0 v)) same)
      ∙ opens
  | inr q ↦ absurd (cc (f, rw q at (all key)))
]

abbrev note_value : List ℕ
note_value =
    encrypt_value with_note.blob_key calm.nonce (sample_crypto.encode_blob note)
      (make_blob_key ns_a hash_a)

note-opens : is_some (open_value with_note (make_blob_key ns_a hash_a) note_value) ≡ true
unfolding empty_store
note-opens = refl

note-only :
    (key : List ℕ)
    → get key with_note.blobs
      ≡ (if bytes_eq (make_blob_key ns_a hash_a) key then some note_value else none)
unfolding empty_store
note-only key = refl

with_note-IsReadable : IsReadable with_note
with_note-IsReadable =
    single-IsReadable with_note (make_blob_key ns_a hash_a) note_value note-only note-opens

with_note-AreExpiryKeys : AreExpiryKeys (sample_maps.entries with_note.expiries)
unfolding empty_store
with_note-AreExpiryKeys = omega arith

run_expiry_scan_swept_example :
    get note_key (run_expiry_scan calm 3000060 with_note).0.expiries
    ≡ (if is_due 3000060 note_key then none else get note_key with_note.expiries)
run_expiry_scan_swept_example =
    run_expiry_scan_swept calm 3000060 with_note note_key refl with_note-AreExpiryKeys
      with_note-IsReadable
