-- ===== src/Storage/Quotas.antt =====
-- The quota aggregate of a namespace under `store_blob` and `delete_blob_data`.
use mathlib.Core.Path.{subst}
use chromatin_protocol.Prelude.{
  ℕ, ◌+◌, ◌%◌, ◌^◌, ◌≤◌, ◌<◌, ◌≡◌, ap, ◌∙◌, arith, true, false, ◌&&◌, not, none, some, List, length,
  ◌==◌, bytes_eq, bytes_eq→eq, Bool-cases, inl, inr, if◌then◌else◌,
}
use chromatin_protocol.External.Mdbx.{Mdbx}
use chromatin_protocol.External.Crypto.{Crypto}
use chromatin_protocol.Codec.{BlobData, is_tombstone}
use chromatin_protocol.Storage.Layout.{
  Storage, Io, Status, get, make_blob_key, NamespaceQuota, encode_quota_value,
}
use chromatin_protocol.Storage.Query.{quota_in, quota_of}
use chromatin_protocol.Storage.Write.{
  store_blob_limited, store_txn, write_blob, add_quota, over_quota,
}
use chromatin_protocol.Storage.Erase.{less_quota, write_quota, drop_quota}
use chromatin_protocol.Storage.Maps.{get-upsert_self, get-upsert_ne, get-erase_self}
use chromatin_protocol.Storage.Values.{
  IsU64Quota, decode-encode_quota_value, length-encode_quota_value, length-encrypt_value,
}
use chromatin_protocol.Storage.Stored.{stored_writes}

module _ ⦃M : Mdbx⦄ (ns : List ℕ) where
  -- The aggregate that an encoded entry stands for.
  quota_of-some :
      (q : NamespaceQuota) (m : M.Map)
      → IsU64Quota q
      → get ns m ≡ some (encode_quota_value q)
      → quota_of ns m ≡ q
  unfolding quota_of
  quota_of-some q m h e = rw (e, length-encode_quota_value q) (decode-encode_quota_value q h)

  quota_of-none :
      (m : M.Map) → get ns m ≡ none → quota_of ns m ≡ record { total_bytes = 0; blob_count = 0 }
  unfolding quota_of
  quota_of-none m e = rw e

  quota_of-write_quota :
      (q : NamespaceQuota) (m : M.Map) → IsU64Quota q → quota_of ns (write_quota ns q m) ≡ q
  unfolding write_quota
  quota_of-write_quota q m h = elim (Bool-cases (q.total_bytes == 0 && q.blob_count == 0)) [
    | inl z ↦ rw z (quota_of-none _ (get-erase_self ns m) ∙ ground arith)
    | inr z ↦ rw z (quota_of-some q _ h (get-upsert_self ns _ m))
  ]

  less-IsU64Quota : (q : NamespaceQuota) (n : ℕ) → IsU64Quota q → IsU64Quota (less_quota q n)
  unfolding less_quota
  less-IsU64Quota q n h = ground arith

  -- `delete_blob_data` takes the size of the stored value and one blob off.
  pub quota_of-drop_quota :
      (q : NamespaceQuota) (n : ℕ) (m : M.Map)
      → IsU64Quota q
      → get ns m ≡ some (encode_quota_value q)
      → quota_of ns (drop_quota ns n m) ≡ less_quota q n
  unfolding drop_quota
  quota_of-drop_quota q n m h e =
      rw (e, length-encode_quota_value q, decode-encode_quota_value q h)
        (quota_of-write_quota (less_quota q n) m (less-IsU64Quota q n h))

-- A blob that counts adds its stored size and one.
abbrev pub more_quota : NamespaceQuota → ℕ → NamespaceQuota
more_quota q size = record {
  total_bytes = (q.total_bytes + size) % 2 ^ 64;
  blob_count = (q.blob_count + 1) % 2 ^ 64;
}

module _ ⦃M : Mdbx⦄ ⦃C : Crypto⦄ (io : Io) (s : Storage) (ns : List ℕ) (blob : BlobData)
    (hash encoded : List ℕ) (nonce : length io.nonce ≡ 12) where
  abbrev written : Storage
  written = (write_blob io s ns blob hash encoded).0

  pub counted-entry :
      is_tombstone blob.body ≡ false
      → get ns written.quotas
        ≡ some (encode_quota_value (more_quota (quota_of ns s.quotas) (length encoded + 29)))
  unfolding write_blob add_quota
  counted-entry t =
      rw (t, length-encrypt_value s.blob_key io.nonce encoded (make_blob_key ns hash) nonce)
        (get-upsert_self ns _ s.quotas)

  pub more-IsU64Quota : IsU64Quota (more_quota (quota_of ns s.quotas) (length encoded + 29))
  more-IsU64Quota = record { bytes_fit = omega arith; count_fits = omega arith }

  counted-quota :
      is_tombstone blob.body ≡ false
      → quota_of ns written.quotas ≡ more_quota (quota_of ns s.quotas) (length encoded + 29)
  counted-quota t = quota_of-some ns _ written.quotas more-IsU64Quota (counted-entry t)

  pub exempt-quota : is_tombstone blob.body ≡ true → written.quotas ≡ s.quotas
  unfolding write_blob add_quota
  exempt-quota t = rw t

  other-quota : (ns' : List ℕ) → bytes_eq ns ns' ≡ false → get ns' written.quotas ≡ get ns' s.quotas
  unfolding write_blob add_quota
  other-quota ns' e = elim (Bool-cases (is_tombstone blob.body)) [
    | inl t ↦ rw t
    | inr t ↦ rw t (get-upsert_ne ns _ s.quotas ns' e)
  ]

  quota-written :
      (ns' : List ℕ)
      → quota_of ns' written.quotas ≡ (
          if bytes_eq ns ns' && not (is_tombstone blob.body)
          then more_quota (quota_of ns s.quotas) (length encoded + 29)
          else quota_of ns' s.quotas)
  quota-written ns' =
      let grown = more_quota (quota_of ns s.quotas) (length encoded + 29) in
      elim (Bool-cases (is_tombstone blob.body)) [
        | inl t ↦ rw (exempt-quota t, t) (ground arith)
        | inr t ↦ elim (Bool-cases (bytes_eq ns ns')) [
          | inl e ↦
              rw (e, t)
                (subst (λ k. quota_of k written.quotas ≡ grown) (bytes_eq→eq ns ns' e)
                  (counted-quota t))
          | inr e ↦ rw e (unfold quota_of in ap quota_in (other-quota ns' e))
        ]
      ]

-- Storing a blob under a 12-byte nonce adds the size of its envelope, 29 bytes above the encoding,
-- and one blob to the aggregate of its namespace, with 64-bit wrap-around, unless the blob is a
-- tombstone, which adds nothing. The aggregate of any other namespace stays.
pub quota-store_blob :
    ⦃M : Mdbx⦄ ⦃C : Crypto⦄ (io : Io) (s : Storage) (ns : List ℕ) (blob : BlobData)
    (hash encoded : List ℕ) (max_storage_bytes byte_limit count_limit : ℕ) (ns' : List ℕ)
    → length io.nonce ≡ 12
    → (store_blob_limited io s ns blob hash encoded max_storage_bytes byte_limit
        count_limit).1.status
      ≡ Status.stored
    → quota_of ns'
        (store_blob_limited io s ns blob hash encoded max_storage_bytes byte_limit
          count_limit).0.quotas
      ≡ (if bytes_eq ns ns' && not (is_tombstone blob.body)
          then more_quota (quota_of ns s.quotas) (length encoded + 29)
          else quota_of ns' s.quotas)
quota-store_blob ⦃M⦄ ⦃C⦄ io s ns blob hash encoded m b c ns' n ok =
    rw ((stored_writes io s ns blob hash encoded m b c ok).0)
      (quota-written io s ns blob hash encoded n ns')

within_quota :
    (q : NamespaceQuota) (size byte_limit count_limit : ℕ)
    → 0 < byte_limit
    → 0 < count_limit
    → q.total_bytes + size + 29 < 2 ^ 64
    → q.blob_count + 1 < 2 ^ 64
    → over_quota q size byte_limit count_limit ≡ false
    → ((more_quota q (size + 29)).total_bytes ≤ byte_limit + 29)
      × ((more_quota q (size + 29)).blob_count ≤ count_limit)
unfolding over_quota
within_quota q size b c hb hc fits one h = ground arith

stored_within :
    ⦃M : Mdbx⦄ ⦃C : Crypto⦄ (io : Io) (s : Storage) (ns : List ℕ) (blob : BlobData)
    (hash encoded : List ℕ) (max_storage_bytes byte_limit count_limit : ℕ)
    → 0 < byte_limit
    → is_tombstone blob.body ≡ false
    → (store_blob_limited io s ns blob hash encoded max_storage_bytes byte_limit
        count_limit).1.status
      ≡ Status.stored
    → over_quota (quota_of ns s.quotas) (length encoded) byte_limit count_limit ≡ false
unfolding store_blob_limited store_txn
stored_within io s ns blob hash encoded m b c hb t ok = ground arith

-- The limits that `store_blob` was given hold after it stored a blob that counts, but for the 29
-- bytes by which the stored envelope exceeds the encoding that is tested. The sum is assumed not to
-- wrap.
pub quota_limit-store_blob :
    ⦃M : Mdbx⦄ ⦃C : Crypto⦄ (io : Io) (s : Storage) (ns : List ℕ) (blob : BlobData)
    (hash encoded : List ℕ) (max_storage_bytes byte_limit count_limit : ℕ)
    → length io.nonce ≡ 12
    → 0 < byte_limit
    → 0 < count_limit
    → is_tombstone blob.body ≡ false
    → (quota_of ns s.quotas).total_bytes + length encoded + 29 < 2 ^ 64
    → (quota_of ns s.quotas).blob_count + 1 < 2 ^ 64
    → (store_blob_limited io s ns blob hash encoded max_storage_bytes byte_limit
        count_limit).1.status
      ≡ Status.stored
    → ((quota_of ns
          (store_blob_limited io s ns blob hash encoded max_storage_bytes byte_limit
            count_limit).0.quotas).total_bytes
        ≤ byte_limit + 29)
      × ((quota_of ns
            (store_blob_limited io s ns blob hash encoded max_storage_bytes byte_limit
              count_limit).0.quotas).blob_count
          ≤ count_limit)
quota_limit-store_blob ⦃M⦄ ⦃C⦄ io s ns blob hash encoded m b c n hb hc t fits one ok =
    rw
      (
        (stored_writes io s ns blob hash encoded m b c ok).0,
        counted-quota io s ns blob hash encoded n t,
      )
      (within_quota (quota_of ns s.quotas) (length encoded) b c hb hc fits one
        (stored_within io s ns blob hash encoded m b c hb t ok))
