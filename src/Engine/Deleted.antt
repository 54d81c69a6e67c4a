-- ===== src/Engine/Deleted.antt =====
-- What a deletion leaves behind.
use chromatin_protocol.Prelude.{
  ℕ, ◌≡◌, refl, ◌∙◌, arith, true, false, Option, none, some, List, length, Bool-cases, inl, inr,
  bytes_eq, bytes_eq_self, bytes_eq→eq,
}
use chromatin_protocol.External.Mdbx.{Mdbx}
use chromatin_protocol.External.Crypto.{Crypto}
use chromatin_protocol.Codec.{BlobData, is_tombstone, extract_tombstone_target}
use chromatin_protocol.Storage.Layout.{Storage, Status, StoreResult, make_blob_key}
use chromatin_protocol.Storage.Query.{get_blob, marks, get_owner_pubkey}
use chromatin_protocol.Storage.Write.{store_blob, store_blob_limited}
use chromatin_protocol.Storage.Erase.{delete_blob_data}
use chromatin_protocol.Storage.Stored.{other-written, stored_writes, marks-written}
use chromatin_protocol.Storage.Erased.{deleted_view}
use chromatin_protocol.Engine.Config.{
  World, IngestError, IngestStatus, IngestResult, WriteAck, result_for, ack_of,
}
use chromatin_protocol.Engine.Resolve.{owner_signer}
use chromatin_protocol.Engine.Ingest.{build_signing_input}
use chromatin_protocol.Engine.Delete.{
  delete_checks, delete_and_store, delete_with, delete_after, delete_blob,
}

-- Only a stored blob is acknowledged as stored.
pub result_for-stored :
    (r : StoreResult) (status : Status) (ack : WriteAck)
    → result_for r status ≡ IngestResult.success ack
    → ack.status ≡ IngestStatus.stored
    → status ≡ Status.stored
unfolding result_for ack_of
result_for-stored r Status.stored ack ok st = refl
result_for-stored r Status.duplicate ack ok st = cc (ok, st)
result_for-stored r Status.capacity_exceeded ack ok st = cc
result_for-stored r Status.quota_exceeded ack ok st = cc
result_for-stored r Status.error ack ok st = cc

module _ ⦃M : Mdbx⦄ ⦃C : Crypto⦄ (w : World) (ns : List ℕ) (request : BlobData) where
  abbrev target : List ℕ
  target = extract_tombstone_target request.body

  -- The key under which the tombstone itself is stored.
  abbrev own_key : List ℕ
  own_key = make_blob_key ns (C.sha3_256 (C.encode_blob request))

  -- The owner's signature, and what a reader finds afterwards.
  pub record Deleted (s : Storage) : Type 0 where
    pub gone : get_blob s ns target ≡ none
    pub marked : marks s ns target ≡ true

  delete_and_store-Deleted :
      (s : Storage) (ack : WriteAck)
      → length (w.io 2).nonce ≡ 12
      → length request.signer_hint ≡ 32
      → (w.io 3).works ≡ true
      → is_tombstone request.body ≡ true
      → bytes_eq own_key (make_blob_key ns target) ≡ false
      → (delete_and_store w s ns request).1 ≡ IngestResult.success ack
      → ack.status ≡ IngestStatus.stored
      → Deleted (delete_and_store w s ns request).0
  unfolding delete_and_store store_blob
  delete_and_store-Deleted s ack n h works t other ok st =
      let encoded = C.encode_blob request in
      let hash = C.sha3_256 encoded in
      let s' = (delete_blob_data (w.io 3) s ns target).0 in
      let r = store_blob_limited (w.io 2) s' ns request hash encoded 0 0 0 in
      let stored = result_for-stored r.1 r.1.status ack ok st in
      record {
        gone = rw ((stored_writes (w.io 2) s' ns request hash encoded 0 0 0 stored).0) (
            other-written (w.io 2) s' ns request hash ns target other
            ∙ deleted_view (w.io 3) s ns target ns target works
            ∙ rw (bytes_eq_self (make_blob_key ns target)));
        marked = rw ((stored_writes (w.io 2) s' ns request hash encoded 0 0 0 stored).0) (
            marks-written (w.io 2) s' ns request hash ns target t
            ∙ rw (bytes_eq_self (make_blob_key ns target)));
      }

  abbrev pub SignedByOwner : List ℕ → Type 0
  SignedByOwner pk =
      (C.sha3_256 pk ≡ ns)
      × (C.verify (build_signing_input ns request.body request.ttl request.timestamp)
            request.signature pk
          ≡ true)

  delete_checks-tombstone :
      delete_checks w request ≡ none → (is_tombstone request.body ≡ true) × (request.ttl ≡ 0)
  unfolding delete_checks
  delete_checks-tombstone h = ground arith

  module _ (ack : WriteAck) (st : ack.status ≡ IngestStatus.stored) (n : length (w.io 2).nonce ≡ 12)
      (h : length request.signer_hint ≡ 32) (works : (w.io 3).works ≡ true)
      (other : bytes_eq own_key (make_blob_key ns target) ≡ false) where
    abbrev Effect : Storage × IngestResult → Type 0
    Effect (s, r) =
        r ≡ IngestResult.success ack
        → (pk : List ℕ) × SignedByOwner pk
          × (get_blob s ns target ≡ none)
          × (marks s ns target ≡ true)

    delete_with-Effect :
        (p : Storage × Option (List ℕ))
        → is_tombstone request.body ≡ true
        → ((pk : List ℕ) → p.1 ≡ some pk → C.sha3_256 pk ≡ ns)
        → Effect (delete_with w ns request p)
    unfolding delete_with
    delete_with-Effect (s, none) t owns = λ ok. cc
    delete_with-Effect (s, some pk) t owns =
        let signed =
          C.verify (build_signing_input ns request.body request.ttl request.timestamp)
            request.signature pk in
        elim (Bool-cases signed) [
          | inl v ↦ rw v (λ ok.
              let d = delete_and_store-Deleted (w.others 3 s) ack n h works t other ok st in
              (pk, (owns pk refl, v), d.gone, d.marked))
          | inr v ↦ rw v (λ ok. cc)
        ]

    owner_signer-owns :
        (s : Storage) (found : Option (List ℕ)) (pk : List ℕ)
        → (owner_signer w s ns found).1 ≡ some pk
        → C.sha3_256 pk ≡ ns
    unfolding owner_signer
    owner_signer-owns s none pk q = cc
    owner_signer-owns s (some k) pk q = ground (arith, bytes_eq→eq (C.sha3_256 k) ns)

    delete_after-Effect :
        (s : Storage) (checked : Option IngestError)
        → delete_checks w request ≡ checked
        → Effect (delete_after w s ns request checked)
    unfolding delete_after
    delete_after-Effect s (some err) q = λ ok. cc
    delete_after-Effect s none q =
        delete_with-Effect _ ((delete_checks-tombstone q).0)
          (owner_signer-owns s (get_owner_pubkey s request.signer_hint))

-- A request that `delete_blob` acknowledges as stored was signed with a key that hashes to the
-- namespace. Afterwards no reader finds the target in the namespace, and the target is marked by a
-- tombstone. The nonce has 12 bytes and the hint 32, libmdbx does not throw in the deletion, and the
-- tombstone's own key is not that of its target.
pub delete_blob_effect :
    ⦃M : Mdbx⦄ ⦃C : Crypto⦄ (w : World) (s : Storage) (ns : List ℕ) (request : BlobData)
    (ack : WriteAck)
    → length (w.io 2).nonce ≡ 12
    → length request.signer_hint ≡ 32
    → (w.io 3).works ≡ true
    → bytes_eq
        (make_blob_key ns (C.sha3_256 (C.encode_blob request)))
        (make_blob_key ns (extract_tombstone_target request.body))
      ≡ false
    → (delete_blob w s ns request).1 ≡ IngestResult.success ack
    → ack.status ≡ IngestStatus.stored
    → (pk : List ℕ) × SignedByOwner w ns request pk
      × (get_blob (delete_blob w s ns request).0 ns (extract_tombstone_target request.body) ≡ none)
      × (marks (delete_blob w s ns request).0 ns (extract_tombstone_target request.body) ≡ true)
unfolding delete_blob
delete_blob_effect w s ns request ack n h works other ok st =
    delete_after-Effect w ns request ack st n h works other s (delete_checks w request) refl ok
