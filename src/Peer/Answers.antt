-- ===== src/Peer/Answers.antt =====
-- What two request handlers answer about the same blob.
use chromatin_protocol.Prelude.{
  ℕ, ◌≤◌, ◌≡◌, refl, List, [], ◌∷◌, Bool, true, false, Option, none, some, ltb, le→ltb, length,
  slice, ◌⊎◌, inl, inr,
}
use chromatin_protocol.External.Mdbx.{Mdbx}
use chromatin_protocol.External.Crypto.{Crypto}
use chromatin_protocol.Codec.{BlobData, is_blob_expired}
use chromatin_protocol.Storage.Layout.{Storage}
use chromatin_protocol.Storage.Query.{get_blob}
use chromatin_protocol.Sync.{is_live}
use chromatin_protocol.Peer.Requests.{
  Reply, read_response_type, exists_response_type, read_reply, handle_read, handle_exists,
}

module _ ⦃M : Mdbx⦄ ⦃C : Crypto⦄ where
  unfoldable pub SameAnswer : ℕ → Storage → List ℕ → Type 0
  SameAnswer now s payload =
      let hash = slice 32 32 payload in
      ((handle_read now s payload ≡ Reply.respond read_response_type (0x00 ∷ []))
        × (handle_exists now s payload ≡ Reply.respond exists_response_type (0x00 ∷ hash)))
      ⊎ ((blob : BlobData) × (get_blob s (slice 0 32 payload) hash ≡ some blob)
          × (is_blob_expired blob now ≡ false)
          × (handle_read now s payload
              ≡ Reply.respond read_response_type (0x01 ∷ C.encode_blob blob))
          × (handle_exists now s payload ≡ Reply.respond exists_response_type (0x01 ∷ hash)))

  -- A request that names a namespace and a hash: if the test for existence denies the blob, the read
  -- does not find it; if it affirms, the read gives the blob that is stored there, unexpired.
  pub read_exists_agree :
      (now : ℕ) (s : Storage) (payload : List ℕ) → 64 ≤ length payload → SameAnswer now s payload
  unfolding SameAnswer handle_read handle_exists read_reply is_live
  read_exists_agree now s payload long = by_found (get_blob s ns hash) refl
    where
      ns : List ℕ
      ns = slice 0 32 payload

      hash : List ℕ
      hash = slice 32 32 payload

      room : ltb (length payload) 64 ≡ false
      room = le→ltb (length payload) 64 long

      by_expiry :
          (blob : BlobData) (expired : Bool)
          → get_blob s ns hash ≡ some blob
          → is_blob_expired blob now ≡ expired
          → SameAnswer now s payload
      by_expiry blob true e h = inl (rw (room, e, h) refl, rw (room, e, h) refl)
      by_expiry blob false e h = inr (blob, e, h, rw (room, e, h) refl, rw (room, e, h) refl)

      by_found : (found : Option BlobData) → get_blob s ns hash ≡ found → SameAnswer now s payload
      by_found none e = inl (rw (room, e) refl, rw (room, e) refl)
      by_found (some blob) e = by_expiry blob (is_blob_expired blob now) e refl
