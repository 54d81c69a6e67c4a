-- ===== src/Sync/Transfer.antt =====
-- Round trips of the messages of sync/sync_protocol.cpp.
use mathlib.Core.Path.{subst, ap₂}
use native.Mathlib.Nat.{mod-eq_of_lt}
use chromatin_protocol.Prelude.{
  ℕ, ◌+◌, ◌*◌, ◌%◌, ◌^◌, ◌≤◌, ◌<◌, ◌≡◌, refl, ap, ◌∙◌, arith, List, [], ◌∷◌, ◌++◌, append-nil, some,
  le→ltb, length, drop, slice, All, At, At-start, At-slice, At-next, At-room,
}
use chromatin_protocol.Endian.{write_u32_be, read_u32_be, checked_add, size_mod}
use chromatin_protocol.Endian.Words.{length-write_u32_be, read_u32_be-At}
use chromatin_protocol.Endian.Sizes.{checked_add_exact}
use chromatin_protocol.External.Crypto.{Crypto}
use chromatin_protocol.Codec.{append_hashes}
use chromatin_protocol.Codec.Bomb.{AreHashes, length-append_hashes}
use chromatin_protocol.Reconcile.WireTrips.{read_hashes-At, checked-items}
use chromatin_protocol.Sync.{NamespacedBlob}
use chromatin_protocol.Sync.Wire.{
  elements_end, hashes_within, push_transfer, encode_blob_request, decode_blob_request, field_end,
  next_transfer, encode_transfers, encode_blob_transfer, decode_transfers, decode_blob_transfer,
}

field_end-At :
    (payload front rest : List ℕ) (offset n : ℕ)
    → At payload offset (front ++ rest)
    → length front ≡ n
    → length payload < size_mod
    → field_end payload offset n ≡ some (offset + n)
unfolding field_end
field_end-At payload front rest offset n at size fits =
    let room : offset + n ≤ length payload = At-room payload offset n front rest at size in
    let add : checked_add offset n ≡ some (offset + n) =
      ground (arith, checked_add_exact offset n) in
    rw (add, le→ltb (length payload) (offset + n) room) refl

-- Fewer than 2^32 hashes of 32 bytes for a namespace of 32, in a payload of less than 2^64 bytes, are
-- read back.
pub decode-encode_blob_request :
    (ns : List ℕ) (hashes : List (List ℕ))
    → length ns ≡ 32
    → AreHashes hashes
    → length hashes < 2 ^ 32
    → length (encode_blob_request ns hashes) < size_mod
    → decode_blob_request (encode_blob_request ns hashes) ≡ (ns, hashes)
unfolding decode_blob_request encode_blob_request elements_end hashes_within
decode-encode_blob_request ns hashes n h few fits =
    let n32 = length hashes % 2 ^ 32 in
    let payload : List ℕ = ns ++ (write_u32_be n32 ++ append_hashes hashes) in
    let at_count : At payload 32 (write_u32_be n32 ++ append_hashes hashes) =
      At-next payload 0 32 ns _ (At-start payload) n in
    let at_items : At payload 36 (append_hashes hashes ++ []) =
      rw append-nil
        (At-next payload 32 4 _ (append_hashes hashes) at_count (length-write_u32_be n32)) in
    let counted : read_u32_be (drop 32 payload) ≡ length hashes =
      read_u32_be-At payload 32 n32 (append_hashes hashes) at_count (omega arith)
      ∙ mod-eq_of_lt few in
    let room : 36 + length hashes * 32 ≤ length payload =
      At-room payload 36 (length hashes * 32) (append_hashes hashes) [] at_items
        (length-append_hashes hashes h) in
    let (mul, add) = checked-items (length hashes) 36 (length payload) few room fits in
    rw (le→ltb (length payload) 36 (omega (arith, room))) (
      rw (counted, mul)
        (rw (add, le→ltb (length payload) (36 + length hashes * 32) room)
          (ap₂ (λ (x : List ℕ) (y : List (List ℕ)). (x, y))
            (At-slice payload 0 32 ns _ (At-start payload) n)
            (read_hashes-At payload hashes 36 [] h at_items))))

module _ ⦃C : Crypto⦄ where
  -- What a node can send: a namespace and a hint of 32 bytes, and less than 2^32 bytes of blob.
  pub record IsSent (nb : NamespacedBlob) : Type 0 where
    pub ns_size : length nb.target_namespace ≡ 32
    pub hint_size : length nb.blob.signer_hint ≡ 32
    pub short : length (C.encode_blob nb.blob) < 2 ^ 32

  module _ (payload : List ℕ) (fits : length payload < size_mod) where
    next_transfer-At :
        (nb : NamespacedBlob) (rest : List ℕ) (offset : ℕ)
        → IsSent nb
        → At payload offset (
            nb.target_namespace
            ++ (write_u32_be (length (C.encode_blob nb.blob) % 2 ^ 32)
                ++ (C.encode_blob nb.blob ++ rest)))
        → let encoded = C.encode_blob nb.blob in
          (next_transfer payload offset
            ≡ some (offset + 36, length encoded, offset + 36 + length encoded))
          × (slice offset 32 payload ≡ nb.target_namespace)
          × (slice (offset + 36) (length encoded) payload ≡ encoded)
          × At payload (offset + 36 + length encoded) rest
    unfolding next_transfer
    next_transfer-At nb rest offset v at =
        let encoded = C.encode_blob nb.blob in
        let n32 = length encoded % 2 ^ 32 in
        let at_len : At payload (offset + 32) (write_u32_be n32 ++ (encoded ++ rest)) =
          At-next payload offset 32 nb.target_namespace _ at v.ns_size in
        let at_blob : At payload (offset + 36) (encoded ++ rest) =
          subst (λ o. At payload o (encoded ++ rest)) (omega arith)
            (At-next payload (offset + 32) 4 (write_u32_be n32) _ at_len
              (length-write_u32_be n32)) in
        let counted : read_u32_be (drop (offset + 32) payload) ≡ length encoded =
          read_u32_be-At payload (offset + 32) n32 (encoded ++ rest) at_len (omega arith)
          ∙ mod-eq_of_lt v.short in
        let four : field_end payload (offset + 32) 4 ≡ some (offset + 36) =
          field_end-At payload (write_u32_be n32) (encoded ++ rest) (offset + 32) 4 at_len
            (length-write_u32_be n32) fits
          ∙ ap some (omega arith) in
        (
          rw (field_end-At payload nb.target_namespace _ offset 32 at v.ns_size fits) (
              rw (four, counted)
                (rw
                  (field_end-At payload encoded rest (offset + 36) (length encoded) at_blob refl
                    fits)
                  refl)),
          At-slice payload offset 32 nb.target_namespace _ at v.ns_size,
          At-slice payload (offset + 36) (length encoded) encoded rest at_blob refl,
          At-next payload (offset + 36) (length encoded) encoded rest at_blob refl,
        )

    transfers-At :
        (nbs : List NamespacedBlob) (offset : ℕ)
        → All IsSent nbs
        → At payload offset (encode_transfers nbs)
        → decode_transfers payload (length nbs) offset ≡ some nbs
    unfolding encode_transfers decode_transfers push_transfer
    transfers-At [] offset h at = refl
    transfers-At (nb ∷ nbs) offset (v, h) at =
        let (found, ns, text, there) = next_transfer-At nb (encode_transfers nbs) offset v at in
        rw found (
          rw
            (
              text,
              C.decode-encode_blob nb.blob v.hint_size,
              transfers-At nbs (offset + 36 + length (C.encode_blob nb.blob)) h there,
            )
            (ap (λ (k : List ℕ). some (record { target_namespace = k; blob = nb.blob } ∷ nbs)) ns))

  -- Fewer than 2^32 blobs that a node can send, in a payload of less than 2^64 bytes, are read back
  -- with their namespaces.
  pub decode-encode_blob_transfer :
      (nbs : List NamespacedBlob)
      → All IsSent nbs
      → length nbs < 2 ^ 32
      → length (encode_blob_transfer nbs) < size_mod
      → decode_blob_transfer (encode_blob_transfer nbs) ≡ some nbs
  unfolding encode_blob_transfer decode_blob_transfer
  decode-encode_blob_transfer nbs h few fits =
      let n32 = length nbs % 2 ^ 32 in
      let payload : List ℕ = write_u32_be n32 ++ encode_transfers nbs in
      let at_blobs : At payload 4 (encode_transfers nbs) =
        At-next payload 0 4 _ (encode_transfers nbs) (At-start payload) (length-write_u32_be n32) in
      let counted : read_u32_be payload ≡ length nbs =
        read_u32_be-At payload 0 n32 (encode_transfers nbs) (At-start payload) (omega arith)
        ∙ mod-eq_of_lt few in
      rw (counted, le→ltb (length payload) 4 (omega (arith, at_blobs.room)))
        (transfers-At payload fits nbs 4 h at_blobs)
