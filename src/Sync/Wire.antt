-- ===== src/Sync/Wire.antt =====
-- The messages of sync/sync_protocol.cpp.
use chromatin_protocol.Prelude.{
  ℕ, zero, suc, ◌+◌, ◌%◌, ◌^◌, List, [], ◌∷◌, ◌++◌, Option, none, some, ◌>>=◌, ltb, if◌then◌else◌,
  length, drop, slice, replicate,
}
use chromatin_protocol.Endian.{
  write_u32_be, write_u64_be, read_u32_be, read_u64_be, checked_mul, checked_add,
}
use chromatin_protocol.External.Crypto.{Crypto}
use chromatin_protocol.Codec.{BlobData, append_hashes}
use chromatin_protocol.Reconcile.Wire.{read_hashes}
use chromatin_protocol.Sync.{NamespacedBlob}

pub record NamespaceInfo : Type 0 where
  pub namespace_id : List ℕ
  pub latest_seq_num : ℕ

unfoldable pub append_infos : List NamespaceInfo → List ℕ
append_infos [] = []
append_infos (info ∷ infos) =
    info.namespace_id ++ (write_u64_be info.latest_seq_num ++ append_infos infos)

unfoldable pub encode_namespace_list : List NamespaceInfo → List ℕ
encode_namespace_list infos = write_u32_be (length infos % 2 ^ 32) ++ append_infos infos

-- The loop over what is `left`.
unfoldable pub read_infos : List ℕ → ℕ → ℕ → List NamespaceInfo
read_infos payload zero offset = []
read_infos payload (suc left) offset =
    record {
      namespace_id = slice offset 32 payload;
      latest_seq_num = read_u64_be (drop (offset + 32) payload);
    }
    ∷ read_infos payload left (offset + 32 + 8)

-- The end of `count` elements of the size `size` behind a header, if it does not overflow and the
-- payload reaches so far.
unfoldable pub elements_end : List ℕ → ℕ → ℕ → ℕ → Option ℕ
elements_end payload header count size = do
  product ← checked_mul count size
  expected ← checked_add header product
  if ltb (length payload) expected then none else some expected

unfoldable pub infos_within : List ℕ → ℕ → Option ℕ → List NamespaceInfo
infos_within payload count none = []
infos_within payload count (some expected) = read_infos payload count 4

unfoldable pub decode_namespace_list : List ℕ → List NamespaceInfo
unfolding infos_within
decode_namespace_list payload =
    let count = read_u32_be payload in
    if ltb (length payload) 4
    then []
    else infos_within payload count (elements_end payload 4 count 40)

unfoldable pub encode_blob_request : List ℕ → List (List ℕ) → List ℕ
encode_blob_request namespace_id hashes =
    namespace_id ++ (write_u32_be (length hashes % 2 ^ 32) ++ append_hashes hashes)

unfoldable pub hashes_within : List ℕ → ℕ → Option ℕ → List (List ℕ)
hashes_within payload count none = []
hashes_within payload count (some expected) = read_hashes payload count 36

unfoldable pub decode_blob_request : List ℕ → List ℕ × List (List ℕ)
unfolding hashes_within
decode_blob_request payload =
    let count = read_u32_be (drop 32 payload) in
    if ltb (length payload) 36
    then (replicate 32 0, [])
    else (slice 0 32 payload, hashes_within payload count (elements_end payload 36 count 32))

-- `checked_add`, and the test that the payload reaches so far.
unfoldable pub field_end : List ℕ → ℕ → ℕ → Option ℕ
field_end payload offset size = do
  past ← checked_add offset size
  if ltb (length payload) past then none else some past

-- Where the blob of a transfer begins, its length and its end; `none` is a `break`.
unfoldable pub next_transfer : List ℕ → ℕ → Option (ℕ × ℕ × ℕ)
unfolding field_end
next_transfer payload offset = do
  ns_end ← field_end payload offset 32
  len_end ← field_end payload ns_end 4
  let len = read_u32_be (drop ns_end payload)
  blob_end ← field_end payload len_end len
  some (len_end, len, blob_end)

module _ ⦃C : Crypto⦄ where
  unfoldable pub encode_transfers : List NamespacedBlob → List ℕ
  encode_transfers [] = []
  encode_transfers (nb ∷ nbs) =
      let encoded = C.encode_blob nb.blob in
      nb.target_namespace
      ++ (write_u32_be (length encoded % 2 ^ 32) ++ (encoded ++ encode_transfers nbs))

  unfoldable pub encode_blob_transfer : List NamespacedBlob → List ℕ
  unfolding encode_transfers
  encode_blob_transfer nbs = write_u32_be (length nbs % 2 ^ 32) ++ encode_transfers nbs

  unfoldable pub encode_single_blob_transfer : List ℕ → BlobData → List ℕ
  encode_single_blob_transfer target_namespace blob =
      let encoded = C.encode_blob blob in
      write_u32_be 1 ++ (target_namespace ++ (write_u32_be (length encoded % 2 ^ 32) ++ encoded))

  -- `none` is an exception of `decode_blob`; `later` reads what follows.
  unfoldable pub push_transfer :
      List ℕ
      → ℕ
      → Option (ℕ × ℕ × ℕ)
      → (ℕ → Option (List NamespacedBlob))
      → Option (List NamespacedBlob)
  push_transfer payload offset none later = some []
  push_transfer payload offset (some (start, len, past)) later = do
    blob ← C.decode_blob (slice start len payload)
    rest ← later past
    some (record { target_namespace = slice offset 32 payload; blob = blob } ∷ rest)

  unfoldable pub decode_transfers : List ℕ → ℕ → ℕ → Option (List NamespacedBlob)
  unfolding next_transfer push_transfer
  decode_transfers payload zero offset = some []
  decode_transfers payload (suc left) offset =
      push_transfer payload offset (next_transfer payload offset)
        (λ past. decode_transfers payload left past)

  unfoldable pub decode_blob_transfer : List ℕ → Option (List NamespacedBlob)
  unfolding decode_transfers
  decode_blob_transfer payload =
      if ltb (length payload) 4 then some [] else decode_transfers payload (read_u32_be payload) 4
