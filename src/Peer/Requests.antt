-- ===== src/Peer/Requests.antt =====
-- Request handlers of peer/message_dispatcher.cpp: reads, tests for existence, quotas and the node's own
-- description.
use chromatin_protocol.Prelude.{
  ℕ, ◌%◌, List, [], ◌∷◌, ◌++◌, Option, none, some, ltb, if◌then◌else◌, length, slice,
}
use chromatin_protocol.Endian.{store_u32_be, store_u64_be}
use chromatin_protocol.External.Mdbx.{Mdbx}
use chromatin_protocol.External.Crypto.{Crypto}
use chromatin_protocol.Codec.{BlobData, is_blob_expired}
use chromatin_protocol.Frame.{max_frame_size}
use chromatin_protocol.Storage.Layout.{Storage}
use chromatin_protocol.Storage.Query.{get_blob, get_namespace_quota}
use chromatin_protocol.Engine.Config.{Engine, effective_quota}
use chromatin_protocol.Sync.{is_live}

abbrev pub error_malformed_payload : ℕ
error_malformed_payload = 0x01

abbrev pub read_request_type : ℕ
read_request_type = 31

abbrev pub read_response_type : ℕ
read_response_type = 32

abbrev pub stats_request_type : ℕ
stats_request_type = 35

abbrev pub stats_response_type : ℕ
stats_response_type = 36

abbrev pub exists_request_type : ℕ
exists_request_type = 37

abbrev pub exists_response_type : ℕ
exists_response_type = 38

-- What a handler answers with: a response, or an error with the type of the request, which counts as
-- a strike.
pub data Reply : Type 0 where
  respond refuse : ℕ → List ℕ → Reply

unfoldable pub malformed : ℕ → Reply
malformed kind = Reply.refuse kind (error_malformed_payload ∷ kind ∷ [])

module _ ⦃M : Mdbx⦄ ⦃C : Crypto⦄ where
  unfoldable pub read_reply : ℕ → Option BlobData → List ℕ
  read_reply now none = 0x00 ∷ []
  read_reply now (some blob) =
      if is_blob_expired blob now then 0x00 ∷ [] else 0x01 ∷ C.encode_blob blob

  unfoldable pub handle_read : ℕ → Storage → List ℕ → Reply
  unfolding malformed read_reply
  handle_read now s payload =
      if ltb (length payload) 64
      then malformed read_request_type
      else Reply.respond read_response_type
          (read_reply now (get_blob s (slice 0 32 payload) (slice 32 32 payload)))

  unfoldable pub handle_exists : ℕ → Storage → List ℕ → Reply
  unfolding malformed is_live
  handle_exists now s payload =
      let hash = slice 32 32 payload in
      if ltb (length payload) 64
      then malformed exists_request_type
      else Reply.respond exists_response_type
          ((if is_live now (get_blob s (slice 0 32 payload) hash) then 0x01 else 0x00) ∷ hash)

  unfoldable pub handle_stats : Engine → Storage → List ℕ → Reply
  unfolding malformed
  handle_stats e s payload =
      let ns = slice 0 32 payload in
      let quota = get_namespace_quota s ns in
      if ltb (length payload) 32
      then malformed stats_request_type
      else Reply.respond stats_response_type (
          store_u64_be quota.blob_count
          ++ (store_u64_be quota.total_bytes ++ store_u64_be (effective_quota e ns).0))

-- What a node says of itself; the counters come from the storage and the metrics.
pub record NodeInfo : Type 0 where
  pub version : List ℕ
  pub uptime : ℕ
  pub peers : ℕ
  pub namespaces : ℕ
  pub total_blobs : ℕ
  pub storage_used : ℕ
  pub storage_max : ℕ
  pub blob_max_bytes : ℕ
  pub rate_limit_bytes_per_sec : ℕ
  pub max_subscriptions : ℕ

abbrev pub supported : List ℕ
supported =
    5 ∷ 6 ∷ 7 ∷ 8 ∷ 17 ∷ 18 ∷ 19 ∷ 20 ∷ 21 ∷ 30 ∷ 31 ∷ 32 ∷ 33 ∷ 34 ∷ 35 ∷ 36 ∷ 37 ∷ 38 ∷ 39 ∷ 40
    ∷ 41 ∷ 42 ∷ 43 ∷ 44 ∷ 45 ∷ 46 ∷ 47 ∷ 48 ∷ 49 ∷ 50 ∷ 51 ∷ 52 ∷ 53 ∷ 54 ∷ 55 ∷ 56 ∷ 57 ∷ 58 ∷ 63
    ∷ []

unfoldable pub counters : NodeInfo → List ℕ
counters i =
    store_u64_be i.uptime
    ++ (store_u32_be i.peers
        ++ (store_u32_be i.namespaces
            ++ (store_u64_be i.total_blobs
                ++ (store_u64_be i.storage_used ++ store_u64_be i.storage_max))))

unfoldable pub limits_and_types : NodeInfo → List ℕ
limits_and_types i =
    store_u32_be max_frame_size
    ++ (store_u64_be i.rate_limit_bytes_per_sec
        ++ (store_u32_be i.max_subscriptions ++ (length supported ∷ supported)))

unfoldable pub node_info_response : NodeInfo → List ℕ
unfolding counters limits_and_types
node_info_response i =
    length i.version % 256
    ∷ (i.version ++ (counters i ++ (store_u64_be i.blob_max_bytes ++ limits_and_types i)))
