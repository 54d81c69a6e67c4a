-- ===== src/Peer/Fetched.antt =====
-- What the push of a blob achieves, from the announcement to the other node's store.
use mathlib.Core.Path.{ap₂}
use chromatin_protocol.Prelude.{
  ℕ, ◌≤◌, ◌<◌, ◌≡◌, refl, sym, ap, ◌∙◌, arith, List, [], ◌∷◌, ◌++◌, Bool, false, Option, some,
  le→ltb, if◌then◌else◌, length, length-append, take-append, drop-append, drop, slice,
  bytes_eq_self, append-nil, At, At-start, At-slice, At-next,
}
use chromatin_protocol.Endian.{write_u32_be, write_u64_be}
use chromatin_protocol.External.Mdbx.{Mdbx}
use chromatin_protocol.External.Crypto.{Crypto}
use chromatin_protocol.Codec.{BlobData, is_blob_expired}
use chromatin_protocol.Storage.Layout.{Storage}
use chromatin_protocol.Storage.Query.{get_blob}
use chromatin_protocol.Engine.Config.{Engine, World, IngestResult}
use chromatin_protocol.Engine.Ingest.{ingest}
use chromatin_protocol.Sync.{is_live}
use chromatin_protocol.Peer.{PeerInfo}
use chromatin_protocol.Peer.Push.{
  blob_fetch_type, blob_fetch_response_type, Sent, encode_blob_ref, encode_namespace_hash,
  should_skip_for_peer_cap, Push, has_key, erase_key, ask_for, on_blob_notify, fetch_reply,
  handle_blob_fetch, after_fetch, take_fetched, handle_blob_fetch_response,
}

erase_absent :
    (key : List ℕ) (entries : List (List ℕ × ℕ))
    → has_key key entries ≡ false
    → erase_key key entries ≡ entries
unfolding has_key erase_key
erase_absent key [] h = refl
erase_absent key ((k, id) ∷ entries) h = ground (arith, erase_absent key entries)

erase_added :
    (key : List ℕ) (id : ℕ) (entries : List (List ℕ × ℕ))
    → has_key key entries ≡ false
    → erase_key key ((key, id) ∷ entries) ≡ entries
unfolding erase_key
erase_added key id entries h = rw (bytes_eq_self key) (erase_absent key entries h)

ref_fields :
    (ns hash : List ℕ) (seq size : ℕ) (tombstone : Bool)
    → length ns ≡ 32
    → length hash ≡ 32
    → let payload = encode_blob_ref ns hash seq size tombstone in
      (length payload ≡ 77) × (slice 0 32 payload ≡ ns) × (slice 32 32 payload ≡ hash)
unfolding encode_blob_ref write_u64_be write_u32_be
ref_fields ns hash seq size tombstone n h =
    let payload = encode_blob_ref ns hash seq size tombstone in
    let tail : List ℕ =
      write_u64_be seq ++ (write_u32_be size ++ ((if tombstone then 1 else 0) ∷ [])) in
    let at_hash : At payload 32 (hash ++ tail) =
      At-next payload 0 32 ns (hash ++ tail) (At-start payload) n in
    (
      omega (arith, length-append ns (hash ++ tail), length-append hash tail, n, h),
      At-slice payload 0 32 ns (hash ++ tail) (At-start payload) n,
      At-slice payload 32 32 hash tail at_hash h,
    )

key_fields :
    (ns hash : List ℕ)
    → length ns ≡ 32
    → length hash ≡ 32
    → let payload = encode_namespace_hash ns hash in
      (length payload ≡ 64) × (slice 0 32 payload ≡ ns) × (slice 32 32 payload ≡ hash)
unfolding encode_namespace_hash
key_fields ns hash n h =
    let payload : List ℕ = ns ++ hash in
    let at_hash : At payload 32 (hash ++ []) =
      rw append-nil (At-next payload 0 32 ns hash (At-start payload) n) in
    (
      omega (arith, length-append ns hash, n, h),
      At-slice payload 0 32 ns hash (At-start payload) n,
      At-slice payload 32 32 hash [] at_hash h,
    )

module _ ⦃M : Mdbx⦄ ⦃C : Crypto⦄ where
  -- A node that is told of a blob which it does not have asks for it, once.
  asks :
      (now : ℕ) (p : PeerInfo) (ns hash : List ℕ) (seq size : ℕ) (tombstone : Bool) (g : Push)
      → length ns ≡ 32
      → length hash ≡ 32
      → p.syncing ≡ false
      → is_live now (get_blob g.storage ns hash) ≡ false
      → has_key (ns ++ hash) g.pending_fetches ≡ false
      → on_blob_notify now p (encode_blob_ref ns hash seq size tombstone) g ≡ (
        record g { pending_fetches = (ns ++ hash, p.connection.id) ∷ g.pending_fetches },
        record {
          to = p.connection.id;
          kind = blob_fetch_type;
          payload = encode_namespace_hash ns hash;
        }
            ∷ [],
      )
  unfolding on_blob_notify
  asks now p ns hash seq size tombstone g n h idle lacking fresh =
      let (l, a, b) = ref_fields ns hash seq size tombstone n h in
      rw l (
        ap
          (λ (k : List ℕ).
            ask_for now p k (slice 32 32 (encode_blob_ref ns hash seq size tombstone)) g)
          a
        ∙ ap (λ (k : List ℕ). ask_for now p ns k g) b
        ∙ unfold ask_for in rw (idle, lacking) (rw fresh refl))

  -- A node that has a blob which the other takes hands it out.
  answers :
      (now : ℕ) (p : PeerInfo) (ns hash : List ℕ) (g : Push) (blob : BlobData)
      → length ns ≡ 32
      → length hash ≡ 32
      → get_blob g.storage ns hash ≡ some blob
      → is_blob_expired blob now ≡ false
      → should_skip_for_peer_cap (length blob.body) p.advertised_blob_cap ≡ false
      → handle_blob_fetch now p (encode_namespace_hash ns hash) g
        ≡ record {
          to = p.connection.id;
          kind = blob_fetch_response_type;
          payload = 0x00 ∷ (ns ++ C.encode_blob blob);
        }
          ∷ []
  unfolding handle_blob_fetch
  answers now p ns hash g blob n h held live small =
      let (l, a, b) = key_fields ns hash n h in
      let reply : List ℕ → List Sent = λ payload.
        record { to = p.connection.id; kind = blob_fetch_response_type; payload = payload } ∷ [] in
      rw l (
        ap
          (λ (k : List ℕ). reply (
            fetch_reply now p.advertised_blob_cap k
              (get_blob g.storage k (slice 32 32 (encode_namespace_hash ns hash)))))
          a
        ∙ ap
            (λ (k : List ℕ).
              reply (fetch_reply now p.advertised_blob_cap ns (get_blob g.storage ns k)))
            b
        ∙ ap (λ (o : Option BlobData). reply (fetch_reply now p.advertised_blob_cap ns o)) held
        ∙ ap reply (unfold fetch_reply in rw (live, small) refl))

  after_fetch_lem :
      (now id : ℕ) (ns : List ℕ) (blob : BlobData) (peers : List PeerInfo) (g : Push)
      (result : IngestResult)
      → let end =
          after_fetch now id (record { target_namespace = ns; blob = blob }) peers g result in
        (end.0.storage ≡ g.storage) × (end.0.pending_fetches ≡ g.pending_fetches)
  unfolding after_fetch
  after_fetch_lem now id ns blob peers g (IngestResult.success ack) = (refl, refl)
  after_fetch_lem now id ns blob peers g (IngestResult.rejection err) = (refl, refl)

  fetched_lem :
      (e : Engine) (w : World) (now id : ℕ) (peers : List PeerInfo) (ns : List ℕ) (blob : BlobData)
      (g : Push)
      → let end = take_fetched e w now id peers ns g (some blob) in
        (end.0.storage ≡ (ingest e w g.storage ns blob).0)
        × (end.0.pending_fetches
            ≡ erase_key (ns ++ C.sha3_256 (C.encode_blob blob)) g.pending_fetches)
  unfolding take_fetched
  fetched_lem e w now id peers ns blob g =
      after_fetch_lem now id ns blob peers
        (record g {
          storage = (ingest e w g.storage ns blob).0;
          pending_fetches = erase_key (ns ++ C.sha3_256 (C.encode_blob blob)) g.pending_fetches;
        })
        (ingest e w g.storage ns blob).1

  takes :
      (e : Engine) (w : World) (now id : ℕ) (peers : List PeerInfo) (ns : List ℕ) (blob : BlobData)
      (g : Push)
      → length ns ≡ 32
      → length blob.signer_hint ≡ 32
      → 0 < length (C.encode_blob blob)
      → let end =
          handle_blob_fetch_response e w now id peers (0x00 ∷ (ns ++ C.encode_blob blob)) g in
        (end.0.storage ≡ (ingest e w g.storage ns blob).0)
        × (end.0.pending_fetches
            ≡ erase_key (ns ++ C.sha3_256 (C.encode_blob blob)) g.pending_fetches)
  unfolding handle_blob_fetch_response
  takes e w now id peers ns blob g n hint some_byte =
      let encoded = C.encode_blob blob in
      let long : 34 ≤ length (0x00 ∷ (ns ++ encoded)) =
        omega (arith, length-append ns encoded, n, some_byte) in
      let opened : C.decode_blob (drop 32 (ns ++ encoded)) ≡ some blob =
        ap C.decode_blob (drop-append 32 ns encoded n) ∙ C.decode-encode_blob blob hint in
      let read : handle_blob_fetch_response e w now id peers (0x00 ∷ (ns ++ encoded)) g
          ≡ take_fetched e w now id peers ns g (some blob) =
        rw (le→ltb (length (0x00 ∷ (ns ++ encoded))) 34 long) (
          ap₂ (λ (k : List ℕ) (o : Option BlobData). take_fetched e w now id peers k g o)
            (take-append 32 ns encoded n) opened) in
      let (s, p) = fetched_lem e w now id peers ns blob g in
      (
        ap (λ (r : Push × List Sent × Option ℕ). r.0.storage) read ∙ s,
        ap (λ (r : Push × List Sent × Option ℕ). r.0.pending_fetches) read ∙ p,
      )

  -- A blob that a node holds, whose time has not come and which the other node takes: told of it, a
  -- node that lacks it, is not syncing with the first and has not asked for it yet asks for it; the
  -- first answers; and the answer is taken in as that blob of that namespace, after which nothing
  -- more is pending than before.
  pub push_delivers :
      (e : Engine) (w : World) (now_a now_b : ℕ) (at_a at_b : PeerInfo) (peers : List PeerInfo)
      (ns hash : List ℕ) (seq size : ℕ) (tombstone : Bool) (blob : BlobData) (a b : Push)
      → length ns ≡ 32
      → C.sha3_256 (C.encode_blob blob) ≡ hash
      → length blob.signer_hint ≡ 32
      → 0 < length (C.encode_blob blob)
      → get_blob a.storage ns hash ≡ some blob
      → is_blob_expired blob now_a ≡ false
      → should_skip_for_peer_cap (length blob.body) at_a.advertised_blob_cap ≡ false
      → at_b.syncing ≡ false
      → is_live now_b (get_blob b.storage ns hash) ≡ false
      → has_key (ns ++ hash) b.pending_fetches ≡ false
      → let told = on_blob_notify now_b at_b (encode_blob_ref ns hash seq size tombstone) b in
        (fetch reply : Sent) × (told.1 ≡ fetch ∷ [])
        × (handle_blob_fetch now_a at_a fetch.payload a ≡ reply ∷ [])
        × (let end =
              handle_blob_fetch_response e w now_b at_b.connection.id peers reply.payload told.0 in
            (end.0.storage ≡ (ingest e w b.storage ns blob).0)
            × (end.0.pending_fetches ≡ b.pending_fetches))
  push_delivers e w now_a now_b at_a at_b peers ns hash seq size tombstone blob a b n named hint
        some_byte held live small idle lacking fresh =
      let h : length hash ≡ 32 = ap (λ (x : List ℕ). length x) (sym named) ∙ C.length-sha3_256 _ in
      let asked = asks now_b at_b ns hash seq size tombstone b n h idle lacking fresh in
      let told = on_blob_notify now_b at_b (encode_blob_ref ns hash seq size tombstone) b in
      let kept : told.0.storage ≡ b.storage = ap (λ (r : Push × List Sent). r.0.storage) asked in
      let pending : told.0.pending_fetches ≡ (ns ++ hash, at_b.connection.id) ∷ b.pending_fetches =
        ap (λ (r : Push × List Sent). r.0.pending_fetches) asked in
      let (stored, left) =
        takes e w now_b at_b.connection.id peers ns blob told.0 n hint some_byte in
      (
        _,
        _,
        ap (λ (r : Push × List Sent). r.1) asked,
        answers now_a at_a ns hash a blob n h held live small,
        (
          stored ∙ ap (λ (s : Storage). (ingest e w s ns blob).0) kept,
          left
              ∙ ap (λ (k : List ℕ). erase_key (ns ++ k) told.0.pending_fetches) named
              ∙ ap (erase_key (ns ++ hash)) pending
              ∙ erase_added (ns ++ hash) at_b.connection.id b.pending_fetches fresh,
        ),
      )
