-- ===== src/Connection/Reassembly.antt =====
-- `recv_chunked` puts together what the send queue took apart.
use native.Mathlib.Nat.{mod-eq_of_lt}
use chromatin_protocol.Prelude.{
  ℕ, zero, suc, ◌+◌, ◌%◌, ◌^◌, ◌≤◌, ◌<◌, ◌≡◌, refl, sym, ap, ◌∙◌, arith, List, [], ◌∷◌, ◌++◌,
  append_assoc, append-nil, false, some, le→ltb, length, length-append, drop, drop-append,
  drop-drop, All,
}
use chromatin_protocol.Endian.{store_u32_be, store_u64_be, read_u64_be}
use chromatin_protocol.Endian.Words.{
  length-store_u32_be, length-store_u64_be, read_u32_be-store_u32_be, read_u64_be-store_u64_be,
}
use chromatin_protocol.External.Crypto.{Crypto}
use chromatin_protocol.Frame.{make_nonce, write_frame}
use chromatin_protocol.Frame.Stream.{send_all}
use chromatin_protocol.Connection.{Connection, Network, Io, nonce_limit}
use chromatin_protocol.Connection.Queue.{streaming_threshold, chunked_header}
use chromatin_protocol.Connection.Loop.{
  max_chunked_wire_payload, add_chunk, recv_chunks, recv_chunked,
}
use chromatin_protocol.Connection.Frames.{recv_encrypted_lem}
use chromatin_protocol.Connection.Texts.{concat, IsPiece}

pub length-chunked_header :
    (kind request_id size : ℕ) → length (chunked_header kind request_id size []) ≡ 14
unfolding chunked_header
length-chunked_header kind request_id size = omega (
  arith,
  length-append (store_u32_be request_id) (store_u64_be size ++ []),
  length-append (store_u64_be size) [],
  length-store_u32_be request_id,
  length-store_u64_be size,
)

module _ ⦃C : Crypto⦄ where
  pub count-le-bytes :
      (key : List ℕ) (counter : ℕ) (ts : List (List ℕ))
      → length ts ≤ length (send_all key counter ts)
  unfolding send_all write_frame
  count-le-bytes key counter [] = omega arith
  count-le-bytes key counter (t ∷ ts) =
      let header = store_u32_be (length (C.encrypt t [] (make_nonce counter) key) % 2 ^ 32) in
      omega (
        arith,
        length-append (write_frame t key counter) (send_all key (counter + 1) ts),
        length-append header (C.encrypt t [] (make_nonce counter) key),
        length-store_u32_be (length (C.encrypt t [] (make_nonce counter) key) % 2 ^ 32),
        count-le-bytes key (counter + 1) ts,
      )

-- After `n` frames, with `rest` still to be read.
abbrev pub heard : ⦃N : Network⦄ → ℕ → List ℕ → Connection → Connection
heard ⦃N⦄ n rest c = record c {
  incoming = rest;
  recv_counter = c.recv_counter + n;
  last_recv_time = N.now;
}

module _ ⦃C : Crypto⦄ ⦃N : Network⦄ where
  heard-heard :
      (n m : ℕ) (later rest : List ℕ) (c : Connection)
      → m ≡ suc n
      → heard n rest (heard 1 later c) ≡ heard m rest c
  heard-heard n m later rest c e = λ i. record c {
    incoming = rest;
    recv_counter = let p : c.recv_counter + 1 + n ≡ c.recv_counter + m = omega arith in p i;
    last_recv_time = N.now;
  }

  add_chunk_lem :
      (total : ℕ) (payload t : List ℕ) (later : List ℕ → Io (List ℕ)) (c : Connection)
      → 0 < length t
      → length payload + length t ≤ total + 64
      → add_chunk total payload later t c ≡ later (payload ++ t) c
  unfolding add_chunk
  add_chunk_lem total payload [] later c pos h = absurd (omega arith)
  add_chunk_lem total payload (x ∷ t) later c pos h =
      rw
        (le→ltb (total + 64) (length (payload ++ (x ∷ t)))
          (omega (arith, length-append payload (x ∷ t))))
        refl

  -- The pieces and the sentinel, at the front of what comes in.
  pub recv_chunks_lem :
      (fuel total : ℕ) (payload : List ℕ) (ts : List (List ℕ)) (rest : List ℕ) (c : Connection)
      → length ts < fuel
      → c.closed ≡ false
      → c.recv_counter + length ts < nonce_limit
      → All (IsPiece streaming_threshold) ts
      → length payload + length (concat ts) ≤ total + 64
      → recv_chunks fuel total payload
          (record c { incoming = send_all c.recv_key c.recv_counter (ts ++ ([] ∷ [])) ++ rest })
        ≡ (heard (length ts + 1) rest c, some (payload ++ concat ts))
  unfolding recv_chunks send_all
  recv_chunks_lem zero total payload ts rest c h is_open room pieces fits = absurd (omega arith)
  recv_chunks_lem (suc fuel) total payload [] rest c h is_open room pieces fits =
      rw
        (
          append_assoc (write_frame [] c.recv_key c.recv_counter) [] rest,
          recv_encrypted_lem [] rest c is_open (omega arith) (omega arith),
          append-nil payload,
        )
        refl
  recv_chunks_lem (suc fuel) total payload (t ∷ ts) rest c h is_open room (piece, pieces) fits =
      let front = write_frame t c.recv_key c.recv_counter in
      let tail : List ℕ = send_all c.recv_key (c.recv_counter + 1) (ts ++ ([] ∷ [])) ++ rest in
      rw
        (
          append_assoc front (send_all c.recv_key (c.recv_counter + 1) (ts ++ ([] ∷ []))) rest,
          recv_encrypted_lem t tail c is_open (omega arith) (omega (arith, piece.1)),
          add_chunk_lem total payload t (λ grown. recv_chunks fuel total grown) (heard 1 tail c)
              piece.0 (omega (arith, length-append t (concat ts))),
          recv_chunks_lem fuel total (payload ++ t) ts rest (heard 1 tail c) (omega arith) is_open
              (omega arith) pieces
              (omega (arith, length-append t (concat ts), length-append payload t)),
        )
        (λ i. (
          heard-heard (length ts + 1) (suc (length ts) + 1) tail rest c (omega arith) i,
          some (append_assoc payload t (concat ts) i),
        ))

  -- The whole message: its header is `first_frame`.
  pub recv_chunked_lem :
      (kind request_id : ℕ) (payload : List ℕ) (ts : List (List ℕ)) (rest : List ℕ) (c : Connection)
      → kind < 256
      → request_id < 2 ^ 32
      → length payload ≤ max_chunked_wire_payload
      → concat ts ≡ payload
      → c.closed ≡ false
      → c.recv_counter + length ts < nonce_limit
      → All (IsPiece streaming_threshold) ts
      → recv_chunked
          (chunked_header kind request_id (length payload) [])
          (record c { incoming = send_all c.recv_key c.recv_counter (ts ++ ([] ∷ [])) ++ rest })
        ≡ (
          heard (length ts + 1) rest c,
          some (record { kind = kind; payload = payload; request_id = request_id }),
        )
  unfolding recv_chunked chunked_header
  recv_chunked_lem kind rid payload ts rest c hk hr hp whole is_open room pieces =
      let size : List ℕ = store_u64_be (length payload) ++ [] in
      let header = chunked_header kind rid (length payload) [] in
      let bytes : List ℕ = send_all c.recv_key c.recv_counter (ts ++ ([] ∷ [])) ++ rest in
      let total : read_u64_be (drop 6 header) ≡ length payload =
        ap read_u64_be (drop-append 4 (store_u32_be rid) size (length-store_u32_be rid))
        ∙ read_u64_be-store_u64_be (length payload) [] (omega arith) in
      let none_left : drop 14 header ≡ [] =
        sym (drop-drop 6 8 header)
        ∙ ap (drop 8) (drop-append 4 (store_u32_be rid) size (length-store_u32_be rid))
        ∙ drop-append 8 (store_u64_be (length payload)) [] (length-store_u64_be (length payload)) in
      let enough : length ts < suc (length bytes) = omega (
        arith,
        length-append ts ([] ∷ []),
        length-append (send_all c.recv_key c.recv_counter (ts ++ ([] ∷ []))) rest,
        count-le-bytes c.recv_key c.recv_counter (ts ++ ([] ∷ [])),
      ) in
      let fits : 0 + length (concat ts) ≤ length payload + 64 = omega (arith, ap length whole) in
      rw
        (
          length-chunked_header kind rid (length payload),
          total,
          le→ltb max_chunked_wire_payload (length payload) hp,
          none_left,
          recv_chunks_lem (suc (length bytes)) (length payload) [] ts rest c enough is_open room
              pieces fits,
          read_u32_be-store_u32_be rid size hr,
          mod-eq_of_lt hk,
          whole,
        )
        refl
