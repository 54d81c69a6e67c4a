-- ===== src/Connection/Loop.antt =====
-- net/connection.cpp: `message_loop` and the reassembly of a chunked message.
use chromatin_protocol.Prelude.{
  ℕ, zero, suc, ◌+◌, ◌*◌, List, [], ◌∷◌, ◌++◌, Bool, true, ◌&&◌, not, Option, none, some, ltb, ◌==◌,
  if◌then◌else◌, length, get_or, drop,
}
use chromatin_protocol.Endian.{read_u32_be, read_u64_be}
use chromatin_protocol.External.Crypto.{Crypto}
use chromatin_protocol.External.Transport.{Transport, DecodedMessage}
use chromatin_protocol.Connection.{
  Connection, Network, Io, ◌>>=◌, ◌>>◌, done, failed, this, change, require, close, recv_encrypted,
}
use chromatin_protocol.Connection.Queue.{goodbye_type, send_message}

abbrev pub chunked_header_size : ℕ
chunked_header_size = 14

-- `MAX_BLOB_DATA_HARD_CEILING + MAX_BLOB_ENVELOPE_OVERHEAD`
abbrev pub max_chunked_wire_payload : ℕ
max_chunked_wire_payload = 64 * 1024 * 1024 + 1024 * 1024

abbrev pub ping_type : ℕ
ping_type = 5

abbrev pub pong_type : ℕ
pong_type = 6

module _ ⦃N : Network⦄ where
  unfoldable pub saw_frame : Connection → Connection
  saw_frame c = record c { last_recv_time = N.now }

-- `message_cb_`
unfoldable pub deliver : DecodedMessage → Connection → Connection
deliver message c = record c { delivered = message ∷ c.delivered }

-- The empty chunk is the sentinel; `later` goes on reading.
unfoldable pub add_chunk : ℕ → List ℕ → (List ℕ → Io (List ℕ)) → List ℕ → Io (List ℕ)
add_chunk total payload later [] = done payload
add_chunk total payload later (x ∷ chunk) =
    let grown : List ℕ = payload ++ (x ∷ chunk) in
    require (not (ltb (total + 64) (length grown))) >> later grown

module _ ⦃C : Crypto⦄ ⦃N : Network⦄ where
  -- Every frame takes four bytes at least, so that the length of what comes in is fuel enough.
  unfoldable pub recv_chunks : ℕ → ℕ → List ℕ → Io (List ℕ)
  unfolding saw_frame add_chunk
  recv_chunks zero total payload = failed
  recv_chunks (suc fuel) total payload = do
    chunk ← recv_encrypted
    change saw_frame
    add_chunk total payload (λ grown. recv_chunks fuel total grown) chunk

  unfoldable pub recv_chunked : List ℕ → Io DecodedMessage
  recv_chunked first_frame = do
    require (not (ltb (length first_frame) chunked_header_size))
    require (get_or first_frame 0 0 == 1)
    let total = read_u64_be (drop 6 first_frame)
    require (not (ltb max_chunked_wire_payload total))
    c ← this
    payload ← recv_chunks (suc (length c.incoming)) total (drop chunked_header_size first_frame)
    done (record {
      kind = get_or first_frame 1 0;
      payload = payload;
      request_id = read_u32_be (drop 2 first_frame);
    })

-- A transport message never starts with this byte.
unfoldable pub begins_chunked : List ℕ → Bool
begins_chunked text = ltb 0 (length text) && get_or text 0 0 == 1

module _ ⦃C : Crypto⦄ ⦃N : Network⦄ ⦃T : Transport⦄ where
  -- A reply to a ping is put in the queue; the loop goes on when it has been sent.
  unfoldable pub handle : DecodedMessage → Connection → Connection
  unfolding deliver
  handle m c =
      if m.kind == ping_type
      then (send_message pong_type [] 0 c).0
      else if m.kind == pong_type
      then c
      else if m.kind == goodbye_type
      then close (record c { received_goodbye = true })
      else deliver m c

  unfoldable pub handle_decoded : Option DecodedMessage → Io (Unit {0})
  unfolding handle
  handle_decoded none = done tt
  handle_decoded (some m) = do c ← this; require c.authenticated; change (handle m)

  unfoldable pub handle_chunked : List ℕ → Io (Unit {0})
  unfolding deliver
  handle_chunked first_frame = do
    m ← recv_chunked first_frame
    c ← this
    require c.authenticated
    change (deliver m)

  -- One round of the loop; `none` is its `break`.
  unfoldable pub receive_one : Io (Unit {0})
  unfolding saw_frame handle_decoded handle_chunked
  receive_one = do
    text ← recv_encrypted
    change saw_frame
    if begins_chunked text then handle_chunked text else handle_decoded (T.decode text)
