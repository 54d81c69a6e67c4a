-- ===== src/Connection/Frames.antt =====
-- What `send_encrypted` writes on a healthy connection is what `recv_encrypted` reads.
use native.Mathlib.Nat.{mod-eq_of_lt}
use chromatin_protocol.Prelude.{
  ℕ, ◌+◌, ◌%◌, ◌^◌, ◌≤◌, ◌<◌, ◌≡◌, refl, sym, ap, ◌∙◌, arith, List, [], ◌++◌, append_assoc,
  append-nil, false, some, le→ltb, leb, length, length-append, take-append, drop-append,
}
use chromatin_protocol.Endian.{store_u32_be, read_u32_be}
use chromatin_protocol.Endian.Words.{length-store_u32_be, read_u32_be-store_u32_be}
use chromatin_protocol.External.Crypto.{Crypto}
use chromatin_protocol.Frame.{max_frame_size, make_nonce, write_frame}
use chromatin_protocol.Connection.{
  Connection, Network, nonce_limit, send_raw, send_encrypted, async_write, async_read, recv_raw,
  open_frame, recv_encrypted,
}

-- No write of the connection fails.
abbrev pub AllWritten : ⦃N : Network⦄ → Type 0
AllWritten ⦃N⦄ = (n : ℕ) → N.write_fails n ≡ false

gt→leb : (a b : ℕ) → b < a → leb a b ≡ false
gt→leb a b h = ground arith
    -- After `n` frames with these bytes.

abbrev pub wrote : ℕ → List ℕ → Connection → Connection
wrote n bytes c = record c {
  send_counter = c.send_counter + n;
  writes = c.writes + (n + n);
  outgoing = c.outgoing ++ bytes;
}

async_write_lem :
    ⦃N : Network⦄ (bytes : List ℕ) (c : Connection)
    → AllWritten
    → c.closed ≡ false
    → async_write bytes c
      ≡ (record c { writes = c.writes + 1; outgoing = c.outgoing ++ bytes }, some tt)
unfolding async_write
async_write_lem bytes c ok is_open = rw (ok c.writes, is_open) refl

-- The header and the bytes, as two writes.
pub send_raw_lem :
    ⦃N : Network⦄ (bytes : List ℕ) (c : Connection)
    → AllWritten
    → c.closed ≡ false
    → send_raw bytes c ≡ (
      record c {
        writes = c.writes + 1 + 1;
        outgoing = c.outgoing ++ (store_u32_be (length bytes % 2 ^ 32) ++ bytes);
      },
      some tt,
    )
unfolding send_raw
send_raw_lem bytes c ok is_open =
    let header = store_u32_be (length bytes % 2 ^ 32) in
    let c' : Connection = record c { writes = c.writes + 1; outgoing = c.outgoing ++ header } in
    rw
      (
        async_write_lem header c ok is_open,
        async_write_lem bytes c' ok is_open,
        append_assoc c.outgoing header bytes,
      )
      refl

async_read_lem :
    (n : ℕ) (front rest : List ℕ) (c : Connection)
    → c.closed ≡ false
    → length front ≡ n
    → async_read n (record c { incoming = front ++ rest })
      ≡ (record c { incoming = rest }, some front)
unfolding async_read
async_read_lem n front rest c is_open size =
    rw
      (
        is_open,
        le→ltb (length (front ++ rest)) n (omega (arith, length-append front rest)),
        take-append n front rest size,
        drop-append n front rest size,
      )
      refl

pub recv_raw_lem :
    (bytes rest : List ℕ) (c : Connection)
    → c.closed ≡ false
    → length bytes ≤ max_frame_size
    → recv_raw (record c { incoming = (store_u32_be (length bytes % 2 ^ 32) ++ bytes) ++ rest })
      ≡ (record c { incoming = rest }, some bytes)
unfolding recv_raw
recv_raw_lem bytes rest c is_open fits =
    let n = length bytes % 2 ^ 32 in
    let exact : n ≡ length bytes = mod-eq_of_lt (omega arith) in
    let size : read_u32_be (store_u32_be n) ≡ length bytes =
      ap read_u32_be (sym (append-nil (store_u32_be n)))
      ∙ read_u32_be-store_u32_be n [] (omega arith)
      ∙ exact in
    rw
      (
        append_assoc (store_u32_be n) bytes rest,
        async_read_lem 4 (store_u32_be n) (bytes ++ rest) c is_open (length-store_u32_be n),
        size,
        le→ltb max_frame_size (length bytes) fits,
      )
      (async_read_lem (length bytes) bytes rest c is_open refl)

module _ ⦃C : Crypto⦄ where
  pub send_encrypted_lem :
      ⦃N : Network⦄ (text : List ℕ) (c : Connection)
      → AllWritten
      → c.closed ≡ false
      → c.send_counter < nonce_limit
      → send_encrypted text c ≡ (wrote 1 (write_frame text c.send_key c.send_counter) c, some tt)
  unfolding send_encrypted write_frame
  send_encrypted_lem text c ok is_open room =
      rw
        (
          gt→leb nonce_limit c.send_counter room,
          send_raw_lem (C.encrypt text [] (make_nonce c.send_counter) c.send_key)
              (record c { send_counter = c.send_counter + 1 }) ok is_open,
        )
        (ap
          (λ w. (
            record c {
              send_counter = c.send_counter + 1;
              writes = w;
              outgoing = c.outgoing ++ write_frame text c.send_key c.send_counter;
            },
            some tt,
          ))
          (omega arith))

  abbrev pub read : ℕ → List ℕ → Connection → Connection
  read n rest c = record c { incoming = rest; recv_counter = c.recv_counter + n }

  pub recv_encrypted_lem :
      (text rest : List ℕ) (c : Connection)
      → c.closed ≡ false
      → c.recv_counter < nonce_limit
      → length text + 16 ≤ max_frame_size
      → recv_encrypted (record c { incoming = write_frame text c.recv_key c.recv_counter ++ rest })
        ≡ (read 1 rest c, some text)
  unfolding recv_encrypted open_frame write_frame
  recv_encrypted_lem text rest c is_open room fits =
      let nonce = make_nonce c.recv_counter in
      let ct = C.encrypt text [] nonce c.recv_key in
      rw
        (
          recv_raw_lem ct rest c is_open (omega (arith, C.length-encrypt text [] nonce c.recv_key)),
          gt→leb nonce_limit c.recv_counter room,
          C.decrypt-encrypt text [] nonce c.recv_key,
        )
        refl
