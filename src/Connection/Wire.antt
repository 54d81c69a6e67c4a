-- ===== src/Connection/Wire.antt =====
-- The frames of one message of net/connection.cpp, from its sender to its receiver's callback.
use chromatin_protocol.Prelude.{
  ℕ, suc, ◌+◌, ◌^◌, ◌≤◌, ◌<◌, ◌≡◌, ◌≢◌, refl, ap, arith, List, [], ◌∷◌, ◌++◌, append_assoc, true,
  false, some, Bool-cases, inl, inr, leb, if◌then◌else◌, length, length-append,
}
use chromatin_protocol.Endian.{store_u32_be, store_u64_be}
use chromatin_protocol.External.Crypto.{Crypto}
use chromatin_protocol.External.Transport.{Transport, DecodedMessage}
use chromatin_protocol.Frame.{write_frame}
use chromatin_protocol.Frame.Stream.{send_all}
use chromatin_protocol.Connection.{Connection, PendingMessage, Network, nonce_limit}
use chromatin_protocol.Connection.Queue.{streaming_threshold, goodbye_type, chunked_header}
use chromatin_protocol.Connection.Loop.{
  max_chunked_wire_payload, ping_type, pong_type, deliver, handle, begins_chunked, receive_one,
}
use chromatin_protocol.Connection.Frames.{recv_encrypted_lem}
use chromatin_protocol.Connection.Texts.{chunks, concat-chunks, chunks-IsPiece, texts_of}
use chromatin_protocol.Connection.Reassembly.{length-chunked_header, heard, recv_chunked_lem}

-- A message for the callback: of machine integers, no heartbeat and no goodbye, within the size that
-- a receiver puts together.
pub record IsSendable (m : DecodedMessage) : Type 0 where
  pub kind_fits : m.kind < 256
  pub not_ping : m.kind ≢ ping_type
  pub not_pong : m.kind ≢ pong_type
  pub not_goodbye : m.kind ≢ goodbye_type
  pub id_fits : m.request_id < 2 ^ 32
  pub size_fits : length m.payload ≤ max_chunked_wire_payload

leb-false : (a b : ℕ) → leb a b ≡ false → b < a
leb-false a b h = ground arith

pub leb_gt : (a b : ℕ) → b < a → leb a b ≡ false
leb_gt a b h = ground arith

module _ ⦃T : Transport⦄ where
  abbrev pub pieces : DecodedMessage → List (List ℕ)
  pieces m = chunks streaming_threshold (length m.payload) m.payload

  abbrev pub header : DecodedMessage → List ℕ
  header m = chunked_header m.kind m.request_id (length m.payload) []

  -- The texts of the frames of a message.
  abbrev pub wire : DecodedMessage → List (List ℕ)
  wire m =
      if leb streaming_threshold (length m.payload)
      then header m ∷ (pieces m ++ ([] ∷ []))
      else T.encode m.kind m.payload m.request_id ∷ []

  abbrev pub pending : DecodedMessage → ℕ → PendingMessage
  pending m ticket =
      if leb streaming_threshold (length m.payload)
      then record {
        encoded = header m;
        ticket = ticket;
        is_chunked = true;
        chunked_payload = m.payload;
      }
      else record {
        encoded = T.encode m.kind m.payload m.request_id;
        ticket = ticket;
        is_chunked = false;
        chunked_payload = [];
      }

  pub texts_of-pending : (m : DecodedMessage) (ticket : ℕ) → texts_of (pending m ticket) ≡ wire m
  texts_of-pending m ticket = elim (Bool-cases (leb streaming_threshold (length m.payload))) [
    | inl e ↦ rw e refl
    | inr e ↦ rw e refl
  ]

  pub ticket-pending : (m : DecodedMessage) (t : ℕ) → (pending m t).ticket ≡ t
  ticket-pending m t = elim (Bool-cases (leb streaming_threshold (length m.payload))) [
    | inl e ↦ rw e refl
    | inr e ↦ rw e refl
  ]

  header-begins_chunked : (m : DecodedMessage) → begins_chunked (header m) ≡ true
  unfolding begins_chunked chunked_header store_u32_be store_u64_be
  header-begins_chunked m = refl

  not-begins_chunked :
      (kind : ℕ) (payload : List ℕ) (request_id : ℕ)
      → begins_chunked (T.encode kind payload request_id) ≡ false
  unfolding begins_chunked
  not-begins_chunked kind payload request_id = ground (arith, T.head-encode kind payload request_id)

handle_lem :
    ⦃C : Crypto⦄ ⦃N : Network⦄ ⦃T : Transport⦄ (m : DecodedMessage) (c : Connection)
    → IsSendable m
    → handle m c ≡ deliver m c
unfolding handle
handle_lem m c w = ground (arith, w.not_ping, w.not_pong, w.not_goodbye)

module _ ⦃C : Crypto⦄ ⦃N : Network⦄ ⦃T : Transport⦄ where
  small :
      (m : DecodedMessage) (rest : List ℕ) (c : Connection)
      → IsSendable m
      → c.closed ≡ false
      → c.authenticated ≡ true
      → c.recv_counter < nonce_limit
      → length m.payload < streaming_threshold
      → receive_one (record c {
        incoming =
            write_frame (T.encode m.kind m.payload m.request_id) c.recv_key c.recv_counter ++ rest;
      })
        ≡ (deliver m (heard 1 rest c), some tt)
  unfolding receive_one deliver
  small m rest c w is_open auth room h =
      let text = T.encode m.kind m.payload m.request_id in
      rw
        (
          recv_encrypted_lem text rest c is_open room
              (omega (arith, T.length-encode m.kind m.payload m.request_id)),
          not-begins_chunked m.kind m.payload m.request_id,
          T.decode-encode m.kind m.payload m.request_id w.kind_fits w.id_fits,
          auth,
        )
        (ap (λ (d : Connection). (d, some tt))
          (handle_lem m
            (record c {
              authenticated = true;
              recv_counter = c.recv_counter + 1;
              incoming = rest;
              last_recv_time = N.now;
            })
            w))

  large :
      (n : ℕ) (m : DecodedMessage) (rest : List ℕ) (c : Connection)
      → IsSendable m
      → c.closed ≡ false
      → c.authenticated ≡ true
      → n ≡ length (pieces m) + 2
      → c.recv_counter + n ≤ nonce_limit
      → receive_one (record c {
        incoming =
            write_frame (header m) c.recv_key c.recv_counter
            ++ (send_all c.recv_key (c.recv_counter + 1) (pieces m ++ ([] ∷ [])) ++ rest);
      })
        ≡ (deliver m (heard n rest c), some tt)
  unfolding receive_one deliver
  large n m rest c w is_open auth e room =
      let later : List ℕ =
        send_all c.recv_key (c.recv_counter + 1) (pieces m ++ ([] ∷ [])) ++ rest in
      let count : c.recv_counter + 1 + (length (pieces m) + 1) ≡ c.recv_counter + n = omega arith in
      rw
        (
          recv_encrypted_lem (header m) later c is_open (omega arith)
              (omega (arith, length-chunked_header m.kind m.request_id (length m.payload))),
          header-begins_chunked m,
          recv_chunked_lem m.kind m.request_id m.payload (pieces m) rest (heard 1 later c)
              w.kind_fits w.id_fits w.size_fits
              (concat-chunks streaming_threshold (length m.payload) m.payload (omega arith)
                (omega arith))
              is_open (omega arith)
              (chunks-IsPiece streaming_threshold (length m.payload) m.payload (omega arith)),
          auth,
        )
        (λ i. (
          record c {
            authenticated = true;
            recv_counter = count i;
            incoming = rest;
            last_recv_time = N.now;
            delivered = m ∷ c.delivered;
          },
          some tt,
        ))

  -- One round of the loop takes the frames of a message and hands it over.
  pub receive_one_lem :
      (m : DecodedMessage) (rest : List ℕ) (c : Connection)
      → IsSendable m
      → c.closed ≡ false
      → c.authenticated ≡ true
      → c.recv_counter + length (wire m) ≤ nonce_limit
      → receive_one (record c { incoming = send_all c.recv_key c.recv_counter (wire m) ++ rest })
        ≡ (deliver m (heard (length (wire m)) rest c), some tt)
  unfolding send_all
  receive_one_lem m rest c w is_open auth room =
      elim (Bool-cases (leb streaming_threshold (length m.payload))) [
        | inl e ↦
            rw
              (
                e,
                append_assoc (write_frame (header m) c.recv_key c.recv_counter)
                    (send_all c.recv_key (c.recv_counter + 1) (pieces m ++ ([] ∷ []))) rest,
              )
              (large (suc (length (pieces m ++ ([] ∷ [])))) m rest c w is_open auth
                (omega (arith, length-append (pieces m) ([] ∷ []))) (rw e at room))
        | inr e ↦
            let text = T.encode m.kind m.payload m.request_id in
            rw (e, append_assoc (write_frame text c.recv_key c.recv_counter) [] rest)
              (small m rest c w is_open auth (let r = rw e at room in omega arith)
                (leb-false _ _ e))
      ]
