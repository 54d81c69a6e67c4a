-- ===== src/Connection/Queue.antt =====
-- net/connection.cpp: the send queue, from `send_message` to `drain_send_queue`.
use chromatin_protocol.Prelude.{
  ℕ, zero, suc, ◌+◌, ◌%◌, List, [], ◌∷◌, ◌++◌, Bool, true, false, ◌||◌, not, Option, none, some,
  leb, if◌then◌else◌, length, take, drop,
}
use chromatin_protocol.Endian.{store_u32_be, store_u64_be}
use chromatin_protocol.External.Crypto.{Crypto}
use chromatin_protocol.External.Transport.{Transport}
use chromatin_protocol.Connection.{
  Connection, PendingMessage, Network, Io, ◌>>◌, done, failed, close, send_encrypted,
}

abbrev pub streaming_threshold : ℕ
streaming_threshold = 1048576

abbrev pub transport_envelope_margin : ℕ
transport_envelope_margin = 64

abbrev pub max_send_queue : ℕ
max_send_queue = 1024

abbrev pub goodbye_type : ℕ
goodbye_type = 7

push_back : (ℕ → PendingMessage) → Connection → Connection × Option ℕ
push_back message c = (
  record c {
    send_queue = c.send_queue ++ (message c.next_ticket ∷ []);
    next_ticket = c.next_ticket + 1;
  },
  some c.next_ticket,
)

-- What the two ways to enqueue have in common: the result is the ticket under which the caller
-- waits, or `none` where it is told at once that nothing is sent.
unfoldable pub enqueue : (ℕ → PendingMessage) → Connection → Connection × Option ℕ
unfolding push_back
enqueue message c =
    if c.closed || c.closing
    then (c, none)
    else if leb max_send_queue (length c.send_queue)
    then (close c, none)
    else push_back message c

unfoldable pub enqueue_send : List ℕ → Connection → Connection × Option ℕ
enqueue_send encoded = enqueue (λ ticket. record {
  encoded = encoded;
  ticket = ticket;
  is_chunked = false;
  chunked_payload = [];
})

-- `[0x01][type][request_id][total size]` and what metadata there is.
unfoldable pub chunked_header : ℕ → ℕ → ℕ → List ℕ → List ℕ
chunked_header kind request_id size extra =
    1 ∷ (kind % 256) ∷ (store_u32_be request_id ++ (store_u64_be size ++ extra))

unfoldable pub send_message_chunked : ℕ → List ℕ → ℕ → List ℕ → Connection → Connection × Option ℕ
send_message_chunked kind payload request_id extra = enqueue (λ ticket. record {
  encoded = chunked_header kind request_id (length payload) extra;
  ticket = ticket;
  is_chunked = true;
  chunked_payload = payload;
})

module _ ⦃T : Transport⦄ where
  unfoldable pub send_message : ℕ → List ℕ → ℕ → Connection → Connection × Option ℕ
  unfolding send_message_chunked enqueue_send
  send_message kind payload request_id =
      if leb streaming_threshold (length payload)
      then send_message_chunked kind payload request_id []
      else enqueue_send (T.encode kind payload request_id)

  -- Up to the wait for the goodbye to be sent; the caller closes the connection after it.
  unfoldable pub close_gracefully : Connection → Connection × Option ℕ
  unfolding push_back
  close_gracefully c =
      if c.closed || not c.authenticated
      then (close c, none)
      else if leb max_send_queue (length c.send_queue)
      then (close c, none)
      else push_back
          (λ ticket. record {
            encoded = T.encode goodbye_type [] 0;
            ticket = ticket;
            is_chunked = false;
            chunked_payload = [];
          })
          (record c { closing = true })

-- `m.completion->cancel()` with `*m.result_ptr = ok`.
unfoldable pub tell : ℕ → Bool → Connection → Connection
tell ticket ok c = record c { results = (ticket, ok) ∷ c.results }

unfoldable pub fail_all : List PendingMessage → Connection → Connection
unfolding tell
fail_all [] c = record c { send_queue = [] }
fail_all (m ∷ ms) c = fail_all ms (tell m.ticket false c)

-- The waiter of a message is told whether it was written; a failure fails all that wait.
unfoldable pub sent : PendingMessage → Connection × Option (Unit {0}) → Connection
unfolding tell
sent m (c, none) = let c' = tell m.ticket false c in fail_all c'.send_queue c'
sent m (c, some _) = tell m.ticket true c

module _ ⦃C : Crypto⦄ ⦃N : Network⦄ where
  -- `rest` is the payload from `offset` on. Every round takes a byte at least, so that its length is
  -- fuel enough.
  unfoldable pub send_chunks : ℕ → ℕ → List ℕ → Io (Unit {0})
  send_chunks size fuel [] = done tt
  send_chunks size zero (x ∷ rest) = failed
  send_chunks size (suc fuel) (x ∷ rest) =
      send_encrypted (take size (x ∷ rest)) >> send_chunks size fuel (drop size (x ∷ rest))

  unfoldable pub send_pending : PendingMessage → Io (Unit {0})
  send_pending m =
      if m.is_chunked
      then (do
        send_encrypted m.encoded
        send_chunks streaming_threshold (length m.chunked_payload) m.chunked_payload
        send_encrypted [])
      else send_encrypted m.encoded

  unfoldable pub drain_front : List PendingMessage → Connection → Connection
  unfolding sent
  drain_front [] c = c
  drain_front (m ∷ rest) c = sent m (send_pending m (record c { send_queue = rest }))

  -- One round of the inner loop of `drain_send_queue`. What other coroutines add to the queue during
  -- its writes stands behind what is being sent, and a close during them is a write that fails.
  unfoldable pub drain_one : Connection → Connection
  unfolding drain_front
  drain_one c = drain_front c.send_queue c

-- The end of `drain_send_queue`, on a closed connection.
unfoldable pub drain_end : Connection → Connection
drain_end c = fail_all c.send_queue c
