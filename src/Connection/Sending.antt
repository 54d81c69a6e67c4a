-- ===== src/Connection/Sending.antt =====
-- What `send_message` puts in the queue of net/connection.cpp, and what draining the queue writes.
use chromatin_protocol.Prelude.{
  ℕ, zero, suc, ◌+◌, ◌≤◌, ◌<◌, ◌≡◌, refl, sym, ap, ◌∙◌, arith, List, [], ◌∷◌, ◌++◌, append_assoc,
  append-nil, Bool, true, false, Bool-cases, inl, inr, leb, length, length-append,
}
use chromatin_protocol.External.Crypto.{Crypto}
use chromatin_protocol.External.Transport.{Transport, DecodedMessage}
use chromatin_protocol.Frame.Stream.{send_all}
use chromatin_protocol.Connection.{Connection, PendingMessage, Network, nonce_limit}
use chromatin_protocol.Connection.Queue.{
  streaming_threshold, max_send_queue, enqueue, send_message, tell, drain_one,
}
use chromatin_protocol.Connection.Frames.{AllWritten, wrote}
use chromatin_protocol.Connection.Texts.{drain_one_lem, send_all-append}
use chromatin_protocol.Connection.Wire.{leb_gt, wire, pending, texts_of-pending, ticket-pending}

-- Every waiter from `ticket` on is told that its message was sent.
abbrev pub told : ℕ → ℕ → List (ℕ × Bool) → List (ℕ × Bool)
told ticket zero results = results
told ticket (suc n) results = told (ticket + 1) n ((ticket, true) ∷ results)

module _ ⦃T : Transport⦄ where
  abbrev pub wires : List DecodedMessage → List (List ℕ)
  wires [] = []
  wires (m ∷ ms) = wire m ++ wires ms

  abbrev pub queued : ℕ → List DecodedMessage → List PendingMessage
  queued ticket [] = []
  queued ticket (m ∷ ms) = pending m ticket ∷ queued (ticket + 1) ms

module _ ⦃C : Crypto⦄ ⦃N : Network⦄ ⦃T : Transport⦄ where
  unfoldable pub send_each : List DecodedMessage → Connection → Connection
  send_each [] c = c
  send_each (m ∷ ms) c = send_each ms (send_message m.kind m.payload m.request_id c).0

  unfoldable pub drain_each : ℕ → Connection → Connection
  drain_each zero c = c
  drain_each (suc n) c = drain_each n (drain_one c)

  send_message_lem :
      (m : DecodedMessage) (c : Connection)
      → c.closed ≡ false
      → c.closing ≡ false
      → length c.send_queue < max_send_queue
      → (send_message m.kind m.payload m.request_id c).0 ≡ record c {
        send_queue = c.send_queue ++ (pending m c.next_ticket ∷ []);
        next_ticket = c.next_ticket + 1;
      }
  unfolding send_message enqueue
  send_message_lem m c is_open going room =
      elim (Bool-cases (leb streaming_threshold (length m.payload))) [
        | inl e ↦ rw (e, is_open, going, leb_gt max_send_queue (length c.send_queue) room) refl
        | inr e ↦ rw (e, is_open, going, leb_gt max_send_queue (length c.send_queue) room) refl
      ]

  pub send_each_lem :
      (ms : List DecodedMessage) (c : Connection)
      → c.closed ≡ false
      → c.closing ≡ false
      → length c.send_queue + length ms ≤ max_send_queue
      → send_each ms c ≡ record c {
        send_queue = c.send_queue ++ queued c.next_ticket ms;
        next_ticket = c.next_ticket + length ms;
      }
  unfolding send_each
  send_each_lem [] c is_open going room = λ i. record c {
    send_queue = sym (append-nil c.send_queue) i;
    next_ticket = let p : c.next_ticket ≡ c.next_ticket + 0 = omega arith in p i;
  }
  send_each_lem (m ∷ ms) c is_open going room =
      let front : List PendingMessage = pending m c.next_ticket ∷ [] in
      let c' : Connection = record c {
        send_queue = c.send_queue ++ front;
        next_ticket = c.next_ticket + 1;
      } in
      rw
        (
          send_message_lem m c is_open going (omega arith),
          send_each_lem ms c' is_open going (omega (arith, length-append c.send_queue front)),
        )
        (λ i. record c {
          send_queue = append_assoc c.send_queue front (queued (c.next_ticket + 1) ms) i;
          next_ticket =
              let p : c.next_ticket + 1 + length ms ≡ c.next_ticket + suc (length ms) =
                omega arith in
              p i;
        })

  pub drain_each_lem :
      (ms : List DecodedMessage) (ticket : ℕ) (c : Connection)
      → AllWritten
      → c.closed ≡ false
      → c.send_counter + length (wires ms) ≤ nonce_limit
      → drain_each (length ms) (record c { send_queue = queued ticket ms }) ≡ record c {
        send_queue = [];
        send_counter = c.send_counter + length (wires ms);
        writes = c.writes + (length (wires ms) + length (wires ms));
        outgoing = c.outgoing ++ send_all c.send_key c.send_counter (wires ms);
        results = told ticket (length ms) c.results;
      }
  unfolding drain_each send_all tell
  drain_each_lem [] ticket c ok is_open room = λ i. record c {
    send_queue = [];
    send_counter = let p : c.send_counter ≡ c.send_counter + 0 = omega arith in p i;
    writes = let p : c.writes ≡ c.writes + (0 + 0) = omega arith in p i;
    outgoing = sym (append-nil c.outgoing) i;
  }
  drain_each_lem (m ∷ ms) ticket c ok is_open room =
      let n = length (wire m) in
      let k = length (wires ms) in
      let total : length (wire m ++ wires ms) ≡ n + k = length-append (wire m) (wires ms) in
      let bytes : List ℕ = send_all c.send_key c.send_counter (wire m) in
      let queue : List PendingMessage = queued (ticket + 1) ms in
      let c' : Connection = record (wrote n bytes c) { results = (ticket, true) ∷ c.results } in
      let start : Connection = record c { send_queue = pending m ticket ∷ queue } in
      let one : drain_one start ≡ record c' { send_queue = queue } =
        drain_one_lem (pending m ticket) queue start ok is_open
          (omega (arith, total, ap length (texts_of-pending m ticket))) refl
        ∙ (λ i.
            record (wrote (length (texts_of-pending m ticket i))
              (send_all c.send_key c.send_counter (texts_of-pending m ticket i)) c) {
                send_queue = queue;
                results = (ticket-pending m ticket i, true) ∷ c.results;
              }) in
      ap (drain_each (length ms)) one
      ∙ drain_each_lem ms (ticket + 1) c' ok is_open (omega (arith, total))
      ∙ (λ i. record c {
        send_queue = [];
        send_counter =
            let p : c.send_counter + n + k ≡ c.send_counter + length (wire m ++ wires ms) =
              omega (arith, total) in
            p i;
        writes =
            let p : c.writes + (n + n) + (k + k)
                ≡ c.writes + (length (wire m ++ wires ms) + length (wire m ++ wires ms)) =
              omega (arith, total) in
            p i;
        outgoing =
            (append_assoc c.outgoing bytes (send_all c.send_key (c.send_counter + n) (wires ms))
                ∙ ap (λ (b : List ℕ). c.outgoing ++ b)
                    (sym (send_all-append c.send_key c.send_counter (wire m) (wires ms))))
              i;
        results = told (ticket + 1) (length ms) ((ticket, true) ∷ c.results);
      })
