-- ===== src/Connection/Delivery.antt =====
-- Messages from `send_message` through the send queue and the wire to the peer's callback.
use chromatin_protocol.Prelude.{
  ℕ, zero, suc, ◌+◌, ◌≤◌, ◌≡◌, refl, sym, ap, ◌∙◌, arith, List, [], ◌∷◌, ◌++◌, append_assoc,
  append-nil, true, false, some, length, length-append, All,
}
use chromatin_protocol.External.Crypto.{Crypto}
use chromatin_protocol.External.Transport.{Transport, DecodedMessage}
use chromatin_protocol.Frame.Stream.{send_all}
use chromatin_protocol.Connection.{Connection, Network, Io, ◌>>◌, done, nonce_limit}
use chromatin_protocol.Connection.Queue.{max_send_queue}
use chromatin_protocol.Connection.Loop.{deliver, receive_one}
use chromatin_protocol.Connection.Frames.{AllWritten}
use chromatin_protocol.Connection.Texts.{send_all-append}
use chromatin_protocol.Connection.Reassembly.{heard}
use chromatin_protocol.Connection.Wire.{IsSendable, wire, receive_one_lem}
use chromatin_protocol.Connection.Sending.{
  wires, send_each, drain_each, queued, told, send_each_lem, drain_each_lem,
}

abbrev pub latest_first : List DecodedMessage → List DecodedMessage → List DecodedMessage
latest_first [] later = later
latest_first (m ∷ ms) later = latest_first ms (m ∷ later)

module _ ⦃C : Crypto⦄ ⦃N : Network⦄ ⦃T : Transport⦄ where
  unfoldable pub receive_each : ℕ → Io (Unit {0})
  receive_each zero = done tt
  receive_each (suc n) = receive_one >> receive_each n

  receive_each_lem :
      (ms : List DecodedMessage) (rest : List ℕ) (c : Connection)
      → All IsSendable ms
      → c.closed ≡ false
      → c.authenticated ≡ true
      → c.recv_counter + length (wires ms) ≤ nonce_limit
      → let got =
          receive_each
            (length ms)
            (record c { incoming = send_all c.recv_key c.recv_counter (wires ms) ++ rest }) in
        (got.1 ≡ some tt)
        × (got.0.delivered ≡ latest_first ms c.delivered)
        × (got.0.incoming ≡ rest)
  unfolding receive_each send_all deliver
  receive_each_lem [] rest c w is_open auth room = (refl, refl, refl)
  receive_each_lem (m ∷ ms) rest c (w, ws) is_open auth room =
      let n = length (wire m) in
      let total : length (wire m ++ wires ms) ≡ n + length (wires ms) =
        length-append (wire m) (wires ms) in
      let first : List ℕ = send_all c.recv_key c.recv_counter (wire m) in
      let later : List ℕ = send_all c.recv_key (c.recv_counter + n) (wires ms) ++ rest in
      let shape : send_all c.recv_key c.recv_counter (wire m ++ wires ms) ++ rest ≡ first ++ later =
        ap (λ (b : List ℕ). b ++ rest)
          (send_all-append c.recv_key c.recv_counter (wire m) (wires ms))
        ∙ append_assoc first (send_all c.recv_key (c.recv_counter + n) (wires ms)) rest in
      rw (shape, receive_one_lem m later c w is_open auth (omega (arith, total)))
        (receive_each_lem ms rest (deliver m (heard n later c)) ws is_open auth
          (omega (arith, total)))

  -- Messages of at most the size that a receiver puts together, and of no type that the loop handles
  -- itself, which are sent over a healthy connection with an empty queue, no more of them than the
  -- queue holds, are given to the peer's callback in the order in which they were sent, in one frame or
  -- in chunks, if the peer's key and counter are those of the sender and the counter does not run out;
  -- every sender is told so, and nothing is left to read.
  pub delivered_in_order :
      (ms : List DecodedMessage) (s r : Connection)
      → AllWritten
      → All IsSendable ms
      → s.closed ≡ false
      → s.closing ≡ false
      → s.send_queue ≡ []
      → length ms ≤ max_send_queue
      → s.outgoing ≡ []
      → s.send_counter + length (wires ms) ≤ nonce_limit
      → r.closed ≡ false
      → r.authenticated ≡ true
      → r.recv_key ≡ s.send_key
      → r.recv_counter ≡ s.send_counter
      → let sent = drain_each (length ms) (send_each ms s) in
        let got = receive_each (length ms) (record r { incoming = sent.outgoing }) in
        (sent.results ≡ told s.next_ticket (length ms) s.results)
        × (got.1 ≡ some tt)
        × (got.0.delivered ≡ latest_first ms r.delivered)
        × (got.0.incoming ≡ [])
  delivered_in_order ms s r ok ws s_open going empty few fresh room r_open auth key count =
      let s' : Connection = record s { next_ticket = s.next_ticket + length ms } in
      let sent_lem : drain_each (length ms) (send_each ms s) ≡ record s' {
        send_queue = [];
        send_counter = s.send_counter + length (wires ms);
        writes = s.writes + (length (wires ms) + length (wires ms));
        outgoing = s.outgoing ++ send_all s.send_key s.send_counter (wires ms);
        results = told s.next_ticket (length ms) s.results;
      } =
        ap (drain_each (length ms)) (
          send_each_lem ms s s_open going (omega (arith, ap length empty))
          ∙ (λ i. record s' { send_queue = empty i ++ queued s.next_ticket ms }))
        ∙ drain_each_lem ms s.next_ticket s' ok s_open room in
      let out : (drain_each (length ms) (send_each ms s)).outgoing
          ≡ send_all r.recv_key r.recv_counter (wires ms) ++ [] =
        ap (λ (c : Connection). c.outgoing) sent_lem
        ∙ (λ i. fresh i ++ send_all (sym key i) (sym count i) (wires ms))
        ∙ sym (append-nil (send_all r.recv_key r.recv_counter (wires ms))) in
      let got = receive_each_lem ms [] r ws r_open auth (omega arith) in
      (ap (λ (c : Connection). c.results) sent_lem, rw out got.0, rw out got.1, rw out got.2)
