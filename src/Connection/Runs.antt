-- ===== src/Connection/Runs.antt =====
-- net/connection.cpp on concrete connections.
use chromatin_protocol.Prelude.{
  ℕ, ltb, if◌then◌else◌, ◌+◌, ◌≤◌, ◌<◌, ◌≡◌, refl, arith, List, [], ◌∷◌, true, false, some, length,
}
use chromatin_protocol.External.Transport.{DecodedMessage}
use chromatin_protocol.Connection.{Connection, close}
use chromatin_protocol.Connection.Samples.{sample_crypto, sample_transport, calm, idle}
use chromatin_protocol.Connection.Queue.{enqueue, send_message, drain_end, chunked_header}
use chromatin_protocol.Connection.Loop.{max_chunked_wire_payload}
use chromatin_protocol.Connection.Reassembly.{length-chunked_header, recv_chunked_lem}
use chromatin_protocol.Connection.Wire.{IsSendable}
use chromatin_protocol.Connection.Sending.{send_each, drain_each}
use chromatin_protocol.Connection.Delivery.{receive_each, delivered_in_order}
use chromatin_protocol.Connection.Steps.{
  sends, closes, Reach, here, next, answered, waiting, told, issued, IsSound,
}
use chromatin_protocol.Connection.Sound.{Reach-IsSound, drain_end_answers_all}
use chromatin_protocol.Connection.Reading.{recv_chunked_bounded}

abbrev hello : DecodedMessage
hello = record { kind = 20; payload = 1 ∷ 2 ∷ []; request_id = 5 }

abbrev bye : DecodedMessage
bye = record { kind = 30; payload = []; request_id = 6 }

hello-IsSendable : IsSendable hello
hello-IsSendable = record {
  kind_fits = omega arith;
  not_ping = λ e. omega arith;
  not_pong = λ e. omega arith;
  not_goodbye = λ e. omega arith;
  id_fits = omega arith;
  size_fits = omega arith;
}

bye-IsSendable : IsSendable bye
bye-IsSendable = record {
  kind_fits = omega arith;
  not_ping = λ e. omega arith;
  not_pong = λ e. omega arith;
  not_goodbye = λ e. omega arith;
  id_fits = omega arith;
  size_fits = omega arith;
}

delivered_in_order_example :
    let sent = drain_each 2 (send_each (hello ∷ bye ∷ []) idle) in
    let got = receive_each 2 (record idle { incoming = sent.outgoing }) in
    (sent.results ≡ (1, true) ∷ (0, true) ∷ [])
    × (got.1 ≡ some tt)
    × (got.0.delivered ≡ bye ∷ hello ∷ [])
    × (got.0.incoming ≡ [])
delivered_in_order_example =
    delivered_in_order (hello ∷ bye ∷ []) idle idle (λ n. refl)
      (hello-IsSendable, (bye-IsSendable, tt)) refl refl refl (omega arith) refl (omega arith) refl
      refl refl refl

idle-IsSound : IsSound idle
idle-IsSound = record {
  few = omega arith;
  once = λ t. no_ticket t;
  sends = omega arith;
  reads = omega arith;
}
  where
    no_ticket : (t : ℕ) → waiting t [] + answered t [] ≡ issued t 0
    no_ticket t = ground arith

abbrev sent_one : Connection
sent_one = (send_message 20 (1 ∷ []) 5 idle).0

sent_then_closed : Reach idle (close sent_one)
sent_then_closed = next (next here (sends idle 20 (1 ∷ []) 5)) (closes sent_one)

Reach-IsSound_example : IsSound (close sent_one)
Reach-IsSound_example = Reach-IsSound sent_then_closed idle-IsSound

one_ticket : 0 < (close sent_one).next_ticket
unfolding send_message enqueue close
one_ticket = omega arith

drain_end_answers_all_example :
    (answered 0 (drain_end (close sent_one)).results ≡ 1)
    × (told 0 (drain_end (close sent_one)).results ≡ (
        if ltb 0 (waiting 0 (close sent_one).send_queue)
        then some false
        else told 0 (close sent_one).results))
    × ((drain_end (close sent_one)).send_queue ≡ [])
drain_end_answers_all_example = drain_end_answers_all sent_then_closed idle-IsSound 0 one_ticket

abbrev piece : List (List ℕ)
piece = (1 ∷ 2 ∷ 3 ∷ []) ∷ []

recv_chunked_bounded_example : 3 ≤ max_chunked_wire_payload + 64
recv_chunked_bounded_example = recv_chunked_bounded (chunked_header 20 5 3 []) _ _ _ header_fits (
    recv_chunked_lem 20 5 (1 ∷ 2 ∷ 3 ∷ []) piece [] idle (omega arith) (omega arith) (omega arith)
      refl refl (omega arith) ((omega arith, omega arith), tt))
  where
    header_fits : length (chunked_header 20 5 3 []) ≤ 2097152
    header_fits = omega (arith, length-chunked_header 20 5 3)
