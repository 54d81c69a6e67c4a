-- ===== src/Connection/Sound.antt =====
-- Every step of a connection of net/connection.cpp keeps it sound.
use chromatin_protocol.Prelude.{
  ℕ, ◌<◌, ◌≡◌, refl, ◌∙◌, arith, List, [], ◌∷◌, true, false, ltb, if◌then◌else◌, ◌||◌, not, Option,
  none, some, Bool-cases, inl, inr, leb, ◌==◌, length,
}
use chromatin_protocol.External.Crypto.{Crypto}
use chromatin_protocol.External.Transport.{Transport, DecodedMessage}
use chromatin_protocol.Connection.{Connection, PendingMessage, Network, Io, require, recv_encrypted}
use chromatin_protocol.Connection.Queue.{
  streaming_threshold, max_send_queue, send_message, close_gracefully, send_pending, drain_front,
  drain_one, goodbye_type, drain_end,
}
use chromatin_protocol.Connection.Loop.{
  ping_type, pong_type, saw_frame, deliver, handle, handle_decoded, handle_chunked, begins_chunked,
  receive_one, recv_chunked,
}
use chromatin_protocol.Connection.Keeping.{
  leb-false, if-keeps, and_then-keeps, require-keeps, recv_encrypted-keeps, send_pending-keeps,
  saw_frame-keeps, recv_chunked-keeps,
}
use chromatin_protocol.Connection.Steps.{
  Step, sends, leaves, closes, drains, ends, receives, Reach, here, next, answered, waiting, told,
  issued, IsSound, IsSound-Untouched, Quiet-Untouched, close-IsSound, pushed-IsSound,
  enqueue-IsSound, fail_all-answered, fail_all-told, fail_all_rest, fail_all-IsSound, sent-IsSound,
}

issued_lt : (t n : ℕ) → t < n → issued t n ≡ 1
issued_lt t n h = ground arith

-- Fields that soundness does not speak of.
deliver-IsSound : (m : DecodedMessage) (c : Connection) → IsSound c → IsSound (deliver m c)
unfolding deliver
deliver-IsSound m c v = record { few = v.few; once = v.once; sends = v.sends; reads = v.reads }

module _ ⦃C : Crypto⦄ ⦃N : Network⦄ where
  drain_front-IsSound :
      (c : Connection) (queue : List PendingMessage)
      → c.send_queue ≡ queue
      → IsSound c
      → IsSound (drain_front queue c)
  unfolding drain_front
  drain_front-IsSound c [] e v = v
  drain_front-IsSound c (m ∷ rest) e v =
      let c' : Connection = record c { send_queue = rest } in
      sent-IsSound m rest c v e (send_pending m c') (
        send_pending-keeps (Quiet-Untouched c') m c' (record {
          same_queue = refl;
          same_results = refl;
          same_tickets = refl;
          sends = v.sends;
          reads = v.reads;
        }))

module _ ⦃C : Crypto⦄ ⦃N : Network⦄ ⦃T : Transport⦄ where
  send_message-IsSound :
      (kind : ℕ) (payload : List ℕ) (request_id : ℕ) (c : Connection)
      → IsSound c
      → IsSound (send_message kind payload request_id c).0
  unfolding send_message
  send_message-IsSound kind payload request_id c v =
      elim (Bool-cases (leb streaming_threshold (length payload))) [
        | inl e ↦ rw e (enqueue-IsSound _ c (λ t. refl) v)
        | inr e ↦ rw e (enqueue-IsSound _ c (λ t. refl) v)
      ]

  close_gracefully-IsSound : (c : Connection) → IsSound c → IsSound (close_gracefully c).0
  unfolding close_gracefully
  close_gracefully-IsSound c v = elim (Bool-cases (c.closed || not c.authenticated)) [
    | inl shut ↦ rw shut (close-IsSound c v)
    | inr fine ↦ elim (Bool-cases (leb max_send_queue (length c.send_queue))) [
      | inl full ↦ rw (fine, full) (close-IsSound c v)
      | inr room ↦
          rw (fine, room)
            (let w = pushed-IsSound _ c refl (leb-false _ _ room) v in
              record { few = w.few; once = w.once; sends = w.sends; reads = w.reads })
    ]
  ]

  handle-IsSound : (m : DecodedMessage) (c : Connection) → IsSound c → IsSound (handle m c)
  unfolding handle
  handle-IsSound m c v = elim (Bool-cases (m.kind == ping_type)) [
    | inl ping ↦ rw ping (send_message-IsSound pong_type [] 0 c v)
    | inr other ↦ rw other (
        if-keeps IsSound (m.kind == pong_type) c _ v (
          if-keeps IsSound (m.kind == goodbye_type) _ _
            (close-IsSound (record c { received_goodbye = true })
              (record { few = v.few; once = v.once; sends = v.sends; reads = v.reads }))
            (deliver-IsSound m c v)))
  ]

  handle_decoded-IsSound :
      (m : Option DecodedMessage) (c : Connection) → IsSound c → IsSound (handle_decoded m c).0
  unfolding handle_decoded
  handle_decoded-IsSound none c v = v
  handle_decoded-IsSound (some m) c v =
      and_then-keeps IsSound (require c.authenticated c) _
        (require-keeps IsSound c.authenticated c v) (λ _ d p. handle-IsSound m d p)

  handle_chunked-IsSound :
      (first : List ℕ) (c : Connection) → IsSound c → IsSound (handle_chunked first c).0
  unfolding handle_chunked
  handle_chunked-IsSound first c v =
      and_then-keeps IsSound (recv_chunked first c) _
        (recv_chunked-keeps IsSound-Untouched first c v)
        (λ m d p.
          and_then-keeps IsSound (require d.authenticated d) _
            (require-keeps IsSound d.authenticated d p) (λ _ e r. deliver-IsSound m e r))

  receive_one-IsSound : (c : Connection) → IsSound c → IsSound (receive_one c).0
  unfolding receive_one
  receive_one-IsSound c v =
      and_then-keeps IsSound (recv_encrypted c) _ (recv_encrypted-keeps IsSound-Untouched c v)
        (λ text d p.
          if-keeps (λ (f : Io (Unit {0})). IsSound (f (saw_frame d)).0) (begins_chunked text) _ _
            (handle_chunked-IsSound text (saw_frame d) (saw_frame-keeps IsSound-Untouched d p))
            (handle_decoded-IsSound (T.decode text) (saw_frame d)
              (saw_frame-keeps IsSound-Untouched d p)))

  Step-IsSound : {c d : Connection} → Step c d → IsSound c → IsSound d
  unfolding drain_one drain_end
  Step-IsSound (sends c kind payload request_id) v =
      send_message-IsSound kind payload request_id c v
  Step-IsSound (leaves c) v = close_gracefully-IsSound c v
  Step-IsSound (closes c) v = close-IsSound c v
  Step-IsSound (drains c is_open) v = drain_front-IsSound c c.send_queue refl v
  Step-IsSound (ends c shut) v = fail_all-IsSound c v.once v.sends v.reads
  Step-IsSound (receives c is_open) v = receive_one-IsSound c v

  -- However senders, the drain and the message loop take turns, the queue keeps its bound, every
  -- ticket given out is either waiting or answered once, and no frame is sent or read under a counter
  -- beyond the limit, if this held at the start.
  pub Reach-IsSound : {c d : Connection} → Reach c d → IsSound c → IsSound d
  Reach-IsSound here v = v
  Reach-IsSound (next r st) v = Step-IsSound st (Reach-IsSound r v)

  -- When the drain of a closed connection ends, whatever happened before: every waiter has been told
  -- exactly once, those whose message was still in the queue that it was not sent, and the others what
  -- they had been told already; and the queue is empty.
  pub drain_end_answers_all :
      {c d : Connection}
      → Reach c d
      → IsSound c
      → (t : ℕ) → t < d.next_ticket
      → (answered t (drain_end d).results ≡ 1)
        × (told t (drain_end d).results
            ≡ (if ltb 0 (waiting t d.send_queue) then some false else told t d.results))
        × ((drain_end d).send_queue ≡ [])
  unfolding drain_end
  drain_end_answers_all {c} {d} r v t h = (
    fail_all-answered t d.send_queue d ∙ (Reach-IsSound r v).once t ∙ issued_lt t d.next_ticket h,
    fail_all-told t d.send_queue d,
    (fail_all_rest d.send_queue d).0,
  )
