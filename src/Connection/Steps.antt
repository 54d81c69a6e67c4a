-- ===== src/Connection/Steps.antt =====
-- The coroutines of a connection of net/connection.cpp as a step relation: senders, the drain of the
-- queue and the message loop take turns in any order.
use native.Mathlib.Nat.{zero-add}
use chromatin_protocol.Prelude.{
  ℕ, ◌+◌, ◌≤◌, ◌<◌, ◌≡◌, refl, ap, ◌∙◌, arith, List, [], ◌∷◌, ◌++◌, Bool, true, false, ◌||◌, Option,
  none, some, Bool-cases, inl, inr, ltb, leb, ◌==◌, if◌then◌else◌, length, length-append,
}
use chromatin_protocol.External.Crypto.{Crypto}
use chromatin_protocol.External.Transport.{Transport}
use chromatin_protocol.Connection.{Connection, PendingMessage, Network, nonce_limit, close}
use chromatin_protocol.Connection.Queue.{
  max_send_queue, enqueue, send_message, close_gracefully, sent, tell, fail_all, drain_one,
  drain_end,
}
use chromatin_protocol.Connection.Loop.{receive_one}
use chromatin_protocol.Connection.Keeping.{Untouched, leb-false, close-keeps}

pub data Step ⦃C : Crypto⦄ ⦃N : Network⦄ ⦃T : Transport⦄ : Connection → Connection → Type 0 where
  sends :
      (c : Connection) (kind : ℕ) (payload : List ℕ) (request_id : ℕ)
      → Step c (send_message kind payload request_id c).0
  leaves : (c : Connection) → Step c (close_gracefully c).0
  closes : (c : Connection) → Step c (close c)
  drains : (c : Connection) → c.closed ≡ false → Step c (drain_one c)
  ends : (c : Connection) → c.closed ≡ true → Step c (drain_end c)
  receives : (c : Connection) → c.closed ≡ false → Step c (receive_one c).0

pub data Reach ⦃C : Crypto⦄ ⦃N : Network⦄ ⦃T : Transport⦄ (c : Connection)
    : Connection → Type 0 where
  here : Reach c c
  next : {d e : Connection} → Reach c d → Step d e → Reach c e

-- How many waiters have a ticket, and how many were told something under it.
abbrev pub waiting : ℕ → List PendingMessage → ℕ
waiting t [] = 0
waiting t (m ∷ ms) = (if m.ticket == t then 1 else 0) + waiting t ms

abbrev pub answered : ℕ → List (ℕ × Bool) → ℕ
answered t [] = 0
answered t ((u, ok) ∷ rs) = (if u == t then 1 else 0) + answered t rs

-- What a waiter was told under its ticket.
abbrev pub told : ℕ → List (ℕ × Bool) → Option Bool
told t [] = none
told t ((u, ok) ∷ rs) = if u == t then some ok else told t rs

abbrev pub issued : ℕ → ℕ → ℕ
issued t n = if ltb t n then 1 else 0

-- The queue is bounded, every ticket that was given out is waiting or answered and never both, and no
-- counter has passed the limit for nonces.
pub record IsSound (c : Connection) : Type 0 where
  pub few : length c.send_queue ≤ max_send_queue
  pub once : (t : ℕ) → waiting t c.send_queue + answered t c.results ≡ issued t c.next_ticket
  pub sends : c.send_counter ≤ nonce_limit
  pub reads : c.recv_counter ≤ nonce_limit

waiting-append :
    (t : ℕ) (ms ns : List PendingMessage) → waiting t (ms ++ ns) ≡ waiting t ms + waiting t ns
waiting-append t [] ns = omega arith
waiting-append t (m ∷ ms) ns = omega (arith, waiting-append t ms ns)

issued-suc : (t n : ℕ) → issued t (n + 1) ≡ issued t n + (if n == t then 1 else 0)
issued-suc t n = ground arith

pub IsSound-Untouched : Untouched IsSound
IsSound-Untouched = record {
  on_close = λ d v. record { few = v.few; once = v.once; sends = v.sends; reads = v.reads };
  on_write = λ n bytes d v. record { few = v.few; once = v.once; sends = v.sends; reads = v.reads };
  on_send = λ d room v. record { few = v.few; once = v.once; sends = omega arith; reads = v.reads };
  on_read = λ bytes d v. record { few = v.few; once = v.once; sends = v.sends; reads = v.reads };
  on_recv = λ d room v. record { few = v.few; once = v.once; sends = v.sends; reads = omega arith };
  on_clock = λ t d v. record { few = v.few; once = v.once; sends = v.sends; reads = v.reads };
}

-- What a step of the drain leaves alone while it writes: the queue behind the message, the results
-- and the tickets. The counters stay within the limit.
pub record Quiet (c d : Connection) : Type 0 where
  pub same_queue : d.send_queue ≡ c.send_queue
  pub same_results : d.results ≡ c.results
  pub same_tickets : d.next_ticket ≡ c.next_ticket
  pub sends : d.send_counter ≤ nonce_limit
  pub reads : d.recv_counter ≤ nonce_limit

pub Quiet-Untouched : (c : Connection) → Untouched (Quiet c)
Quiet-Untouched c = record {
  on_close = λ d q. ground arith;
  on_write = λ n bytes d q. ground arith;
  on_send = λ d room q. ground arith;
  on_read = λ bytes d q. ground arith;
  on_recv = λ d room q. ground arith;
  on_clock = λ t d q. ground arith;
}

pub close-IsSound : (c : Connection) → IsSound c → IsSound (close c)
close-IsSound = close-keeps IsSound-Untouched

pub pushed-IsSound :
    (m : PendingMessage) (c : Connection)
    → m.ticket ≡ c.next_ticket
    → length c.send_queue < max_send_queue
    → IsSound c
    → IsSound (record c { send_queue = c.send_queue ++ (m ∷ []); next_ticket = c.next_ticket + 1 })
pushed-IsSound m c e room v = record {
  few = omega (arith, length-append c.send_queue (m ∷ []));
  once = λ t.
      let here : waiting t (m ∷ []) ≡ (if c.next_ticket == t then 1 else 0) + 0 =
        ap (λ (u : ℕ). (if u == t then 1 else 0) + 0) e in
      omega
        (arith, waiting-append t c.send_queue (m ∷ []), issued-suc t c.next_ticket, v.once t, here);
  sends = v.sends;
  reads = v.reads;
}

pub enqueue-IsSound :
    (message : ℕ → PendingMessage) (c : Connection)
    → ((t : ℕ) → (message t).ticket ≡ t)
    → IsSound c
    → IsSound (enqueue message c).0
unfolding enqueue
enqueue-IsSound message c e v = elim (Bool-cases (c.closed || c.closing)) [
  | inl shut ↦ rw shut v
  | inr fine ↦ elim (Bool-cases (leb max_send_queue (length c.send_queue))) [
    | inl full ↦ rw (fine, full) (close-IsSound c v)
    | inr room ↦
        rw (fine, room)
          (pushed-IsSound (message c.next_ticket) c (e c.next_ticket) (leb-false _ _ room) v)
  ]
]

pub fail_all-answered :
    (t : ℕ) (ms : List PendingMessage) (c : Connection)
    → answered t (fail_all ms c).results ≡ waiting t ms + answered t c.results
unfolding fail_all tell
fail_all-answered t [] c = omega arith
fail_all-answered t (m ∷ ms) c = omega (arith, fail_all-answered t ms (tell m.ticket false c))

pub fail_all-told :
    (t : ℕ) (ms : List PendingMessage) (c : Connection)
    → told t (fail_all ms c).results
      ≡ (if ltb 0 (waiting t ms) then some false else told t c.results)
unfolding fail_all tell
fail_all-told t [] c = refl
fail_all-told t (m ∷ ms) c = ground (arith, fail_all-told t ms (tell m.ticket false c))

-- All but the results and the queue, which is empty.
pub fail_all_rest :
    (ms : List PendingMessage) (c : Connection)
    → let d = fail_all ms c in
      (d.send_queue ≡ [])
      × (d.next_ticket ≡ c.next_ticket)
      × (d.send_counter ≡ c.send_counter)
      × (d.recv_counter ≡ c.recv_counter)
unfolding fail_all tell
fail_all_rest [] c = (refl, refl, refl, refl)
fail_all_rest (m ∷ ms) c = fail_all_rest ms (tell m.ticket false c)

pub fail_all-IsSound :
    (c : Connection)
    → ((t : ℕ) → waiting t c.send_queue + answered t c.results ≡ issued t c.next_ticket)
    → c.send_counter ≤ nonce_limit
    → c.recv_counter ≤ nonce_limit
    → IsSound (fail_all c.send_queue c)
fail_all-IsSound c once ok_s ok_r =
    let (empty, tickets, sent, read) = fail_all_rest c.send_queue c in
    record {
      few = rw empty (omega arith);
      once = λ t. rw (empty, tickets, fail_all-answered t c.send_queue c, zero-add) (once t);
      sends = rw sent ok_s;
      reads = rw read ok_r;
    }

-- What draining knows while a message is neither in the queue nor answered.
pub sent-IsSound :
    (m : PendingMessage) (rest : List PendingMessage) (c : Connection)
    → IsSound c
    → c.send_queue ≡ m ∷ rest
    → (r : Connection × Option (Unit {0})) → Quiet (record c { send_queue = rest }) r.0
    → IsSound (sent m r)
unfolding sent tell
sent-IsSound m rest c v e (d, none) q =
    fail_all-IsSound (record d { results = (m.ticket, false) ∷ d.results })
      (λ t.
        let moved : waiting t d.send_queue + answered t d.results
            ≡ waiting t rest + answered t c.results =
          ap (λ (k : List PendingMessage). waiting t k + answered t d.results) q.same_queue
          ∙ ap (λ (k : List (ℕ × Bool)). waiting t rest + answered t k) q.same_results in
        let before : waiting t (m ∷ rest) + answered t c.results ≡ issued t c.next_ticket =
          rw e at (v.once t) in
        omega (arith, moved, before, ap (issued t) q.same_tickets))
      q.sends q.reads
sent-IsSound m rest c v e (d, some _) q = record {
  few = omega (arith, v.few, ap length e, ap length q.same_queue);
  once = λ t.
      let moved : waiting t d.send_queue + answered t d.results
          ≡ waiting t rest + answered t c.results =
        ap (λ (k : List PendingMessage). waiting t k + answered t d.results) q.same_queue
        ∙ ap (λ (k : List (ℕ × Bool)). waiting t rest + answered t k) q.same_results in
      let before : waiting t (m ∷ rest) + answered t c.results ≡ issued t c.next_ticket =
        rw e at (v.once t) in
      omega (arith, moved, before, ap (issued t) q.same_tickets);
  sends = q.sends;
  reads = q.reads;
}
