-- ===== src/Connection/Texts.antt =====
-- The texts that the send queue encrypts for a message, one frame to each, and what draining writes.
use mathlib.Core.Path.{fun_ext}
use chromatin_protocol.Prelude.{
  ℕ, zero, suc, ◌+◌, ◌≤◌, ◌<◌, ◌≡◌, refl, sym, ap, ◌∙◌, arith, List, [], ◌∷◌, ◌++◌, append_assoc,
  Bool-cases, inl, inr, append-nil, true, false, Option, none, some, if◌then◌else◌, length, take,
  drop, take-append-drop, length-take, length-drop, All,
}
use chromatin_protocol.External.Crypto.{Crypto}
use chromatin_protocol.Frame.{write_frame}
use chromatin_protocol.Frame.Stream.{send_all}
use chromatin_protocol.Connection.{
  Connection, PendingMessage, Network, Io, ◌>>◌, and_then, done, nonce_limit, send_encrypted,
}
use chromatin_protocol.Connection.Queue.{
  streaming_threshold, send_chunks, send_pending, tell, drain_one,
}
use chromatin_protocol.Connection.Frames.{AllWritten, wrote, send_encrypted_lem}

-- A payload in pieces of `size`, the last one shorter.
abbrev pub chunks : ℕ → ℕ → List ℕ → List (List ℕ)
chunks size fuel [] = []
chunks size zero (x ∷ rest) = []
chunks size (suc fuel) (x ∷ rest) = take size (x ∷ rest) ∷ chunks size fuel (drop size (x ∷ rest))

abbrev pub concat : List (List ℕ) → List ℕ
concat [] = []
concat (t ∷ ts) = t ++ concat ts

pub concat-chunks :
    (size fuel : ℕ) (payload : List ℕ)
    → 0 < size
    → length payload ≤ fuel
    → concat (chunks size fuel payload) ≡ payload
concat-chunks size fuel [] pos h = refl
concat-chunks size zero (x ∷ rest) pos h = absurd (omega arith)
concat-chunks size (suc fuel) (x ∷ rest) pos h =
    ap (λ (t : List ℕ). take size (x ∷ rest) ++ t)
      (concat-chunks size fuel (drop size (x ∷ rest)) pos
        (omega (arith, length-drop size (x ∷ rest))))
    ∙ take-append-drop size (x ∷ rest)

-- Every piece has an element and at most `size`.
abbrev pub IsPiece : ℕ → List ℕ → Type 0
IsPiece size t = (0 < length t) × (length t ≤ size)

pub chunks-IsPiece :
    (size fuel : ℕ) (payload : List ℕ) → 0 < size → All (IsPiece size) (chunks size fuel payload)
chunks-IsPiece size zero [] pos = tt
chunks-IsPiece size (suc fuel) [] pos = tt
chunks-IsPiece size zero (x ∷ rest) pos = tt
chunks-IsPiece size (suc fuel) (x ∷ rest) pos = (
  (omega (arith, length-take size (x ∷ rest)), omega (arith, length-take size (x ∷ rest))),
  chunks-IsPiece size fuel (drop size (x ∷ rest)) pos,
)

abbrev pub texts_of : PendingMessage → List (List ℕ)
texts_of m =
    if m.is_chunked
    then m.encoded
      ∷ (chunks streaming_threshold (length m.chunked_payload) m.chunked_payload ++ ([] ∷ []))
    else m.encoded ∷ []

module _ ⦃C : Crypto⦄ where
  pub send_all-append :
      (key : List ℕ) (counter : ℕ) (ts us : List (List ℕ))
      → send_all key counter (ts ++ us)
        ≡ send_all key counter ts ++ send_all key (counter + length ts) us
  unfolding send_all
  send_all-append key counter [] us = ap (λ n. send_all key n us) (omega arith)
  send_all-append key counter (t ∷ ts) us =
      let front = write_frame t key counter in
      ap (λ (b : List ℕ). front ++ b) (send_all-append key (counter + 1) ts us)
      ∙ sym (append_assoc front (send_all key (counter + 1) ts) _)
      ∙ ap (λ n. (front ++ send_all key (counter + 1) ts) ++ send_all key n us) (omega arith)

and_then-done : (r : Connection × Option (Unit {0})) → and_then r (λ _. done tt) ≡ r
and_then-done (c, none) = refl
and_then-done (c, some tt) = refl

and_then-after :
    (r : Connection × Option (Unit {0})) (f g h : Io (Unit {0}))
    → ((c : Connection) → and_then (f c) (λ _. h) ≡ g c)
    → and_then (and_then r (λ _. f)) (λ _. h) ≡ and_then r (λ _. g)
and_then-after (c, none) f g h e = refl
and_then-after (c, some _) f g h e = e c

module _ ⦃C : Crypto⦄ ⦃N : Network⦄ where
  abbrev send_texts : List (List ℕ) → Io (Unit {0})
  send_texts [] = done tt
  send_texts (t ∷ ts) = send_encrypted t >> send_texts ts

  wrote-wrote :
      (n : ℕ) (a b : List ℕ) (c : Connection) → wrote n b (wrote 1 a c) ≡ wrote (suc n) (a ++ b) c
  wrote-wrote n a b c = λ i. record c {
    send_counter = let p : c.send_counter + 1 + n ≡ c.send_counter + suc n = omega arith in p i;
    writes = let p : c.writes + (1 + 1) + (n + n) ≡ c.writes + (suc n + suc n) = omega arith in p i;
    outgoing = append_assoc c.outgoing a b i;
  }

  send_texts_lem :
      (ts : List (List ℕ)) (c : Connection)
      → AllWritten
      → c.closed ≡ false
      → c.send_counter + length ts ≤ nonce_limit
      → send_texts ts c ≡ (wrote (length ts) (send_all c.send_key c.send_counter ts) c, some tt)
  unfolding send_all
  send_texts_lem [] c ok is_open room = λ i. (
    record c {
      send_counter = let p : c.send_counter ≡ c.send_counter + 0 = omega arith in p i;
      writes = let p : c.writes ≡ c.writes + (0 + 0) = omega arith in p i;
      outgoing = sym (append-nil c.outgoing) i;
    },
    some tt,
  )
  send_texts_lem (t ∷ ts) c ok is_open room =
      let front = write_frame t c.send_key c.send_counter in
      rw
        (
          send_encrypted_lem t c ok is_open (omega arith),
          send_texts_lem ts (wrote 1 front c) ok is_open (omega arith),
        )
        (ap (λ (d : Connection). (d, some tt))
          (wrote-wrote (length ts) front (send_all c.send_key (c.send_counter + 1) ts) c))

  send_chunks-texts :
      (size fuel : ℕ) (payload : List ℕ) (c : Connection)
      → 0 < size
      → length payload ≤ fuel
      → and_then (send_chunks size fuel payload c) (λ _. send_encrypted [])
        ≡ send_texts (chunks size fuel payload ++ ([] ∷ [])) c
  unfolding send_chunks
  send_chunks-texts size zero [] c pos h = sym (and_then-done (send_encrypted [] c))
  send_chunks-texts size (suc fuel) [] c pos h = sym (and_then-done (send_encrypted [] c))
  send_chunks-texts size zero (x ∷ rest) c pos h = absurd (omega arith)
  send_chunks-texts size (suc fuel) (x ∷ rest) c pos h =
      and_then-after (send_encrypted (take size (x ∷ rest)) c) _ _ _ (λ d.
        send_chunks-texts size fuel (drop size (x ∷ rest)) d pos
          (omega (arith, length-drop size (x ∷ rest))))

  send_pending-texts :
      (m : PendingMessage) (c : Connection) → send_pending m c ≡ send_texts (texts_of m) c
  unfolding send_pending
  send_pending-texts m c = elim (Bool-cases m.is_chunked) [
    | inl e ↦ rw e (
        ap (λ (f : Io (Unit {0})). and_then (send_encrypted m.encoded c) (λ _. f))
          (fun_ext (λ d.
            send_chunks-texts streaming_threshold (length m.chunked_payload) m.chunked_payload d
              (omega arith) (omega arith))))
    | inr e ↦ rw e (sym (and_then-done (send_encrypted m.encoded c)))
  ]

  -- Draining a message on a healthy connection writes its texts as frames, and tells its sender so.
  pub drain_one_lem :
      (m : PendingMessage) (rest : List PendingMessage) (c : Connection)
      → AllWritten
      → c.closed ≡ false
      → c.send_counter + length (texts_of m) ≤ nonce_limit
      → c.send_queue ≡ m ∷ rest
      → drain_one c
        ≡ tell m.ticket true (
            wrote
              (length (texts_of m))
              (send_all c.send_key c.send_counter (texts_of m))
              (record c { send_queue = rest }))
  unfolding drain_one
  drain_one_lem m rest c ok is_open room e =
      let c' : Connection = record c { send_queue = rest } in
      rw (e, send_pending-texts m c', send_texts_lem (texts_of m) c' ok is_open room) refl
