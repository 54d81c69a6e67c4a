-- ===== src/Connection/Keeping.antt =====
-- What the reads and writes of frames in net/connection.cpp leave alone: a predicate that each of
-- their assignments keeps is kept by all of them.
use chromatin_protocol.Prelude.{
  ◌<◌, if◌then◌else◌, Bool-cases, inl, inr, leb, arith, ◌≡◌, ℕ, zero, suc, ◌+◌, ◌≡◌, arith, List,
  [], ◌∷◌, ◌++◌, Bool, true, false, not, Option, none, some, Bool-cases, inl, inr, ltb, leb, length,
  drop, get_or, ◌==◌,
}
use chromatin_protocol.External.Crypto.{Crypto}
use chromatin_protocol.Endian.{read_u32_be, read_u64_be}
use chromatin_protocol.Frame.{max_frame_size}
use chromatin_protocol.Connection.{
  Connection, PendingMessage, Network, Io, and_then, nonce_limit, close, require, async_write,
  send_raw, send_encrypted, async_read, recv_raw, open_frame, recv_encrypted,
}
use chromatin_protocol.Connection.Queue.{streaming_threshold, send_chunks, send_pending}
use chromatin_protocol.Connection.Loop.{
  chunked_header_size, max_chunked_wire_payload, saw_frame, add_chunk, recv_chunks, recv_chunked,
}

-- A predicate that the reads and writes of frames keep.
pub record Untouched {ι} (P : Connection → Type ι) : Type ι where
  pub on_close : (d : Connection) → P d → P (record d { closed = true })
  pub on_write :
      (n : ℕ) (bytes : List ℕ) (d : Connection)
      → P d
      → P (record d { writes = n; outgoing = bytes })
  pub on_send :
      (d : Connection)
      → d.send_counter < nonce_limit
      → P d
      → P (record d { send_counter = d.send_counter + 1 })
  pub on_read : (bytes : List ℕ) (d : Connection) → P d → P (record d { incoming = bytes })
  pub on_recv :
      (d : Connection)
      → d.recv_counter < nonce_limit
      → P d
      → P (record d { recv_counter = d.recv_counter + 1 })
  pub on_clock : (t : ℕ) (d : Connection) → P d → P (record d { last_recv_time = t })

pub leb-false : (a b : ℕ) → leb a b ≡ false → b < a
leb-false a b h = ground arith

pub if-keeps {ℓ κ} :
    {A : Type ℓ} (P : A → Type κ) (b : Bool) (x y : A) → P x → P y → P (if b then x else y)
if-keeps P true x y p q = p
if-keeps P false x y p q = q

pub and_then-keeps {ℓ κ ι} :
    {A : Type ℓ} {B : Type κ} (P : Connection → Type ι) (r : Connection × Option A) (f : A → Io B)
    → P r.0
    → ((a : A) (d : Connection) → P d → P (f a d).0)
    → P (and_then r f).0
and_then-keeps P (c, none) f p k = p
and_then-keeps P (c, some a) f p k = k a c p

pub require-keeps {ℓ} :
    (P : Connection → Type ℓ) (b : Bool) (d : Connection) → P d → P (require b d).0
require-keeps P true d p = p
require-keeps P false d p = p

module _ {ι} {P : Connection → Type ι} (u : Untouched P) where
  pub close-keeps : (d : Connection) → P d → P (close d)
  unfolding close
  close-keeps d q = if-keeps P d.closed d _ q (u.on_close d q)

  module _ ⦃N : Network⦄ where
    async_write-keeps : (bytes : List ℕ) (d : Connection) → P d → P (async_write bytes d).0
    unfolding async_write
    async_write-keeps bytes d q =
        let counted : P (record d { writes = d.writes + 1 }) = u.on_write _ d.outgoing d q in
        if-keeps (λ (r : Connection × Option (Unit {0})). P r.0) (N.write_fails d.writes) _ _
          counted
          (if-keeps (λ (r : Connection × Option (Unit {0})). P r.0) d.closed _ _ counted
            (u.on_write _ _ d q))

    pub send_raw-keeps : (bytes : List ℕ) (d : Connection) → P d → P (send_raw bytes d).0
    unfolding send_raw
    send_raw-keeps bytes d q =
        and_then-keeps P _ _ (async_write-keeps _ d q) (λ _ e p. async_write-keeps bytes e p)

  async_read-keeps : (n : ℕ) (d : Connection) → P d → P (async_read n d).0
  unfolding async_read
  async_read-keeps n d q =
      if-keeps (λ (r : Connection × Option (List ℕ)). P r.0) d.closed _ _ q
        (if-keeps (λ (r : Connection × Option (List ℕ)). P r.0) (ltb (length d.incoming) n) _ _
          (u.on_read [] d q) (u.on_read _ d q))

  pub recv_raw-keeps : (d : Connection) → P d → P (recv_raw d).0
  unfolding recv_raw
  recv_raw-keeps d q = and_then-keeps P (async_read 4 d) _ (async_read-keeps 4 d q) (λ header e p.
      let len = read_u32_be header in
      let ok = not (ltb max_frame_size len) in
      and_then-keeps P (require ok e) _ (require-keeps P ok e p)
        (λ _ f r. async_read-keeps len f r))

  add_chunk-keeps :
      (total : ℕ) (payload : List ℕ) (later : List ℕ → Io (List ℕ))
      → ((grown : List ℕ) (d : Connection) → P d → P (later grown d).0)
      → (chunk : List ℕ) (d : Connection) → P d
      → P (add_chunk total payload later chunk d).0
  unfolding add_chunk
  add_chunk-keeps total payload later k [] d q = q
  add_chunk-keeps total payload later k (x ∷ chunk) d q =
      let grown : List ℕ = payload ++ (x ∷ chunk) in
      let ok = not (ltb (total + 64) (length grown)) in
      and_then-keeps P (require ok d) _ (require-keeps P ok d q) (λ _ e p. k grown e p)

  module _ ⦃C : Crypto⦄ where
    open_frame-keeps : (raw : List ℕ) (d : Connection) → P d → P (open_frame raw d).0
    unfolding open_frame
    open_frame-keeps raw d q = elim (Bool-cases (leb nonce_limit d.recv_counter)) [
      | inl e ↦ rw e (close-keeps d q)
      | inr e ↦ rw e (u.on_recv d (leb-false nonce_limit d.recv_counter e) q)
    ]

    pub recv_encrypted-keeps : (d : Connection) → P d → P (recv_encrypted d).0
    unfolding recv_encrypted
    recv_encrypted-keeps d q =
        and_then-keeps P _ _ (recv_raw-keeps d q) (λ raw e p. open_frame-keeps raw e p)

  module _ ⦃C : Crypto⦄ ⦃N : Network⦄ where
    pub send_encrypted-keeps : (text : List ℕ) (d : Connection) → P d → P (send_encrypted text d).0
    unfolding send_encrypted
    send_encrypted-keeps text d q = elim (Bool-cases (leb nonce_limit d.send_counter)) [
      | inl e ↦ rw e (close-keeps d q)
      | inr e ↦ rw e (send_raw-keeps _ _ (u.on_send d (leb-false nonce_limit d.send_counter e) q))
    ]

    send_chunks-keeps :
        (size fuel : ℕ) (payload : List ℕ) (d : Connection)
        → P d
        → P (send_chunks size fuel payload d).0
    unfolding send_chunks
    send_chunks-keeps size zero [] d q = q
    send_chunks-keeps size (suc fuel) [] d q = q
    send_chunks-keeps size zero (x ∷ rest) d q = q
    send_chunks-keeps size (suc fuel) (x ∷ rest) d q =
        and_then-keeps P _ _ (send_encrypted-keeps _ d q)
          (λ _ e p. send_chunks-keeps size fuel (drop size (x ∷ rest)) e p)

    pub send_pending-keeps : (m : PendingMessage) (d : Connection) → P d → P (send_pending m d).0
    unfolding send_pending
    send_pending-keeps m d q = elim (Bool-cases m.is_chunked) [
      | inl e ↦
          let size = streaming_threshold in
          let payload = m.chunked_payload in
          rw e (
            and_then-keeps P (send_encrypted m.encoded d) _ (send_encrypted-keeps m.encoded d q)
              (λ _ d' p.
                and_then-keeps P (send_chunks size (length payload) payload d') _
                  (send_chunks-keeps size (length payload) payload d' p)
                  (λ _ d'' r. send_encrypted-keeps [] d'' r)))
      | inr e ↦ rw e (send_encrypted-keeps m.encoded d q)
    ]

    pub saw_frame-keeps : (d : Connection) → P d → P (saw_frame d)
    unfolding saw_frame
    saw_frame-keeps d q = u.on_clock N.now d q

    recv_chunks-keeps :
        (fuel total : ℕ) (payload : List ℕ) (d : Connection)
        → P d
        → P (recv_chunks fuel total payload d).0
    unfolding recv_chunks
    recv_chunks-keeps zero total payload d q = q
    recv_chunks-keeps (suc fuel) total payload d q =
        and_then-keeps P (recv_encrypted d) _ (recv_encrypted-keeps d q) (λ chunk e p.
          add_chunk-keeps total payload (λ grown. recv_chunks fuel total grown)
            (λ grown f r. recv_chunks-keeps fuel total grown f r) chunk (saw_frame e)
            (saw_frame-keeps e p))

    pub recv_chunked-keeps : (first : List ℕ) (d : Connection) → P d → P (recv_chunked first d).0
    unfolding recv_chunked
    recv_chunked-keeps first d q =
        let long = not (ltb (length first) chunked_header_size) in
        let begins = get_or first 0 0 == 1 in
        let total = read_u64_be (drop 6 first) in
        let bounded = not (ltb max_chunked_wire_payload total) in
        and_then-keeps P (require long d) _ (require-keeps P long d q) (λ _ e p.
          and_then-keeps P (require begins e) _ (require-keeps P begins e p) (λ _ f r.
            and_then-keeps P (require bounded f) _ (require-keeps P bounded f r) (λ _ g s.
              let payload : List ℕ = drop chunked_header_size first in
              let fuel = suc (length g.incoming) in
              and_then-keeps P (recv_chunks fuel total payload g) _
                (recv_chunks-keeps fuel total payload g s) (λ _ h t. t))))
