-- ===== src/Connection/Reading.antt =====
-- Reassembly in net/connection.cpp on whatever a peer sends: it ends, and what it keeps is bounded.
use native.Mathlib.Nat.{suc-add}
use chromatin_protocol.Prelude.{
  ℕ, zero, suc, ◌+◌, ◌≤◌, ◌<◌, ◌≡◌, refl, sym, ap, arith, List, [], ◌∷◌, ◌++◌, Bool, true, false,
  not, Option, none, some, Bool-cases, inl, inr, ltb, length, length-drop, drop, get_or, ◌==◌,
}
use chromatin_protocol.Endian.{read_u32_be, read_u64_be}
use chromatin_protocol.External.Crypto.{Crypto}
use chromatin_protocol.External.Transport.{DecodedMessage}
use chromatin_protocol.Frame.{max_frame_size}
use chromatin_protocol.Connection.{
  Connection, Network, Io, and_then, require, async_read, recv_raw, open_frame, recv_encrypted,
}
use chromatin_protocol.Connection.Loop.{
  max_chunked_wire_payload, saw_frame, add_chunk, recv_chunks, recv_chunked,
}

-- A call that gives a value gave one at every step.
and_then-some {ℓ κ} :
    {A : Type ℓ} {B : Type κ} (r : Connection × Option A) (f : A → Io B) {e : Connection} {b : B}
    → and_then r f ≡ (e, some b)
    → (d : Connection) × (a : A) × (r ≡ (d, some a)) × (f a d ≡ (e, some b))
and_then-some (c, none) f h = cc
and_then-some (c, some a) f h = (c, a, refl, h)

value {ℓ} :
    {A : Type ℓ} {c d : Connection} {x y : A}
    → ◌≡◌ {A = Connection × Option A} (c, some x) (d, some y)
    → x ≡ y
value h = cc

and_then-congr {ℓ κ} :
    {A : Type ℓ} {B : Type κ} (r : Connection × Option A) (f g : A → Io B)
    → ((d : Connection) (a : A) → r ≡ (d, some a) → f a d ≡ g a d)
    → and_then r f ≡ and_then r g
and_then-congr (c, none) f g h = refl
and_then-congr (c, some a) f g h = h c a refl

not-ltb : (a b : ℕ) → not (ltb a b) ≡ true → b ≤ a
not-ltb a b h = ground arith

require-some : (b : Bool) (c d : Connection) → require b c ≡ (d, some tt) → (b ≡ true) × (d ≡ c)
require-some true c d h = (refl, ap (λ (r : Connection × Option (Unit {0})). r.0) (sym h))
require-some false c d h = cc

async_read-takes :
    (n : ℕ) (c d : Connection) (bytes : List ℕ)
    → async_read n c ≡ (d, some bytes)
    → length d.incoming + n ≤ length c.incoming
unfolding async_read
async_read-takes n c d bytes h = ground (arith, length-drop n c.incoming)

recv_raw-takes :
    (c d : Connection) (bytes : List ℕ)
    → recv_raw c ≡ (d, some bytes)
    → length d.incoming + 4 ≤ length c.incoming
unfolding recv_raw
recv_raw-takes c d bytes h =
    let (e, header, first, later) = and_then-some (async_read 4 c) _ h in
    let len = read_u32_be header in
    let (e', _u, checked, second) =
      and_then-some (require (not (ltb max_frame_size len)) e) _ later in
    omega (
      arith,
      async_read-takes 4 c e header first,
      async_read-takes len e' d bytes second,
      ap (λ (k : Connection). length k.incoming)
          (require-some (not (ltb max_frame_size len)) e e' checked).1,
    )

module _ ⦃C : Crypto⦄ where
  open_frame-keeps :
      (raw : List ℕ) (c d : Connection) (text : List ℕ)
      → open_frame raw c ≡ (d, some text)
      → d.incoming ≡ c.incoming
  unfolding open_frame
  open_frame-keeps raw c d text h = ground arith

  recv_encrypted-takes :
      (c d : Connection) (text : List ℕ)
      → recv_encrypted c ≡ (d, some text)
      → length d.incoming + 4 ≤ length c.incoming
  unfolding recv_encrypted
  recv_encrypted-takes c d text h =
      let (e, raw, read, opened) = and_then-some (recv_raw c) open_frame h in
      omega (arith, recv_raw-takes c e raw read, ap length (open_frame-keeps raw e d text opened))

add_chunk-congr :
    (total : ℕ) (payload : List ℕ) (f g : List ℕ → Io (List ℕ)) (chunk : List ℕ) (c : Connection)
    → ((grown : List ℕ) → f grown c ≡ g grown c)
    → add_chunk total payload f chunk c ≡ add_chunk total payload g chunk c
unfolding add_chunk
add_chunk-congr total payload f g [] c h = refl
add_chunk-congr total payload f g (x ∷ chunk) c h =
    let grown : List ℕ = payload ++ (x ∷ chunk) in
    elim (Bool-cases (ltb (total + 64) (length grown))) [
      | inl e ↦ rw e refl
      | inr e ↦ rw e (h grown)
    ]

add_chunk_bounded :
    (bound total : ℕ) (payload whole : List ℕ) (later : List ℕ → Io (List ℕ)) (chunk : List ℕ)
    (c d : Connection)
    → ((grown : List ℕ) (e : Connection)
        → later grown e ≡ (d, some whole)
        → length grown ≤ bound
        → length whole ≤ bound)
    → add_chunk total payload later chunk c ≡ (d, some whole)
    → length payload ≤ bound
    → total + 64 ≤ bound
    → length whole ≤ bound
unfolding add_chunk
add_chunk_bounded bound total payload whole later [] c d k h p t = ground arith
add_chunk_bounded bound total payload whole later (x ∷ chunk) c d k h p t =
    let grown : List ℕ = payload ++ (x ∷ chunk) in
    let room = not (ltb (total + 64) (length grown)) in
    let (e, _u, checked, rest) = and_then-some (require room c) (λ _. later grown) h in
    let fits : room ≡ true = (require-some room c e checked).0 in k grown e rest (ground arith)

module _ ⦃C : Crypto⦄ ⦃N : Network⦄ where
  -- One more than the length of what is to be read is fuel enough for reassembly: with any more of it
  -- the outcome is the same, so that the loop always ends by its own tests.
  pub recv_chunks-more :
      (k fuel total : ℕ) (payload : List ℕ) (c : Connection)
      → length c.incoming < fuel
      → recv_chunks (fuel + k) total payload c ≡ recv_chunks fuel total payload c
  unfolding recv_chunks saw_frame
  recv_chunks-more k zero total payload c h = absurd (omega arith)
  recv_chunks-more k (suc fuel) total payload c h = rw suc-add (
      and_then-congr (recv_encrypted c) _ _ (λ d chunk r.
        add_chunk-congr total payload (λ grown. recv_chunks (fuel + k) total grown)
          (λ grown. recv_chunks fuel total grown) chunk (saw_frame d)
          (λ grown.
            recv_chunks-more k fuel total grown (saw_frame d)
              (omega (arith, recv_encrypted-takes c d chunk r)))))

  recv_chunks_bounded :
      (bound fuel total : ℕ) (payload whole : List ℕ) (c d : Connection)
      → recv_chunks fuel total payload c ≡ (d, some whole)
      → length payload ≤ bound
      → total + 64 ≤ bound
      → length whole ≤ bound
  unfolding recv_chunks
  recv_chunks_bounded bound zero total payload whole c d h p t = cc
  recv_chunks_bounded bound (suc fuel) total payload whole c d h p t =
      let (e, chunk, r, later) = and_then-some (recv_encrypted c) _ h in
      add_chunk_bounded bound total payload whole (λ grown. recv_chunks fuel total grown) chunk
        (saw_frame e) d (λ grown f g q. recv_chunks_bounded bound fuel total grown whole f d g q t)
        later p t

  -- Whatever a peer sends, a message that is put together has at most 64 bytes more than the largest
  -- size that a header may declare, if its header came in a frame of the allowed size.
  pub recv_chunked_bounded :
      (first : List ℕ) (c d : Connection) (m : DecodedMessage)
      → length first ≤ max_frame_size
      → recv_chunked first c ≡ (d, some m)
      → length m.payload ≤ max_chunked_wire_payload + 64
  unfolding recv_chunked
  recv_chunked_bounded first c d m small h =
      let total = read_u64_be (drop 6 first) in
      let bounded = not (ltb max_chunked_wire_payload total) in
      let (c1, _u1, r1, h1) = and_then-some (require (not (ltb (length first) 14)) c) _ h in
      let (c2, _u2, r2, h2) = and_then-some (require (get_or first 0 0 == 1) c1) _ h1 in
      let (c3, _u3, r3, h3) = and_then-some (require bounded c2) _ h2 in
      let start : List ℕ = drop 14 first in
      let (c4, whole, r4, h4) =
        and_then-some (recv_chunks (suc (length c3.incoming)) total start c3) _ h3 in
      let fits : bounded ≡ true = (require-some bounded c2 c3 r3).0 in
      let limit : total ≤ max_chunked_wire_payload = not-ltb _ _ fits in
      let kept : length whole ≤ max_chunked_wire_payload + 64 =
        recv_chunks_bounded (max_chunked_wire_payload + 64) (suc (length c3.incoming)) total start
          whole c3 c4 r4 (omega (arith, length-drop 14 first)) (omega arith) in
      omega (arith, kept, ap (λ (v : DecodedMessage). length v.payload) (value h4))
