-- ===== src/Frame/Stream.antt =====
-- Frames are read back in the order in which they were sent, with the counters of both sides in step.
use native.Mathlib.Nat.{mod-eq_of_lt}
use chromatin_protocol.Prelude.{
  ℕ, zero, suc, ◌+◌, ◌%◌, ◌^◌, ◌≤◌, ◌<◌, ◌≡◌, refl, sym, ap, ◌∙◌, arith, List, [], ◌∷◌, ◌++◌,
  append_assoc, Option, none, some, ◌>>=◌, le→ltb, length, length-append, drop, drop-append, All,
  At, At-start, At-next, At-slice, At-room,
}
use chromatin_protocol.Endian.{store_u32_be, read_u32_be, read_u64_be}
use chromatin_protocol.Endian.Words.{
  length-store_u32_be, read_u32_be-store_u32_be, read_u64_be-store_u64_be_all,
}
use chromatin_protocol.External.Crypto.{Crypto}
use chromatin_protocol.Frame.{
  max_frame_size, make_nonce, ReadFrame, frame_of, write_frame, read_frame,
}

-- No two counters of 64 bits share a nonce.
pub make_nonce-injective : (c d : ℕ) → c < 2 ^ 64 → d < 2 ^ 64 → make_nonce c ≡ make_nonce d → c ≡ d
unfolding make_nonce
make_nonce-injective c d hc hd e =
    sym (read_u64_be-store_u64_be_all c hc)
    ∙ ap (λ n. read_u64_be (drop 4 n)) e
    ∙ read_u64_be-store_u64_be_all d hd

module _ ⦃C : Crypto⦄ where
  -- The frame at the front of a buffer is read back whatever follows it, if its text leaves room for
  -- the tag.
  pub read_frame-write_frame :
      (plaintext key : List ℕ) (counter : ℕ) (rest : List ℕ)
      → length plaintext + 16 ≤ max_frame_size
      → read_frame (write_frame plaintext key counter ++ rest) key counter
        ≡ ReadFrame.frame (record {
          plaintext = plaintext;
          bytes_consumed = length (write_frame plaintext key counter);
        })
  unfolding read_frame write_frame frame_of
  read_frame-write_frame text key counter rest fits =
      let ct = C.encrypt text [] (make_nonce counter) key in
      let n = length ct % 2 ^ 32 in
      let buffer : List ℕ = (store_u32_be n ++ ct) ++ rest in
      let size : length ct ≡ length text + 16 = C.length-encrypt text [] (make_nonce counter) key in
      let exact : n ≡ length ct = mod-eq_of_lt (omega (arith, size)) in
      let shape : buffer ≡ store_u32_be n ++ (ct ++ rest) = append_assoc (store_u32_be n) ct rest in
      let at_ct : At (store_u32_be n ++ (ct ++ rest)) 4 (ct ++ rest) =
        At-next _ 0 4 (store_u32_be n) (ct ++ rest) (At-start _) (length-store_u32_be n) in
      let read : read_u32_be (store_u32_be n ++ (ct ++ rest)) ≡ length ct =
        read_u32_be-store_u32_be n (ct ++ rest) (omega (arith, size)) ∙ exact in
      let room : 4 + length ct ≤ length (store_u32_be n ++ (ct ++ rest)) =
        At-room _ 4 (length ct) ct rest at_ct refl in
      rw (shape, le→ltb (length (store_u32_be n ++ (ct ++ rest))) 4 (omega (arith, room)), read)
        (rw
          (
            le→ltb max_frame_size (length ct) (omega (arith, size)),
            le→ltb (length (store_u32_be n ++ (ct ++ rest))) (4 + length ct) room,
            At-slice _ 4 (length ct) ct rest at_ct refl,
            C.decrypt-encrypt text [] (make_nonce counter) key,
          )
          (ap (λ k. ReadFrame.frame (record { plaintext = text; bytes_consumed = k }))
            (omega (arith, length-append (store_u32_be n) ct, length-store_u32_be n))))

  -- A sender that counts its frames, and the receiver that counts along.
  unfoldable pub send_all : List ℕ → ℕ → List (List ℕ) → List ℕ
  send_all key counter [] = []
  send_all key counter (text ∷ texts) =
      write_frame text key counter ++ send_all key (counter + 1) texts

  abbrev with_frame : ReadFrame → (ℕ → Option (List (List ℕ))) → Option (List (List ℕ))
  with_frame (ReadFrame.frame r) later =
      later r.bytes_consumed >>= λ texts. some (r.plaintext ∷ texts)
  with_frame ReadFrame.failed later = none
  with_frame ReadFrame.thrown later = none

  unfoldable pub receive_all : List ℕ → ℕ → ℕ → List ℕ → Option (List (List ℕ))
  receive_all key counter zero buffer = some []
  receive_all key counter (suc n) buffer =
      with_frame (read_frame buffer key counter)
        (λ k. receive_all key (counter + 1) n (drop k buffer))

-- Any number of texts, each with room for the tag in a frame, that are sent one after the other under
-- counters from `counter` on are received as they were, by a reader that starts with the same
-- counter, whatever follows in the buffer.
pub receive_all-send_all :
    ⦃C : Crypto⦄ (key : List ℕ) (counter : ℕ) (texts : List (List ℕ)) (rest : List ℕ)
    → All (λ t. length t + 16 ≤ max_frame_size) texts
    → receive_all key counter (length texts) (send_all key counter texts ++ rest) ≡ some texts
unfolding receive_all send_all
receive_all-send_all key counter [] rest h = refl
receive_all-send_all key counter (text ∷ texts) rest (fits, h) =
    let front = write_frame text key counter in
    let tail : List ℕ = send_all key (counter + 1) texts ++ rest in
    rw
      (
        append_assoc front (send_all key (counter + 1) texts) rest,
        read_frame-write_frame text key counter tail fits,
      )
      (rw
        (
          drop-append (length front) front tail refl,
          receive_all-send_all key (counter + 1) texts rest h,
        )
        refl)
