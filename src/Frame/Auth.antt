-- ===== src/Frame/Auth.antt =====
-- Round trips of the authentication payload.
use chromatin_protocol.Prelude.{
  ℕ, ◌+◌, ◌-◌, ◌%◌, ◌^◌, ◌≤◌, ◌≡◌, refl, sym, ap, ◌∙◌, arith, List, [], ◌∷◌, ◌++◌, append-nil, true,
  some, le→ltb, length, get_or, drop, slice, length-slice, drop-slice, All-slice, IsByte, AreBytes,
  At, At-next, At-slice, At-room,
}
use chromatin_protocol.Endian.{write_u32_be, read_u32_be}
use chromatin_protocol.Endian.Words.{
  length-write_u32_be, read_u32_be-write_u32_be, write_u32_be-read_u32_be,
}
use chromatin_protocol.Frame.{
  AuthPayload, is_implemented_role, encode_auth_payload, decode_auth_payload,
}

-- The payload of an implemented role and a key of 2592 bytes is read back, with any signature.
pub decode-encode_auth_payload :
    (role : ℕ) (pubkey signature : List ℕ)
    → is_implemented_role role ≡ true
    → length pubkey ≡ 2592
    → decode_auth_payload (encode_auth_payload role pubkey signature)
      ≡ some (record { role = role; pubkey = pubkey; signature = signature })
unfolding decode_auth_payload encode_auth_payload
decode-encode_auth_payload role pk sig r n =
    let n32 = length pk % 2 ^ 32 in
    let bytes : List ℕ = role ∷ (write_u32_be n32 ++ (pk ++ sig)) in
    let at_size : At bytes 1 (write_u32_be n32 ++ (pk ++ sig)) = record {
      rest_at = refl;
      room = omega arith;
    } in
    let at_pk : At bytes 5 (pk ++ sig) =
      At-next bytes 1 4 _ (pk ++ sig) at_size (length-write_u32_be n32) in
    let at_sig : At bytes 2597 sig = At-next bytes 5 2592 pk sig at_pk n in
    let room : 2597 ≤ length bytes = At-room bytes 5 2592 pk sig at_pk n in
    let size : read_u32_be (slice 1 4 bytes) ≡ 2592 =
      ap read_u32_be
        (At-slice bytes 1 4 _ (pk ++ sig) at_size (length-write_u32_be n32) ∙ sym (append-nil _))
      ∙ read_u32_be-write_u32_be n32 [] (omega arith)
      ∙ omega arith in
    rw
      (
        le→ltb (length bytes) 5 (omega (arith, room)),
        r,
        size,
        le→ltb (length bytes - 5) 2592 (omega (arith, room)),
      )
      (ap some (λ i. record {
        role = role;
        pubkey = At-slice bytes 5 2592 pk sig at_pk n i;
        signature = at_sig.rest_at i;
      }))

abbrev pk_size : List ℕ → ℕ
pk_size bytes = read_u32_be (slice 1 4 bytes)

abbrev read_payload : List ℕ → ℕ → AuthPayload
read_payload bytes n = record {
  role = get_or bytes 0 0;
  pubkey = slice 5 n bytes;
  signature = drop (5 + n) bytes;
}

accepted :
    (bytes : List ℕ) (p : AuthPayload)
    → decode_auth_payload bytes ≡ some p
    → (pk_size bytes ≡ 2592)
      × (5 + pk_size bytes ≤ length bytes)
      × (p ≡ read_payload bytes (pk_size bytes))
unfolding decode_auth_payload
accepted bytes p ok = ground arith

-- A payload of bytes that is accepted is the one that is written from what was read.
pub encode-decode_auth_payload :
    (bytes : List ℕ) (p : AuthPayload)
    → AreBytes bytes
    → decode_auth_payload bytes ≡ some p
    → encode_auth_payload p.role p.pubkey p.signature ≡ bytes
unfolding encode_auth_payload
encode-decode_auth_payload [] p b ok = absurd (omega (arith, (accepted [] p ok).1))
encode-decode_auth_payload (x ∷ xs) p b ok =
    let (size, room, e) = accepted (x ∷ xs) p ok in
    let n = pk_size (x ∷ xs) in
    let pk : List ℕ = slice 5 n (x ∷ xs) in
    let field : List ℕ = slice 1 4 (x ∷ xs) in
    let four : length field ≡ 4 = length-slice 1 4 (x ∷ xs) (omega (arith, room)) in
    let written : write_u32_be (length pk % 2 ^ 32) ≡ field =
      ap write_u32_be (
        omega (arith, length-slice 5 n (x ∷ xs) room, size)
        ∙ ap read_u32_be (sym (append-nil field)))
      ∙ write_u32_be-read_u32_be field [] four (All-slice IsByte 1 4 (x ∷ xs) b) in
    ap (λ (q : AuthPayload). encode_auth_payload q.role q.pubkey q.signature) e
    ∙ ap (λ (t : List ℕ). x ∷ (t ++ (pk ++ drop (5 + n) (x ∷ xs)))) written
    ∙ ap (λ (t : List ℕ). x ∷ (field ++ t)) (sym (drop-slice 5 n (x ∷ xs)))
    ∙ ap (λ (t : List ℕ). x ∷ t) (sym (drop-slice 1 4 (x ∷ xs)))
