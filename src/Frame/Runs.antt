-- ===== src/Frame/Runs.antt =====
-- net/framing.cpp and net/auth_helpers.h on concrete messages.
use chromatin_protocol.Prelude.{
  ℕ, zero, suc, ◌<◌, ◌≡◌, refl, arith, List, [], ◌∷◌, ◌++◌, true, some, replicate, AreBytes,
}
use chromatin_protocol.Endian.{read_u32_be}
use chromatin_protocol.External.Samples.{plain_crypto}
use chromatin_protocol.Frame.{
  ReadFrame, read_frame, AuthPayload, is_implemented_role, decode_auth_payload,
}
use chromatin_protocol.Frame.Stream.{send_all, receive_all, receive_all-send_all}

abbrev key : List ℕ
key = replicate 32 5

abbrev texts : List (List ℕ)
texts = (1 ∷ 2 ∷ []) ∷ [] ∷ (3 ∷ []) ∷ []

-- A buffer that ends within the frame is an exception.
cut_frame : read_frame ⦃C = plain_crypto⦄ (0 ∷ 0 ∷ 0 ∷ 20 ∷ 1 ∷ []) key 0 ≡ ReadFrame.thrown
unfolding read_frame read_u32_be
cut_frame = refl

abbrev counter : ℕ
counter = 258

receive_all-send_all_example :
    receive_all ⦃C = plain_crypto⦄ key 7 3 (send_all ⦃C = plain_crypto⦄ key 7 texts ++ (9 ∷ []))
    ≡ some texts
receive_all-send_all_example =
    receive_all-send_all ⦃C = plain_crypto⦄ key 7 texts (9 ∷ [])
      (omega arith, (omega arith, (omega arith, tt)))

abbrev peer_payload : AuthPayload
peer_payload = record { role = 0; pubkey = replicate 2592 7; signature = 1 ∷ 2 ∷ [] }

peer_role : is_implemented_role 0 ≡ true
unfolding is_implemented_role
peer_role = refl

abbrev peer_bytes : List ℕ
peer_bytes = 0 ∷ 0 ∷ 0 ∷ 10 ∷ 32 ∷ (replicate 2592 7 ++ (1 ∷ 2 ∷ []))

peer_bytes-decoded : decode_auth_payload peer_bytes ≡ some peer_payload
unfolding decode_auth_payload is_implemented_role read_u32_be
peer_bytes-decoded = refl

replicate-AreBytes :
    (n x : ℕ) (rest : List ℕ) → x < 256 → AreBytes rest → AreBytes (replicate n x ++ rest)
replicate-AreBytes zero x rest h r = r
replicate-AreBytes (suc n) x rest h r = (h, replicate-AreBytes n x rest h r)
