-- ===== src/Endian/Runs.antt =====
-- util/endian.h on concrete numbers.
use chromatin_protocol.Prelude.{
  ◌≡◌, refl, ◌++◌, [], ◌∷◌, some, none, ltb, if◌then◌else◌, ◌+◌, ◌^◌, arith,
}
use chromatin_protocol.Endian.{
  write_u16_be, write_u32_be, read_u16_be, read_u32_be, checked_mul, checked_add, size_mod,
  read_u32_be_span,
}
use chromatin_protocol.Endian.Words.{read_u16_be-write_u16_be, read_u32_be-write_u32_be}
use chromatin_protocol.Endian.Sizes.{checked_add_exact}

written_u32 : write_u32_be 0x01020304 ≡ 1 ∷ 2 ∷ 3 ∷ 4 ∷ []
unfolding write_u32_be
written_u32 = refl

short_span : read_u32_be_span (1 ∷ 2 ∷ 3 ∷ []) ≡ none
unfolding read_u32_be_span
short_span = refl

wrapped_product : checked_mul (2 ^ 33) (2 ^ 32) ≡ none
unfolding checked_mul
wrapped_product = refl

read_u16_be-write_u16_be_example : read_u16_be (write_u16_be 515 ++ (9 ∷ [])) ≡ 515
read_u16_be-write_u16_be_example = read_u16_be-write_u16_be 515 (9 ∷ []) (omega arith)

read_u32_be-write_u32_be_example : read_u32_be (write_u32_be 70000 ++ (9 ∷ [])) ≡ 70000
read_u32_be-write_u32_be_example = read_u32_be-write_u32_be 70000 (9 ∷ []) (omega arith)

checked_add_exact_example :
    checked_add (2 ^ 63) (2 ^ 63)
    ≡ (if ltb (2 ^ 63 + 2 ^ 63) size_mod then some (2 ^ 63 + 2 ^ 63) else none)
checked_add_exact_example = checked_add_exact (2 ^ 63) (2 ^ 63) (omega arith) (omega arith)
