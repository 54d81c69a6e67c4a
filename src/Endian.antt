-- ===== src/Endian.antt =====
-- util/endian.h: big-endian integers in byte vectors, and overflow-checked sizes. A buffer is a
-- list of bytes; writing to the end of one is `buf ++ …`, and `size_t` has 64 bits.
pub mod Words
pub mod Sizes
mod Runs
use Prim.Native.Nat.{bit_or}
use chromatin_protocol.Prelude.{
  ℕ, zero, suc, ◌+◌, ◌*◌, ◌/◌, ◌%◌, ◌^◌, List, [], ◌∷◌, ◌++◌, Option, none, some, ltb, ◌==◌, ◌||◌,
  not, if◌then◌else◌, length, get_or, slice,
}

-- `static_cast<uint8_t>((val >> k) & 0xFF)`
abbrev pub byte_at : ℕ → ℕ → ℕ
byte_at val k = val / 2 ^ k % 256

-- The bytes that the vector-append writers push.
unfoldable pub write_u16_be : ℕ → List ℕ
write_u16_be val = byte_at val 8 ∷ byte_at val 0 ∷ []

unfoldable pub write_u32_be : ℕ → List ℕ
write_u32_be val = byte_at val 24 ∷ byte_at val 16 ∷ byte_at val 8 ∷ byte_at val 0 ∷ []

unfoldable pub write_u64_be : ℕ → List ℕ
write_u64_be val =
    byte_at val 56
    ∷ byte_at val 48
    ∷ byte_at val 40
    ∷ byte_at val 32
    ∷ byte_at val 24
    ∷ byte_at val 16
    ∷ byte_at val 8
    ∷ byte_at val 0
    ∷ []

-- The fixed-buffer writers: `out[i] = static_cast<uint8_t>(val >> k)`.
unfoldable pub store_u32_be : ℕ → List ℕ
store_u32_be val = byte_at val 24 ∷ byte_at val 16 ∷ byte_at val 8 ∷ byte_at val 0 ∷ []

-- The loop counts `i` down from 7 to 0; the argument is `i + 1`.
store_u64_loop : ℕ → ℕ → List ℕ
store_u64_loop zero val = []
store_u64_loop (suc i) val = byte_at val (i * 8) ∷ store_u64_loop i val

unfoldable pub store_u64_be : ℕ → List ℕ
unfolding store_u64_loop
store_u64_be = store_u64_loop 8

-- `static_cast<uint64_t>(p[i]) << k`
abbrev shifted : List ℕ → ℕ → ℕ → ℕ
shifted p i k = get_or p i 0 * 2 ^ k

-- The raw-pointer readers: `p` is the buffer from the pointer on, and no length is checked.
unfoldable pub read_u32_be : List ℕ → ℕ
read_u32_be p =
    bit_or (bit_or (bit_or (shifted p 0 24) (shifted p 1 16)) (shifted p 2 8)) (get_or p 3 0)

unfoldable pub read_u64_be : List ℕ → ℕ
read_u64_be p =
    bit_or
      (bit_or
        (bit_or
          (bit_or
            (bit_or (bit_or (bit_or (shifted p 0 56) (shifted p 1 48)) (shifted p 2 40))
              (shifted p 3 32))
            (shifted p 4 24))
          (shifted p 5 16))
        (shifted p 6 8))
      (get_or p 7 0)

-- The value of a two-byte span, for callers that have tested its size.
unfoldable pub read_u16_be : List ℕ → ℕ
read_u16_be p = bit_or (shifted p 0 8) (get_or p 1 0)

-- The span readers; `none` is the exception `std::out_of_range`.
unfoldable pub read_u16_be_span : List ℕ → Option ℕ
read_u16_be_span bytes = if ltb (length bytes) 2 then none else some (read_u16_be bytes)

unfoldable pub read_u32_be_span : List ℕ → Option ℕ
read_u32_be_span bytes = if ltb (length bytes) 4 then none else some (read_u32_be bytes)

unfoldable pub read_u64_be_span : List ℕ → Option ℕ
read_u64_be_span bytes = if ltb (length bytes) 8 then none else some (read_u64_be bytes)

abbrev pub size_mod : ℕ
size_mod = 2 ^ 64

-- `size_t result = a * b`, which wraps; the quotient shows it.
unfoldable pub checked_mul : ℕ → ℕ → Option ℕ
checked_mul a b =
    if a == 0 || b == 0
    then some 0
    else (let result = a * b % size_mod in if not (result / a == b) then none else some result)

unfoldable pub checked_add : ℕ → ℕ → Option ℕ
checked_add a b = let result = (a + b) % size_mod in if ltb result a then none else some result
