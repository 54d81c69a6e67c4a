-- ===== src/Endian/Words.antt =====
-- Round trips of the big-endian readers and writers.
use chromatin_protocol.Prelude.{
  ℕ, ◌+◌, ◌*◌, ◌/◌, ◌%◌, ◌^◌, ◌<◌, ◌≡◌, refl, arith, List, [], ◌∷◌, ◌++◌, append-nil, bit_or_add,
  length, AreBytes, drop, At, ◌∙◌,
}
use chromatin_protocol.Endian.{
  read_u16_be, write_u16_be, write_u32_be, write_u64_be, store_u32_be, store_u64_be, read_u32_be,
  read_u64_be,
}

pub length-write_u16_be : (v : ℕ) → length (write_u16_be v) ≡ 2
unfolding write_u16_be
length-write_u16_be v = refl

pub length-write_u32_be : (v : ℕ) → length (write_u32_be v) ≡ 4
unfolding write_u32_be
length-write_u32_be v = refl

pub length-write_u64_be : (v : ℕ) → length (write_u64_be v) ≡ 8
unfolding write_u64_be
length-write_u64_be v = refl

pub write_u32_be-AreBytes : (v : ℕ) → AreBytes (write_u32_be v)
unfolding write_u32_be
write_u32_be-AreBytes v = omega arith

-- The value of four bytes.
read_u32_be_sum :
    (a b c d : ℕ) (rest : List ℕ)
    → b < 256
    → c < 256
    → d < 256
    → read_u32_be (a ∷ b ∷ c ∷ d ∷ rest) ≡ a * 2 ^ 24 + b * 2 ^ 16 + c * 2 ^ 8 + d
unfolding read_u32_be
read_u32_be_sum a b c d rest hb hc hd = ground (
  arith,
  bit_or_add 24 (a * 2 ^ 24) (b * 2 ^ 16),
  bit_or_add 16 (a * 2 ^ 24 + b * 2 ^ 16) (c * 2 ^ 8),
  bit_or_add 8 (a * 2 ^ 24 + b * 2 ^ 16 + c * 2 ^ 8) d,
)

pub read_u64_be_sum :
    (a b c d e f g h : ℕ) (rest : List ℕ)
    → AreBytes (b ∷ c ∷ d ∷ e ∷ f ∷ g ∷ h ∷ [])
    → read_u64_be (a ∷ b ∷ c ∷ d ∷ e ∷ f ∷ g ∷ h ∷ rest)
      ≡ a * 2 ^ 56 + b * 2 ^ 48 + c * 2 ^ 40 + d * 2 ^ 32 + e * 2 ^ 24 + f * 2 ^ 16 + g * 2 ^ 8 + h
unfolding read_u64_be
read_u64_be_sum a b c d e f g h rest bs = ground (
  arith,
  bit_or_add 56 (a * 2 ^ 56) (b * 2 ^ 48),
  bit_or_add 48 (a * 2 ^ 56 + b * 2 ^ 48) (c * 2 ^ 40),
  bit_or_add 40 (a * 2 ^ 56 + b * 2 ^ 48 + c * 2 ^ 40) (d * 2 ^ 32),
  bit_or_add 32 (a * 2 ^ 56 + b * 2 ^ 48 + c * 2 ^ 40 + d * 2 ^ 32) (e * 2 ^ 24),
  bit_or_add 24 (a * 2 ^ 56 + b * 2 ^ 48 + c * 2 ^ 40 + d * 2 ^ 32 + e * 2 ^ 24) (f * 2 ^ 16),
  bit_or_add 16 (a * 2 ^ 56 + b * 2 ^ 48 + c * 2 ^ 40 + d * 2 ^ 32 + e * 2 ^ 24 + f * 2 ^ 16)
      (g * 2 ^ 8),
  bit_or_add 8
      (a * 2 ^ 56 + b * 2 ^ 48 + c * 2 ^ 40 + d * 2 ^ 32 + e * 2 ^ 24 + f * 2 ^ 16 + g * 2 ^ 8) h,
)

pub read_u32_be-write_u32_be :
    (v : ℕ) (rest : List ℕ) → v < 2 ^ 32 → read_u32_be (write_u32_be v ++ rest) ≡ v
unfolding write_u32_be
read_u32_be-write_u32_be v rest h =
    read_u32_be_sum _ _ _ _ rest (omega arith) (omega arith) (omega arith) ∙ omega arith

pub read_u64_be-write_u64_be :
    (v : ℕ) (rest : List ℕ) → v < 2 ^ 64 → read_u64_be (write_u64_be v ++ rest) ≡ v
unfolding write_u64_be
read_u64_be-write_u64_be v rest h = read_u64_be_sum _ _ _ _ _ _ _ _ rest (omega arith) ∙ omega arith

pub read_u16_be-write_u16_be :
    (v : ℕ) (rest : List ℕ) → v < 2 ^ 16 → read_u16_be (write_u16_be v ++ rest) ≡ v
unfolding write_u16_be read_u16_be
read_u16_be-write_u16_be v rest h = ground (arith, bit_or_add 8 (v / 2 ^ 8 % 256 * 2 ^ 8) (v % 256))

pub read_u16_be-write_u16_be_all : (v : ℕ) → v < 2 ^ 16 → read_u16_be (write_u16_be v) ≡ v
unfolding write_u16_be
read_u16_be-write_u16_be_all v h = unfold write_u16_be in read_u16_be-write_u16_be v [] h

-- A reader at the cursor gets what the writer put there.
module _ (payload : List ℕ) (offset v : ℕ) (rest : List ℕ) where
  pub read_u16_be-At :
      At payload offset (write_u16_be v ++ rest)
      → v < 2 ^ 16
      → read_u16_be (drop offset payload) ≡ v
  read_u16_be-At at h = rw (at.rest_at) (read_u16_be-write_u16_be v rest h)

  pub read_u32_be-At :
      At payload offset (write_u32_be v ++ rest)
      → v < 2 ^ 32
      → read_u32_be (drop offset payload) ≡ v
  read_u32_be-At at h = rw (at.rest_at) (read_u32_be-write_u32_be v rest h)

  pub read_u64_be-At :
      At payload offset (write_u64_be v ++ rest)
      → v < 2 ^ 64
      → read_u64_be (drop offset payload) ≡ v
  read_u64_be-At at h = rw (at.rest_at) (read_u64_be-write_u64_be v rest h)

pub read_u16_be-lt : (p : List ℕ) → length p ≡ 2 → AreBytes p → read_u16_be p < 2 ^ 16
unfolding read_u16_be
read_u16_be-lt [] e h = absurd (omega arith)
read_u16_be-lt (a ∷ []) e h = absurd (omega arith)
read_u16_be-lt (a ∷ b ∷ []) e h = ground (arith, bit_or_add 8 (a * 2 ^ 8) b)
read_u16_be-lt (a ∷ b ∷ c ∷ p) e h = absurd (omega arith)

pub read_u32_be-lt :
    (p rest : List ℕ) → length p ≡ 4 → AreBytes p → read_u32_be (p ++ rest) < 2 ^ 32
read_u32_be-lt [] rest e h = absurd (omega arith)
read_u32_be-lt (a ∷ []) rest e h = absurd (omega arith)
read_u32_be-lt (a ∷ b ∷ []) rest e h = absurd (omega arith)
read_u32_be-lt (a ∷ b ∷ c ∷ []) rest e h = absurd (omega arith)
read_u32_be-lt (a ∷ b ∷ c ∷ d ∷ []) rest e h = omega (arith, read_u32_be_sum a b c d rest)
read_u32_be-lt (a ∷ b ∷ c ∷ d ∷ x ∷ p) rest e h = absurd (omega arith)

-- Two bytes are the encoding of the number that is read from them.
pub write_u16_be-read_u16_be :
    (p : List ℕ) → length p ≡ 2 → AreBytes p → write_u16_be (read_u16_be p) ≡ p
unfolding write_u16_be read_u16_be
write_u16_be-read_u16_be [] e h = absurd (omega arith)
write_u16_be-read_u16_be (a ∷ []) e h = absurd (omega arith)
write_u16_be-read_u16_be (a ∷ b ∷ []) e h = ground (arith, bit_or_add 8 (a * 2 ^ 8) b)
write_u16_be-read_u16_be (a ∷ b ∷ c ∷ p) e h = absurd (omega arith)

-- Four bytes are the encoding of the number that is read from them.
pub write_u32_be-read_u32_be :
    (p rest : List ℕ) → length p ≡ 4 → AreBytes p → write_u32_be (read_u32_be (p ++ rest)) ≡ p
unfolding write_u32_be
write_u32_be-read_u32_be [] rest e h = absurd (omega arith)
write_u32_be-read_u32_be (a ∷ []) rest e h = absurd (omega arith)
write_u32_be-read_u32_be (a ∷ b ∷ []) rest e h = absurd (omega arith)
write_u32_be-read_u32_be (a ∷ b ∷ c ∷ []) rest e h = absurd (omega arith)
write_u32_be-read_u32_be (a ∷ b ∷ c ∷ d ∷ []) rest e h =
    rw (read_u32_be_sum a b c d rest (omega arith) (omega arith) (omega arith)) (ground arith)
write_u32_be-read_u32_be (a ∷ b ∷ c ∷ d ∷ x ∷ p) rest e h = absurd (omega arith)

-- The fixed-buffer writers write what the appending ones push.
pub store_u32_be-eq : (v : ℕ) → store_u32_be v ≡ write_u32_be v
unfolding store_u32_be write_u32_be
store_u32_be-eq v = refl

pub store_u64_be-eq : (v : ℕ) → store_u64_be v ≡ write_u64_be v
unfolding store_u64_be write_u64_be
store_u64_be-eq v = refl

pub length-store_u64_be : (v : ℕ) → length (store_u64_be v) ≡ 8
length-store_u64_be v = rw store_u64_be-eq (length-write_u64_be v)

pub read_u64_be-store_u64_be :
    (v : ℕ) (rest : List ℕ) → v < 2 ^ 64 → read_u64_be (store_u64_be v ++ rest) ≡ v
read_u64_be-store_u64_be v rest h = rw store_u64_be-eq (read_u64_be-write_u64_be v rest h)

pub read_u64_be-store_u64_be_all : (v : ℕ) → v < 2 ^ 64 → read_u64_be (store_u64_be v) ≡ v
read_u64_be-store_u64_be_all v h = rw append-nil at (read_u64_be-store_u64_be v [] h)

pub length-store_u32_be : (v : ℕ) → length (store_u32_be v) ≡ 4
length-store_u32_be v = rw store_u32_be-eq (length-write_u32_be v)

pub read_u32_be-store_u32_be :
    (v : ℕ) (rest : List ℕ) → v < 2 ^ 32 → read_u32_be (store_u32_be v ++ rest) ≡ v
read_u32_be-store_u32_be v rest h = rw store_u32_be-eq (read_u32_be-write_u32_be v rest h)
