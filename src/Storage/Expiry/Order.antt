-- ===== src/Storage/Expiry/Order.antt =====
-- Keys in byte order are in the order of the numbers that they start with.
use chromatin_protocol.Prelude.{
  ℕ, zero, suc, ◌+◌, ◌*◌, ◌≤◌, ◌<◌, ◌≡◌, arith, List, [], ◌∷◌, true, length, AreBytes,
}
use chromatin_protocol.Endian.{read_u64_be}
use chromatin_protocol.Endian.Words.{read_u64_be_sum}
use chromatin_protocol.External.Mdbx.{bytes_lt}

-- A list of bytes as a big-endian number, with what was read before.
abbrev number : ℕ → ℕ → List ℕ → ℕ
number acc zero xs = acc
number acc (suc n) [] = acc
number acc (suc n) (x ∷ xs) = number (acc * 256 + x) n xs

number_mono :
    (n a b : ℕ) (xs ys : List ℕ)
    → n ≤ length xs
    → n ≤ length ys
    → AreBytes xs
    → AreBytes ys
    → a < b
    → number a n xs ≤ number b n ys
number_mono zero a b xs ys p q h k lt = omega arith
number_mono (suc n) a b [] ys p q h k lt = absurd (omega arith)
number_mono (suc n) a b (x ∷ xs) [] p q h k lt = absurd (omega arith)
number_mono (suc n) a b (x ∷ xs) (y ∷ ys) p q h k lt =
    number_mono n (a * 256 + x) (b * 256 + y) xs ys (omega arith) (omega arith) h.1 k.1
      (omega (arith, h.0))

number-bytes_lt :
    (n a : ℕ) (xs ys : List ℕ)
    → n ≤ length xs
    → n ≤ length ys
    → AreBytes xs
    → AreBytes ys
    → bytes_lt xs ys ≡ true
    → number a n xs ≤ number a n ys
unfolding bytes_lt
number-bytes_lt zero a xs ys p q h k lt = omega arith
number-bytes_lt (suc n) a [] ys p q h k lt = absurd (omega arith)
number-bytes_lt (suc n) a (x ∷ xs) [] p q h k lt = absurd (omega arith)
number-bytes_lt (suc n) a (x ∷ xs) (y ∷ ys) p q h k lt = ground (
  arith,
  number_mono n (a * 256 + x) (a * 256 + y) xs ys (omega arith) (omega arith) h.1 k.1,
  number-bytes_lt n (a * 256 + x) xs ys (omega arith) (omega arith) h.1 k.1,
  x_eq x y,
)
  where
    x_eq : (x y : ℕ) → x ≡ y → a * 256 + x ≡ a * 256 + y
    x_eq x y e = omega arith

read_u64_be-number : (xs : List ℕ) → 8 ≤ length xs → AreBytes xs → read_u64_be xs ≡ number 0 8 xs
read_u64_be-number [] p h = absurd (omega arith)
read_u64_be-number (a ∷ []) p h = absurd (omega arith)
read_u64_be-number (a ∷ b ∷ []) p h = absurd (omega arith)
read_u64_be-number (a ∷ b ∷ c ∷ []) p h = absurd (omega arith)
read_u64_be-number (a ∷ b ∷ c ∷ d ∷ []) p h = absurd (omega arith)
read_u64_be-number (a ∷ b ∷ c ∷ d ∷ e ∷ []) p h = absurd (omega arith)
read_u64_be-number (a ∷ b ∷ c ∷ d ∷ e ∷ f ∷ []) p h = absurd (omega arith)
read_u64_be-number (a ∷ b ∷ c ∷ d ∷ e ∷ f ∷ g ∷ []) p h = absurd (omega arith)
read_u64_be-number (a ∷ b ∷ c ∷ d ∷ e ∷ f ∷ g ∷ h ∷ rest) p bs =
    omega (arith, read_u64_be_sum a b c d e f g h rest (omega arith))

pub read_u64_be-bytes_lt :
    (xs ys : List ℕ)
    → 8 ≤ length xs
    → 8 ≤ length ys
    → AreBytes xs
    → AreBytes ys
    → bytes_lt xs ys ≡ true
    → read_u64_be xs ≤ read_u64_be ys
read_u64_be-bytes_lt xs ys p q h k lt = omega (
  arith,
  read_u64_be-number xs p h,
  read_u64_be-number ys q k,
  number-bytes_lt 8 0 xs ys p q h k lt,
)
