-- ===== src/Prelude/Bytes.antt =====
-- Bytes as numbers below 256, hashes as lists of 32 of them, and `memcmp` as a test for equality.
mod Fields
pub use Fields.{bit_or_add}
use Prim.Native.Nat.{ℕ, zero, suc, ◌<◌}
use mathlib.Core.Path.{◌≡◌, refl, ap}
use mathlib.Core.Logic.{◌≢◌, inl, inr, ◌↔◌}
use mathlib.Core.Bool.{Bool, true, false, ◌&&◌}
use mathlib.Core.List.{List, [], ◌∷◌, ◌++◌}
use native.Mathlib.Omega.{arith}
use chromatin_protocol.Prelude.Tests.{◌==◌, if◌then◌else◌, Bool-cases}
use chromatin_protocol.Prelude.Lists.{All, length}

abbrev pub IsByte : ℕ → Type 0
IsByte b = b < 256

abbrev pub AreBytes : List ℕ → Type 0
AreBytes = All IsByte

-- A `std::array<uint8_t, 32>`.
pub record IsHash (h : List ℕ) : Type 0 where
  pub size : length h ≡ 32
  pub bytes : AreBytes h

-- `memcmp(a, b, n) == 0` on two ranges of the same size, and `==` of two byte arrays.
unfoldable pub bytes_eq : List ℕ → List ℕ → Bool
bytes_eq [] [] = true
bytes_eq [] (y ∷ ys) = false
bytes_eq (x ∷ xs) [] = false
bytes_eq (x ∷ xs) (y ∷ ys) = x == y && bytes_eq xs ys

pub bytes_eq→eq : (xs ys : List ℕ) → bytes_eq xs ys ≡ true → xs ≡ ys
unfolding bytes_eq
bytes_eq→eq [] [] h = refl
bytes_eq→eq [] (y ∷ ys) h = cc
bytes_eq→eq (x ∷ xs) [] h = cc
bytes_eq→eq (x ∷ xs) (y ∷ ys) h = ground (arith, bytes_eq→eq xs ys)

pub bytes_eq_self : (xs : List ℕ) → bytes_eq xs xs ≡ true
unfolding bytes_eq
bytes_eq_self [] = refl
bytes_eq_self (x ∷ xs) = ground (arith, bytes_eq_self xs)

pub eq→bytes_eq : (xs ys : List ℕ) → xs ≡ ys → bytes_eq xs ys ≡ true
eq→bytes_eq xs ys e = ground (arith, bytes_eq_self xs)

pub bytes_eq_iff : (xs ys : List ℕ) → (bytes_eq xs ys ≡ true) ↔ (xs ≡ ys)
bytes_eq_iff xs ys = (bytes_eq→eq xs ys, eq→bytes_eq xs ys)

pub bytes_ne : (xs ys : List ℕ) → xs ≢ ys → bytes_eq xs ys ≡ false
bytes_ne xs ys h = elim (Bool-cases (bytes_eq xs ys)) [
  | inl e ↦ absurd (h (bytes_eq→eq xs ys e))
  | inr e ↦ e
]
