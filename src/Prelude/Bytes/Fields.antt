-- ===== src/Prelude/Bytes/Fields.antt =====
-- `|` of two disjoint bit fields is their sum, at every width.
use Prim.Native.Nat.{
  ℕ, zero, suc, ◌+◌, ◌-◌, ◌*◌, ◌/◌, ◌%◌, ◌^◌, ◌≤◌, ◌<◌, max, bit_or, digits, bit_or-bitwise,
}
use mathlib.Core.Path.{◌≡◌, refl, ap, ◌∙◌}
use native.Mathlib.Nat.{le_refl, pow-suc, div-add-mod}
use native.Mathlib.Omega.{arith}

add_zero : (n : ℕ) → n + 0 ≡ n
add_zero n = omega arith

add_suc : (n k : ℕ) → n + suc k ≡ suc (n + k)
add_suc n k = omega arith

abbrev or_digits : ℕ → ℕ → ℕ → ℕ
or_digits = digits (λ y. y) max

-- Once the fuel covers the first number, one more unit changes nothing, nor do `k` more.
more_fuel : (b a fuel : ℕ) → a ≤ fuel → or_digits (suc fuel) a b ≡ or_digits fuel a b
more_fuel b zero zero h = refl
more_fuel b zero (suc fuel) h = refl
more_fuel b (suc a) zero h = absurd (omega arith)
more_fuel b (suc a) (suc fuel) h =
    ap (λ t. t * 2 + max (suc a % 2) (b % 2)) (more_fuel (b / 2) (suc a / 2) fuel (omega arith))

spare_fuel : (k b a fuel : ℕ) → a ≤ fuel → or_digits (fuel + k) a b ≡ or_digits fuel a b
spare_fuel zero b a fuel h = ap (λ n. or_digits n a b) (add_zero fuel)
spare_fuel (suc k) b a fuel h =
    ap (λ n. or_digits n a b) (add_suc fuel k)
    ∙ more_fuel b a (fuel + k) (omega arith)
    ∙ spare_fuel k b a fuel h

bit_or-zero_left : (b : ℕ) → bit_or 0 b ≡ b
bit_or-zero_left b = bit_or-bitwise 0 b

-- One binary digit of `|`.
pub bit_or_step : (a b : ℕ) → bit_or a b ≡ bit_or (a / 2) (b / 2) * 2 + max (a % 2) (b % 2)
bit_or_step zero b = omega (arith, bit_or-zero_left b, bit_or-zero_left (b / 2))
bit_or_step (suc a) b =
    let half = suc a / 2 in
    let enough : or_digits a half (b / 2) ≡ or_digits half half (b / 2) =
      ap (λ n. or_digits n half (b / 2)) (omega arith)
      ∙ spare_fuel (a - half) (b / 2) half half (le_refl half) in
    omega (arith, bit_or-bitwise (suc a) b, bit_or-bitwise half (b / 2), enough)

bit_or-zero_fuel : (n a : ℕ) → a ≤ n → bit_or a 0 ≡ a
bit_or-zero_fuel n zero h = refl
bit_or-zero_fuel zero (suc a) h = absurd (omega arith)
bit_or-zero_fuel (suc n) (suc a) h =
    omega (arith, bit_or_step (suc a) 0, bit_or-zero_fuel n (suc a / 2) (omega arith))

double : (q k : ℕ) → q * 2 ^ suc k ≡ 2 * (q * 2 ^ k)
double q k = omega (arith, ap (λ (t : ℕ). q * t) (pow-suc 2 k))

-- `(q << k) | r` where `r` fits in `k` bits.
bit_or_fields : (k q r : ℕ) → r < 2 ^ k → bit_or (q * 2 ^ k) r ≡ q * 2 ^ k + r
bit_or_fields zero q r h = ground (arith, bit_or-zero_fuel q q)
bit_or_fields (suc k) q r h = ground (
  arith,
  bit_or_step (q * 2 ^ suc k) r,
  double q k,
  bit_or_fields k q (r / 2) (omega (arith, pow-suc 2 k)),
)

-- The same with the shifted field as one number.
pub bit_or_add : (k x r : ℕ) → x % 2 ^ k ≡ 0 → r < 2 ^ k → bit_or x r ≡ x + r
bit_or_add k x r e h =
    let split : x / 2 ^ k * 2 ^ k ≡ x = omega (arith, div-add-mod x (2 ^ k)) in
    rw split at (bit_or_fields k (x / 2 ^ k) r h)
