-- ===== src/Prelude/Slices.antt =====
-- Reading a payload at an offset: what `memcpy(out, data + offset, n)` and `subspan` copy.
use Prim.Native.Nat.{ℕ, ◌+◌, ◌≤◌}
use mathlib.Core.Path.{◌≡◌, refl, sym, ap, ◌∙◌}
use mathlib.Core.List.{List, ◌++◌}
use native.Mathlib.Omega.{arith}
use chromatin_protocol.Prelude.Lists.{
  length, take, drop, take-append-drop, length-take, length-drop, All, All-take, All-drop,
  take-append, drop-append, drop-drop, length-append,
}

-- The `n` elements from `offset` on. Callers check the bounds first, as the source does.
abbrev pub slice {ℓ} : {A : Type ℓ} → ℕ → ℕ → List A → List A
slice offset n xs = take n (drop offset xs)

-- A cursor: `rest` is what the payload holds from `offset` on.
pub record At {ℓ} {A : Type ℓ} (payload : List A) (offset : ℕ) (rest : List A) : Type ℓ where
  pub rest_at : drop offset payload ≡ rest
  pub room : offset + length rest ≡ length payload

module _ {ℓ} {A : Type ℓ} where
  pub drop-slice :
      (offset n : ℕ) (xs : List A) → drop offset xs ≡ slice offset n xs ++ drop (offset + n) xs
  drop-slice offset n xs =
      sym (take-append-drop n (drop offset xs))
      ∙ ap (λ (t : List A). slice offset n xs ++ t) (drop-drop offset n xs)

  pub length-slice :
      (offset n : ℕ) (xs : List A) → offset + n ≤ length xs → length (slice offset n xs) ≡ n
  length-slice offset n xs h = omega (arith, length-take n (drop offset xs), length-drop offset xs)

  pub All-slice {κ} :
      (P : A → Type κ) (offset n : ℕ) (xs : List A) → All P xs → All P (slice offset n xs)
  All-slice P offset n xs h = All-take P n (drop offset xs) (All-drop P offset xs h)

  pub At-start : (payload : List A) → At payload 0 payload
  At-start payload = record { rest_at = refl; room = omega arith }

  pub At-slice :
      (payload : List A) (offset n : ℕ) (front rest : List A)
      → At payload offset (front ++ rest)
      → length front ≡ n
      → slice offset n payload ≡ front
  At-slice payload offset n front rest at e = rw (at.rest_at) (take-append n front rest e)

  pub At-next :
      (payload : List A) (offset n : ℕ) (front rest : List A)
      → At payload offset (front ++ rest)
      → length front ≡ n
      → At payload (offset + n) rest
  At-next payload offset n front rest at e = record {
    rest_at = sym (drop-drop offset n payload) ∙ rw (at.rest_at) (drop-append n front rest e);
    room = omega (arith, at.room, length-append front rest);
  }

  -- The bound that a decoder tests before it reads `n` elements.
  pub At-room :
      (payload : List A) (offset n : ℕ) (front rest : List A)
      → At payload offset (front ++ rest)
      → length front ≡ n
      → offset + n ≤ length payload
  At-room payload offset n front rest at e = omega (arith, at.room, length-append front rest)
