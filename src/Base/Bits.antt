-- ===== src/Base/Bits.antt =====
-- `&` and `|` at variables: one equation for the lowest digit, and from it the split of an
-- operation into the part above and the part below a bit.
use Prim.Native.Nat.{
  ℕ, zero, suc, ◌+◌, ◌-◌, ◌*◌, ◌/◌, ◌%◌, ◌^◌, ◌≤◌, min, max, bit_and, bit_or, bitwise, digits,
  bit_and-bitwise, bit_or-bitwise,
}
use mathlib.Core.Path.{◌≡◌, refl, sym, ap, ◌∙◌}
use mathlib.Core.Logic.{◌⊎◌, inl, inr}
use native.Mathlib.Nat.{
  le_refl, pow-succ', one-le-pow, mod-add-div', div-div-eq-div-mul, div-one, mod-one,
}
use native.Mathlib.Omega.{arith}

-- The meaning of `&` and `|` is a recursion on the digits of the first number, with fuel. Fuel above
-- that number makes no difference.
module _ (rest : ℕ → ℕ) (digit : ℕ → ℕ → ℕ) where
  spare_fuel : (n x y : ℕ) → x ≤ n → digits rest digit (suc n) x y ≡ digits rest digit n x y
  spare_fuel zero (suc x) y h = absurd (omega arith)
  spare_fuel zero zero y h = refl
  spare_fuel (suc n) (suc x) y h = rw (spare_fuel n (suc x / 2) (y / 2) (omega arith))
  spare_fuel (suc n) zero y h = refl

  least_fuel : (n x y : ℕ) → x ≤ n → digits rest digit n x y ≡ bitwise rest digit x y
  least_fuel zero x y h = rw (zero_only x h)
    where
      zero_only : (x : ℕ) → x ≤ 0 → x ≡ 0
      zero_only x h = omega arith
  least_fuel (suc n) x y h = elim (last_step n x h) [
    | inl e ↦ rw e
    | inr le ↦ spare_fuel n x y le ∙ least_fuel n x y le
  ]
    where
      last_step : (n x : ℕ) → x ≤ suc n → (x ≡ suc n) ⊎ (x ≤ n)
      last_step n x h = omega arith

  lowest_digit :
      (n y : ℕ)
      → bitwise rest digit (suc n) y
        ≡ digit (suc n % 2) (y % 2) + 2 * bitwise rest digit (suc n / 2) (y / 2)
  lowest_digit n y = omega (arith, least_fuel n (suc n / 2) (y / 2) (omega arith))

bit_and_low : (x y : ℕ) → bit_and x y ≡ min (x % 2) (y % 2) + 2 * bit_and (x / 2) (y / 2)
bit_and_low (suc n) y = simp bit_and-bitwise (lowest_digit (λ k. 0) min n y)
bit_and_low zero y = simp bit_and-bitwise (omega arith)

bit_or_low : (x y : ℕ) → bit_or x y ≡ max (x % 2) (y % 2) + 2 * bit_or (x / 2) (y / 2)
bit_or_low (suc n) y = simp bit_or-bitwise (lowest_digit (λ k. k) max n y)
bit_or_low zero y = simp bit_or-bitwise (omega arith)

div-two-pow-suc : (a k : ℕ) → a / 2 ^ suc k ≡ a / 2 / 2 ^ k
div-two-pow-suc a k = rw pow-succ' (sym (div-div-eq-div-mul a 2 (2 ^ k)))

mod-two-pow-suc : (a k : ℕ) → a % 2 ^ suc k ≡ a / 2 % 2 ^ k * 2 + a % 2
mod-two-pow-suc a k =
    let q : ℕ = a / 2 / 2 ^ k in
    let whole : a % 2 ^ suc k + q * (2 * 2 ^ k) ≡ a =
      rw (← div-two-pow-suc, ← pow-succ' 2 k) (mod-add-div' a (2 ^ suc k)) in
    omega (arith, whole, mod-add-div' (a / 2) (2 ^ k))

-- Above and below bit `k` the operations do not interact.
low_half : (u a : ℕ) → (u * 2 + a % 2) / 2 ≡ u
low_half u a = omega arith

bit_and_digit :
    (u v a b : ℕ) → bit_and (u * 2 + a % 2) (v * 2 + b % 2) ≡ bit_and u v * 2 + min (a % 2) (b % 2)
bit_and_digit u v a b = bit_and_low (u * 2 + a % 2) (v * 2 + b % 2) ∙ digits_of
  where
    digits_of :
        min ((u * 2 + a % 2) % 2) ((v * 2 + b % 2) % 2)
          + 2 * bit_and ((u * 2 + a % 2) / 2) ((v * 2 + b % 2) / 2)
        ≡ bit_and u v * 2 + min (a % 2) (b % 2)
    digits_of = rw (low_half u a, low_half v b) (omega arith)

pub bit_and_split :
    (k a b : ℕ)
    → bit_and a b ≡ bit_and (a / 2 ^ k) (b / 2 ^ k) * 2 ^ k + bit_and (a % 2 ^ k) (b % 2 ^ k)
bit_and_split zero a b = simp (div-one, mod-one) (omega arith)
bit_and_split (suc k) a b =
    rw
      (
        div-two-pow-suc a k,
        div-two-pow-suc b k,
        mod-two-pow-suc a k,
        mod-two-pow-suc b k,
        bit_and_digit,
        pow-succ' 2 k,
      )
      (omega (arith, bit_and_low a b, bit_and_split k (a / 2) (b / 2)))

bit_or_digit :
    (u v a b : ℕ) → bit_or (u * 2 + a % 2) (v * 2 + b % 2) ≡ bit_or u v * 2 + max (a % 2) (b % 2)
bit_or_digit u v a b = bit_or_low (u * 2 + a % 2) (v * 2 + b % 2) ∙ digits_of
  where
    digits_of :
        max ((u * 2 + a % 2) % 2) ((v * 2 + b % 2) % 2)
          + 2 * bit_or ((u * 2 + a % 2) / 2) ((v * 2 + b % 2) / 2)
        ≡ bit_or u v * 2 + max (a % 2) (b % 2)
    digits_of = rw (low_half u a, low_half v b) (omega arith)

pub bit_or_split :
    (k a b : ℕ)
    → bit_or a b ≡ bit_or (a / 2 ^ k) (b / 2 ^ k) * 2 ^ k + bit_or (a % 2 ^ k) (b % 2 ^ k)
bit_or_split zero a b = simp (div-one, mod-one) (omega arith)
bit_or_split (suc k) a b =
    rw
      (
        div-two-pow-suc a k,
        div-two-pow-suc b k,
        mod-two-pow-suc a k,
        mod-two-pow-suc b k,
        bit_or_digit,
        pow-succ' 2 k,
      )
      (omega (arith, bit_or_low a b, bit_or_split k (a / 2) (b / 2)))

zero_below : (n x : ℕ) → x ≤ n → (bit_and x 0 ≡ 0) × (bit_or x 0 ≡ x)
zero_below n zero h = (refl, refl)
zero_below zero (suc x) h = absurd (omega arith)
zero_below (suc n) (suc x) h =
    let half = zero_below n (suc x / 2) (omega arith) in
    (omega (arith, half, bit_and_low (suc x) 0), omega (arith, half, bit_or_low (suc x) 0))

pub bit_and-zero : (x : ℕ) → bit_and x 0 ≡ 0
bit_and-zero x = (zero_below x x (le_refl x)).0

pub bit_or-zero : (x : ℕ) → bit_or x 0 ≡ x
bit_or-zero x = (zero_below x x (le_refl x)).1

pub bit_and-one : (a : ℕ) → bit_and a 1 ≡ a % 2
bit_and-one a = omega (arith, bit_and_low a 1, bit_and-zero (a / 2))

pub bit_or-one : (a : ℕ) → bit_or a 1 ≡ a / 2 * 2 + 1
bit_or-one a = omega (arith, bit_or_low a 1, bit_or-zero (a / 2))

-- A mask of `k` ones keeps the remainder by `2 ^ k`.
pub bit_and_ones : (k a : ℕ) → bit_and a (2 ^ k - 1) ≡ a % 2 ^ k
bit_and_ones zero a = rw mod-one (bit_and-zero a)
bit_and_ones (suc k) a =
    let half : (2 ^ suc k - 1) / 2 ≡ 2 ^ k - 1 =
      omega (arith, pow-succ' 2 k, one-le-pow k 2 (omega arith)) in
    let odd : (2 ^ suc k - 1) % 2 ≡ 1 =
      omega (arith, pow-succ' 2 k, one-le-pow k 2 (omega arith)) in
    rw mod-two-pow-suc (
      omega (
        arith,
        bit_and_low a (2 ^ suc k - 1),
        ap (bit_and (a / 2)) half,
        odd,
        bit_and_ones k (a / 2),
      ))

pub zero-bit_or : (b : ℕ) → bit_or 0 b ≡ b
zero-bit_or b = bit_or-bitwise 0 b
