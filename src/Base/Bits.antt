-- ===== src/Base/Bits.antt =====
-- Laws of `&` by a byte mask and of `|` of values whose bits do not meet.
use Prim.Native.Nat.{
  ℕ, zero, suc, ◌+◌, ◌-◌, ◌*◌, ◌/◌, ◌%◌, ◌^◌, ◌≤◌, ◌<◌, min, max, bit_and, bit_or, digits,
  bit_and-bitwise, bit_or-bitwise,
}
use mathlib.Core.Path.{◌≡◌, refl, ap, ◌∙◌}
use native.Mathlib.Omega.{arith}
use native.Mathlib.Nat.{pow-suc}

module _ (left : ℕ → ℕ) (op : ℕ → ℕ → ℕ) where
  -- One unit of fuel more than the first operand needs changes nothing.
  one_spare : (a b n : ℕ) → a ≤ n → digits left op (suc n) a b ≡ digits left op n a b
  one_spare zero b zero h = refl
  one_spare zero b (suc n) h = refl
  one_spare (suc a) b zero h = absurd (omega arith)
  one_spare (suc a) b (suc n) h = omega (arith, one_spare (suc a / 2) (b / 2) n (omega arith))

  spare : (k a b : ℕ) → digits left op (k + a) a b ≡ digits left op a a b
  spare zero a b = let none : 0 + a ≡ a = omega arith in ap (λ t. digits left op t a b) none
  spare (suc k) a b =
      let more : suc k + a ≡ suc (k + a) = omega arith in
      ap (λ t. digits left op t a b) more ∙ one_spare a b (k + a) (omega arith) ∙ spare k a b

  enough : (n a b : ℕ) → a ≤ n → digits left op n a b ≡ digits left op a a b
  enough n a b h =
      let split : n ≡ (n - a) + a = omega arith in
      ap (λ t. digits left op t a b) split ∙ spare (n - a) a b

  -- The lowest digit, and the rest with the fuel that it needs.
  lowest :
      (a b : ℕ)
      → digits left op (suc a) (suc a) b
        ≡ digits left op (suc a / 2) (suc a / 2) (b / 2) * 2 + op (suc a % 2) (b % 2)
  lowest a b = omega (arith, enough a (suc a / 2) (b / 2) (omega arith))

bit_and_from_zero : (m : ℕ) → bit_and 0 m ≡ 0
bit_and_from_zero m = bit_and-bitwise 0 m

bit_or_from_zero : (m : ℕ) → bit_or 0 m ≡ m
bit_or_from_zero m = bit_or-bitwise 0 m

bit_and_lowest : (x m : ℕ) → bit_and x m ≡ bit_and (x / 2) (m / 2) * 2 + min (x % 2) (m % 2)
bit_and_lowest zero m = omega (arith, bit_and_from_zero (m / 2), bit_and_from_zero m)
bit_and_lowest (suc x) m =
    omega (
      arith,
      lowest (λ _. 0) min x m,
      bit_and-bitwise (suc x / 2) (m / 2),
      bit_and-bitwise (suc x) m,
    )

bit_or_lowest : (x m : ℕ) → bit_or x m ≡ bit_or (x / 2) (m / 2) * 2 + max (x % 2) (m % 2)
bit_or_lowest zero m = omega (arith, bit_or_from_zero (m / 2), bit_or_from_zero m)
bit_or_lowest (suc x) m =
    omega
      (arith, lowest (λ y. y) max x m, bit_or-bitwise (suc x / 2) (m / 2), bit_or-bitwise (suc x) m)

vanishes : (bound x : ℕ) → x ≤ bound → bit_and x 0 ≡ 0
vanishes zero x h = let empty : x ≡ 0 = omega arith in rw empty (bit_and_from_zero 0)
vanishes (suc bound) x h = omega (arith, bit_and_lowest x 0, vanishes bound (x / 2) (omega arith))

bit_and_zero : (a : ℕ) → bit_and a 0 ≡ 0
bit_and_zero a = vanishes a a (omega arith)

-- A mask that is odd keeps the lowest bit.
bit_and_odd : (a m : ℕ) → bit_and a (m * 2 + 1) ≡ bit_and (a / 2) m * 2 + a % 2
bit_and_odd a m =
    let half : (m * 2 + 1) / 2 ≡ m = omega arith in
    let odd : (m * 2 + 1) % 2 ≡ 1 = omega arith in
    let step : bit_and a (m * 2 + 1) ≡ bit_and (a / 2) m * 2 + min (a % 2) 1 =
      rw (half, odd) at (bit_and_lowest a (m * 2 + 1)) in
    omega (arith, step)

-- A mask of eight ones keeps the low byte.
pub bit_and-byte_mask : (a : ℕ) → bit_and a 0xff ≡ a % 256
bit_and-byte_mask a = omega (
  arith,
  bit_and_odd a 127,
  bit_and_odd (a / 2) 63,
  bit_and_odd (a / 2 / 2) 31,
  bit_and_odd (a / 2 / 2 / 2) 15,
  bit_and_odd (a / 2 / 2 / 2 / 2) 7,
  bit_and_odd (a / 2 / 2 / 2 / 2 / 2) 3,
  bit_and_odd (a / 2 / 2 / 2 / 2 / 2 / 2) 1,
  bit_and_odd (a / 2 / 2 / 2 / 2 / 2 / 2 / 2) 0,
  bit_and_zero (a / 2 / 2 / 2 / 2 / 2 / 2 / 2 / 2),
)

-- Bits below `k` and bits from `k` on do not meet.
pub bit_or-eq-add : (k a b : ℕ) → a < 2 ^ k → bit_or a (b * 2 ^ k) ≡ a + b * 2 ^ k
bit_or-eq-add zero a b h = let e : a ≡ 0 = omega arith in rw (e, bit_or_from_zero) (omega arith)
bit_or-eq-add (suc k) a b h =
    let double : b * 2 ^ suc k ≡ b * 2 ^ k * 2 =
      omega (arith, ap (λ (t : ℕ). b * t) (pow-suc 2 k)) in
    let half : (b * 2 ^ suc k) / 2 ≡ b * 2 ^ k = omega arith in
    let step : bit_or a (b * 2 ^ suc k)
        ≡ bit_or (a / 2) (b * 2 ^ k) * 2 + max (a % 2) ((b * 2 ^ suc k) % 2) =
      rw half at (bit_or_lowest a (b * 2 ^ suc k)) in
    omega (arith, step, bit_or-eq-add k (a / 2) b (omega (arith, pow-suc 2 k)))
