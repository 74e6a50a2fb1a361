-- ===== src/Base/Bits.antt =====
-- Exclusive or and masks of numbers of any width, which the libraries compute at literals only.
use Prim.Native.Nat.{
  ℕ, zero, suc, ◌+◌, ◌*◌, ◌/◌, ◌%◌, ◌^◌, ◌≤◌, ◌<◌, min, differ, digits, bit_and, bit_xor,
  bit_and-bitwise, bit_xor-bitwise,
}
use mathlib.Core.Path.{◌≡◌, refl, sym, ap, ◌∙◌}
use native.Mathlib.Omega.{arith}
use native.Mathlib.Nat.{pow-suc, le_refl, mul_assoc}

-- The number of digits to go does not matter once it is enough.
digits-enough :
    (z : ℕ → ℕ) (f : ℕ → ℕ → ℕ) (n k a b : ℕ) → a ≤ n → a ≤ k → digits z f n a b ≡ digits z f k a b
digits-enough z f zero zero a b h g = refl
digits-enough z f (suc n) zero zero b h g = refl
digits-enough z f (suc n) (suc k) zero b h g = refl
digits-enough z f zero (suc k) zero b h g = refl
digits-enough z f zero k (suc a) b h g = absurd (omega arith)
digits-enough z f n zero (suc a) b h g = absurd (omega arith)
digits-enough z f (suc n) (suc k) (suc a) b h g =
    ap (λ (d : ℕ). d * 2 + f (suc a % 2) (b % 2))
      (digits-enough z f n k (suc a / 2) (b / 2) (omega arith) (omega arith))

xor_digits : (a b : ℕ) → bit_xor a b ≡ bit_xor (a / 2) (b / 2) * 2 + differ (a % 2) (b % 2)
xor_digits zero b = simp bit_xor-bitwise (omega arith)
xor_digits (suc a) b = simp bit_xor-bitwise (
    ap (λ (d : ℕ). d * 2 + differ (suc a % 2) (b % 2))
      (digits-enough (λ y. y) differ a (suc a / 2) (suc a / 2) (b / 2) (omega arith) (le_refl _)))

and_digits : (a b : ℕ) → bit_and a b ≡ bit_and (a / 2) (b / 2) * 2 + min (a % 2) (b % 2)
and_digits zero b = simp bit_and-bitwise (omega arith)
and_digits (suc a) b = simp bit_and-bitwise (
    ap (λ (d : ℕ). d * 2 + min (suc a % 2) (b % 2))
      (digits-enough (λ y. 0) min a (suc a / 2) (suc a / 2) (b / 2) (omega arith) (le_refl _)))

differ-mod : (x y : ℕ) → x < 2 → y < 2 → differ x y ≡ (x + y) % 2
differ-mod zero zero h g = refl
differ-mod zero (suc zero) h g = refl
differ-mod (suc zero) zero h g = refl
differ-mod (suc zero) (suc zero) h g = refl
differ-mod (suc (suc x)) y h g = absurd (omega arith)
differ-mod zero (suc (suc y)) h g = absurd (omega arith)
differ-mod (suc zero) (suc (suc y)) h g = absurd (omega arith)

pub xor_step : (a b : ℕ) → bit_xor a b ≡ bit_xor (a / 2) (b / 2) * 2 + (a + b) % 2
xor_step a b =
    xor_digits a b
    ∙ ap (λ (d : ℕ). bit_xor (a / 2) (b / 2) * 2 + d)
        (differ-mod (a % 2) (b % 2) (omega arith) (omega arith) ∙ omega arith)

pub xor_half : (a b : ℕ) → bit_xor a b / 2 ≡ bit_xor (a / 2) (b / 2)
xor_half a b = omega (arith, xor_step a b)

pub xor_parity : (a b : ℕ) → bit_xor a b % 2 ≡ (a + b) % 2
xor_parity a b = omega (arith, xor_step a b)

-- Numbers with the same lowest digit and the same half.
same_digits : (a b : ℕ) → a % 2 ≡ b % 2 → a / 2 ≡ b / 2 → a ≡ b
same_digits a b h g = omega arith

zero_of : (a : ℕ) → a ≤ 0 → a ≡ 0
zero_of a h = omega arith

xor_comm_below : (n a b : ℕ) → a ≤ n → b ≤ n → bit_xor a b ≡ bit_xor b a
xor_comm_below zero a b h g = rw (zero_of a h) (rw (zero_of b g) refl)
xor_comm_below (suc n) a b h g = omega (
  arith,
  xor_step a b,
  xor_step b a,
  xor_comm_below n (a / 2) (b / 2) (omega arith) (omega arith),
)

pub xor_comm : (a b : ℕ) → bit_xor a b ≡ bit_xor b a
xor_comm a b = xor_comm_below (a + b) a b (omega arith) (omega arith)

xor_assoc_below :
    (n a b c : ℕ) → a ≤ n → b ≤ n → c ≤ n → bit_xor (bit_xor a b) c ≡ bit_xor a (bit_xor b c)
xor_assoc_below zero a b c h g k = rw (zero_of a h) (rw (zero_of b g) (rw (zero_of c k) refl))
xor_assoc_below (suc n) a b c h g k =
    same_digits (bit_xor (bit_xor a b) c) (bit_xor a (bit_xor b c))
      (omega (
        arith,
        xor_parity (bit_xor a b) c,
        xor_parity a b,
        xor_parity a (bit_xor b c),
        xor_parity b c,
      ))
      (xor_half (bit_xor a b) c
        ∙ (ap (λ (d : ℕ). bit_xor d (c / 2)) (xor_half a b)
            ∙ (xor_assoc_below n (a / 2) (b / 2) (c / 2) (omega arith) (omega arith) (omega arith)
                ∙ (ap (λ (d : ℕ). bit_xor (a / 2) d) (sym (xor_half b c))
                    ∙ sym (xor_half a (bit_xor b c))))))

pub xor_assoc : (a b c : ℕ) → bit_xor (bit_xor a b) c ≡ bit_xor a (bit_xor b c)
xor_assoc a b c = xor_assoc_below (a + b + c) a b c (omega arith) (omega arith) (omega arith)

pub zero-xor : (a : ℕ) → bit_xor 0 a ≡ a
zero-xor a = simp bit_xor-bitwise refl

pub xor-zero : (a : ℕ) → bit_xor a 0 ≡ a
xor-zero a = xor_comm a 0 ∙ zero-xor a

-- Exclusive or of numbers of `k` digits.
pub xor_bound : (k a b : ℕ) → a < 2 ^ k → b < 2 ^ k → bit_xor a b < 2 ^ k
xor_bound zero a b h g = rw (zero_of a (omega arith)) (rw (zero_of b (omega arith)) (omega arith))
xor_bound (suc k) a b h g = omega (
  arith,
  xor_step a b,
  pow-suc 2 k,
  xor_bound k (a / 2) (b / 2) (omega (arith, pow-suc 2 k)) (omega (arith, pow-suc 2 k)),
)

pub times_two : (h p : ℕ) → h * (p * 2) ≡ h * p * 2
times_two h p = sym (mul_assoc h p 2)

pub half_of : (h p l : ℕ) → (l + h * (p * 2)) / 2 ≡ l / 2 + h * p
half_of h p l = omega (arith, times_two h p)

and-zero_below : (n a : ℕ) → a ≤ n → bit_and a 0 ≡ 0
and-zero_below zero a h = rw (zero_of a h) refl
and-zero_below (suc n) a h = omega (arith, and_digits a 0, and-zero_below n (a / 2) (omega arith))

-- The number with the lowest `k` digits set.
abbrev low_digits : ℕ → ℕ
low_digits zero = 0
low_digits (suc k) = low_digits k * 2 + 1

half_odd : (m : ℕ) → (m * 2 + 1) / 2 ≡ m
half_odd m = omega arith

-- The mask's lowest digit is set.
and_odd : (a m q : ℕ) → a / 2 ≡ q → bit_and a (m * 2 + 1) ≡ bit_and q m * 2 + a % 2
and_odd a m q h = omega (
  arith,
  and_digits a (m * 2 + 1),
  ap (λ (d : ℕ). bit_and d ((m * 2 + 1) / 2)) h,
  ap (λ (d : ℕ). bit_and q d) (half_odd m),
)

and-low_digits : (k h l : ℕ) → l < 2 ^ k → bit_and (l + h * 2 ^ k) (low_digits k) ≡ l
and-low_digits zero h l b = and-zero_below (l + h * 1) (l + h * 1) (le_refl _) ∙ omega arith
and-low_digits (suc k) h l b = omega (
  arith,
  and_odd (l + h * 2 ^ suc k) (low_digits k) (l / 2 + h * 2 ^ k)
      (ap (λ (p : ℕ). (l + h * p) / 2) (pow-suc 2 k) ∙ half_of h (2 ^ k) l),
  and-low_digits k h (l / 2) (omega (arith, pow-suc 2 k)),
  ap (λ (p : ℕ). h * p) (pow-suc 2 k),
  times_two h (2 ^ k),
)

parts_256 : (a : ℕ) → a ≡ a % 256 + a / 256 * 256
parts_256 a = omega arith

parts_2 : (a : ℕ) → a ≡ a % 2 + a / 2 * 2
parts_2 a = omega arith

pub and_0xff : (a : ℕ) → bit_and a 0xff ≡ a % 256
and_0xff a =
    ap (λ (d : ℕ). bit_and d 0xff) (parts_256 a)
    ∙ and-low_digits 8 (a / 256) (a % 256) (omega arith)

pub and_1 : (a : ℕ) → bit_and a 1 ≡ a % 2
and_1 a = ap (λ (d : ℕ). bit_and d 1) (parts_2 a) ∙ and-low_digits 1 (a / 2) (a % 2) (omega arith)
