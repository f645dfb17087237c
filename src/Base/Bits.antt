-- ===== src/Base/Bits.antt =====
-- Words and bits: wrap-around, and the laws of `|`, `&` and `^` on one bit at a time.
use Prim.Native.Nat.{
  ℕ, zero, suc, ◌+◌, ◌-◌, ◌*◌, ◌/◌, ◌%◌, ◌^◌, ◌≤◌, ◌<◌, min, max, bit_and, bit_or, bit_xor, digits,
  bitwise, differ, bit_and-bitwise, bit_or-bitwise, bit_xor-bitwise,
}
use mathlib.Core.Path.{◌≡◌, refl, ap, ◌∙◌}
use native.Mathlib.Nat.{pow-suc}
use native.Mathlib.Omega.{arith}
use pico_deck_eddiscovery.Base.Tests.{◌==◌, if◌then◌else◌}

-- Unsigned arithmetic wraps; `-` on ℕ stops at 0, so the modulus is added first.
abbrev pub u8 : ℕ → ℕ
u8 n = n % 256

abbrev pub u16 : ℕ → ℕ
u16 n = n % 65536

abbrev pub u32 : ℕ → ℕ
u32 n = n % 4294967296

abbrev pub u64_mod : ℕ
u64_mod = 18446744073709551616

abbrev pub u64 : ℕ → ℕ
u64 n = n % 18446744073709551616

abbrev pub sub64 : ℕ → ℕ → ℕ
sub64 a b = (a + 18446744073709551616 - b) % 18446744073709551616

module _ (z : ℕ → ℕ) (f : ℕ → ℕ → ℕ) where
  -- More fuel than digits changes nothing.
  digits_more : (k l x y : ℕ) → x ≤ k → x ≤ l → digits z f k x y ≡ digits z f l x y
  digits_more zero zero x y s t = refl
  digits_more zero (suc l) zero y s t = refl
  digits_more zero (suc l) (suc x) y s t = absurd (omega arith)
  digits_more (suc k) zero zero y s t = refl
  digits_more (suc k) zero (suc x) y s t = absurd (omega arith)
  digits_more (suc k) (suc l) zero y s t = refl
  digits_more (suc k) (suc l) (suc x) y s t =
      rw (digits_more k l (suc x / 2) (y / 2) (omega arith) (omega arith))

  bitwise_lowest :
      (x y : ℕ)
      → bitwise z f (suc x) y ≡ bitwise z f (suc x / 2) (y / 2) * 2 + f (suc x % 2) (y % 2)
  bitwise_lowest x y =
      omega (arith, digits_more x (suc x / 2) (suc x / 2) (y / 2) (omega arith) (omega arith))

-- Exclusive or of two digits.
abbrev pub xor_digit : ℕ → ℕ → ℕ
xor_digit a b = (a + b) % 2

pub bit_or_halves : (m n : ℕ) → bit_or m n ≡ bit_or (m / 2) (n / 2) * 2 + max (m % 2) (n % 2)
bit_or_halves zero n = simp bit_or-bitwise (omega arith)
bit_or_halves (suc m) n = simp bit_or-bitwise (bitwise_lowest (λ y. y) max m n)

pub bit_and_halves : (m n : ℕ) → bit_and m n ≡ bit_and (m / 2) (n / 2) * 2 + min (m % 2) (n % 2)
bit_and_halves zero n = simp bit_and-bitwise (omega arith)
bit_and_halves (suc m) n = simp bit_and-bitwise (bitwise_lowest (λ y. 0) min m n)

differ_lem : (x y : ℕ) → x < 2 → y < 2 → differ x y ≡ xor_digit x y
differ_lem zero zero p q = refl
differ_lem zero (suc zero) p q = refl
differ_lem (suc zero) zero p q = refl
differ_lem (suc zero) (suc zero) p q = refl
differ_lem zero (suc (suc y)) p q = absurd (omega arith)
differ_lem (suc zero) (suc (suc y)) p q = absurd (omega arith)
differ_lem (suc (suc x)) y p q = absurd (omega arith)

pub bit_xor_halves :
    (a b : ℕ) → bit_xor a b ≡ bit_xor (a / 2) (b / 2) * 2 + xor_digit (a % 2) (b % 2)
bit_xor_halves zero b = simp bit_xor-bitwise (omega arith)
bit_xor_halves (suc a) b = simp bit_xor-bitwise (
    omega (
      arith,
      bitwise_lowest (λ y. y) differ a b,
      differ_lem (suc a % 2) (b % 2) (omega arith) (omega arith),
    ))

-- Bit `i` of a number, lowest first.
abbrev pub bit_at : ℕ → ℕ → ℕ
bit_at zero m = m % 2
bit_at (suc i) m = bit_at i (m / 2)

pub bit_at-lt : (i m : ℕ) → bit_at i m < 2
bit_at-lt zero m = omega arith
bit_at-lt (suc i) m = bit_at-lt i (m / 2)

pub bit_at-xor : (i a b : ℕ) → bit_at i (bit_xor a b) ≡ xor_digit (bit_at i a) (bit_at i b)
bit_at-xor zero a b = omega (arith, bit_xor_halves a b)
bit_at-xor (suc i) a b = ap (bit_at i) halves ∙ bit_at-xor i (a / 2) (b / 2)
  where
    halves : bit_xor a b / 2 ≡ bit_xor (a / 2) (b / 2)
    halves = omega (arith, bit_xor_halves a b)

pub bit_at-or : (i a b : ℕ) → bit_at i (bit_or a b) ≡ max (bit_at i a) (bit_at i b)
bit_at-or zero a b = omega (arith, bit_or_halves a b)
bit_at-or (suc i) a b = ap (bit_at i) halves ∙ bit_at-or i (a / 2) (b / 2)
  where
    halves : bit_or a b / 2 ≡ bit_or (a / 2) (b / 2)
    halves = omega (arith, bit_or_halves a b)

pub bit_at-zero : (i : ℕ) → bit_at i 0 ≡ 0
bit_at-zero zero = refl
bit_at-zero (suc i) = bit_at-zero i

half_pow : (j : ℕ) → 2 ^ suc j / 2 ≡ 2 ^ j
half_pow j = omega (arith, pow-suc 2 j)

-- `1u << j` has bit `j` and no other.
pub bit_at-pow : (i j : ℕ) → bit_at i (2 ^ j) ≡ (if i == j then 1 else 0)
bit_at-pow zero zero = refl
bit_at-pow zero (suc j) = ground (arith, pow-suc 2 j)
bit_at-pow (suc i) zero = ground (arith, bit_at-zero i)
bit_at-pow (suc i) (suc j) = ap (bit_at i) (half_pow j) ∙ ground (arith, bit_at-pow i j)

bit_and-zero : (n a : ℕ) → a ≤ n → bit_and a 0 ≡ 0
bit_and-zero n zero h = refl
bit_and-zero zero (suc a) h = absurd (omega arith)
bit_and-zero (suc n) (suc a) h =
    omega (arith, bit_and_halves (suc a) 0, bit_and-zero n (suc a / 2) (omega arith))

-- `m & (1u << i)` keeps bit `i` in its place.
pub bit_and-pow : (i m : ℕ) → bit_and m (2 ^ i) ≡ bit_at i m * 2 ^ i
bit_and-pow zero m = omega (arith, bit_and_halves m 1, bit_and-zero (m / 2) (m / 2) (omega arith))
bit_and-pow (suc i) m = omega (
  arith,
  bit_and_halves m (2 ^ suc i),
  ap (bit_and (m / 2)) (half_pow i),
  bit_and-pow i (m / 2),
  pow-suc 2 i,
  ap (λ (t : ℕ). bit_at i (m / 2) * t) (pow-suc 2 i),
)

xor_half : (a b : ℕ) → bit_xor a b / 2 ≡ bit_xor (a / 2) (b / 2)
xor_half a b = omega (arith, bit_xor_halves a b)

-- Masking twice with the same word gives the word back.
pub xor_xor : (n a m : ℕ) → a + m ≤ n → bit_xor (bit_xor a m) m ≡ a
xor_xor zero zero zero h = refl
xor_xor zero zero (suc m) h = absurd (omega arith)
xor_xor zero (suc a) m h = absurd (omega arith)
xor_xor (suc n) zero zero h = refl
xor_xor (suc n) zero (suc m) h = omega (
  arith,
  bit_xor_halves 0 (suc m),
  bit_xor_halves (bit_xor 0 (suc m)) (suc m),
  xor_xor n 0 (suc m / 2) (omega arith),
  ap (λ t. bit_xor t (suc m / 2)) (xor_half 0 (suc m)),
)
xor_xor (suc n) (suc a) m h = omega (
  arith,
  bit_xor_halves (suc a) m,
  bit_xor_halves (bit_xor (suc a) m) m,
  xor_xor n (suc a / 2) (m / 2) (omega arith),
  ap (λ t. bit_xor t (m / 2)) (xor_half (suc a) m),
)

-- The exclusive or of two words of `k` bits has `k` bits.
pub bit_xor-lt : (k a b : ℕ) → a < 2 ^ k → b < 2 ^ k → bit_xor a b < 2 ^ k
bit_xor-lt zero zero zero p q = omega arith
bit_xor-lt zero zero (suc b) p q = absurd (omega arith)
bit_xor-lt zero (suc a) b p q = absurd (omega arith)
bit_xor-lt (suc k) a b p q = omega (
  arith,
  pow-suc 2 k,
  bit_xor_halves a b,
  bit_xor-lt k (a / 2) (b / 2) (omega (arith, pow-suc 2 k)) (omega (arith, pow-suc 2 k)),
)
