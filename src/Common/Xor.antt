-- ===== src/Common/Xor.antt =====
-- Exclusive or on the native numbers: its recursion on binary digits, and what follows from that.
use Prim.Native.Nat.{
  ℕ, zero, suc, ◌+◌, ◌*◌, ◌/◌, ◌%◌, ◌^◌, ◌≤◌, ◌<◌, bit_xor, digits, differ, bit_xor-bitwise,
}
use mathlib.Core.Path.{◌≡◌, refl, sym, ap, ◌∙◌}
use native.Mathlib.Omega.{arith}

-- The native operation with its count of digits set free.
abbrev xor_from : ℕ → ℕ → ℕ → ℕ
xor_from n a b = digits (λ y. y) differ n a b

xor_from-enough : (n k a b : ℕ) → a ≤ n → a ≤ k → xor_from n a b ≡ xor_from k a b
xor_from-enough zero zero a b p q = refl
xor_from-enough zero (suc k) zero b p q = refl
xor_from-enough zero (suc k) (suc a) b p q = absurd (omega arith)
xor_from-enough (suc n) zero zero b p q = refl
xor_from-enough (suc n) zero (suc a) b p q = absurd (omega arith)
xor_from-enough (suc n) (suc k) zero b p q = refl
xor_from-enough (suc n) (suc k) (suc a) b p q =
    omega (arith, xor_from-enough n k (suc a / 2) (b / 2) (omega arith) (omega arith))

zero-xor : (b : ℕ) → bit_xor 0 b ≡ b
zero-xor b = bit_xor-bitwise 0 b

differ-bits : (x y : ℕ) → x < 2 → y < 2 → differ x y ≡ (x + y) % 2
differ-bits zero y p q = omega arith
differ-bits (suc zero) zero p q = refl
differ-bits (suc zero) (suc zero) p q = refl
differ-bits (suc zero) (suc (suc y)) p q = absurd (omega arith)
differ-bits (suc (suc x)) y p q = absurd (omega arith)

-- The lowest bit, and the others.
pub xor_unfold : (a b : ℕ) → bit_xor a b ≡ bit_xor (a / 2) (b / 2) * 2 + (a + b) % 2
xor_unfold zero b = omega (arith, zero-xor b, zero-xor (b / 2))
xor_unfold (suc a) b = omega (
  arith,
  bit_xor-bitwise (suc a) b,
  bit_xor-bitwise (suc a / 2) (b / 2),
  xor_from-enough a (suc a / 2) (suc a / 2) (b / 2) (omega arith) (omega arith),
  differ-bits (suc a % 2) (b % 2) (omega arith) (omega arith),
)

xor-xor_from : (n a b : ℕ) → a ≤ n → bit_xor a (bit_xor a b) ≡ b
xor-xor_from n zero b h = omega (arith, zero-xor b, zero-xor (bit_xor 0 b))
xor-xor_from zero (suc a) b h = absurd (omega arith)
xor-xor_from (suc n) (suc a) b h =
    let half = suc a / 2 in
    let inner = bit_xor half (b / 2) in
    omega (
      arith,
      xor_unfold (suc a) b,
      xor_unfold (suc a) (bit_xor (suc a) b),
      ap (bit_xor half) (halved (suc a) b),
      xor-xor_from n half (b / 2) (omega arith),
    )
  where
    halved : (a b : ℕ) → bit_xor a b / 2 ≡ bit_xor (a / 2) (b / 2)
    halved a b = omega (arith, xor_unfold a b)

-- Twice the same is nothing.
pub xor-xor : (a b : ℕ) → bit_xor a (bit_xor a b) ≡ b
xor-xor a b = xor-xor_from a a b (omega arith)

pub xor_cancel : (a b c : ℕ) → bit_xor a b ≡ bit_xor a c → b ≡ c
xor_cancel a b c h = sym (xor-xor a b) ∙ ap (bit_xor a) h ∙ xor-xor a c

xor_comm_from : (n a b : ℕ) → a ≤ n → b ≤ n → bit_xor a b ≡ bit_xor b a
xor_comm_from zero zero zero p q = refl
xor_comm_from zero zero (suc b) p q = absurd (omega arith)
xor_comm_from zero (suc a) b p q = absurd (omega arith)
xor_comm_from (suc n) a b p q = omega (
  arith,
  xor_unfold a b,
  xor_unfold b a,
  xor_comm_from n (a / 2) (b / 2) (omega arith) (omega arith),
)

pub xor_comm : (a b : ℕ) → bit_xor a b ≡ bit_xor b a
xor_comm a b = xor_comm_from (a + b) a b (omega arith) (omega arith)

pub xor-lt : (k a b : ℕ) → a < 2 ^ k → b < 2 ^ k → bit_xor a b < 2 ^ k
xor-lt zero zero zero p q = omega (arith, zero-xor 0)
xor-lt zero zero (suc b) p q = absurd (omega arith)
xor-lt zero (suc a) b p q = absurd (omega arith)
xor-lt (suc k) a b p q =
    omega (arith, xor_unfold a b, xor-lt k (a / 2) (b / 2) (omega arith) (omega arith))

-- Bit k of the second number survives where the first is below 2 ^ k.
pub xor-top : (k a b : ℕ) → a < 2 ^ k → 2 ^ k ≤ b → 2 ^ k ≤ bit_xor a b
xor-top zero zero b p q = omega (arith, zero-xor b)
xor-top zero (suc a) b p q = absurd (omega arith)
xor-top (suc k) a b p q =
    omega (arith, xor_unfold a b, xor-top k (a / 2) (b / 2) (omega arith) (omega arith))

double_power : (k m : ℕ) → 2 ^ suc k * m ≡ 2 ^ k * m * 2
double_power k m = grind arith

-- Numbers without a common bit are added.
pub xor-shift : (k a m : ℕ) → a < 2 ^ k → bit_xor a (2 ^ k * m) ≡ a + 2 ^ k * m
xor-shift zero zero m h = omega (arith, zero-xor (2 ^ 0 * m))
xor-shift zero (suc a) m h = absurd (omega arith)
xor-shift (suc k) a m h = rw (double_power k m) (
    omega (
      arith,
      xor_unfold a (2 ^ k * m * 2),
      ap (bit_xor (a / 2)) halved,
      xor-shift k (a / 2) m (omega arith),
    ))
  where
    halved : 2 ^ k * m * 2 / 2 ≡ 2 ^ k * m
    halved = omega arith

pub xor_self : (a : ℕ) → bit_xor a a ≡ 0
xor_self a = ap (bit_xor a) (sym (xor_comm a 0 ∙ zero-xor a)) ∙ xor-xor a 0
