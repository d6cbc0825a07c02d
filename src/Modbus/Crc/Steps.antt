-- ===== src/Modbus/Crc/Steps.antt =====
-- One step of the checksum loses nothing: it is injective on 16-bit states.
use Prim.Native.Nat.{bit_xor}
use edgeflow_energy_gateway.Common.{
  ℕ, zero, suc, ◌/◌, ◌%◌, ◌^◌, ◌<◌, ◌≤◌, ◌≡◌, sym, ◌∙◌, inl, inr, Bool-cases, List, [], ◌∷◌, All,
  ◌==◌, arith,
}
use edgeflow_energy_gateway.Common.Xor.{xor_cancel, xor_comm, xor-lt, xor-top}
use edgeflow_energy_gateway.Modbus.Crc.{crc_bit, crc_bits, crc_byte, crc_from}

abbrev pub IsByte : ℕ → Type 0
IsByte b = b < 256

-- The two branches leave bit 15 as bit 0 was.
crc_bit-even : (c : ℕ) → c < 2 ^ 16 → c % 2 ≡ 0 → (crc_bit c ≡ c / 2) × (crc_bit c < 2 ^ 15)
unfolding crc_bit
crc_bit-even c h e = ground arith

crc_bit-odd :
    (c : ℕ)
    → c < 2 ^ 16
    → c % 2 ≡ 1
    → (crc_bit c ≡ bit_xor (c / 2) 0xa001) × (2 ^ 15 ≤ crc_bit c) × (crc_bit c < 2 ^ 16)
unfolding crc_bit
crc_bit-odd c h e = ground (
  arith,
  xor-top 15 (c / 2) 0xa001 (omega arith) (omega arith),
  xor-lt 16 (c / 2) 0xa001 (omega arith) (omega arith),
)

pub crc_bit-lt : (c : ℕ) → c < 2 ^ 16 → crc_bit c < 2 ^ 16
crc_bit-lt c h = elim (Bool-cases (c % 2 == 0)) [
  | inl even ↦ omega (arith, crc_bit-even c h (ground arith))
  | inr odd ↦ omega (arith, crc_bit-odd c h (ground arith))
]

pub crc_bit-injective : (c d : ℕ) → c < 2 ^ 16 → d < 2 ^ 16 → crc_bit c ≡ crc_bit d → c ≡ d
crc_bit-injective c d p q e = elim (Bool-cases (c % 2 == 0)) [
  | inl even ↦ elim (Bool-cases (d % 2 == 0)) [
    | inl even' ↦ ground (arith, crc_bit-even c p (ground arith), crc_bit-even d q (ground arith))
    | inr odd' ↦
        absurd (omega (arith, crc_bit-even c p (ground arith), crc_bit-odd d q (ground arith), e))
  ]
  | inr odd ↦ elim (Bool-cases (d % 2 == 0)) [
    | inl even' ↦
        absurd (omega (arith, crc_bit-odd c p (ground arith), crc_bit-even d q (ground arith), e))
    | inr odd' ↦
        let c' = crc_bit-odd c p (ground arith) in
        let d' = crc_bit-odd d q (ground arith) in
        let halves =
          xor_cancel 0xa001 (c / 2) (d / 2)
            (xor_comm 0xa001 (c / 2) ∙ sym c'.0 ∙ e ∙ d'.0 ∙ xor_comm (d / 2) 0xa001) in
        ground (arith, halves)
  ]
]

pub crc_bits-lt : (n c : ℕ) → c < 2 ^ 16 → crc_bits n c < 2 ^ 16
unfolding crc_bits
crc_bits-lt zero c h = h
crc_bits-lt (suc n) c h = crc_bits-lt n (crc_bit c) (crc_bit-lt c h)

crc_bits-injective : (n c d : ℕ) → c < 2 ^ 16 → d < 2 ^ 16 → crc_bits n c ≡ crc_bits n d → c ≡ d
unfolding crc_bits
crc_bits-injective zero c d p q e = e
crc_bits-injective (suc n) c d p q e =
    crc_bit-injective c d p q
      (crc_bits-injective n (crc_bit c) (crc_bit d) (crc_bit-lt c p) (crc_bit-lt d q) e)

xor_byte-lt : (c b : ℕ) → c < 2 ^ 16 → IsByte b → bit_xor c b < 2 ^ 16
xor_byte-lt c b h k = xor-lt 16 c b h (omega arith)

pub crc_byte-lt : (c b : ℕ) → c < 2 ^ 16 → IsByte b → crc_byte c b < 2 ^ 16
unfolding crc_byte
crc_byte-lt c b h k = crc_bits-lt 8 (bit_xor c b) (xor_byte-lt c b h k)

-- In the state,
pub crc_byte-injective :
    (c d b : ℕ) → c < 2 ^ 16 → d < 2 ^ 16 → IsByte b → crc_byte c b ≡ crc_byte d b → c ≡ d
unfolding crc_byte
crc_byte-injective c d b p q k e = xor_cancel b c d (
    xor_comm b c
    ∙ crc_bits-injective 8 (bit_xor c b) (bit_xor d b) (xor_byte-lt c b p k) (xor_byte-lt d b q k) e
    ∙ xor_comm d b)

-- and in the byte.
pub crc_byte_value-injective :
    (c a b : ℕ) → c < 2 ^ 16 → IsByte a → IsByte b → crc_byte c a ≡ crc_byte c b → a ≡ b
unfolding crc_byte
crc_byte_value-injective c a b p j k e =
    xor_cancel c a b (
      crc_bits-injective 8 (bit_xor c a) (bit_xor c b) (xor_byte-lt c a p j) (xor_byte-lt c b p k)
        e)

pub crc_from-lt : (c : ℕ) (bs : List ℕ) → c < 2 ^ 16 → All IsByte bs → crc_from c bs < 2 ^ 16
unfolding crc_from
crc_from-lt c [] h k = h
crc_from-lt c (b ∷ bs) h k = crc_from-lt (crc_byte c b) bs (crc_byte-lt c b h k.0) k.1

pub crc_from-injective :
    (bs : List ℕ) (c d : ℕ)
    → c < 2 ^ 16
    → d < 2 ^ 16
    → All IsByte bs
    → crc_from c bs ≡ crc_from d bs
    → c ≡ d
unfolding crc_from
crc_from-injective [] c d p q k e = e
crc_from-injective (b ∷ bs) c d p q k e = crc_byte-injective c d b p q k.0 (
    crc_from-injective bs (crc_byte c b) (crc_byte d b) (crc_byte-lt c b p k.0)
      (crc_byte-lt d b q k.0) k.1 e)
