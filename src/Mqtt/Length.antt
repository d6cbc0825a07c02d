-- ===== src/Mqtt/Length.antt =====
-- The variable-length encoding of the remaining length (`mqtt_encode_remaining_length`,
-- egress/mqtt_session.c), against the decoding that MQTT 3.1.1, section 2.2.3, describes.
use Prim.Native.Nat.{bit_or}
use edgeflow_energy_gateway.Common.{
  ℕ, zero, suc, ◌+◌, ◌-◌, ◌*◌, ◌/◌, ◌%◌, ◌^◌, ◌≤◌, ◌<◌, ◌≡◌, refl, Bool, Bool-cases, inl, inr, true,
  false, Option, none, some, List, [], ◌∷◌, ◌++◌, length, ltb, ◌==◌, ==_iff, arith, if◌then◌else◌,
}

-- The bytes that the loop writes while `slots` of the four are left.
unfoldable pub encode_from : ℕ → ℕ → List ℕ
encode_from zero remaining = []
encode_from (suc slots) remaining =
    let byte = remaining % 128 in
    let rest = encode_from slots (remaining / 128) in
    if ltb 0 (remaining / 128) then bit_or byte 0x80 ∷ rest else byte ∷ []

unfoldable pub mqtt_encode_remaining_length : ℕ → List ℕ
unfolding encode_from
mqtt_encode_remaining_length remaining = encode_from 4 remaining

-- The decoding: at most `slots` bytes, seven bits each, the lowest first; a byte below 128 is the
-- last one. The value, and the bytes that follow.
unfoldable pub decode_from : ℕ → List ℕ → Option (ℕ × List ℕ)
decode_from zero bytes = none
decode_from (suc slots) [] = none
decode_from (suc slots) (b ∷ bytes) =
    let more = decode_from slots bytes in
    if ltb b 128
    then some (b, bytes)
    else elim more [ none ↦ none | some (v, rest) ↦ some (b - 128 + 128 * v, rest) ]

-- Whether setting bit 7 adds 128 to each of the first `n` numbers.
sets_bit : ℕ → Bool
sets_bit zero = true
sets_bit (suc n) = let before = sets_bit n in if bit_or n 0x80 == n + 128 then before else false

sets_bit→eq : (n b : ℕ) → sets_bit n ≡ true → b < n → bit_or b 0x80 ≡ b + 128
unfolding sets_bit
sets_bit→eq zero b h lt = absurd (omega arith)
sets_bit→eq (suc n) b h lt = elim (Bool-cases (b == n)) [
  | inl same ↦ ground (arith, ==_iff b n, ==_iff (bit_or n 0x80) (n + 128))
  | inr other ↦ ground (arith, ==_iff b n, sets_bit→eq n b)
]

-- The continuation bit of a group of seven bits.
pub continuation : (b : ℕ) → b < 128 → bit_or b 0x80 ≡ b + 128
unfolding sets_bit
continuation b h = sets_bit→eq 128 b refl h

decode-encode_from :
    (slots r : ℕ) (rest : List ℕ)
    → r < 128 ^ suc slots
    → decode_from (suc slots) (encode_from (suc slots) r ++ rest) ≡ some (r, rest)
unfolding encode_from decode_from
decode-encode_from zero r rest h = ground arith
decode-encode_from (suc slots) r rest h = ground (
  arith,
  continuation (r % 128) (omega arith),
  decode-encode_from slots (r / 128) rest (omega arith),
)

-- Every length below 2 ^ 28 is read back from its encoding, whatever follows it.
pub decode-encode :
    (remaining : ℕ) (rest : List ℕ)
    → remaining < 2 ^ 28
    → decode_from 4 (mqtt_encode_remaining_length remaining ++ rest) ≡ some (remaining, rest)
unfolding mqtt_encode_remaining_length
decode-encode remaining rest h = decode-encode_from 3 remaining rest (omega arith)

length-encode_from :
    (slots r : ℕ)
    → (1 ≤ length (encode_from (suc slots) r)) × (length (encode_from (suc slots) r) ≤ suc slots)
unfolding encode_from
length-encode_from zero r = ground arith
length-encode_from (suc slots) r = ground (arith, length-encode_from slots (r / 128))

-- The encoding of a length is one to four bytes.
pub length-encode :
    (r : ℕ)
    → (1 ≤ length (mqtt_encode_remaining_length r)) × (length (mqtt_encode_remaining_length r) ≤ 4)
unfolding mqtt_encode_remaining_length
length-encode r = length-encode_from 3 r

pub length-encode_small : (r : ℕ) → r < 2 ^ 14 → length (mqtt_encode_remaining_length r) ≤ 2
unfolding mqtt_encode_remaining_length encode_from
length-encode_small r h = ground arith
