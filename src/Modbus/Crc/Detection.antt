-- ===== src/Modbus/Crc/Detection.antt =====
-- What the check of a Modbus frame catches: a frame passes exactly if its checksum, with the two
-- bytes of the checksum included, is 0, so no change of one byte goes unnoticed.
use Prim.Native.Nat.{bit_xor}
use edgeflow_energy_gateway.Common.{
  ℕ, zero, suc, ◌+◌, ◌-◌, ◌*◌, ◌^◌, ◌<◌, ◌≤◌, ◌≡◌, ◌≢◌, ◌↔◌, refl, sym, ap, ◌∙◌, inl, inr,
  Bool-cases, true, false, List, [], ◌∷◌, ◌++◌, All, arith, length, take, get_or,
}
use edgeflow_energy_gateway.Common.Xor.{xor_comm, xor-shift, xor-xor, xor_self}
use edgeflow_energy_gateway.Modbus.Crc.{
  crc_bit, crc_bits, crc_byte, crc_from, modbus_crc16, received_crc, accepts_frame,
}
use edgeflow_energy_gateway.Modbus.Crc.Steps.{
  IsByte, crc_from-lt, crc_byte-lt, crc_byte_value-injective, crc_from-injective,
}

crc_bit-double : (m : ℕ) → crc_bit (m * 2) ≡ m
unfolding crc_bit
crc_bit-double m = ground arith

crc_bits-shift : (n m : ℕ) → crc_bits n (2 ^ n * m) ≡ m
unfolding crc_bits
crc_bits-shift zero m = omega arith
crc_bits-shift (suc n) m =
    ap (crc_bits n) (ap crc_bit (doubled n m) ∙ crc_bit-double (2 ^ n * m)) ∙ crc_bits-shift n m
  where
    doubled : (n m : ℕ) → 2 ^ suc n * m ≡ 2 ^ n * m * 2
    doubled n m = grind arith

-- A state followed by its own two bytes ends in 0.
residue : (lo hi : ℕ) → IsByte lo → IsByte hi → crc_from (lo + hi * 256) (lo ∷ hi ∷ []) ≡ 0
unfolding crc_from crc_byte
residue lo hi p q =
    ap (λ c. crc_bits 8 (bit_xor c hi)) (ap (crc_bits 8) cleared ∙ crc_bits-shift 8 hi)
    ∙ ap (crc_bits 8) (xor_self hi)
  where
    split : lo + hi * 256 ≡ bit_xor lo (2 ^ 8 * hi)
    split = omega (arith, xor-shift 8 lo hi p)

    cleared : bit_xor (lo + hi * 256) lo ≡ 2 ^ 8 * hi
    cleared = xor_comm (lo + hi * 256) lo ∙ ap (bit_xor lo) split ∙ xor-xor lo (2 ^ 8 * hi)

crc_from-append : (c : ℕ) (xs ys : List ℕ) → crc_from c (xs ++ ys) ≡ crc_from (crc_from c xs) ys
unfolding crc_from
crc_from-append c [] ys = refl
crc_from-append c (x ∷ xs) ys = crc_from-append (crc_byte c x) xs ys

-- The two last elements of a list, split off.
two_last_from :
    (r : List ℕ) (n : ℕ)
    → length r ≡ n + 2
    → r ≡ take n r ++ (get_or r n 0 ∷ get_or r (suc n) 0 ∷ [])
two_last_from [] n h = absurd (omega arith)
two_last_from (x ∷ []) n h = absurd (omega arith)
two_last_from (x ∷ y ∷ []) zero h = refl
two_last_from (x ∷ y ∷ z ∷ r) zero h = absurd (omega arith)
two_last_from (x ∷ y ∷ r) (suc n) h = ap (λ s. x ∷ s) (two_last_from (y ∷ r) n (omega arith))

two_last :
    (r : List ℕ)
    → 2 ≤ length r
    → r ≡ take (length r - 2) r ++ (get_or r (length r - 2) 0 ∷ get_or r (length r - 1) 0 ∷ [])
two_last r h =
    two_last_from r (length r - 2) (omega arith)
    ∙ ap (λ (i : ℕ). take (length r - 2) r ++ (get_or r (length r - 2) 0 ∷ get_or r i 0 ∷ []))
        (omega arith)

All-take : (n : ℕ) (xs : List ℕ) → All IsByte xs → All IsByte (take n xs)
All-take zero xs h = tt
All-take (suc n) [] h = tt
All-take (suc n) (x ∷ xs) h = (h.0, All-take n xs h.1)

get_or-IsByte : (xs : List ℕ) (i : ℕ) → All IsByte xs → IsByte (get_or xs i 0)
get_or-IsByte [] i h = omega arith
get_or-IsByte (x ∷ xs) zero h = h.0
get_or-IsByte (x ∷ xs) (suc i) h = get_or-IsByte xs i h.1

-- A checksum that fits the two last bytes leaves 0 behind them, and no other does.
crc_from-received :
    (r : List ℕ)
    → All IsByte r
    → 2 ≤ length r
    → (modbus_crc16 (take (length r - 2) r) ≡ received_crc r) ↔ (modbus_crc16 r ≡ 0)
unfolding modbus_crc16 received_crc
crc_from-received r bytes h = (
  (λ e. whole ∙ ap (λ c. crc_from c (lo ∷ hi ∷ [])) e ∙ residue lo hi lo-IsByte hi-IsByte),
  (λ e.
      crc_from-injective (lo ∷ hi ∷ []) state (lo + hi * 256)
        (crc_from-lt 0xffff body (omega arith) (All-take (length r - 2) r bytes))
        (omega (arith, lo-IsByte, hi-IsByte)) (lo-IsByte, (hi-IsByte, tt))
        (sym whole ∙ e ∙ sym (residue lo hi lo-IsByte hi-IsByte))),
)
  where
    body : List ℕ
    body = take (length r - 2) r

    lo : ℕ
    lo = get_or r (length r - 2) 0

    hi : ℕ
    hi = get_or r (length r - 1) 0

    state : ℕ
    state = crc_from 0xffff body

    lo-IsByte : IsByte lo
    lo-IsByte = get_or-IsByte r (length r - 2) bytes

    hi-IsByte : IsByte hi
    hi-IsByte = get_or-IsByte r (length r - 1) bytes

    whole : crc_from 0xffff r ≡ crc_from state (lo ∷ hi ∷ [])
    whole = ap (crc_from 0xffff) (two_last r h) ∙ crc_from-append 0xffff body (lo ∷ hi ∷ [])

-- A reply of bytes is accepted exactly if it has at least five of them and the checksum of all of
-- them, its own two bytes included, is 0.
pub accepts_frame-residue :
    (r : List ℕ) → All IsByte r → (accepts_frame r ≡ true) ↔ ((5 ≤ length r) × (modbus_crc16 r ≡ 0))
unfolding accepts_frame
accepts_frame-residue r bytes = (
  (λ e.
      let long : 5 ≤ length r = ground arith in
      (long, (crc_from-received r bytes (omega arith)).0 (ground arith))),
  (λ h. ground (arith, (crc_from-received r bytes (omega (arith, h.0))).1 h.1)),
)

All-append : (xs ys : List ℕ) → All IsByte (xs ++ ys) → All IsByte xs × All IsByte ys
All-append [] ys h = (tt, h)
All-append (x ∷ xs) ys h = let (left, right) = All-append xs ys h.1 in ((h.0, left), right)

-- Two byte sequences that differ in one byte have different checksums.
pub modbus_crc16-one_byte :
    (before after : List ℕ) (a b : ℕ)
    → All IsByte before
    → All IsByte after
    → IsByte a
    → IsByte b
    → modbus_crc16 (before ++ (a ∷ after)) ≡ modbus_crc16 (before ++ (b ∷ after))
    → a ≡ b
unfolding modbus_crc16 crc_from
modbus_crc16-one_byte before after a b k l p q e = crc_byte_value-injective state a b state-lt p q (
    crc_from-injective after (crc_byte state a) (crc_byte state b) (crc_byte-lt state a state-lt p)
      (crc_byte-lt state b state-lt q) l
      (sym (crc_from-append 0xffff before (a ∷ after))
        ∙ e
        ∙ crc_from-append 0xffff before (b ∷ after)))
  where
    state : ℕ
    state = crc_from 0xffff before

    state-lt : state < 2 ^ 16
    state-lt = crc_from-lt 0xffff before (omega arith) k

-- No change of one byte of an accepted reply goes unnoticed, be it in the data or in the checksum.
pub accepts_frame-one_byte :
    (before after : List ℕ) (a b : ℕ)
    → All IsByte (before ++ (a ∷ after))
    → IsByte b
    → a ≢ b
    → accepts_frame (before ++ (a ∷ after)) ≡ true
    → accepts_frame (before ++ (b ∷ after)) ≡ false
accepts_frame-one_byte before after a b bytes q differ good =
    elim (Bool-cases (accepts_frame (before ++ (b ∷ after)))) [
      | inr refused ↦ refused
      | inl passed ↦ absurd (
          differ (
            modbus_crc16-one_byte before after a b k l p q (
              ((accepts_frame-residue (before ++ (a ∷ after)) bytes).0 good).1
              ∙ sym ((accepts_frame-residue (before ++ (b ∷ after)) (join before k)).0 passed).1)))
    ]
  where
    k : All IsByte before
    k = (All-append before (a ∷ after) bytes).0

    p : IsByte a
    p = (All-append before (a ∷ after) bytes).1.0

    l : All IsByte after
    l = (All-append before (a ∷ after) bytes).1.1

    join : (xs : List ℕ) → All IsByte xs → All IsByte (xs ++ (b ∷ after))
    join [] h = (q, l)
    join (x ∷ xs) h = (h.0, join xs h.1)
