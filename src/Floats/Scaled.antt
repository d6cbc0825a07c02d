-- ===== src/Floats/Scaled.antt =====
-- A `Floats` for tests and examples: integers that count ten-thousandths.
use edgeflow_energy_gateway.Common.{
  ℕ, ◌+◌, ◌*◌, ◌/◌, ◌%◌, ◌^◌, [], ◌∷◌, ◌++◌, arith, pos, negsuc, ℤ,
}
use edgeflow_energy_gateway.Common.Int.{◌+ℤ◌, ◌-ℤ◌, ◌*ℤ◌, ltb_ℤ, leb_ℤ}
use edgeflow_energy_gateway.Text.{CString, literal, print_ℕ}
use edgeflow_energy_gateway.Floats.{Floats, IsIeee}

abbrev scale_down : ℤ → ℤ
scale_down (pos n) = pos (n / 10000)
scale_down (negsuc n) = negsuc (n / 10000)

abbrev sign : ℤ → CString
sign (pos n) = []
sign (negsuc n) = literal "-"

abbrev magnitude : ℤ → ℕ
magnitude (pos n) = n
magnitude (negsuc n) = n + 1

-- Towards zero; a negative number is out of range.
abbrev whole : ℤ → ℕ
whole (pos n) = n / 10000
whole (negsuc n) = 0

abbrev drop_one : CString → CString
drop_one [] = []
drop_one (c ∷ s) = s

instance abbrev pub scaled : Floats
scaled = record {
  Double = ℤ;
  lt = ltb_ℤ;
  le = leb_ℤ;
  add = λ a b. ◌+ℤ◌ a b;
  sub = λ a b. ◌-ℤ◌ a b;
  mul = λ a b. scale_down (◌*ℤ◌ a b);
  neg = λ a. ◌-ℤ◌ (pos 0) a;
  of_ℕ = λ n. pos (n * 10000);
  decimal = λ m k. pos (m * 10000 / 10 ^ k);
  to_uint = λ w a. whole a % 2 ^ w;
  fixed4 = λ a.
      sign a
      ++ (print_ℕ (magnitude a / 10000)
          ++ (b'.' ∷ drop_one (print_ℕ (10000 + magnitude a % 10000))));
}

pub scaled-IsIeee : IsIeee scaled
scaled-IsIeee = record {
  lt_irrefl = λ a. ground arith;
  lt_asym = λ a b h. ground arith;
  zero-le-zero = ground arith;
  gt-not-le = λ a b h. ground arith;
  sub_pos = λ a b h. ground arith;
}
