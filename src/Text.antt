-- ===== src/Text.antt =====
-- C strings as the list of their bytes, without the terminating NUL, and the fixed buffers that
-- hold them (`copy_string` of model/device_model.c and of platform/config.c).
use Prim.Native.Char.{code}
use Prim.Native.String.{String}
use edgeflow_energy_gateway.Common.{
  ℕ, zero, suc, ltb, if◌then◌else◌, ◌+◌, ◌/◌, ◌%◌, ◌++◌, ◌-◌, ◌<◌, ◌≡◌, refl, Bool, true, false,
  ◌&&◌, Option, none, some, List, [], ◌∷◌, ◌==◌, length, take, length-take, take_of_le, arith,
}

abbrev pub CString : Type 0
CString = List ℕ

-- A string literal.
abbrev pub literal : String → CString
literal String.[] = []
literal (String.◌∷◌ c s) = code c ∷ literal s

-- `strcmp(a, b) == 0`
unfoldable pub str_eq : CString → CString → Bool
str_eq [] [] = true
str_eq (a ∷ s) (b ∷ t) = a == b && str_eq s t
str_eq _ _ = false

pub str_eq→eq : (s t : CString) → str_eq s t ≡ true → s ≡ t
unfolding str_eq
str_eq→eq [] [] h = refl
str_eq→eq [] (b ∷ t) h = ground arith
str_eq→eq (a ∷ s) [] h = ground arith
str_eq→eq (a ∷ s) (b ∷ t) h = ground (arith, str_eq→eq s t)

pub str_eq_refl : (s : CString) → str_eq s s ≡ true
unfolding str_eq
str_eq_refl [] = refl
str_eq_refl (a ∷ s) = ground (arith, str_eq_refl s)

-- `copy_string(dst, dst_len, src)`: what the buffer holds afterwards. `snprintf` writes at most
-- `dst_len - 1` bytes and the NUL; a NULL source counts as "".
unfoldable pub copy_string : ℕ → Option CString → CString
copy_string dst_len none = []
copy_string dst_len (some src) = take (dst_len - 1) src

-- The copy ends inside its buffer, NUL included.
pub length-copy_string : (n : ℕ) (src : Option CString) → 0 < n → length (copy_string n src) < n
unfolding copy_string
length-copy_string n none h = omega arith
length-copy_string n (some s) h = omega (arith, length-take (n - 1) s)

-- What fits is copied whole.
pub copy_string_of_fits : (n : ℕ) (src : CString) → length src < n → copy_string n (some src) ≡ src
unfolding copy_string
copy_string_of_fits n s h = take_of_le (n - 1) s (omega arith)

-- The digits of a number, by `printf`'s "%llu" and "%u"; twenty are enough for 64 bits.
unfoldable pub print_from : ℕ → ℕ → CString → CString
print_from zero n acc = acc
print_from (suc k) n acc =
    let acc' = (48 + n % 10) ∷ acc in
    let rest = print_from k (n / 10) acc' in if ltb n 10 then acc' else rest

unfoldable pub print_ℕ : ℕ → CString
unfolding print_from
print_ℕ n = print_from 20 n []

abbrev pub concat : List CString → CString
concat [] = []
concat (s ∷ ss) = s ++ concat ss

print_1805 : print_ℕ 1805 ≡ literal "1805"
unfolding print_ℕ
print_1805 = refl
