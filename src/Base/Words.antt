-- ===== src/Base/Words.antt =====
-- Machine words: Go's conversions uint8(n), uint16(n), uint32(n) keep the low bits, and the bytes of
-- a word in network order (encoding/binary's BigEndian).
use Prim.Native.Nat.{ℕ, zero, suc, min, bit_and, bit_and-bitwise, digits, ◌+◌, ◌*◌, ◌/◌, ◌%◌, ◌<◌}
use mathlib.Core.Path.{◌≡◌, refl, ◌∙◌}
use mathlib.Core.List.{List, [], ◌∷◌}
use native.Mathlib.Omega.{arith}

abbrev pub u8 : ℕ → ℕ
u8 n = n % 256

abbrev pub u16 : ℕ → ℕ
u16 n = n % 65536

abbrev pub u32 : ℕ → ℕ
u32 n = n % 4294967296

abbrev pub IsU8 : ℕ → Type 0
IsU8 n = n < 256

abbrev pub IsU16 : ℕ → Type 0
IsU16 n = n < 65536

abbrev pub IsU32 : ℕ → Type 0
IsU32 n = n < 4294967296

abbrev pub put_uint16 : ℕ → List ℕ
put_uint16 v = u8 (v / 256) ∷ u8 v ∷ []

abbrev pub put_uint32 : ℕ → List ℕ
put_uint32 v = u8 (v / 16777216) ∷ u8 (v / 65536) ∷ u8 (v / 256) ∷ u8 v ∷ []

abbrev pub read_uint16 : ℕ → ℕ → ℕ
read_uint16 a b = a * 256 + b

abbrev pub read_uint32 : ℕ → ℕ → ℕ → ℕ → ℕ
read_uint32 a b c d = a * 16777216 + b * 65536 + c * 256 + d

pub read_uint32-put :
    (v : ℕ) → IsU32 v → read_uint32 (u8 (v / 16777216)) (u8 (v / 65536)) (u8 (v / 256)) (u8 v) ≡ v
read_uint32-put v h = omega arith

digits-zero : (n a : ℕ) → digits (λ b. zero) min n a 0 ≡ 0
digits-zero zero a = refl
digits-zero (suc n) zero = refl
digits-zero (suc n) (suc a) = let rest = digits-zero n (suc a / 2) in omega (arith, rest)

-- The empty mask.
pub bit_and-zero : (a : ℕ) → bit_and a 0 ≡ 0
bit_and-zero a = bit_and-bitwise a 0 ∙ digits-zero a a
