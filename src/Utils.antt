-- ===== src/Utils.antt =====
-- pkg/utils/utils.go: Max, the byte order conversions and the internet checksum.
-- `a << k | b` over disjoint bits is written as a sum.
use go_network.Base.{
  ℕ, zero, suc, ◌+◌, ◌-◌, ◌*◌, ◌/◌, ◌%◌, List, [], ◌∷◌, ◌++◌, length, ltb, ◌==◌, if◌then◌else◌, u8,
  u16, u32, get_or,
}
pub mod Checksum
pub mod Bytes
mod Tests

unfoldable pub max : ℕ → ℕ → ℕ
max a b = if ltb b a then a else b

unfoldable pub hton16 : ℕ → List ℕ
hton16 v = u8 (v / 256) ∷ u8 v ∷ []

unfoldable pub ntoh16 : List ℕ → ℕ
ntoh16 b = u16 (get_or b 1 0 * 256) + get_or b 0 0

unfoldable pub hton32 : ℕ → List ℕ
hton32 v = u8 (v / 16777216) ∷ u8 (v / 65536) ∷ u8 (v / 256) ∷ u8 v ∷ []

-- `(v&0xff)<<24 | (v&0xff00)<<8 | (v&0xff0000)>>8 | (v >> 24)`.
unfoldable pub ntoh32 : ℕ → ℕ
ntoh32 v = v % 256 * 16777216 + v / 256 % 256 * 65536 + v / 65536 % 256 * 256 + v / 16777216

-- `if len(b)%2 == 1 { b = append(b, 0) }`.
unfoldable pub pad : List ℕ → List ℕ
pad b = if length b % 2 == 1 then b ++ (0 ∷ []) else b

-- The loop over the pairs of bytes; the length is even, so a last single byte does not occur.
unfoldable pub add_words : ℕ → List ℕ → ℕ
add_words ret [] = ret
add_words ret (a ∷ []) = ret
add_words ret (a ∷ b ∷ bs) = add_words (u32 (ret + (a * 256 + b))) bs

-- `for (ret >> 16) > 0 { ret = (ret & 0xffff) + uint32(ret>>16) }`, on fuel.
unfoldable pub fold_carries : ℕ → ℕ → ℕ
fold_carries zero ret = ret
fold_carries (suc fuel) ret =
    let rest = fold_carries fuel (u32 (ret % 65536 + ret / 65536)) in
    if ltb 0 (ret / 65536) then rest else ret

-- A uint32 is folded in two rounds.
abbrev pub fold_fuel : ℕ
fold_fuel = 3

-- `CheckSum`; the complement of a uint16 x is 65535 - x.
unfoldable pub check_sum : List ℕ → ℕ → ℕ
unfolding pad add_words fold_carries
check_sum b base = 65535 - u16 (fold_carries fold_fuel (add_words base (pad b)))
