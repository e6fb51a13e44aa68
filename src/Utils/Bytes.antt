-- ===== src/Utils/Bytes.antt =====
-- What the byte order conversions of pkg/utils/utils.go do to the bytes of a word.
use go_network.Base.{ℕ, ◌+◌, ◌*◌, ◌/◌, ◌%◌, ◌≡◌, arith, IsU16, IsU32}
use go_network.Utils.{hton16, ntoh16, ntoh32}

-- `Ntoh16` reads the bytes of `Hton16` in the other order: together they swap a word's two bytes, and
-- so does `Ntoh32` with four, which makes it its own inverse.
pub ntoh16-hton16 : (v : ℕ) → IsU16 v → ntoh16 (hton16 v) ≡ v % 256 * 256 + v / 256
unfolding ntoh16 hton16
ntoh16-hton16 v h = omega arith

pub ntoh32-ntoh32 : (v : ℕ) → IsU32 v → ntoh32 (ntoh32 v) ≡ v
unfolding ntoh32
ntoh32-ntoh32 v h = omega arith
