-- ===== src/Utils/Tests.antt =====
-- Runs of pkg/utils, and its theorems at concrete inputs.
use go_network.Base.{ℕ, ◌+◌, ◌-◌, ◌≡◌, refl, arith, List, [], ◌∷◌, ◌++◌}
use go_network.Utils.{max, hton16, hton32, ntoh16, ntoh32, check_sum}
use go_network.Utils.Checksum.{word_sum, check_sum-ones_sum, ones_sum}

-- An IP header with its checksum field, the bytes 10 and 11, zero.
abbrev front : List ℕ
front = 0x45 ∷ 0 ∷ 0 ∷ 23 ∷ 0 ∷ 1 ∷ 0 ∷ 0 ∷ 64 ∷ 1 ∷ []

abbrev back : List ℕ
back = 127 ∷ 0 ∷ 0 ∷ 1 ∷ 8 ∷ 8 ∷ 8 ∷ 8 ∷ []

header_checksum : check_sum (front ++ (0 ∷ 0 ∷ back)) 0 ≡ 0xebd4
unfolding check_sum
header_checksum = refl

odd_length : check_sum (1 ∷ 2 ∷ 3 ∷ []) 0 ≡ 0xfbfd
unfolding check_sum
odd_length = refl

byte_orders :
    (hton16 0x1234 ≡ 0x12 ∷ 0x34 ∷ [])
    × (ntoh16 (hton16 0x1234) ≡ 0x3412)
    × (hton32 0x12345678 ≡ 0x12 ∷ 0x34 ∷ 0x56 ∷ 0x78 ∷ [])
    × (ntoh32 0x12345678 ≡ 0x78563412)
    × (max 3 9 ≡ 9)
unfolding hton16 ntoh16 hton32 ntoh32 max
byte_orders = (refl, refl, refl, refl, refl)

check_sum-ones_sum_example :
    check_sum (1 ∷ 2 ∷ 3 ∷ []) 7 ≡ 65535 - ones_sum (7 + word_sum (1 ∷ 2 ∷ 3 ∷ []))
check_sum-ones_sum_example = check_sum-ones_sum (1 ∷ 2 ∷ 3 ∷ []) 7 (unfold word_sum in omega arith)
