-- ===== src/Ip/Address.antt =====
-- pkg/ip/utils.go: Str2Addr, and the String method of Addr (pkg/ip/protocol.go).
pub mod Dotted
use go_network.Base.{
  ℕ, suc, ◌+◌, ◌-◌, ◌*◌, ◌/◌, ◌%◌, ◌^◌, List, [], ◌∷◌, ◌++◌, ltb, Option, none, some, Bool, true,
  false,
}
use go_network.Errors.{Result, ok, err, panic, atoi_syntax}
use go_network.Strings.{split, atoi, format}

-- The loop over the parts from index i. The shift count `24 - 8*i` is negative from the fifth part on,
-- and the shift panics. Each part sets a byte of its own, so `|=` adds.
unfoldable pub addr_loop : ℕ → ℕ → List (List ℕ) → Result ℕ
unfolding atoi
addr_loop i b [] = ok b
addr_loop i b (s ∷ strs) = elim (atoi s) [
  | none ↦ err atoi_syntax
  | some n ↦ elim (ltb 3 i) [
    | true ↦ panic
    | false ↦ addr_loop (suc i) (b + n % 256 * 2 ^ (24 - 8 * i)) strs
  ]
]

unfoldable pub str2addr : List ℕ → Result ℕ
unfolding split addr_loop
str2addr str = addr_loop 0 0 (split b'.' str)

-- `"%d.%d.%d.%d"` of the four bytes.
unfoldable pub addr_string : ℕ → List ℕ
unfolding format
addr_string a =
    format (a / 16777216 % 256)
    ++ (b'.'
        ∷ (format (a / 65536 % 256)
            ++ (b'.' ∷ (format (a / 256 % 256) ++ (b'.' ∷ format (a % 256))))))
