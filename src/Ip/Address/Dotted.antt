-- ===== src/Ip/Address/Dotted.antt =====
-- What Str2Addr of pkg/ip/utils.go reads from numbers with dots between them.
use go_network.Base.{
  ℕ, true, false, suc, ◌+◌, ◌-◌, ◌*◌, ◌/◌, ◌%◌, ◌^◌, ◌≤◌, ◌≡◌, refl, ap, ◌∙◌, arith, List, [], ◌∷◌,
  ◌++◌, map, ltb, All, IsU32, inl,
}
use go_network.Errors.{Result, ok, panic}
use go_network.Strings.{split, format, int_max}
use go_network.Strings.Decimal.{
  atoi-format, format-IsDigit, digits-Lacks, split-append, split_last, Lacks,
}
use go_network.Ip.Address.{addr_loop, str2addr, addr_string}

-- The numbers n and ns with dots between them.
abbrev pub dotted : ℕ → List ℕ → List ℕ
dotted n [] = format n
dotted n (m ∷ ns) = format n ++ (b'.' ∷ dotted m ns)

format-Lacks : (n : ℕ) → Lacks b'.' (format n)
format-Lacks n = digits-Lacks b'.' (format n) (inl (omega arith)) (format-IsDigit n)

split-dotted : (n : ℕ) (ns : List ℕ) → split b'.' (dotted n ns) ≡ map format (n ∷ ns)
split-dotted n [] = split_last b'.' (format n) (format-Lacks n)
split-dotted n (m ∷ ns) =
    split-append b'.' (format n) (dotted m ns) (format-Lacks n)
    ∙ ap (◌∷◌ (format n)) (split-dotted m ns)

-- The address of at most four numbers, each of which counts modulo 256; more numbers panic.
abbrev pub address_of : ℕ → ℕ → List ℕ → Result ℕ
address_of i b [] = ok b
address_of i b (n ∷ ns) = elim (ltb 3 i) [
  | true ↦ panic
  | false ↦ address_of (suc i) (b + n % 256 * 2 ^ (24 - 8 * i)) ns
]

addr_loop-map :
    (i b : ℕ) (ns : List ℕ)
    → All (λ n. n ≤ int_max) ns
    → addr_loop i b (map format ns) ≡ address_of i b ns
unfolding addr_loop
addr_loop-map i b [] h = refl
addr_loop-map i b (n ∷ ns) h =
    rw (addr_loop, atoi-format n h.0)
      (ground (arith, addr_loop-map (suc i) (b + n % 256 * 2 ^ (24 - 8 * i)) ns h.1))

-- Numbers with dots between them, of any count and size: up to four fill the bytes from the highest on,
-- each modulo 256 and with zeros for those that are missing; with a fifth the code panics.
pub str2addr-dotted :
    (n : ℕ) (ns : List ℕ)
    → All (λ k. k ≤ int_max) (n ∷ ns)
    → str2addr (dotted n ns) ≡ address_of 0 0 (n ∷ ns)
unfolding str2addr
str2addr-dotted n ns h = ap (addr_loop 0 0) (split-dotted n ns) ∙ addr_loop-map 0 0 (n ∷ ns) h

-- The text of an address is read back as the address.
pub str2addr-addr_string : (a : ℕ) → IsU32 a → str2addr (addr_string a) ≡ ok a
unfolding addr_string
str2addr-addr_string a h =
    str2addr-dotted (a / 16777216 % 256) (a / 65536 % 256 ∷ a / 256 % 256 ∷ a % 256 ∷ [])
      (omega arith, (omega arith, (omega arith, (omega arith, tt))))
    ∙ ap ok (omega arith)
