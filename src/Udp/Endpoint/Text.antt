-- ===== src/Udp/Endpoint/Text.antt =====
-- Str2Endpoint of pkg/udp/endpoint.go reads the text of an endpoint.
use go_network.Base.{
  ℕ, ◌≡◌, ◌∙◌, refl, ap, arith, List, [], ◌∷◌, ◌++◌, ◌/◌, ◌%◌, IsU16, IsU32, u16, inr,
}
use go_network.Errors.{ok}
use go_network.Strings.{format}
use go_network.Strings.Decimal.{
  atoi-format, format-IsDigit, digits-Lacks, split-append, split_last, Lacks,
}
use go_network.Ip.Address.{addr_string}
use go_network.Ip.Address.Dotted.{str2addr-addr_string}
use go_network.Udp.Endpoint.{Endpoint, endpoint_string, endpoint_of, with_port, str2endpoint}

Lacks-append : (sep : ℕ) (s t : List ℕ) → Lacks sep s → Lacks sep t → Lacks sep (s ++ t)
Lacks-append sep [] t h k = k
Lacks-append sep (c ∷ s) t h k = (h.0, Lacks-append sep s t h.1 k)

format-Lacks : (n : ℕ) → Lacks b':' (format n)
format-Lacks n = digits-Lacks b':' (format n) (inr (omega arith)) (format-IsDigit n)

-- A number with a dot behind it.
part-Lacks : (n : ℕ) (rest : List ℕ) → Lacks b':' rest → Lacks b':' (format n ++ (b'.' ∷ rest))
part-Lacks n rest h = Lacks-append b':' (format n) (b'.' ∷ rest) (format-Lacks n) (refl, h)

addr_string-Lacks : (a : ℕ) → Lacks b':' (addr_string a)
unfolding addr_string
addr_string-Lacks a =
    part-Lacks (a / 16777216 % 256) _
      (part-Lacks (a / 65536 % 256) _ (part-Lacks (a / 256 % 256) _ (format-Lacks (a % 256))))

with_port-format :
    (addr port : ℕ)
    → IsU16 port
    → with_port (ok addr) (format port) ≡ ok (record { addr = addr; port = port })
unfolding with_port
with_port-format addr port h =
    let e : u16 port ≡ port = omega (arith, h) in
    rw (with_port, atoi-format port (omega (arith, h)), e) refl

-- The text of an endpoint is read back as the endpoint.
pub str2endpoint-endpoint_string :
    (e : Endpoint) → IsU32 e.addr → IsU16 e.port → str2endpoint (endpoint_string e) ≡ ok e
unfolding str2endpoint endpoint_string
str2endpoint-endpoint_string e a p =
    ap endpoint_of (
      split-append b':' (addr_string e.addr) (format e.port) (addr_string-Lacks e.addr)
      ∙ ap (◌∷◌ (addr_string e.addr)) (split_last b':' (format e.port) (format-Lacks e.port)))
    ∙ ap (λ r. with_port r (format e.port)) (str2addr-addr_string e.addr a)
    ∙ with_port-format e.addr e.port p
