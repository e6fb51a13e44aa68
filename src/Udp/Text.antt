-- ===== src/Udp/Text.antt =====
-- `String` of `Header` in pkg/udp/header.go.
use go_network.Base.{ℕ, List, [], ◌∷◌}
use go_network.Strings.{codes}
use go_network.Strings.Printf.{num, sprintf}
use go_network.Udp.Header.{Header}

unfoldable pub header_string : Header → List ℕ
unfolding sprintf
header_string h =
    sprintf (codes "\n\t\tSrc: %d,\n\t\tDst: %d,\n\t\tLen: %d,\n\t\tChecksum: %x,\n\t")
      (num h.src ∷ num h.dst ∷ num h.len ∷ num h.checksum ∷ [])
