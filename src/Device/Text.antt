-- ===== src/Device/Text.antt =====
-- `String` of `EtherAddr` in pkg/device/ethernet_address.go and of `EtherHeader` in
-- pkg/device/ethernet.go.
use go_network.Base.{List, ℕ, [], ◌∷◌}
use go_network.Strings.{codes}
use go_network.Strings.Printf.{num, text, sprintf}
use go_network.Net.Text.{proto_type_string}
use go_network.Device.EtherAddr.{EtherAddr}
use go_network.Device.Frame.{EtherHeader}

unfoldable pub ether_addr_string : EtherAddr → List ℕ
unfolding sprintf
ether_addr_string a =
    sprintf (codes "%x:%x:%x:%x:%x:%x")
      (num a.a0 ∷ num a.a1 ∷ num a.a2 ∷ num a.a3 ∷ num a.a4 ∷ num a.a5 ∷ [])

unfoldable pub header_string : EtherHeader → List ℕ
unfolding sprintf ether_addr_string proto_type_string
header_string h = sprintf (codes "\n\t\tSrc: %s,\n\t\tDst: %s,\n\t\tType: %s\n\t") (
    text (ether_addr_string h.src)
    ∷ text (ether_addr_string h.dst)
    ∷ text (proto_type_string h.typ)
    ∷ [])
