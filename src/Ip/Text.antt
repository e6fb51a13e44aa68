-- ===== src/Ip/Text.antt =====
-- `String` of `Header` in pkg/ip/header.go.
use go_network.Base.{ℕ, ◌*◌, ◌/◌, ◌%◌, List, [], ◌∷◌}
use go_network.Strings.{codes}
use go_network.Strings.Printf.{num, text, sprintf}
use go_network.Ip.Address.{addr_string}
use go_network.Ip.ProtoType.{proto_type_string}
use go_network.Ip.Header.{Header}

abbrev pub header_format : List ℕ
header_format =
    codes
      "\n\t\tVersion: %d,\n\t\tHeader Length: %d,\n\t\tTotal Length: %d,\n\t\tTos: %d,\n\t\tId: %d,\n\t\tFlags: %x,\n\t\tFragment Offset: %d,\n\t\tTTL: %d,\n\t\tProtocolType: %s,\n\t\tChecksum: %x,\n\t\tSrc: %s,\n\t\tDst: %s,\n\t"

-- `h.Vhl&0xf<<2` is `(h.Vhl&0xf)<<2` in Go, and `h.Flags&0x1fff` keeps the low 13 bits.
unfoldable pub header_string : Header → List ℕ
unfolding sprintf proto_type_string addr_string
header_string h = sprintf header_format (
    num (h.vhl / 16)
    ∷ num (h.vhl % 16 * 4)
    ∷ num h.tol
    ∷ num h.tos
    ∷ num h.id
    ∷ num (h.flags / 8192)
    ∷ num (h.flags % 8192)
    ∷ num h.ttl
    ∷ text (proto_type_string h.proto_type)
    ∷ num h.checksum
    ∷ text (addr_string h.src)
    ∷ text (addr_string h.dst)
    ∷ [])
