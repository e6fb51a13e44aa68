-- ===== src/Ip/ProtoType.antt =====
-- The types of the upper protocols in pkg/ip/ip_protocol.go.
use go_network.Base.{ℕ, List, ◌==◌, if◌then◌else◌}
use go_network.Strings.{codes}

abbrev pub proto_icmp : ℕ
proto_icmp = 0x01

abbrev pub proto_tcp : ℕ
proto_tcp = 0x06

abbrev pub proto_udp : ℕ
proto_udp = 0x11

-- `String`, for the log.
unfoldable pub proto_type_string : ℕ → List ℕ
proto_type_string p =
    if p == proto_icmp
    then codes "ICMP"
    else if p == proto_tcp
    then codes "TCP"
    else if p == proto_udp
    then codes "UDP"
    else codes "UNKNOWN"
