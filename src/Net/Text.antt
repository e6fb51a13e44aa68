-- ===== src/Net/Text.antt =====
-- The names of pkg/net for the log: `String` of `ProtoType` in pkg/net/protocol.go and of `IfaceFamily`
-- in pkg/net/interface.go.
use go_network.Base.{ℕ, List, ◌==◌, if◌then◌else◌}
use go_network.Strings.{codes}
use go_network.Net.Device.{iface_family_ip}
use go_network.Net.Protocol.{proto_type_ip, proto_type_arp}

abbrev pub proto_type_ipv6 : ℕ
proto_type_ipv6 = 0x86dd

unfoldable pub proto_type_string : ℕ → List ℕ
proto_type_string pt =
    if pt == proto_type_ip
    then codes "IPv4"
    else if pt == proto_type_arp
    then codes "ARP"
    else if pt == proto_type_ipv6
    then codes "IPv6"
    else codes "UNKNOWN"

abbrev pub iface_family_ipv6 : ℕ
iface_family_ipv6 = 2

unfoldable pub iface_family_string : ℕ → List ℕ
iface_family_string f =
    if f == iface_family_ip
    then codes "IPv4"
    else if f == iface_family_ipv6
    then codes "IPv6"
    else codes "UNKNOWN"
