-- ===== src/Lan/FirstPacket.antt =====
-- ARP and IP together: the first packet for a host whose hardware address is not known, and the second.
use go_network.Base.{ℕ, ◌≡◌, refl, List, [], ◌∷◌, some, none, Bool-cases, inl, inr}
use go_network.Net.Protocol.{proto_type_arp, proto_type_ip}
use go_network.Device.EtherAddr.{ether_addr_broadcast}
use go_network.Device.Kinds.{FileEnv}
use go_network.Device.Transmission.{frame_of}
use go_network.Arp.Cache.{cache_select}
use go_network.Arp.Header.{ArpEther, arp_op_reply, header2data}
use go_network.Arp.Protocol.{Arp, packet}
use go_network.Arp.Protocol as ArpProtocol
use go_network.Ip.Iface.{Iface}
use go_network.Ip.Protocol.{generate_id, find_iface, is_for}
use go_network.Ip.Transfer.{tx_packet}
use go_network.Lan.{Host, set_below}
use go_network.Lan.Reading.{after_packet}
use go_network.Lan.Request.{IsHost}
use go_network.Lan.Exchange.{IsSendable, route_of, asked, question}

pub find_iface_only : (dst : ℕ) (i : Iface) → find_iface dst none (some i ∷ []) ≡ some i
unfolding find_iface
find_iface_only dst i = elim (Bool-cases (is_for dst i)) [
  | inl hit ↦ rw (find_iface, hit) refl
  | inr miss ↦ rw (find_iface, miss) refl
]

-- The host at another time.
abbrev pub at_time : {V : Type 0} → ℕ → Host V → Host V
at_time now h = set_below (record h.ip.world { now = now }) h

module _ {V : Type 0} ⦃env : FileEnv V⦄ where
  module _ (a b : Host V) (va : IsHost a) (vb : IsHost b) (network netmask nexthop : ℕ) (proto : ℕ)
      (bytes : List ℕ) (src dst hop : ℕ)
      (s : IsSendable a.iface a.ip.routes
        (route_of a.iface network netmask nexthop)
        bytes
        src
        dst
        hop)
      (unknown : cache_select hop a.ip.world.arp.caches ≡ none) (is_b : hop ≡ b.iface.unicast) where
    abbrev a1 : Host V
    a1 = asked a va network netmask nexthop proto bytes src dst hop s

    abbrev p1 : ArpEther
    p1 = question a va network netmask nexthop proto bytes src dst hop s

    abbrev frame1 : List ℕ
    frame1 = frame_of a.dev (header2data p1) proto_type_arp ether_addr_broadcast

    abbrev b1 : Host V
    b1 = after_packet frame1 (header2data p1) b

    abbrev p2 : ArpEther
    p2 = packet arp_op_reply b.dev.addr b.iface.unicast a.dev.addr a.iface.unicast

    abbrev frame2 : List ℕ
    frame2 = frame_of b.dev (header2data p2) proto_type_arp a.dev.addr

    abbrev a2 : Host V
    a2 = after_packet frame2 (header2data p2) a1

    abbrev id2 : ℕ
    id2 = generate_id (generate_id a.ip.id)

    abbrev packet3 : List ℕ
    packet3 = tx_packet proto bytes id2 dst a.iface

    abbrev frame3 : List ℕ
    frame3 = frame_of a.dev packet3 proto_type_ip b.dev.addr
