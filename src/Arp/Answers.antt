-- ===== src/Arp/Answers.antt =====
-- What RxHandler of pkg/arp/protocol.go sends, and when its loop ends.
use go_network.Base.{
  ℕ, ◌≡◌, ◌==◌, ==_iff, refl, ap, ◌∙◌, arith, List, [], ◌∷◌, Option, some, Bool, true, false,
}
use go_network.Errors.{ok}
use go_network.Device.EtherAddr.{EtherAddr}
use go_network.Arp.Cache.{cache_update}
use go_network.Arp.Learning.{header_of_valid, rx_header_other}
use go_network.Arp.Header.{ArpEther, data2header, header2data, arp_op_request, arp_op_reply}
use go_network.Arp.Protocol.{
  Arp, Frame, ArpIface, packet, reply, accept, rx_header, rx_packet, rx_handler,
}

-- The reply to a packet, and the frame that carries it.
unfoldable pub answer : ArpIface → EtherAddr → ArpEther → Frame
answer iface own hdr = record {
  bytes = header2data (packet arp_op_reply own iface.unicast hdr.sha hdr.spa);
  dst = hdr.sha;
}

accept_answers :
    (now : ℕ) (iface : ArpIface) (own : EtherAddr) (hdr : ArpEther) (merge : Bool) (a : Arp)
    → iface.ether ≡ some own
    → ((accept now iface hdr merge a).frames ≡ elim (hdr.op == arp_op_request) [
      | true ↦ answer iface own hdr ∷ a.frames
      | false ↦ a.frames
    ])
      × ((accept now iface hdr merge a).running ≡ a.running)
unfolding accept reply answer
accept_answers now iface own hdr merge a ether = ground arith

rx_header_answers :
    (now : ℕ) (iface : ArpIface) (own : EtherAddr) (hdr : ArpEther) (a : Arp)
    → iface.unicast ≡ hdr.tpa
    → iface.ether ≡ some own
    → ((rx_header now (some iface) hdr a).frames ≡ elim (hdr.op == arp_op_request) [
      | true ↦ answer iface own hdr ∷ a.frames
      | false ↦ a.frames
    ])
      × ((rx_header now (some iface) hdr a).running ≡ a.running)
unfolding rx_header
rx_header_answers now iface own hdr a ours ether =
    let e : (iface.unicast == hdr.tpa) ≡ true = (==_iff iface.unicast hdr.tpa).1 ours in
    let (updated, merge) = cache_update now hdr.spa hdr.sha a.caches in
    rw (rx_header, e) (accept_answers now iface own hdr merge (record a { caches = updated }) ether)

-- A valid packet for this host is answered by exactly one reply to its sender if it is a request, and
-- by nothing otherwise; the loop goes on.
pub rx_packet_answers :
    (now : ℕ) (iface : ArpIface) (own : EtherAddr) (bytes : List ℕ) (hdr : ArpEther) (a : Arp)
    → data2header bytes ≡ ok hdr
    → iface.unicast ≡ hdr.tpa
    → iface.ether ≡ some own
    → ((rx_packet now (some iface) bytes a).frames ≡ elim (hdr.op == arp_op_request) [
      | true ↦ answer iface own hdr ∷ a.frames
      | false ↦ a.frames
    ])
      × ((rx_packet now (some iface) bytes a).running ≡ a.running)
unfolding rx_packet
rx_packet_answers now iface own bytes hdr a valid ours ether =
    rw (header_of_valid bytes hdr valid) (rx_header_answers now iface own hdr a ours ether)

stopped_lem :
    (packets : List (ℕ × Option ArpIface × List ℕ)) (a : Arp)
    → rx_handler packets (record a { running = false }) ≡ record a { running = false }
unfolding rx_handler
stopped_lem [] a = refl
stopped_lem (p ∷ packets) a = refl

-- A valid packet for another host ends the loop: it can refresh an entry, and whatever follows it in
-- the channel is never looked at.
pub rx_handler_stops :
    (now : ℕ) (iface : ArpIface) (bytes : List ℕ) (hdr : ArpEther)
    (packets : List (ℕ × Option ArpIface × List ℕ)) (a : Arp)
    → a.running ≡ true
    → data2header bytes ≡ ok hdr
    → (iface.unicast == hdr.tpa) ≡ false
    → rx_handler ((now, some iface, bytes) ∷ packets) a
      ≡ record a { caches = (cache_update now hdr.spa hdr.sha a.caches).0; running = false }
unfolding rx_packet rx_handler
rx_handler_stops now iface bytes hdr packets a runs valid other =
    let e : rx_packet now (some iface) bytes a
        ≡ record a { caches = (cache_update now hdr.spa hdr.sha a.caches).0; running = false } =
      ap (λ (h : ArpEther). rx_header now (some iface) h a) (header_of_valid bytes hdr valid)
      ∙ rx_header_other now iface hdr a other in
    rw (rx_handler, runs)
      (ap (rx_handler packets) e
        ∙ stopped_lem packets (record a { caches = (cache_update now hdr.spa hdr.sha a.caches).0 }))
