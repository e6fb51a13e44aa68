-- ===== src/Lan.antt =====
-- Hosts on one Ethernet: pkg/ip, pkg/arp, pkg/net and pkg/device put together as pkg/setting.go does. The
-- resolver of IP is Resolve of pkg/arp, and what IP and ARP send goes through net.DeviceOutput.
pub mod Reading
pub mod Sending
pub mod Request
pub mod Exchange
pub mod FirstPacket
mod Tests
use go_network.Base.{ℕ, List, [], ◌∷◌, ◌++◌, Option, some, none, ◌⊎◌, inl, inr}
use go_network.Errors.{Error, Result, ok, err, panic, Outcome, returns, blocked, cache_not_found}
use go_network.Net.Device.{Line}
use go_network.Net.Protocol.{Proto, ProtoBuffer, receive, proto_type_ip, proto_type_arp}
use go_network.Net.Registry.{device_output}
use go_network.Device.EtherAddr.{EtherAddr}
use go_network.Device.Kinds.{Ether, ether, FileEnv, device_ops, ether_rx, slice_bytes}
use go_network.Arp.Protocol.{Arp, ArpIface, Frame, resolve, rx_packet as arp_rx_packet}
use go_network.Ip.Iface.{Iface}
use go_network.Ip.Protocol.{Ip, IpEnv, Delivery, tx_handler, rx_packet as ip_rx_packet}

-- What lies below IP in one host: the time, ARP, and the line of its device.
pub record Below (V : Type 0) : Type 0 where
  pub now : ℕ
  pub arp : Arp
  pub line : Line V

-- A host with one interface, on an Ethernet device. `uppers` are the types of the upper protocols, and
-- `delivered` the calls of their handlers, in order.
pub record Host (V : Type 0) : Type 0 where
  pub dev : Ether
  pub iface : Iface
  pub ip : Ip (Below V)
  pub uppers : List ℕ
  pub delivered : List Delivery

-- The number of the Ethernet device in the list of devices.
abbrev pub dev_ptr : ℕ
dev_ptr = 2

abbrev pub arp_iface : Ether → Iface → ArpIface
arp_iface e iface = record { unicast = iface.unicast; ether = some e.addr }

-- Resolve does not panic.
abbrev pub resolved_to : Result EtherAddr → EtherAddr ⊎ Error
resolved_to (ok a) = inl a
resolved_to (err e) = inr e
resolved_to panic = inr cache_not_found

-- A transmission on an Ethernet device does not block.
abbrev pub line_of : {V : Type 0} → Line V → Outcome (Line V × Option Error) → Line V × Option Error
line_of l (returns r) = r
line_of l blocked = (l, none)

abbrev pub set_below : {V : Type 0} → Below V → Host V → Host V
set_below w h = record h { ip = record h.ip { world = w } }

abbrev pub set_protos : {V : Type 0} → List Proto → Host V → Host V
set_protos ps h =
    let w = h.ip.world in set_below (record w { line = record w.line { protos = ps } }) h

module _ {V : Type 0} ⦃env : FileEnv V⦄ where
  -- net.DeviceOutput on the host's device.
  unfoldable pub put_on_line :
      Ether → ℕ → List ℕ → Option EtherAddr → Line V → Line V × Option Error
  unfolding device_output
  put_on_line e typ packet dst l =
      line_of l (device_output device_ops dev_ptr (ether e) packet typ dst l)

  -- The packets of ARP, the newest of which is the first. Their errors are only logged or dropped.
  unfoldable pub send_frames : Ether → List Frame → Line V → Line V
  unfolding put_on_line
  send_frames e [] l = l
  send_frames e (f ∷ fs) l =
      (put_on_line e proto_type_arp f.bytes (some f.dst) (send_frames e fs l)).0

  -- ARP has run: what it sent goes out.
  unfoldable pub after_arp : Ether → Arp → Below V → Below V
  unfolding send_frames
  after_arp e a w = record w {
    arp = record a { frames = [] };
    line = send_frames e a.frames w.line;
  }

  abbrev pub resolve_below : Ether → Iface → ℕ → Below V → Below V × (EtherAddr ⊎ Error)
  resolve_below e iface pa w =
      let (a, r) = resolve w.now (some (arp_iface e iface)) pa w.arp in
      (after_arp e a w, resolved_to r)

  abbrev pub output_below : Ether → List ℕ → Option EtherAddr → Below V → Below V × Option Error
  output_below e packet dst w =
      let (l, failed) = put_on_line e proto_type_ip packet dst w.line in
      (record w { line = l }, failed)

  abbrev pub below : Ether → IpEnv (Below V)
  below e = record {
    resolve = resolve_below e;
    device_output = λ dev packet dst w. output_below e packet dst w;
  }

  -- ip.TxHandler on the host.
  unfoldable pub send : ℕ → List ℕ → ℕ → ℕ → Host V → Host V × Option Error
  unfolding tx_handler
  send proto payload src dst h =
      let (m, failed) = tx_handler ⦃env = below h.dev⦄ proto payload src dst h.ip in
      (record h { ip = m }, failed)

  abbrev pub passed_on : Host V → Outcome (List Proto) → Outcome (Host V)
  passed_on h blocked = blocked
  passed_on h (returns ps) = returns (set_protos ps h)

  -- A round of RxHandler of the device.
  unfoldable pub read : List ℕ → Host V → Outcome (Host V)
  unfolding ether_rx
  read frame h =
      let (e, passed) = ether_rx dev_ptr h.dev (some frame) h.ip.world.line.protos in
      passed_on (record h { dev = e }) passed

  -- A round of RxHandler of ARP behind the receive, if its channel had something.
  unfoldable pub took_arp : Host V → Outcome (List Proto × ProtoBuffer) → Host V
  unfolding after_arp arp_rx_packet slice_bytes
  took_arp h blocked = h
  took_arp h (returns (ps, b)) =
      let w = (set_protos ps h).ip.world in
      let packet = slice_bytes h.dev b.slice in
      let a = arp_rx_packet w.now (some (arp_iface h.dev h.iface)) packet w.arp in
      set_below (after_arp h.dev a w) h

  unfoldable pub serve_arp : Host V → Host V
  unfolding receive took_arp
  serve_arp h = took_arp h (receive proto_type_arp h.ip.world.line.protos)

  -- The same of IP.
  unfoldable pub took_ip : Host V → Outcome (List Proto × ProtoBuffer) → Host V
  unfolding ip_rx_packet slice_bytes
  took_ip h blocked = h
  took_ip h (returns (ps, b)) =
      let calls = ip_rx_packet h.uppers (some h.iface ∷ []) (slice_bytes h.dev b.slice) in
      record (set_protos ps h) { delivered = h.delivered ++ calls }

  unfoldable pub serve_ip : Host V → Host V
  unfolding receive took_ip
  serve_ip h = took_ip h (receive proto_type_ip h.ip.world.line.protos)

  abbrev pub served : Outcome (Host V) → Outcome (Host V)
  served blocked = blocked
  served (returns h) = returns (serve_ip (serve_arp h))

  -- A frame arrives, and the protocols take what it gave them before the next one is read.
  unfoldable pub arrive : List ℕ → Host V → Outcome (Host V)
  unfolding read serve_arp serve_ip
  arrive frame h = served (read frame h)

  abbrev pub hear_last : List (List ℕ) → Host V → Outcome (Host V)
  hear_last [] h = returns h
  hear_last (frame ∷ _) h = arrive frame h

  -- The last frame that one host wrote arrives at another.
  unfoldable pub hear : Host V → Host V → Outcome (Host V)
  unfolding arrive
  hear sender h = hear_last sender.ip.world.line.written h
