-- ===== src/Lan/Reading.antt =====
-- A frame that arrives at a host of the LAN: the protocol of its type gets the payload, and handles it.
use go_network.Base.{
  ℕ, ◌≡◌, ◌≤◌, refl, ap, ◌∙◌, arith, List, [], ◌∷◌, ◌++◌, length, true, Option, some, none, IsU16,
}
use go_network.Errors.{returns}
use go_network.Net.Device.{Line}
use go_network.Net.Protocol.{
  Proto, ProtoBuffer, received, receive, device_input, proto_type_ip, proto_type_arp,
}
use go_network.Net.Registry.{device_output}
use go_network.Device.EtherAddr.{EtherAddr}
use go_network.Device.Frame.{EtherHeader, header2data, ether_frame_size_max, ether_payload_size_max}
use go_network.Device.Kinds.{
  Ether, FileEnv, ether_rx, contents, is_mine, fill, tx_handler, ether_tx,
}
use go_network.Device.Reception.{IsEtherAddr, ether_rx-header2data}
use go_network.Arp.Protocol.{Frame, rx_packet as arp_rx_packet}
use go_network.Ip.Protocol.{rx_packet as ip_rx_packet}
use go_network.Lan.{
  Host, arp_iface, put_on_line, send_frames, after_arp, set_below, set_protos, read, serve_arp,
  serve_ip, took_arp, took_ip, passed_on, served, arrive, dev_ptr,
}

-- The protocols as NetInit registers them, with what is in their channels.
abbrev pub with_buffers : List ProtoBuffer → List ProtoBuffer → List Proto
with_buffers ip arp =
    record { typ = proto_type_ip; buffer = ip } ∷ record { typ = proto_type_arp; buffer = arp } ∷ []

abbrev pub registered : List Proto
registered = with_buffers [] []

-- Nothing waits in the host, and the receive buffer of its device has its size.
pub record IsIdle {V : Type 0} (h : Host V) : Type 0 where
  pub protos : h.ip.world.line.protos ≡ registered
  pub buf : length h.dev.buf ≡ ether_frame_size_max

module _ {V : Type 0} ⦃env : FileEnv V⦄ where
  put_on_line-protos :
      (e : Ether) (typ : ℕ) (packet : List ℕ) (dst : Option EtherAddr) (l : Line V)
      → (put_on_line e typ packet dst l).0.protos ≡ l.protos
  unfolding put_on_line device_output tx_handler ether_tx
  put_on_line-protos e typ packet none l = ground arith
  put_on_line-protos e typ packet (some dst) l = ground arith

  pub send_frames-protos :
      (e : Ether) (fs : List Frame) (l : Line V) → (send_frames e fs l).protos ≡ l.protos
  unfolding send_frames
  send_frames-protos e [] l = refl
  send_frames-protos e (f ∷ fs) l =
      put_on_line-protos e proto_type_arp f.bytes (some f.dst) (send_frames e fs l)
      ∙ send_frames-protos e fs l

  serve_ip_nothing : (h : Host V) → h.ip.world.line.protos ≡ registered → serve_ip h ≡ h
  unfolding serve_ip
  serve_ip_nothing h e = ap (took_ip h) (ap (receive proto_type_ip) e ∙ (unfold receive in refl))

  serve_arp_nothing :
      (h : Host V) (b : ProtoBuffer)
      → h.ip.world.line.protos ≡ with_buffers (b ∷ []) []
      → serve_arp h ≡ h
  unfolding serve_arp
  serve_arp_nothing h b e =
      ap (took_arp h) (ap (receive proto_type_arp) e ∙ (unfold receive in refl))

  -- The device has read a frame.
  abbrev pub filled : List ℕ → Host V → Host V
  filled frame h = record h { dev = fill h.dev frame }

  -- ARP has handled a packet of that frame.
  abbrev pub after_packet : List ℕ → List ℕ → Host V → Host V
  after_packet frame packet h =
      let e = fill h.dev frame in
      let w = (set_protos registered h).ip.world in
      let a = arp_rx_packet w.now (some (arp_iface e h.iface)) packet w.arp in
      set_below (after_arp e a w) (filled frame h)

  -- IP has.
  abbrev pub after_ip : List ℕ → List ℕ → Host V → Host V
  after_ip frame packet h = record (set_protos registered (filled frame h)) {
    delivered = h.delivered ++ ip_rx_packet h.uppers (some h.iface ∷ []) packet;
  }

  -- The frame that carries a payload, and what the device makes of it.
  module _ (h : Host V) (hdr : EtherHeader) (payload : List ℕ) (idle : IsIdle h)
      (fits : length payload ≤ ether_payload_size_max) (s : IsEtherAddr hdr.src)
      (d : IsEtherAddr hdr.dst) (mine : is_mine h.dev hdr ≡ true) (t : IsU16 hdr.typ) where
    abbrev frame : List ℕ
    frame = header2data hdr payload

    abbrev slice : ProtoBuffer
    slice = record { slice = received dev_ptr (length payload); dev = dev_ptr }

    rx_lem :
        ((ether_rx dev_ptr h.dev (some (header2data hdr payload)) h.ip.world.line.protos).1
          ≡ device_input hdr.typ slice registered)
        × (contents (filled frame h).dev (length payload) ≡ payload)
    unfolding ether_rx
    rx_lem =
        let (passed, read_back) =
          ether_rx-header2data dev_ptr h.dev hdr payload h.ip.world.line.protos
            (let b = idle.buf in omega (arith, b, fits)) s d t in
        (passed ∙ rw mine (ap (device_input hdr.typ slice) idle.protos), read_back)

    read-passes :
        (ps : List Proto)
        → device_input hdr.typ slice registered ≡ returns ps
        → read (header2data hdr payload) h ≡ returns (set_protos ps (filled frame h))
    unfolding read ether_rx
    read-passes ps passed = ap (passed_on (filled frame h)) (rx_lem.0 ∙ passed)

    waiting_arp : Host V
    waiting_arp = set_protos (with_buffers [] (slice ∷ [])) (filled frame h)

    serve_arp-packet : serve_arp waiting_arp ≡ after_packet frame payload h
    unfolding serve_arp receive took_arp waiting_arp
    serve_arp-packet = ap (λ packet. after_packet frame packet h) rx_lem.1

    -- A frame of ARP: the packet is handled, and what ARP sends is on the line.
    pub arrive-arp :
        hdr.typ ≡ proto_type_arp
        → arrive (header2data hdr payload) h ≡ returns (after_packet frame payload h)
    unfolding arrive waiting_arp
    arrive-arp typ =
        ap served (
          read-passes (with_buffers [] (slice ∷ []))
            (ap (λ k. device_input k slice registered) typ ∙ (unfold device_input in refl)))
        ∙ ap (λ (n : Host V). returns (serve_ip n)) serve_arp-packet
        ∙ ap returns (
            serve_ip_nothing (after_packet frame payload h)
              (send_frames-protos (filled frame h).dev _ (set_protos registered h).ip.world.line))

    waiting_ip : Host V
    waiting_ip = set_protos (with_buffers (slice ∷ []) []) (filled frame h)

    serve_ip-packet : serve_ip waiting_ip ≡ after_ip frame payload h
    unfolding serve_ip receive took_ip waiting_ip
    serve_ip-packet = ap (λ packet. after_ip frame packet h) rx_lem.1

    -- A frame of IP: the packet is handled.
    pub arrive-ip :
        hdr.typ ≡ proto_type_ip
        → arrive (header2data hdr payload) h ≡ returns (after_ip frame payload h)
    unfolding arrive waiting_ip
    arrive-ip typ =
        ap served (
          read-passes (with_buffers (slice ∷ []) [])
            (ap (λ k. device_input k slice registered) typ ∙ (unfold device_input in refl)))
        ∙ ap (λ (n : Host V). returns (serve_ip n)) (serve_arp_nothing waiting_ip slice refl)
        ∙ ap returns serve_ip-packet
