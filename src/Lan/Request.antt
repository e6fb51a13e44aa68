-- ===== src/Lan/Request.antt =====
-- An ARP packet between two hosts of the LAN: the request of a host that does not know its next hop, and
-- what a host that is asked answers.
use go_network.Base.{
  ℕ, ◌≡◌, refl, ap, ◌∙◌, arith, List, [], ◌∷◌, length, ◌==◌, ==_iff, ◌||◌, Bool, true, false, some,
  none, IsU16, IsU32,
}
use go_network.Errors.{returns, err, ok, cache_not_found}
use go_network.Net.Protocol.{proto_type_arp}
use go_network.Net.Registry.{is_up}
use go_network.Device.EtherAddr.{EtherAddr}
use go_network.Device.Frame as EtherFrame
use go_network.Device.Frame.{EtherHeader, ether_payload_size_max, same_addr}
use go_network.Device.Kinds.{Ether, ether, FileEnv, device_ops, is_mine, fill, flags}
use go_network.Device.Reception.{IsEtherAddr, length-copy_at}
use go_network.Device.Transmission.{frame_of}
use go_network.Arp.Header.{ArpEther, arp_op_reply, header2data, data2header, arp_op_request}
use go_network.Arp.Header.RoundTrip.{IsPacket, data2header_round_trip}
use go_network.Arp.Header.RoundTrip as Packet
use go_network.Arp.Table.{IsTable}
use go_network.Arp.Cache.{cache_select}
use go_network.Arp.Protocol.{Arp, Frame, packet, resolve, resolve_new, rx_packet, header_of}
use go_network.Arp.Learning.{rx_header-IsTable}
use go_network.Arp.Answers.{answer, rx_packet_answers}
use go_network.Ip.Iface.{Iface}
use go_network.Lan.{Host, after_arp, arp_iface, arrive, set_protos}
use go_network.Lan.Reading.{IsIdle, registered, after_packet, arrive-arp, send_frames-protos}
use go_network.Lan.Sending.{after_arp-one, after_arp-none}

-- A host that is up, with nothing waiting in it.
pub record IsHost {V : Type 0} ⦃env : FileEnv V⦄ (h : Host V) : Type 0 where
  pub idle : IsIdle h
  pub up : is_up (device_ops {W = V}) (ether h.dev) ≡ true
  pub addr : IsEtherAddr h.dev.addr
  pub unicast : IsU32 h.iface.unicast
  pub quiet : h.ip.world.arp.frames ≡ []
  pub table : IsTable h.ip.world.arp.caches

pub same_addr_self : (a : EtherAddr) → same_addr a a ≡ true
same_addr_self a = ground arith

pub or_true : (b : Bool) → (b || true) ≡ true
or_true true = refl
or_true false = refl

abbrev as_packet_addr : (a : EtherAddr) → IsEtherAddr a → Packet.IsEtherAddr a
as_packet_addr a v = record { b0 = v.0; b1 = v.1; b2 = v.2; b3 = v.3; b4 = v.4; b5 = v.5 }

pub packet-IsPacket :
    (op : ℕ) (sha : EtherAddr) (spa : ℕ) (tha : EtherAddr) (tpa : ℕ)
    → IsU16 op
    → IsEtherAddr sha
    → IsU32 spa
    → IsEtherAddr tha
    → IsU32 tpa
    → IsPacket (packet op sha spa tha tpa)
packet-IsPacket op sha spa tha tpa o s p t q = record {
  hrd = refl;
  pro = refl;
  hln = refl;
  pln = refl;
  op = o;
  sha = as_packet_addr sha s;
  spa = p;
  tha = as_packet_addr tha t;
  tpa = q;
}

pub read_packet : (p : ArpEther) → IsPacket p → data2header (header2data p) ≡ ok p
unfolding header2data
read_packet p v = data2header_round_trip p v []

pub length-packet : (p : ArpEther) → length (header2data p) ≡ 28
unfolding header2data
length-packet p = refl

pub resolve_unknown :
    (now : ℕ) (e : Ether) (iface : Iface) (pa : ℕ) (a : Arp)
    → cache_select pa a.caches ≡ none
    → resolve now (some (arp_iface e iface)) pa a
      ≡ (resolve_new now (arp_iface e iface) pa a, err cache_not_found)
unfolding resolve
resolve_unknown now e iface pa a unknown = rw (resolve, unknown) refl

module _ {V : Type 0} ⦃env : FileEnv V⦄ (h : Host V) (v : IsHost h) where
  -- An ARP frame that is for this host, with a packet about this host's address.
  module _ (src dst : EtherAddr) (p : ArpEther) (valid : IsPacket p)
      (ours : h.iface.unicast ≡ p.tpa) (s : IsEtherAddr src) (d : IsEtherAddr dst)
      (mine : is_mine h.dev (record { src = src; dst = dst; typ = proto_type_arp }) ≡ true) where
    abbrev frame : List ℕ
    frame =
        EtherFrame.header2data (record { src = src; dst = dst; typ = proto_type_arp })
          (header2data p)

    abbrev after : Host V
    after = after_packet frame (header2data p) h

    abbrev arp_after : Arp
    arp_after =
        rx_packet h.ip.world.now (some (arp_iface h.dev h.iface)) (header2data p) h.ip.world.arp

    pub arrive-packet : arrive frame h ≡ returns after
    arrive-packet =
        arrive-arp h (record { src = src; dst = dst; typ = proto_type_arp }) (header2data p) v.idle
          (let e = length-packet p in omega (arith, e)) s d mine (omega arith) refl

    frames-after : arp_after.frames ≡ elim (p.op == arp_op_request) [
      | true ↦ answer (arp_iface h.dev h.iface) h.dev.addr p ∷ []
      | false ↦ []
    ]
    frames-after =
        (rx_packet_answers h.ip.world.now (arp_iface h.dev h.iface) h.dev.addr (header2data p) p
          h.ip.world.arp (read_packet p valid) ours refl).0
        ∙ ap
            (λ fs. elim (p.op == arp_op_request) as (λ _. List Frame) [
              | true ↦ answer (arp_iface h.dev h.iface) h.dev.addr p ∷ fs
              | false ↦ fs
            ])
            v.quiet

    -- A request is answered.
    pub written-request :
        p.op ≡ arp_op_request
        → after.ip.world.line.written
          ≡ frame_of after.dev
              (answer (arp_iface h.dev h.iface) h.dev.addr p).bytes
              proto_type_arp
              p.sha
            ∷ h.ip.world.line.written
    unfolding fill answer is_up flags
    written-request asks =
        let asked : (p.op == arp_op_request) ≡ true = (==_iff p.op arp_op_request).1 asks in
        let reply = answer (arp_iface h.dev h.iface) h.dev.addr p in
        let one : arp_after.frames ≡ reply ∷ [] = frames-after ∙ rw asked refl in
        after_arp-one after.dev arp_after reply (set_protos registered h).ip.world one v.up (
          let e = length-packet (packet arp_op_reply h.dev.addr h.iface.unicast p.sha p.spa) in
          omega (arith, e))

    -- A reply is not.
    pub below-reply :
        (p.op == arp_op_request) ≡ false
        → after.ip.world ≡ record (set_protos registered h).ip.world { arp = arp_after }
    unfolding fill
    below-reply told =
        after_arp-none after.dev arp_after (set_protos registered h).ip.world
          (frames-after ∙ rw told refl)

    pub after-IsHost : IsHost after
    unfolding fill is_up flags after_arp rx_packet
    after-IsHost = record {
      idle = record {
        protos =
            send_frames-protos after.dev arp_after.frames (set_protos registered h).ip.world.line;
        buf = length-copy_at h.dev.buf 0 frame ∙ v.idle.buf;
      };
      up = v.up;
      addr = v.addr;
      unicast = v.unicast;
      quiet = refl;
      table =
          rx_header-IsTable h.ip.world.now (some (arp_iface h.dev h.iface))
            (header_of (header2data p)) h.ip.world.arp v.table;
    }
