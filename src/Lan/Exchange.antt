-- ===== src/Lan/Exchange.antt =====
-- A packet of IP from one host of the LAN to another whose hardware address it does not know yet.
use go_network.Base.{
  ℕ, ◌+◌, ◌≡◌, ◌≤◌, refl, ap, ◌∙◌, arith, List, ◌∷◌, length, ◌==◌, ◌&&◌, ◌||◌, not, true, false,
  some, none, inl, inr, IsU32, ◌⊎◌,
}
use go_network.Errors.{Error, ok, cache_not_found}
use go_network.Net.Protocol.{proto_type_arp, proto_type_ip}
use go_network.Device.EtherAddr.{EtherAddr, ether_addr_any, ether_addr_broadcast}
use go_network.Device.Frame.{ether_payload_size_max}
use go_network.Device.Kinds.{FileEnv}
use go_network.Device.Transmission.{frame_of}
use go_network.Arp.Cache.{cache_select}
use go_network.Arp.Table.{IsTable}
use go_network.Arp.Learning.{resolve-IsTable}
use go_network.Lan.Reading.{send_frames-protos}
use mathlib.Core.Path.{subst}
use go_network.Arp.Header.{ArpEther, arp_op_request, header2data}
use go_network.Arp.Protocol.{Arp, Frame, packet, resolve, resolve_new, request}
use go_network.Ip.Iface.{Iface, needs_arp}
use go_network.Ip.Routing.{Route, addr_any, addr_broadcast, lookup_table}
use go_network.Ip.Protocol.{generate_id, next_hop, output, tx_header}
use go_network.Ip.Header.RoundTrip.{length-header2data}
use go_network.Ip.Transfer.{tx_packet}
use go_network.Ip.Resolution.{tx_handler-answered, answered}
use go_network.Lan.{Host, Below, send, below, arp_iface, after_arp, resolved_to, resolve_below}
use go_network.Lan.Sending.{with_frame, after_arp-none, after_arp-one, put_on_line-frame}
use go_network.Lan.Request.{IsHost, length-packet, resolve_unknown}

abbrev pub route_of : Iface → ℕ → ℕ → ℕ → Route
route_of iface network netmask nexthop = record {
  network = network;
  netmask = netmask;
  nexthop = nexthop;
  iface = iface;
}

-- A packet may be sent from an interface, by that route, to that next hop.
pub record IsSendable (iface : Iface) (routes : List Route) (route : Route) (bytes : List ℕ)
    (src dst hop : ℕ) : Type 0 where
  pub sourced : (src == addr_any && (dst == addr_broadcast)) ≡ false
  pub found : lookup_table dst routes ≡ some route
  pub own : (not (src == addr_any) && not (src == route.iface.unicast)) ≡ false
  pub fits : 20 + length bytes ≤ route.iface.dev.mtu
  pub mtu : route.iface.dev.mtu ≤ ether_payload_size_max
  pub needs : needs_arp route.iface.dev ≡ true
  pub hop_of : next_hop route dst ≡ hop
  pub single : (hop == route.iface.broadcast || (hop == addr_broadcast)) ≡ false
  pub in_range : IsU32 hop

module _ {V : Type 0} ⦃env : FileEnv V⦄ (h : Host V) (v : IsHost h) (network netmask nexthop : ℕ)
    (proto : ℕ) (bytes : List ℕ) (src dst hop : ℕ)
    (s : IsSendable h.iface h.ip.routes
      (route_of h.iface network netmask nexthop)
      bytes
      src
      dst
      hop) where
  abbrev route : Route
  route = route_of h.iface network netmask nexthop

  send-answered :
      (r : Below V × (EtherAddr ⊎ Error))
      → resolve_below h.dev h.iface hop h.ip.world ≡ r
      → let id = generate_id h.ip.id in
        let q =
          answered ⦃env = below h.dev⦄ h.iface
            (tx_packet proto bytes id dst h.iface)
            (record h.ip { id = id })
            r in
        send proto bytes src dst h ≡ (record h { ip = q.0 }, q.1)
  unfolding send
  send-answered r e =
      ap (λ q. (record h { ip = q.0 }, q.1))
        (tx_handler-answered ⦃env = below h.dev⦄ proto bytes src dst route h.ip r s.sourced s.found
          s.own s.fits s.needs
          (ap (λ k. k == h.iface.broadcast || (k == addr_broadcast)) s.hop_of ∙ s.single)
          (ap (λ k. resolve_below h.dev h.iface k h.ip.world) s.hop_of ∙ e))

  -- The request for the next hop.
  abbrev pub question : ArpEther
  question = packet arp_op_request h.dev.addr h.iface.unicast ether_addr_any hop

  abbrev asking : Arp
  asking = resolve_new h.ip.world.now (arp_iface h.dev h.iface) hop h.ip.world.arp

  abbrev pub asked : Host V
  asked = record h {
    ip = record h.ip { id = generate_id h.ip.id; world = after_arp h.dev asking h.ip.world };
  }

  module _ (unknown : cache_select hop h.ip.world.arp.caches ≡ none) where
    pub send-asks : send proto bytes src dst h ≡ (asked, some cache_not_found)
    send-asks =
        let w = h.ip.world in
        send-answered (after_arp h.dev asking w, inr cache_not_found)
          (ap (λ q. (after_arp h.dev q.0 w, resolved_to q.1))
            (resolve_unknown w.now h.dev h.iface hop w.arp unknown))

    pub written-asked :
        asked.ip.world.line.written
        ≡ frame_of h.dev (header2data question) proto_type_arp ether_addr_broadcast
          ∷ h.ip.world.line.written
    unfolding resolve_new request
    written-asked =
        let f : Frame = record { bytes = header2data question; dst = ether_addr_broadcast } in
        after_arp-one h.dev asking f h.ip.world (ap (◌∷◌ f) v.quiet) v.up
          (let e = length-packet question in omega (arith, e))

    pub asked-IsHost : IsHost asked
    unfolding after_arp
    asked-IsHost = record {
      idle = record {
        protos = send_frames-protos h.dev asking.frames h.ip.world.line ∙ v.idle.protos;
        buf = v.idle.buf;
      };
      up = v.up;
      addr = v.addr;
      unicast = v.unicast;
      quiet = refl;
      table =
          let w = h.ip.world in
          subst (λ q. IsTable q.0.caches) (resolve_unknown w.now h.dev h.iface hop w.arp unknown)
            (resolve-IsTable w.now (some (arp_iface h.dev h.iface)) hop w.arp v.table);
    }

  -- The frame of the packet, for a hardware address.
  abbrev pub packet_frame : EtherAddr → List ℕ
  packet_frame ha =
      frame_of h.dev (tx_packet proto bytes (generate_id h.ip.id) dst h.iface) proto_type_ip ha

  -- The host after the packet left.
  abbrev pub sent : EtherAddr → Host V
  sent ha =
      let w = h.ip.world in
      record h {
        ip = record h.ip {
          id = generate_id h.ip.id;
          world = record w { line = with_frame (packet_frame ha) w.line };
        };
      }

  pub send-resolved :
      (ha : EtherAddr)
      → resolve h.ip.world.now (some (arp_iface h.dev h.iface)) hop h.ip.world.arp
        ≡ (h.ip.world.arp, ok ha)
      → send proto bytes src dst h
        ≡ (sent ha, (env.write (packet_frame ha) h.ip.world.line.world).1)
  unfolding output
  send-resolved ha known =
      let w = h.ip.world in
      send-answered (w, inl ha)
        (ap (λ q. (after_arp h.dev q.0 w, resolved_to q.1)) known
          ∙ ap (λ (u : Below V). (u, inl ha)) (after_arp-none h.dev w.arp w v.quiet))
      ∙ ap
          (λ r. (
            record h {
              ip = record h.ip { id = generate_id h.ip.id; world = record w { line = r.0 } };
            },
            r.1,
          ))
          (put_on_line-frame h.dev proto_type_ip
            (tx_packet proto bytes (generate_id h.ip.id) dst h.iface) ha w.line v.up
            (let e =
                length-header2data
                  (tx_header proto (length bytes) (generate_id h.ip.id) h.iface dst) bytes in
              let a = s.fits in let b = s.mtu in omega (arith, e, a, b)))
