-- ===== src/Setting.antt =====
-- pkg/setting.go: NetInit and NetShutdown, over the devices, the routes and the protocols.
mod Tests
mod Tables
mod Invariant
use go_network.Base.{
  ℕ, suc, ◌+◌, List, [], ◌∷◌, length, Bool, true, false, Option, some, none, ◌⊎◌, inl, inr,
}
use go_network.Ip.ProtoType.{proto_icmp, proto_tcp, proto_udp}
use go_network.Errors.{Error, Result, ok, err, panic, Done, and_then}
use go_network.Strings.{codes}
use go_network.Net.Device.{NetIface}
use go_network.Net.Protocol
use go_network.Net.Protocol.{Proto, proto_type_ip, proto_type_arp}
use go_network.Net.Registry.{Net, device_register, close_all}
use go_network.Device.EtherAddr.{EtherAddr}
use go_network.Device.Kinds.{Device, FileEnv, device_ops, null_init, loopback_init, ether_init}
use go_network.Ip.Iface.{Iface}
use go_network.Ip.Routing.{Route}
use go_network.Ip.Setup.{Stack, seen_device, new_iface_str, set_default_gateway_str, iface_register}
use go_network.Ip.Protocol.{proto_register}

-- The variables that the packages keep, whether `done` is closed, and the number of the next interface.
pub record System : Type 0 where
  pub stack : Stack Device
  pub protos : List Proto
  pub ip_protos : List ℕ
  pub done : Bool
  pub next_iface : ℕ

-- Before NetInit.
abbrev pub empty_system : System
empty_system = record {
  stack = record { net = record { devices = []; interfaces = []; tied = [] }; routes = [] };
  protos = [];
  ip_protos = [];
  done = false;
  next_iface = 0;
}

abbrev pub on_stack : (Stack Device → Stack Device × Done) → System → System × Done
on_stack f s = let (t, done) = f s.stack in (record s { stack = t }, done)

unfoldable pub register_device : Device → System → System
unfolding device_register
register_device dev s = record s {
  stack = record s.stack { net = device_register dev s.stack.net };
}

-- The rest of NetInit behind a call of NewIface.
abbrev pub with_iface : Result Iface → (Iface → System → System × Done) → System → System × Done
with_iface (ok iface) next s = next iface s
with_iface (err e) next s = (s, err e)
with_iface panic next s = (s, panic)

-- ip.ProtoRegister, as the Init functions of icmp, udp and tcp call it.
unfoldable pub register_ip_proto : ℕ → System → System × Done
unfolding proto_register
register_ip_proto typ s =
    let (protos, refused) = proto_register typ s.ip_protos in
    elim refused [ none ↦ (record s { ip_protos = protos }, ok tt) | some e ↦ (s, err e) ]

-- ip.Init and arp.Init.
unfoldable pub register_net_protos : System → System
unfolding Protocol.proto_register
register_net_protos s = record s {
  protos = Protocol.proto_register proto_type_arp (Protocol.proto_register proto_type_ip s.protos);
}

-- The Init functions in the order of NetInit.
unfoldable pub init_protos : System → System × Done
unfolding register_net_protos register_ip_proto
init_protos s =
    and_then
      (and_then (register_ip_proto proto_icmp (register_net_protos s))
        (register_ip_proto proto_udp))
      (register_ip_proto proto_tcp)

module _ (W : Type 0) ⦃env : FileEnv W⦄ where
  abbrev pub seen : ℕ → Device → go_network.Ip.Iface.Device
  seen ptr dev = seen_device (device_ops {W = W}) ptr dev

  -- ip.IfaceRegister for a new interface.
  unfoldable pub tie_iface : ℕ → Device → Iface → System → System × Done
  unfolding iface_register
  tie_iface ptr dev iface s =
      on_stack (iface_register (device_ops {W = W}) ptr dev s.next_iface iface)
        (record s { next_iface = suc s.next_iface })

  -- iface0 on the loopback device.
  unfoldable pub setup_loopback : ℕ → System → System × Done
  unfolding new_iface_str tie_iface loopback_init
  setup_loopback ptr s =
      with_iface (new_iface_str (seen ptr loopback_init) (codes "127.0.0.1") (codes "255.0.0.0"))
        (tie_iface ptr loopback_init) s

  -- iface1 on the Ethernet device, and the default gateway.
  unfoldable pub setup_ether : ℕ → EtherAddr → System → System × Done
  unfolding new_iface_str tie_iface set_default_gateway_str ether_init
  setup_ether ptr addr s =
      with_iface
        (new_iface_str (seen ptr (ether_init addr)) (codes "192.0.2.2") (codes "255.255.255.0"))
        (λ iface t.
          and_then (tie_iface ptr (ether_init addr) iface t)
            (on_stack (set_default_gateway_str iface (codes "192.0.2.1"))))
        s

  -- The part of NetInit under `if setup`; the address of the TAP device, or the error of opening it, is
  -- what the system gives.
  unfoldable pub setup_devices : EtherAddr ⊎ Error → System → System × Done
  unfolding register_device null_init setup_loopback setup_ether
  setup_devices tap s =
      let ptr = length s.stack.net.devices in
      let t = register_device loopback_init (register_device null_init s) in
      elim tap [
        | inr e ↦ (t, err e)
        | inl addr ↦
            and_then (setup_loopback (suc ptr) (register_device (ether_init addr) t))
              (setup_ether (ptr + 2) addr)
      ]

  unfoldable pub net_init : Bool → EtherAddr ⊎ Error → System → System × Done
  unfolding setup_devices init_protos
  net_init setup tap s =
      and_then (elim setup [ true ↦ setup_devices tap s | false ↦ (s, ok tt) ]) init_protos

  -- NetShutdown. The second close of the channel panics.
  unfoldable pub net_shutdown : System → W → System × W × Done
  unfolding close_all
  net_shutdown s w = elim s.done [
    | true ↦ (s, w, panic)
    | false ↦
        let (v, failed) = close_all (device_ops {W = W}) s.stack.net.devices w in
        (record s { done = true }, v, elim failed [ none ↦ ok tt | some e ↦ err e ])
  ]
