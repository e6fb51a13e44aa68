-- ===== src/Setting/Invariant.antt =====
-- What NetInit of pkg/setting.go keeps of the tables of pkg/net and pkg/ip.
use go_network.Base.{
  ℕ, suc, ◌+◌, ◌≤◌, length, List, [], ◌∷◌, ◌++◌, All, Bool, true, false, Option, none, some, ◌⊎◌,
  inl, inr,
}
use go_network.Errors.{Error, Result, ok, err, panic, Done, and_then}
use go_network.Strings.{codes}
use go_network.Net.Device.{iface_family_ip}
use go_network.Net.Registry.{device_register}
use go_network.Net.Families.{Distinct, iface_register_families}
use go_network.Device.EtherAddr.{EtherAddr}
use go_network.Device.Kinds.{
  Device, FileEnv, device_ops, null_init, loopback_init, ether_init, interfaces,
}
use go_network.Ip.Iface.{Iface}
use go_network.Ip.Setup.{iface_register, with_gateway, set_default_gateway_str, new_iface_str}
use go_network.Ip.Address.{str2addr}
use go_network.Ip.Protocol.{proto_register}
use go_network.Ip.Delivery.{count_type, proto_register_unique}
use go_network.Setting.{
  proto_icmp, proto_tcp, proto_udp, System, net_init, setup_devices, setup_loopback, setup_ether,
  tie_iface, register_device, register_ip_proto, register_net_protos, init_protos, with_iface,
  on_stack, seen,
}

-- No device has two interfaces of a family, and no upper protocol of IP is registered twice.
abbrev pub IsWellFormed : System → Type 0
IsWellFormed s =
    All (λ d. Distinct (interfaces d)) s.stack.net.devices
    × ((u : ℕ) → count_type u s.ip_protos ≤ 1)

append-All :
    {A : Type 0} (P : A → Type 0) (xs : List A) (x : A) → All P xs → P x → All P (xs ++ (x ∷ []))
append-All P [] x h p = (p, tt)
append-All P (y ∷ xs) x (q, h) p = (q, append-All P xs x h p)

and_then-IsWellFormed :
    (r : System × Done) (next : System → System × Done)
    → IsWellFormed r.0
    → ((t : System) → IsWellFormed t → IsWellFormed (next t).0)
    → IsWellFormed (and_then r next).0
and_then-IsWellFormed (s, ok _) next h k = k s h
and_then-IsWellFormed (s, err e) next h k = h
and_then-IsWellFormed (s, panic) next h k = h

register_device-IsWellFormed :
    (dev : Device) (s : System)
    → Distinct (interfaces dev)
    → IsWellFormed s
    → IsWellFormed (register_device dev s)
unfolding register_device device_register
register_device-IsWellFormed dev s d (h, u) =
    (append-All (λ d. Distinct (interfaces d)) s.stack.net.devices dev h d, u)

refused-IsWellFormed :
    (s : System) (protos : List ℕ) (refused : Option Error)
    → IsWellFormed s
    → ((u : ℕ) → count_type u protos ≤ 1)
    → IsWellFormed
        (elim refused as (λ _. System × Done) [
          | none ↦ (record s { ip_protos = protos }, ok tt)
          | some e ↦ (s, err e)
        ]).0
refused-IsWellFormed s protos none (h, _) u = (h, u)
refused-IsWellFormed s protos (some e) (h, v) u = (h, v)

register_ip_proto-IsWellFormed :
    (typ : ℕ) (s : System) → IsWellFormed s → IsWellFormed (register_ip_proto typ s).0
unfolding register_ip_proto
register_ip_proto-IsWellFormed typ s (h, u) =
    refused-IsWellFormed s (proto_register typ s.ip_protos).0 (proto_register typ s.ip_protos).1
      (h, u) (λ t. proto_register_unique t typ s.ip_protos u)

with_iface-IsWellFormed :
    (r : Result Iface) (next : Iface → System → System × Done) (s : System)
    → IsWellFormed s
    → ((iface : Iface) → IsWellFormed (next iface s).0)
    → IsWellFormed (with_iface r next s).0
with_iface-IsWellFormed (ok iface) next s h k = k iface
with_iface-IsWellFormed (err e) next s h k = h
with_iface-IsWellFormed panic next s h k = h

register_net_protos-IsWellFormed :
    (s : System) → IsWellFormed s → IsWellFormed (register_net_protos s)
unfolding register_net_protos
register_net_protos-IsWellFormed s h = h

init_protos-IsWellFormed : (s : System) → IsWellFormed s → IsWellFormed (init_protos s).0
unfolding init_protos
init_protos-IsWellFormed s h =
    let t = register_net_protos s in
    let icmp = register_ip_proto proto_icmp t in
    let first =
      register_ip_proto-IsWellFormed proto_icmp t (register_net_protos-IsWellFormed s h) in
    and_then-IsWellFormed (and_then icmp (register_ip_proto proto_udp))
      (register_ip_proto proto_tcp)
      (and_then-IsWellFormed icmp (register_ip_proto proto_udp) first
        (register_ip_proto-IsWellFormed proto_udp))
      (register_ip_proto-IsWellFormed proto_tcp)

with_gateway-IsWellFormed :
    (iface : Iface) (gw : Result ℕ) (s : System)
    → IsWellFormed s
    → IsWellFormed (on_stack (with_gateway iface gw) s).0
with_gateway-IsWellFormed iface (ok gw) s h = h
with_gateway-IsWellFormed iface (err e) s h = h
with_gateway-IsWellFormed iface panic s h = h

first_devices-IsWellFormed :
    (s : System)
    → IsWellFormed s
    → IsWellFormed (register_device loopback_init (register_device null_init s))
unfolding interfaces null_init loopback_init
first_devices-IsWellFormed s h =
    register_device-IsWellFormed loopback_init (register_device null_init s) tt
      (register_device-IsWellFormed null_init s tt h)

module _ (W : Type 0) ⦃env : FileEnv W⦄ where
  tie_iface-IsWellFormed :
      (ptr : ℕ) (dev : Device) (iface : Iface) (s : System)
      → Distinct (interfaces dev)
      → IsWellFormed s
      → IsWellFormed (tie_iface W ptr dev iface s).0
  unfolding tie_iface iface_register interfaces
  tie_iface-IsWellFormed ptr dev iface s d (h, u) = (
    iface_register_families (device_ops {W = W}) ptr dev
        (record { ptr = s.next_iface; family = iface_family_ip }) s.stack.net d h,
    u,
  )

  setup_loopback-IsWellFormed :
      (ptr : ℕ) (s : System) → IsWellFormed s → IsWellFormed (setup_loopback W ptr s).0
  unfolding setup_loopback interfaces
  setup_loopback-IsWellFormed ptr s h =
      with_iface-IsWellFormed
        (new_iface_str (seen W ptr loopback_init) (codes "127.0.0.1") (codes "255.0.0.0"))
        (tie_iface W ptr loopback_init) s h
        (λ iface. tie_iface-IsWellFormed ptr loopback_init iface s (unfold loopback_init in tt) h)

  setup_ether-IsWellFormed :
      (ptr : ℕ) (addr : EtherAddr) (s : System)
      → IsWellFormed s
      → IsWellFormed (setup_ether W ptr addr s).0
  unfolding setup_ether interfaces set_default_gateway_str
  setup_ether-IsWellFormed ptr addr s h =
      let dev = ether_init addr in
      with_iface-IsWellFormed
        (new_iface_str (seen W ptr dev) (codes "192.0.2.2") (codes "255.255.255.0"))
        (λ iface t.
          and_then (tie_iface W ptr dev iface t)
            (on_stack (set_default_gateway_str iface (codes "192.0.2.1"))))
        s h
        (λ iface.
          and_then-IsWellFormed (tie_iface W ptr dev iface s)
            (on_stack (set_default_gateway_str iface (codes "192.0.2.1")))
            (tie_iface-IsWellFormed ptr dev iface s (unfold ether_init in tt) h)
            (λ t. with_gateway-IsWellFormed iface (str2addr (codes "192.0.2.1")) t))

  setup_devices-IsWellFormed :
      (tap : EtherAddr ⊎ Error) (s : System)
      → IsWellFormed s
      → IsWellFormed (setup_devices W tap s).0
  unfolding setup_devices interfaces null_init loopback_init ether_init
  setup_devices-IsWellFormed (inr e) s h = first_devices-IsWellFormed s h
  setup_devices-IsWellFormed (inl addr) s h =
      let ptr = length s.stack.net.devices in
      let t = register_device loopback_init (register_device null_init s) in
      let u = register_device (ether_init addr) t in
      and_then-IsWellFormed (setup_loopback W (suc ptr) u) (setup_ether W (ptr + 2) addr)
        (setup_loopback-IsWellFormed (suc ptr) u
          (register_device-IsWellFormed (ether_init addr) t tt (first_devices-IsWellFormed s h)))
        (setup_ether-IsWellFormed (ptr + 2) addr)

  -- NetInit, on whatever tables it starts and however it ends, keeps them well-formed: no device has two
  -- interfaces of one family, and no upper protocol of IP is registered twice.
  pub net_init-IsWellFormed :
      (setup : Bool) (tap : EtherAddr ⊎ Error) (s : System)
      → IsWellFormed s
      → IsWellFormed (net_init W setup tap s).0
  unfolding net_init
  net_init-IsWellFormed false tap s h = init_protos-IsWellFormed s h
  net_init-IsWellFormed true tap s h =
      and_then-IsWellFormed (setup_devices W tap s) init_protos (setup_devices-IsWellFormed tap s h)
        init_protos-IsWellFormed
