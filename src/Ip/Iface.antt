-- ===== src/Ip/Iface.antt =====
-- pkg/ip/interface.go: the interface, and what pkg/ip reads of its device (pkg/net/devices.go).
use Prim.Native.Nat.{bit_and, bit_or}
use go_network.Base.{ℕ, ◌-◌, Bool, ltb}

abbrev pub device_flag_up : ℕ
device_flag_up = 1

abbrev pub device_flag_need_arp : ℕ
device_flag_need_arp = 0x0100

-- `net.Device`: its number in the list of devices, and the values of MTU() and Flags().
pub record Device : Type 0 where
  pub name : ℕ
  pub mtu : ℕ
  pub flags : ℕ

pub record Iface : Type 0 where
  pub dev : Device
  pub unicast : ℕ
  pub netmask : ℕ
  pub broadcast : ℕ

-- `NewIface` behind `Str2Addr`; ^netmask is the complement in 32 bits.
unfoldable pub new_iface : Device → ℕ → ℕ → Iface
new_iface dev unicast netmask = record {
  dev = dev;
  unicast = unicast;
  netmask = netmask;
  broadcast = bit_or unicast (4294967295 - netmask);
}

unfoldable pub needs_arp : Device → Bool
needs_arp dev = ltb 0 (bit_and dev.flags device_flag_need_arp)
