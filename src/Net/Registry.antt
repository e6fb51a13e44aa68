-- ===== src/Net/Registry.antt =====
-- pkg/net/devices.go, pkg/net/interface.go and pkg/net/net.go: the devices and their interfaces.
use Prim.Native.Nat.{bit_and}
use go_network.Base.{
  ℕ, List, [], ◌∷◌, ◌++◌, length, set, ltb, ◌==◌, Bool, true, false, Option, none, some, u16,
  if◌then◌else◌,
}
use go_network.Errors.{
  Error, Outcome, returns, already_closed, data_larger_than_mtu, same_family_registered,
  iface_not_found,
}
use go_network.Net.Device.{NetIface, Line, DeviceOps}

abbrev pub device_flag_up : ℕ
device_flag_up = 1

-- The package's variables `devices` and `interfaces`, and which device SetDev gave to which interface,
-- the newest first.
pub record Net (D : Type 0) : Type 0 where
  pub devices : List D
  pub interfaces : List NetIface
  pub tied : List (ℕ × ℕ)

unfoldable pub device_register : {D : Type 0} → D → Net D → Net D
device_register dev n = record n { devices = n.devices ++ (dev ∷ []) }

-- The loop that IfaceRegister and GetIface share.
unfoldable pub find_family : ℕ → List NetIface → Option NetIface
find_family family [] = none
find_family family (i ∷ is) = elim (i.family == family) [
  | true ↦ some i
  | false ↦ find_family family is
]

module _ {D : Type 0} {H : Type 0} {W : Type 0} (ops : DeviceOps D H W) where
  unfoldable pub is_up : D → Bool
  is_up d = ltb 0 (bit_and (ops.flags d) device_flag_up)

  -- DeviceOutput; the length is compared as a uint16.
  unfoldable pub device_output :
      ℕ → D → List ℕ → ℕ → Option H → Line W → Outcome (Line W × Option Error)
  unfolding is_up
  device_output ptr dev data' typ dst l =
      if is_up dev
      then if ltb (ops.mtu dev) (u16 (length data'))
        then returns (l, some data_larger_than_mtu)
        else ops.tx_handler ptr dev data' typ dst l
      else returns (l, some already_closed)

  -- IfaceRegister for the device with that number.
  unfoldable pub iface_register : ℕ → D → NetIface → Net D → Net D × Option Error
  unfolding find_family
  iface_register ptr dev iface n = elim (find_family iface.family (ops.interfaces dev)) [
    | some _ ↦ (n, some same_family_registered)
    | none ↦ (
      record n {
        devices = set n.devices ptr (ops.add_iface iface dev);
        interfaces = n.interfaces ++ (iface ∷ []);
        tied = (iface.ptr, ptr) ∷ n.tied;
      },
      none,
    )
  ]

  unfoldable pub get_iface : D → ℕ → Option NetIface × Option Error
  unfolding find_family
  get_iface dev family = elim (find_family family (ops.interfaces dev)) [
    | some i ↦ (some i, none)
    | none ↦ (none, some iface_not_found)
  ]

  -- Close. A device that is not up ends it, as does an error.
  unfoldable pub close_all : List D → W → W × Option Error
  unfolding is_up
  close_all [] w = (w, none)
  close_all (d ∷ ds) w = elim (is_up d) [
    | false ↦ (w, some already_closed)
    | true ↦
        let (v, failed) = ops.close d w in
        elim failed [ none ↦ close_all ds v | some e ↦ (v, some e) ]
  ]
