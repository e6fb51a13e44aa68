-- ===== src/Net/Tests.antt =====
-- The registries of pkg/net at concrete inputs, with devices that keep their interfaces or do not.
use go_network.Base.{ℕ, ◌≡◌, ◌⊎◌, refl, inl, inr, List, [], ◌∷◌, ◌++◌, Bool, true, false, none}
use go_network.Errors.{returns}
use go_network.Net.Device.{NetIface, DeviceOps}
use go_network.Net.Registry.{Net, iface_register, find_family}
use go_network.Net.Families.{HasFamilies, iface_register-HasFamilies}

-- A device is whether it keeps interfaces, and those.
abbrev add_to : NetIface → Bool × List NetIface → Bool × List NetIface
add_to i (true, is) = (true, is ++ (i ∷ []))
add_to i (false, is) = (false, is)

added :
    (i : NetIface) (d : Bool × List NetIface)
    → ((add_to i d).1 ≡ d.1 ++ (i ∷ [])) ⊎ ((add_to i d).1 ≡ d.1)
added i (true, is) = inl refl
added i (false, is) = inr refl

abbrev ops : DeviceOps (Bool × List NetIface) ℕ ℕ
ops = record {
  mtu = λ d. 1500;
  flags = λ d. 1;
  add_iface = add_to;
  interfaces = λ d. d.1;
  tx_handler = λ ptr d bytes typ dst l. returns (l, none);
  close = λ d w. (w, none);
  flags-add_iface = λ i d. refl;
  interfaces-add_iface = added;
}

abbrev two_devices : Net (Bool × List NetIface)
two_devices = record {
  devices = (true, record { ptr = 0; family = 2 } ∷ []) ∷ (false, []) ∷ [];
  interfaces = record { ptr = 0; family = 2 } ∷ [];
  tied = (0, 0) ∷ [];
}

iface_register-HasFamilies_example :
    HasFamilies ops
      (iface_register ops 0
        (true, record { ptr = 0; family = 2 } ∷ [])
        (record { ptr = 1; family = 1 })
        two_devices).0.devices
iface_register-HasFamilies_example =
    iface_register-HasFamilies ops 0 (true, record { ptr = 0; family = 2 } ∷ [])
      (record { ptr = 1; family = 1 }) two_devices refl
      (unfold find_family in ((refl, tt), (tt, tt)))
