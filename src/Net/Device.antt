-- ===== src/Net/Device.antt =====
-- net.Device and net.Interface of pkg/net: what the package calls of a device.
use go_network.Base.{ℕ, List, [], ◌∷◌, ◌++◌, Option, ◌≡◌, ◌⊎◌}
use go_network.Errors.{Error, Outcome}
use go_network.Net.Protocol.{Proto}

abbrev pub iface_family_ip : ℕ
iface_family_ip = 1

-- A `net.Interface`: a pointer, and its family.
pub record NetIface : Type 0 where
  pub ptr : ℕ
  pub family : ℕ

-- What a transmission changes: the protocols' buffers, the frames given to device files, the newest
-- first, and the world.
pub record Line (W : Type 0) : Type 0 where
  pub protos : List Proto
  pub written : List (List ℕ)
  pub world : W

-- The methods of a device of the type D, whose hardware addresses are of the type H; a device knows its
-- number. A device may ignore the interface that it is given.
pub record DeviceOps (D : Type 0) (H : Type 0) (W : Type 0) : Type 0 where
  pub mtu : D → ℕ
  pub flags : D → ℕ
  pub add_iface : NetIface → D → D
  pub interfaces : D → List NetIface
  pub tx_handler : ℕ → D → List ℕ → ℕ → Option H → Line W → Outcome (Line W × Option Error)
  pub close : D → W → W × Option Error
  pub flags-add_iface : (i : NetIface) (d : D) → flags (add_iface i d) ≡ flags d
  pub interfaces-add_iface :
      (i : NetIface) (d : D)
      → (interfaces (add_iface i d) ≡ interfaces d ++ (i ∷ []))
        ⊎ (interfaces (add_iface i d) ≡ interfaces d)
