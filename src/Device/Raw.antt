-- ===== src/Device/Raw.antt =====
-- pkg/device/raw: OpenTap and GetAddr over the system calls, and EtherInit of pkg/device/ethernet.go.
pub mod Descriptors
use Prim.Native.Nat.{bit_or}
use go_network.Base.{
  ℕ, suc, List, [], ◌∷◌, length, take, get_or, replicate, leb, ◌==◌, Bool, true, false, Option,
  none, some, ◌⊎◌, inl, inr,
}
use go_network.Errors.{Error, Result, ok, err, panic, device_name_too_long}
use go_network.Wire.{copy_at}
use go_network.Device.EtherAddr.{EtherAddr}
use go_network.Device.Kinds.{Device, ether_init}

abbrev pub ifnamsiz : ℕ
ifnamsiz = 16

-- IFF_TAP|IFF_NO_PI, and IFF_UP|IFF_RUNNING.
abbrev pub iff_tap_no_pi : ℕ
iff_tap_no_pi = 0x1002

abbrev pub iff_up_running : ℕ
iff_up_running = 0x41

-- The request of an ioctl on an interface: its name in 16 bytes, and the flags.
pub record Ifreq : Type 0 where
  pub name : List ℕ
  pub flags : ℕ

-- The system calls: a descriptor or an error, and what an ioctl leaves in the request or answers.
pub record Sys (W : Type 0) : Type 0 where
  pub open_file : W → W × (ℕ ⊎ Error)
  pub socket : W → W × (ℕ ⊎ Error)
  pub close : ℕ → W → W
  pub tun_set_iff : ℕ → Ifreq → W → W × (Ifreq ⊎ Error)
  pub get_flags : ℕ → Ifreq → W → W × (Ifreq ⊎ Error)
  pub set_flags : ℕ → Ifreq → W → W × (Ifreq ⊎ Error)
  pub get_hwaddr : ℕ → List ℕ → W → W × (List ℕ ⊎ Error)

-- `copy(ifr.name[:IFNAMSIZ-1], []byte(name))`: the last byte stays 0.
unfoldable pub name_field : List ℕ → List ℕ
unfolding copy_at
name_field name = copy_at (replicate ifnamsiz 0) 0 (take 15 name)

-- `bytes.IndexByte(name, 0)`.
unfoldable pub index_zero : List ℕ → Option ℕ
index_zero [] = none
index_zero (c ∷ cs) =
    let rest = index_zero cs in
    elim (c == 0) [ true ↦ some 0 | false ↦ elim rest [ none ↦ none | some i ↦ some (suc i) ] ]

-- `string(name[:bytes.IndexByte(name, 0)])`; the index is -1 where there is no 0, which panics.
unfoldable pub field_name : List ℕ → Result (List ℕ)
unfolding index_zero
field_name name = elim (index_zero name) [ some i ↦ ok (take i name) | none ↦ panic ]

abbrev pub or_errno : {A : Type 0} → A ⊎ Error → Result A
or_errno (inl a) = ok a
or_errno (inr e) = err e

-- The next call, unless the last one failed.
abbrev pub on_ok :
    {W : Type 0} {A : Type 0} {B : Type 0} → W × Result A → (A → W → W × Result B) → W × Result B
on_ok (w, ok a) next = next a w
on_ok (w, err e) next = (w, err e)
on_ok (w, panic) next = (w, panic)

abbrev pub new_name : Ifreq ⊎ Error → Result (List ℕ)
new_name (inl r) = field_name r.name
new_name (inr e) = err e

module _ {W : Type 0} ⦃sys : Sys W⦄ where
  unfoldable pub tunsetiff : ℕ → List ℕ → ℕ → W → W × Result (List ℕ)
  unfolding name_field field_name
  tunsetiff fd name flag w =
      let (v, r) = sys.tun_set_iff fd (record { name = name_field name; flags = flag }) w in
      (v, new_name r)

  -- A socket around an ioctl, which is closed however the ioctl ends.
  unfoldable pub with_socket : {A : Type 0} → (ℕ → W → W × (A ⊎ Error)) → W → W × Result A
  with_socket request w =
      let (v, opened) = sys.socket w in
      elim opened [
        | inr e ↦ (v, err e)
        | inl fd ↦ let (u, r) = request fd v in (sys.close fd u, or_errno r)
      ]

  unfoldable pub siocgifflags : List ℕ → W → W × Result Ifreq
  unfolding name_field with_socket
  siocgifflags name w =
      with_socket (λ fd. sys.get_flags fd (record { name = name_field name; flags = 0 })) w

  unfoldable pub siocsifflags : List ℕ → ℕ → W → W × Result Ifreq
  unfolding name_field with_socket
  siocsifflags name flag w =
      with_socket (λ fd. sys.set_flags fd (record { name = name_field name; flags = flag })) w

  -- GetAddr: the 14 bytes of the address in the answer.
  unfoldable pub get_addr : List ℕ → W → W × Result (List ℕ)
  unfolding name_field with_socket
  get_addr name w = with_socket (λ fd. sys.get_hwaddr fd (name_field name)) w

  -- OpenTap behind the open file.
  unfoldable pub open_tap_file : ℕ → List ℕ → W → W × Result (List ℕ × ℕ)
  unfolding tunsetiff siocgifflags siocsifflags
  open_tap_file fd name w = on_ok (tunsetiff fd name iff_tap_no_pi w) (λ real v.
      on_ok (siocgifflags real v) (λ r u.
        on_ok (siocsifflags real (bit_or r.flags iff_up_running) u) (λ done t. (t, ok (real, fd)))))

  unfoldable pub open_tap : List ℕ → W → W × Result (List ℕ × ℕ)
  unfolding open_tap_file
  open_tap name w = elim (leb ifnamsiz (length name)) [
    | true ↦ (w, err device_name_too_long)
    | false ↦
        let (v, opened) = sys.open_file w in
        elim opened [ inr e ↦ (v, err e) | inl fd ↦ open_tap_file fd name v ]
  ]

  -- EtherInit, less the registration: the device, and the descriptor of its file.
  unfoldable pub ether_open : List ℕ → W → W × Result (Device × ℕ)
  unfolding open_tap get_addr ether_init
  ether_open name w = on_ok (open_tap name w) (λ opened v. on_ok (get_addr opened.0 v) (λ a u. (
    u,
    ok (
      ether_init (record {
        a0 = get_or a 0 0;
        a1 = get_or a 1 0;
        a2 = get_or a 2 0;
        a3 = get_or a 3 0;
        a4 = get_or a 4 0;
        a5 = get_or a 5 0;
      }),
      opened.1,
    ),
  )))
