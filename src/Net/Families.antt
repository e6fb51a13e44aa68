-- ===== src/Net/Families.antt =====
-- The interfaces of the devices of pkg/net/interface.go: no two of one family.
use mathlib.Core.Path.{subst}
use mathlib.Core.Option.{some-injective}
use go_network.Base.{
  ℕ, suc, zero, ◌≡◌, refl, sym, inl, inr, arith, List, [], ◌∷◌, ◌++◌, get_elem?, set, All,
  Option-cases, ◌==◌, true, false, none, some,
}
use go_network.Net.Device.{NetIface, DeviceOps}
use go_network.Net.Registry.{Net, find_family, iface_register, get_iface}

abbrev pub Distinct : List NetIface → Type 0
Distinct [] = Unit
Distinct (i ∷ is) = (find_family i.family is ≡ none) × Distinct is

find_family-append :
    (f : ℕ) (is : List NetIface) (i : NetIface)
    → find_family f is ≡ none
    → find_family f (is ++ (i ∷ [])) ≡ find_family f (i ∷ [])
unfolding find_family
find_family-append f [] i h = refl
find_family-append f (j ∷ is) i h = ground (arith, find_family-append f is i)

find_family_last :
    (f : ℕ) (is : List NetIface) (i : NetIface)
    → find_family f (is ++ (i ∷ []))
      ≡ elim (find_family f is) [ some j ↦ some j | none ↦ find_family f (i ∷ []) ]
unfolding find_family
find_family_last f [] i = refl
find_family_last f (j ∷ is) i = ground (arith, find_family_last f is i)

append-Distinct :
    (is : List NetIface) (i : NetIface)
    → find_family i.family is ≡ none
    → Distinct is
    → Distinct (is ++ (i ∷ []))
unfolding find_family
append-Distinct [] i h d = (refl, tt)
append-Distinct (j ∷ is) i h (fresh, d) =
    (ground (arith, find_family-append j.family is i fresh), append-Distinct is i (ground arith) d)

pub set-All :
    {A : Type 0} (P : A → Type 0) (xs : List A) (k : ℕ) (x : A)
    → P x
    → All P xs
    → All P (set xs k x)
set-All P [] k x p ps = tt
set-All P (y ∷ xs) zero x p (q, ps) = (p, ps)
set-All P (y ∷ xs) (suc k) x p (q, ps) = (q, set-All P xs k x p ps)

get_elem?-All :
    {A : Type 0} (P : A → Type 0) (xs : List A) (k : ℕ) (x : A)
    → get_elem? xs k ≡ some x
    → All P xs
    → P x
get_elem?-All P [] k x h ps = ground arith
get_elem?-All P (y ∷ xs) zero x h (q, ps) = subst P (some-injective _ _ h) q
get_elem?-All P (y ∷ xs) (suc k) x h (q, ps) = get_elem?-All P xs k x h ps

module _ {D : Type 0} {H : Type 0} {W : Type 0} (ops : DeviceOps D H W) where
  -- No device has two interfaces of one family.
  abbrev pub HasFamilies : List D → Type 0
  HasFamilies devices = All (λ d. Distinct (ops.interfaces d)) devices

  add_iface-Distinct :
      (iface : NetIface) (dev : D)
      → find_family iface.family (ops.interfaces dev) ≡ none
      → Distinct (ops.interfaces dev)
      → Distinct (ops.interfaces (ops.add_iface iface dev))
  add_iface-Distinct iface dev h d = elim (ops.interfaces-add_iface iface dev) [
    | inl e ↦ subst Distinct (sym e) (append-Distinct (ops.interfaces dev) iface h d)
    | inr e ↦ subst Distinct (sym e) d
  ]

  pub iface_register_families :
      (ptr : ℕ) (dev : D) (iface : NetIface) (n : Net D)
      → Distinct (ops.interfaces dev)
      → HasFamilies n.devices
      → HasFamilies (iface_register ops ptr dev iface n).0.devices
  unfolding iface_register
  iface_register_families ptr dev iface n d h =
      elim (Option-cases (find_family iface.family (ops.interfaces dev))) [
        | inr (i, e) ↦ rw (iface_register, e) h
        | inl e ↦
            rw (iface_register, e)
              (set-All (λ d. Distinct (ops.interfaces d)) n.devices ptr (ops.add_iface iface dev)
                (add_iface-Distinct iface dev e d) h)
      ]

  -- For any devices whose AddIface appends exactly the interface that it is given or leaves the list as it
  -- is, IfaceRegister keeps the families of each device's interfaces distinct, where it is given the
  -- device with that number.
  pub iface_register-HasFamilies :
      (ptr : ℕ) (dev : D) (iface : NetIface) (n : Net D)
      → get_elem? n.devices ptr ≡ some dev
      → HasFamilies n.devices
      → HasFamilies (iface_register ops ptr dev iface n).0.devices
  iface_register-HasFamilies ptr dev iface n at h =
      iface_register_families ptr dev iface n
        (get_elem?-All (λ d. Distinct (ops.interfaces d)) n.devices ptr dev at h) h

  -- On a device that keeps its interfaces, GetIface finds the interface that IfaceRegister added, and
  -- for another family what it found before.
  pub get_iface-iface_register :
      (ptr : ℕ) (dev : D) (iface : NetIface) (n : Net D) (family : ℕ)
      → ops.interfaces (ops.add_iface iface dev) ≡ ops.interfaces dev ++ (iface ∷ [])
      → (iface_register ops ptr dev iface n).1 ≡ none
      → get_iface ops (ops.add_iface iface dev) family ≡ elim (iface.family == family) [
        | true ↦ (some iface, none)
        | false ↦ get_iface ops dev family
      ]
  unfolding iface_register get_iface find_family
  get_iface-iface_register ptr dev iface n family kept done =
      ground (arith, find_family_last family (ops.interfaces dev) iface)
