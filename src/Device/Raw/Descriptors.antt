-- ===== src/Device/Raw/Descriptors.antt =====
-- The descriptors that pkg/device/raw leaves open.
use Prim.Native.Nat.{bit_or}
use go_network.Base.{ℕ, Bool, List, ◌∷◌, length, leb, ◌≡◌, refl, ◌∙◌, true, false, ◌⊎◌, inl, inr}
use go_network.Errors.{Error, Result, ok, err, panic, device_name_too_long}
use go_network.Device.Raw.{
  Sys, Ifreq, with_socket, tunsetiff, siocgifflags, siocsifflags, open_tap_file, open_tap, on_ok,
  name_field, ifnamsiz, iff_tap_no_pi, iff_up_running, or_errno,
}

-- What the system does with descriptors: a call that opens gives a new one or fails and opens none, a
-- close takes it away, and an ioctl leaves them as they are.
pub record IsSystem {W : Type 0} (sys : Sys W) (open_fds : W → List ℕ) : Type 0 where
  pub opened : (w : W) → elim (sys.open_file w).1 as (λ _. Type 0) [
    | inl fd ↦ open_fds (sys.open_file w).0 ≡ fd ∷ open_fds w
    | inr _ ↦ open_fds (sys.open_file w).0 ≡ open_fds w
  ]
  pub socket : (w : W) → elim (sys.socket w).1 as (λ _. Type 0) [
    | inl fd ↦ open_fds (sys.socket w).0 ≡ fd ∷ open_fds w
    | inr _ ↦ open_fds (sys.socket w).0 ≡ open_fds w
  ]
  pub close :
      (fd : ℕ) (fds : List ℕ) (w : W) → open_fds w ≡ fd ∷ fds → open_fds (sys.close fd w) ≡ fds
  pub tun_set_iff : (fd : ℕ) (r : Ifreq) (w : W) → open_fds (sys.tun_set_iff fd r w).0 ≡ open_fds w
  pub get_flags : (fd : ℕ) (r : Ifreq) (w : W) → open_fds (sys.get_flags fd r w).0 ≡ open_fds w
  pub set_flags : (fd : ℕ) (r : Ifreq) (w : W) → open_fds (sys.set_flags fd r w).0 ≡ open_fds w
  pub get_hwaddr :
      (fd : ℕ) (name : List ℕ) (w : W) → open_fds (sys.get_hwaddr fd name w).0 ≡ open_fds w

module _ {W : Type 0} ⦃sys : Sys W⦄ (open_fds : W → List ℕ) (system : IsSystem sys open_fds) where
  after_socket :
      {A : Type 0} (request : ℕ → W → W × (A ⊎ Error)) (v : W) (fds : List ℕ) (o : ℕ ⊎ Error)
      → ((fd : ℕ) (u : W) → open_fds (request fd u).0 ≡ open_fds u)
      → elim o as (λ _. Type 0) [ inl fd ↦ open_fds v ≡ fd ∷ fds | inr _ ↦ open_fds v ≡ fds ]
      → open_fds
          (elim o as (λ _. W × Result A) [
            | inr e ↦ (v, err e)
            | inl fd ↦ (sys.close fd (request fd v).0, or_errno (request fd v).1)
          ]).0
        ≡ fds
  after_socket request v fds (inl fd) h e = system.close fd fds (request fd v).0 (h fd v ∙ e)
  after_socket request v fds (inr x) h e = e

  with_socket-fds :
      {A : Type 0} (request : ℕ → W → W × (A ⊎ Error)) (w : W)
      → ((fd : ℕ) (v : W) → open_fds (request fd v).0 ≡ open_fds v)
      → open_fds (with_socket request w).0 ≡ open_fds w
  unfolding with_socket
  with_socket-fds request w h =
      after_socket request (sys.socket w).0 (open_fds w) (sys.socket w).1 h (system.socket w)

  on_ok-fds :
      {A : Type 0} {B : Type 0} (r : W × Result A) (next : A → W → W × Result B) (fds : List ℕ)
      → open_fds r.0 ≡ fds
      → ((a : A) (w : W) → open_fds w ≡ fds → open_fds (next a w).0 ≡ fds)
      → open_fds (on_ok r next).0 ≡ fds
  on_ok-fds (w, ok a) next fds e h = h a w e
  on_ok-fds (w, err x) next fds e h = e
  on_ok-fds (w, panic) next fds e h = e

  siocgifflags-fds : (name : List ℕ) (w : W) → open_fds (siocgifflags name w).0 ≡ open_fds w
  unfolding siocgifflags
  siocgifflags-fds name w =
      let r : Ifreq = record { name = name_field name; flags = 0 } in
      with_socket-fds (λ fd. sys.get_flags fd r) w (λ fd u. system.get_flags fd r u)

  siocsifflags-fds :
      (name : List ℕ) (flag : ℕ) (w : W) → open_fds (siocsifflags name flag w).0 ≡ open_fds w
  unfolding siocsifflags
  siocsifflags-fds name flag w =
      let r : Ifreq = record { name = name_field name; flags = flag } in
      with_socket-fds (λ fd. sys.set_flags fd r) w (λ fd u. system.set_flags fd r u)

  tunsetiff-fds :
      (fd : ℕ) (name : List ℕ) (flag : ℕ) (w : W)
      → open_fds (tunsetiff fd name flag w).0 ≡ open_fds w
  unfolding tunsetiff
  tunsetiff-fds fd name flag w =
      system.tun_set_iff fd (record { name = name_field name; flags = flag }) w

  open_tap_file-fds :
      (fd : ℕ) (name : List ℕ) (w : W) → open_fds (open_tap_file fd name w).0 ≡ open_fds w
  unfolding open_tap_file
  open_tap_file-fds fd name w =
      on_ok-fds (tunsetiff fd name iff_tap_no_pi w)
        (λ real v. on_ok (siocgifflags real v) (λ r u.
          on_ok (siocsifflags real (bit_or r.flags iff_up_running) u)
            (λ done t. (t, ok (real, fd)))))
        (open_fds w) (tunsetiff-fds fd name iff_tap_no_pi w)
        (λ real v e.
          on_ok-fds (siocgifflags real v)
            (λ r u.
              on_ok (siocsifflags real (bit_or r.flags iff_up_running) u)
                (λ done t. (t, ok (real, fd))))
            (open_fds w) (siocgifflags-fds real v ∙ e)
            (λ r u f.
              on_ok-fds (siocsifflags real (bit_or r.flags iff_up_running) u)
                (λ done t. (t, ok (real, fd))) (open_fds w)
                (siocsifflags-fds real (bit_or r.flags iff_up_running) u ∙ f) (λ done t g. g)))

  after_open :
      (name : List ℕ) (v : W) (fds : List ℕ) (o : ℕ ⊎ Error)
      → elim o as (λ _. Type 0) [ inl fd ↦ open_fds v ≡ fd ∷ fds | inr _ ↦ open_fds v ≡ fds ]
      → open_fds
          (elim o as (λ _. W × Result (List ℕ × ℕ)) [
            | inr e ↦ (v, err e)
            | inl fd ↦ open_tap_file fd name v
          ]).0
        ≡ elim o [ inl fd ↦ fd ∷ fds | inr _ ↦ fds ]
  after_open name v fds (inl fd) e = open_tap_file-fds fd name v ∙ e
  after_open name v fds (inr x) e = e

  tap_case :
      (name : List ℕ) (w : W) (long : Bool)
      → open_fds
          (elim long as (λ _. W × Result (List ℕ × ℕ)) [
            | true ↦ (w, err device_name_too_long)
            | false ↦ elim (sys.open_file w).1 [
              | inr e ↦ ((sys.open_file w).0, err e)
              | inl fd ↦ open_tap_file fd name (sys.open_file w).0
            ]
          ]).0
        ≡ elim long [
          | true ↦ open_fds w
          | false ↦ elim (sys.open_file w).1 [ inl fd ↦ fd ∷ open_fds w | inr _ ↦ open_fds w ]
        ]
  tap_case name w true = refl
  tap_case name w false =
      after_open name (sys.open_file w).0 (open_fds w) (sys.open_file w).1 (system.opened w)

  -- OpenTap of a name of 16 bytes or more leaves the open descriptors as they are. Otherwise, however the
  -- calls behind the opening of the device file end, every socket is closed again, and the file is the one
  -- new descriptor if it was opened, also where OpenTap returns an error.
  pub open_tap-fds :
      (name : List ℕ) (w : W)
      → open_fds (open_tap name w).0 ≡ elim (leb ifnamsiz (length name)) [
        | true ↦ open_fds w
        | false ↦ elim (sys.open_file w).1 [ inl fd ↦ fd ∷ open_fds w | inr _ ↦ open_fds w ]
      ]
  unfolding open_tap
  open_tap-fds name w = tap_case name w (leb ifnamsiz (length name))
