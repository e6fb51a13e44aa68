-- ===== src/Tcp/Registry/Unique.antt =====
-- The list of control blocks of pkg/tcp/pcb.go: at most one for a local address and port.
use go_network.Base.{
  inr, inl, Bool-cases, ℕ, ◌+◌, ◌≡◌, ◌≤◌, refl, arith, List, [], ◌∷◌, ◌++◌, true, false,
  if◌then◌else◌,
}
use go_network.Errors.{ok}
use go_network.Udp.Endpoint.{Endpoint, same_endpoint}
use go_network.Tcp.Pcb.{Pcb, new_pcb}
use go_network.Tcp.Registry.{Host, is_used, newpcb}

-- How many control blocks have the local address and port.
abbrev pub count_local : Endpoint → List (ℕ × Pcb) → ℕ
count_local e [] = 0
count_local e ((q, p) ∷ ps) =
    if same_endpoint p.local e then 1 + count_local e ps else count_local e ps

count_local-append :
    (e : Endpoint) (q : ℕ) (p : Pcb) (ps : List (ℕ × Pcb))
    → count_local e (ps ++ ((q, p) ∷ []))
      ≡ count_local e ps + (if same_endpoint p.local e then 1 else 0)
count_local-append e q p [] = ground arith
count_local-append e q p (r ∷ ps) = ground (arith, count_local-append e q p ps)

unused :
    (local e : Endpoint) (ps : List (ℕ × Pcb))
    → is_used local ps ≡ false
    → same_endpoint local e ≡ true
    → count_local e ps ≡ 0
unfolding is_used
unused local e [] h k = refl
unused local e (r ∷ ps) h k = ground (arith, unused local e ps)

newpcb-pcbs :
    {W : Type 0} (local : Endpoint) (h g : Host W) (ptr : ℕ)
    → newpcb local h ≡ ok (g, ptr)
    → (is_used local h.pcbs ≡ false) × (g.pcbs ≡ h.pcbs ++ ((h.next_ptr, new_pcb local) ∷ []))
unfolding newpcb
newpcb-pcbs local h g ptr k = elim (Bool-cases (is_used local h.pcbs)) [
  | inl used ↦ ground (arith, used, k)
  | inr free ↦ (free, ground (arith, free, k))
]

-- Where Newpcb succeeds, it keeps every local address and port in one control block at most.
pub newpcb_unique :
    {W : Type 0} (local e : Endpoint) (h g : Host W) (ptr : ℕ)
    → ((a : Endpoint) → count_local a h.pcbs ≤ 1)
    → newpcb local h ≡ ok (g, ptr)
    → count_local e g.pcbs ≤ 1
unfolding new_pcb
newpcb_unique local e h g ptr u k =
    let (free, added) = newpcb-pcbs local h g ptr k in
    let c = count_local-append e h.next_ptr (new_pcb local) h.pcbs in
    let f = unused local e h.pcbs free in let one = u e in rw added (ground (arith, c, f, one))
