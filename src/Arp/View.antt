-- ===== src/Arp/View.antt =====
-- The table of pkg/arp/cache.go as a finite map from protocol addresses, and what the packets of
-- pkg/arp/protocol.go do to the map.
use go_network.Base.{
  Bool-cases, inl, inr, ℕ, suc, zero, ◌≡◌, ◌≤◌, ◌<◌, ◌==◌, ==_iff, refl, ap, ◌∙◌, arith, List, [],
  ◌∷◌, set, get_or, length, true, false, Option, none, some, if◌then◌else◌,
}
use go_network.Errors.{ok}
use go_network.Device.EtherAddr.{EtherAddr}
use go_network.Arp.Cache.{CacheEntry, zero_entry, holds, resolved}
use go_network.Arp.Search.{count, count-set, count-pos}
use go_network.Arp.Table.{IsTable, Writable}
use go_network.Arp.Header.{ArpEther, data2header}
use go_network.Arp.Protocol.{Arp, ArpIface, rx_header, rx_packet}
use go_network.Arp.Learning.{
  Noted, Noted-IsTable, Noted-found, place, note_sender, note_sender-Noted, rx_header-caches,
  header_of_valid,
}

-- The abstract table: what is known of an address, without the places of the entries.
unfoldable pub view : List CacheEntry → ℕ → Option CacheEntry
view [] q = none
view (c ∷ cs) q = let rest = view cs q in elim (holds q c) [ true ↦ some c | false ↦ rest ]

view_absent : (q : ℕ) (caches : List CacheEntry) → count (holds q) caches ≡ 0 → view caches q ≡ none
unfolding view
view_absent q [] h = refl
view_absent q (c ∷ cs) h = ground (arith, h, view_absent q cs)

view-set_other :
    (q : ℕ) (caches : List CacheEntry) (i : ℕ) (v : CacheEntry)
    → holds q v ≡ false
    → holds q (get_or caches i zero_entry) ≡ false
    → view (set caches i v) q ≡ view caches q
unfolding view
view-set_other q [] i v h k = refl
view-set_other q (c ∷ cs) zero v h k = rw (view, h, k) refl
view-set_other q (c ∷ cs) (suc i) v h k =
    ap (λ (r : Option CacheEntry). elim (holds q c) [ true ↦ some c | false ↦ r ])
      (view-set_other q cs i v h k)

-- An entry for an address that no other entry holds is what the map shows.
view_held :
    (q : ℕ) (caches : List CacheEntry) (i : ℕ)
    → count (holds q) caches ≤ 1
    → i < length caches
    → holds q (get_or caches i zero_entry) ≡ true
    → view caches q ≡ some (get_or caches i zero_entry)
unfolding view
view_held q [] i h l k = ground (arith, l)
view_held q (c ∷ cs) zero h l k = rw (view, k) refl
view_held q (c ∷ cs) (suc i) h l k = elim (Bool-cases (holds q c)) [
  | inl hit ↦ ground (arith, hit, h, count-pos (holds q) cs i zero_entry (omega (arith, l)) k)
  | inr miss ↦ rw (view, miss) (view_held q cs i (ground (arith, miss, h)) (omega (arith, l)) k)
]

-- What the map shows for q after a fresh entry for pa took the place of an old one.
abbrev pub noted : ℕ → ℕ → EtherAddr → CacheEntry → (ℕ → Option CacheEntry) → ℕ → Option CacheEntry
noted now pa ha old m q =
    if q == pa then some (resolved now pa ha) else if holds q old then none else m q

module _ (now pa : ℕ) (ha : EtherAddr) (before after : List CacheEntry) (t : IsTable before)
    (n : Noted now pa ha before after) where
  Noted-view :
      (q : ℕ) → view after q ≡ noted now pa ha (get_or before n.index zero_entry) (view before) q
  unfolding Writable
  Noted-view q =
      let entry = resolved now pa ha in
      let old = get_or before n.index zero_entry in
      let u = Noted-IsTable now pa ha before after t n in
      let c = count-set (holds q) before n.index entry zero_entry n.writable.0 in
      let s = t.single q in
      elim (Bool-cases (q == pa)) [
        | inl this ↦
            let e : q ≡ pa = (==_iff q pa).0 this in
            let (found, at) = Noted-found now pa ha before after t n in
            let k : n.index < length after =
              let a = t.size in let b = u.size in let d = n.writable.0 in omega (arith, a, b, d) in
            let h : holds pa (get_or after n.index zero_entry) ≡ true =
              ap (holds pa) at ∙ ground arith in
            rw (noted, this)
              (ap (view after) e ∙ view_held pa after n.index (u.single pa) k h ∙ ap some at)
        | inr other ↦
            let miss : holds q entry ≡ false = ground (arith, other) in
            elim (Bool-cases (holds q old)) [
              | inl gone ↦
                  rw (noted, other, gone, n.written)
                    (view_absent q _ (ground (arith, c, s, miss, gone)))
              | inr kept ↦
                  rw (noted, other, kept, n.written)
                    (view-set_other q before n.index entry miss kept)
            ]
      ]

-- A valid packet for this host, seen through the map: its sender has a resolved entry with the hardware
-- address of the packet and the time, the address whose entry cacheAlloc gave up for it has none, and
-- every other address has what it had.
pub rx_packet-view :
    (now : ℕ) (iface : ArpIface) (bytes : List ℕ) (hdr : ArpEther) (a : Arp) (q : ℕ)
    → IsTable a.caches
    → data2header bytes ≡ ok hdr
    → iface.unicast ≡ hdr.tpa
    → view (rx_packet now (some iface) bytes a).caches q
      ≡ noted now hdr.spa hdr.sha
          (get_or a.caches (place hdr.spa a.caches) zero_entry)
          (view a.caches)
          q
unfolding rx_packet
rx_packet-view now iface bytes hdr a q t valid ours =
    ap (λ h. view (rx_header now (some iface) h a).caches q) (header_of_valid bytes hdr valid)
    ∙ ap (λ c. view c q) (rx_header-caches now iface hdr a ours)
    ∙ Noted-view now hdr.spa hdr.sha a.caches (note_sender now hdr.spa hdr.sha a.caches) t
        (note_sender-Noted now hdr.spa hdr.sha a.caches t) q
    ∙ ap (λ i. noted now hdr.spa hdr.sha (get_or a.caches i zero_entry) (view a.caches) q)
        (note_sender-Noted now hdr.spa hdr.sha a.caches t).placed
