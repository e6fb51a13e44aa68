-- ===== src/Arp/Learning.antt =====
-- What pkg/arp/protocol.go does to the cache table: packets and Resolve keep it, and the sender of a
-- packet for this host is resolved afterwards.
use go_network.Base.{
  ◌+◌, ℕ, ◌≡◌, ◌<◌, ◌==◌, ==_iff, refl, ap, ◌∙◌, arith, List, [], set, get_or, length, Option, none,
  some, Bool, true, false, ◌⊎◌, inl, inr, Option-cases, Bool-cases,
}
use go_network.Errors.{ok}
use go_network.Device.EtherAddr.{EtherAddr, ether_addr_any}
use go_network.Arp.Cache.{
  CacheEntry, zero_entry, cache_imcomplete, holds, resolved, empty_caches, cache_alloc,
  cache_insert, cache_select, cache_update, timer,
}
use go_network.Arp.Search.{get_default, get_or-set, find_index-only, cache_select-find_index}
use go_network.Arp.Table.{
  IsTable, Writable, set-IsTable, cache_select-Writable, cache_alloc-Writable, timer-IsTable,
}
use go_network.Arp.Header.{ArpEther, data2header}
use go_network.Arp.Protocol.{
  rx_header, Arp, ArpIface, header_of, reply, request, accept, rx_packet, resolve, resolve_new,
}

-- The index of the entry for the address, or of the one that cacheAlloc gives up.
abbrev pub place : ℕ → List CacheEntry → ℕ
place pa caches = get_default (cache_select pa caches) (cache_alloc caches)

-- The table is the old one with a fresh entry for the address, at one place.
pub record Noted (now pa : ℕ) (ha : EtherAddr) (before after : List CacheEntry) : Type 0 where
  pub index : ℕ
  pub placed : index ≡ place pa before
  pub writable : Writable index pa before
  pub written : after ≡ set before index (resolved now pa ha)

pub Noted-IsTable :
    (now pa : ℕ) (ha : EtherAddr) (before after : List CacheEntry)
    → IsTable before
    → Noted now pa ha before after
    → IsTable after
Noted-IsTable now pa ha before after t n =
    rw n.written (set-IsTable before n.index pa (resolved now pa ha) t n.writable refl)

holds-resolved : (now pa : ℕ) (ha : EtherAddr) → holds pa (resolved now pa ha) ≡ true
holds-resolved now pa ha = ground arith

pub Noted-found :
    (now pa : ℕ) (ha : EtherAddr) (before after : List CacheEntry)
    → IsTable before
    → (n : Noted now pa ha before after)
    → (cache_select pa after ≡ some n.index)
      × (get_or after n.index zero_entry ≡ resolved now pa ha)
unfolding Writable
Noted-found now pa ha before after t n =
    let u = Noted-IsTable now pa ha before after t n in
    let e : get_or after n.index zero_entry ≡ resolved now pa ha =
      rw n.written (get_or-set before n.index (resolved now pa ha) zero_entry n.writable.0) in
    let k : n.index < length after =
      let a = t.size in let b = u.size in let c = n.writable.0 in omega (arith, a, b, c) in
    let i : 0 + n.index ≡ n.index = omega arith in
    (
      cache_select-find_index pa after
          ∙ find_index-only (holds pa) 0 after zero_entry n.index (u.single pa) k
              (ap (holds pa) e ∙ holds-resolved now pa ha)
          ∙ ap some i,
      e,
    )

-- Update, and insertion if there was nothing to update.
abbrev pub insert_unless : ℕ → ℕ → EtherAddr → List CacheEntry × Bool → List CacheEntry
insert_unless now pa ha u = elim u.1 [ true ↦ u.0 | false ↦ cache_insert now pa ha u.0 ]

abbrev pub note_sender : ℕ → ℕ → EtherAddr → List CacheEntry → List CacheEntry
note_sender now pa ha caches = insert_unless now pa ha (cache_update now pa ha caches)

cache_update_absent :
    (now pa : ℕ) (ha : EtherAddr) (caches : List CacheEntry)
    → cache_select pa caches ≡ none
    → cache_update now pa ha caches ≡ (caches, false)
unfolding cache_update
cache_update_absent now pa ha caches h = rw (cache_update, h) refl

pub note_sender-Noted :
    (now pa : ℕ) (ha : EtherAddr) (caches : List CacheEntry)
    → IsTable caches
    → Noted now pa ha caches (note_sender now pa ha caches)
unfolding cache_update Writable
note_sender-Noted now pa ha caches t = elim (Option-cases (cache_select pa caches)) [
  | inl absent ↦ record {
    index = cache_alloc caches;
    placed = rw (place, absent) refl;
    writable = cache_alloc-Writable pa caches t absent;
    written =
        ap (insert_unless now pa ha) (cache_update_absent now pa ha caches absent)
        ∙ (unfold cache_insert in refl);
  }
  | inr (i, found) ↦
      let (k, h) = cache_select-Writable pa i caches found in
      record {
        index = i;
        placed = rw (place, found) refl;
        writable = (k, inl h);
        written = rw (note_sender, cache_update, found) refl;
      }
]

cache_update-IsTable :
    (now pa : ℕ) (ha : EtherAddr) (caches : List CacheEntry)
    → IsTable caches
    → IsTable (cache_update now pa ha caches).0
unfolding cache_update Writable
cache_update-IsTable now pa ha caches t = elim (Option-cases (cache_select pa caches)) [
  | inl absent ↦ rw (cache_update, absent) t
  | inr (i, found) ↦
      let (k, h) = cache_select-Writable pa i caches found in
      rw (cache_update, found) (set-IsTable caches i pa (resolved now pa ha) t (k, inl h) refl)
]

accept-caches :
    (now : ℕ) (iface : ArpIface) (hdr : ArpEther) (merge : Bool) (a : Arp)
    → (accept now iface hdr merge a).caches
      ≡ elim merge [ true ↦ a.caches | false ↦ cache_insert now hdr.spa hdr.sha a.caches ]
unfolding accept reply
accept-caches now iface hdr merge a = ground arith

-- A header for the address of the interface.
pub rx_header-caches :
    (now : ℕ) (iface : ArpIface) (hdr : ArpEther) (a : Arp)
    → iface.unicast ≡ hdr.tpa
    → (rx_header now (some iface) hdr a).caches ≡ note_sender now hdr.spa hdr.sha a.caches
unfolding rx_header
rx_header-caches now iface hdr a h =
    let e : (iface.unicast == hdr.tpa) ≡ true = (==_iff iface.unicast hdr.tpa).1 h in
    let (updated, merge) = cache_update now hdr.spa hdr.sha a.caches in
    rw (rx_header, e) (accept-caches now iface hdr merge (record a { caches = updated }))

pub rx_header_other :
    (now : ℕ) (iface : ArpIface) (hdr : ArpEther) (a : Arp)
    → (iface.unicast == hdr.tpa) ≡ false
    → rx_header now (some iface) hdr a
      ≡ record a { caches = (cache_update now hdr.spa hdr.sha a.caches).0; running = false }
unfolding rx_header
rx_header_other now iface hdr a h = rw (rx_header, h) refl

pub rx_header-IsTable :
    (now : ℕ) (iface : Option ArpIface) (hdr : ArpEther) (a : Arp)
    → IsTable a.caches
    → IsTable (rx_header now iface hdr a).caches
rx_header-IsTable now none hdr a t =
    unfold rx_header in cache_update-IsTable now hdr.spa hdr.sha a.caches t
rx_header-IsTable now (some iface) hdr a t = elim (Bool-cases (iface.unicast == hdr.tpa)) [
  | inl ours ↦
      let u =
        Noted-IsTable now hdr.spa hdr.sha a.caches _ t
          (note_sender-Noted now hdr.spa hdr.sha a.caches t) in
      rw (rx_header-caches now iface hdr a ((==_iff iface.unicast hdr.tpa).0 ours)) u
  | inr other ↦
      rw (rx_header_other now iface hdr a other)
        (cache_update-IsTable now hdr.spa hdr.sha a.caches t)
]

resolve-caches :
    (now : ℕ) (iface : ArpIface) (pa : ℕ) (a : Arp)
    → ((resolve now (some iface) pa a).0.caches ≡ a.caches)
      ⊎ ((cache_select pa a.caches ≡ none)
          × ((resolve now (some iface) pa a).0.caches
              ≡ set a.caches (cache_alloc a.caches) (record {
                state = cache_imcomplete;
                pa = pa;
                ha = ether_addr_any;
                timeval = now;
              })))
unfolding resolve resolve_new request
resolve-caches now iface pa a = ground arith

pub resolve-IsTable :
    (now : ℕ) (iface : Option ArpIface) (pa : ℕ) (a : Arp)
    → IsTable a.caches
    → IsTable (resolve now iface pa a).0.caches
resolve-IsTable now none pa a t = unfold resolve in t
resolve-IsTable now (some iface) pa a t = elim (resolve-caches now iface pa a) [
  | inl same ↦ rw same t
  | inr (absent, written) ↦ rw written (
      set-IsTable a.caches (cache_alloc a.caches) pa _ t (cache_alloc-Writable pa a.caches t absent)
        refl)
]

-- What happens to the table: packets, resolutions and rounds of the timer.
pub data Step (a : Arp) : Arp → Type 0 where
  packet_in :
      (now : ℕ) (iface : Option ArpIface) (bytes : List ℕ) → Step a (rx_packet now iface bytes a)
  resolving : (now : ℕ) (iface : Option ArpIface) (pa : ℕ) → Step a (resolve now iface pa a).0
  ticking : (now : ℕ) → Step a (record a { caches = timer now a.caches })

pub data Reachable : Arp → Type 0 where
  started : Reachable (record { caches = empty_caches; frames = []; running = true })
  after : {a b : Arp} → Reachable a → Step a b → Reachable b

Step-IsTable : {a b : Arp} → Step a b → IsTable a.caches → IsTable b.caches
Step-IsTable {a} (packet_in now iface bytes) t =
    unfold rx_packet in rx_header-IsTable now iface (header_of bytes) a t
Step-IsTable {a} (resolving now iface pa) t = resolve-IsTable now iface pa a t
Step-IsTable {a} (ticking now) t = timer-IsTable now a.caches t

-- After any sequence of packets, resolutions and timer rounds the table has its 32 entries, and holds
-- every protocol address at most once.
pub Reachable-IsTable : {a : Arp} → Reachable a → IsTable a.caches
Reachable-IsTable started = record { size = refl; single = λ pa. ground arith }
Reachable-IsTable (after r s) = Step-IsTable s (Reachable-IsTable r)

resolve_found :
    (now : ℕ) (iface : ArpIface) (own : EtherAddr) (pa i : ℕ) (ha : EtherAddr) (before : ℕ)
    (a : Arp)
    → iface.ether ≡ some own
    → cache_select pa a.caches ≡ some i
    → get_or a.caches i zero_entry ≡ resolved before pa ha
    → resolve now (some iface) pa a ≡ (a, ok ha)
unfolding resolve
resolve_found now iface own pa i ha before a o s g =
    rw (resolve, o, s, g) (ap (λ (c : CacheEntry). (a, ok c.ha)) g)

resolve-rx_header :
    (now later : ℕ) (iface : ArpIface) (own : EtherAddr) (hdr : ArpEther) (a : Arp)
    → IsTable a.caches
    → iface.unicast ≡ hdr.tpa
    → iface.ether ≡ some own
    → resolve later (some iface) hdr.spa (rx_header now (some iface) hdr a)
      ≡ (rx_header now (some iface) hdr a, ok hdr.sha)
resolve-rx_header now later iface own hdr a t ours ether =
    let r = rx_header now (some iface) hdr a in
    let e = rx_header-caches now iface hdr a ours in
    let n = note_sender-Noted now hdr.spa hdr.sha a.caches t in
    let (found, entry) =
      Noted-found now hdr.spa hdr.sha a.caches (note_sender now hdr.spa hdr.sha a.caches) t n in
    resolve_found later iface own hdr.spa n.index hdr.sha now r ether
      (ap (cache_select hdr.spa) e ∙ found) (ap (λ c. get_or c n.index zero_entry) e ∙ entry)

pub header_of_valid :
    (bytes : List ℕ) (hdr : ArpEther) → data2header bytes ≡ ok hdr → header_of bytes ≡ hdr
unfolding header_of
header_of_valid bytes hdr h = rw (header_of, h) refl

-- The sender of a valid packet for this host is resolved to its hardware address from then on, with no
-- request, whatever the table held before.
pub resolve-rx_packet :
    (now later : ℕ) (iface : ArpIface) (own : EtherAddr) (bytes : List ℕ) (hdr : ArpEther) (a : Arp)
    → IsTable a.caches
    → data2header bytes ≡ ok hdr
    → iface.unicast ≡ hdr.tpa
    → iface.ether ≡ some own
    → resolve later (some iface) hdr.spa (rx_packet now (some iface) bytes a)
      ≡ (rx_packet now (some iface) bytes a, ok hdr.sha)
unfolding rx_packet
resolve-rx_packet now later iface own bytes hdr a t valid ours ether =
    rw (header_of_valid bytes hdr valid) (resolve-rx_header now later iface own hdr a t ours ether)
