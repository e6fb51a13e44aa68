-- ===== src/Tcp/Registry.antt =====
-- The package's list of control blocks (`pcbs` of pkg/tcp/pcb.go): Newpcb, Deletepcb, and RxHandler of
-- pkg/tcp/protocol.go, which finds the control block of a segment. A pointer is a number.
pub mod Unique
use go_network.Base.{
  ℕ, suc, ◌+◌, ◌-◌, ◌*◌, ◌/◌, List, [], ◌∷◌, ◌++◌, ◌&&◌, Option, none, some, Bool, length, drop,
  ltb, ◌==◌, if◌then◌else◌, u8, u32,
}
use go_network.Errors.{Error, Result, ok, err, panic, local_already_used, pcb_not_found}
use go_network.Udp.Endpoint.{Endpoint, same_endpoint}
use go_network.Tcp.ControlFlag
use go_network.Tcp.ControlFlag.{is_set}
use go_network.Tcp.Header.{Header, header_size_min, data2header}
use go_network.Tcp.Pcb.{Pcb, Io, Env, new_pcb}
use go_network.Tcp.Segment.{Segment}
use go_network.Tcp.Arrives.{segment_arrives}

-- `next_ptr` is a pointer that was not given out.
pub record Host (W : Type 0) : Type 0 where
  pub pcbs : List (ℕ × Pcb)
  pub next_ptr : ℕ
  pub io : Io W

unfoldable pub is_used : Endpoint → List (ℕ × Pcb) → Bool
is_used local [] = Bool.false
is_used local ((_, p) ∷ ps) = if same_endpoint p.local local then Bool.true else is_used local ps

-- `Newpcb`: the pointer of the new control block.
unfoldable pub newpcb : {W : Type 0} → Endpoint → Host W → Result (Host W × ℕ)
unfolding is_used new_pcb
newpcb local h =
    if is_used local h.pcbs
    then err local_already_used
    else ok (
      record h { pcbs = h.pcbs ++ ((h.next_ptr, new_pcb local) ∷ []); next_ptr = suc h.next_ptr },
      h.next_ptr,
    )

-- The list without the first entry of the pointer.
unfoldable pub delete_ptr : ℕ → List (ℕ × Pcb) → Option (List (ℕ × Pcb))
delete_ptr ptr [] = none
delete_ptr ptr ((q, p) ∷ ps) =
    if q == ptr
    then some ps
    else (elim (delete_ptr ptr ps) [ none ↦ none | some qs ↦ some ((q, p) ∷ qs) ])

-- `Deletepcb`.
unfoldable pub deletepcb : {W : Type 0} → ℕ → Host W → Host W × Option Error
unfolding delete_ptr
deletepcb ptr h = elim (delete_ptr ptr h.pcbs) [
  | none ↦ (h, some pcb_not_found)
  | some ps ↦ (record h { pcbs = ps }, none)
]

-- The loop of `RxHandler`: the first control block with the address, and the ones before and after it.
unfoldable pub find_local :
    ℕ → ℕ → List (ℕ × Pcb) → Option (List (ℕ × Pcb) × (ℕ × Pcb) × List (ℕ × Pcb))
find_local addr port [] = none
find_local addr port ((q, p) ∷ ps) =
    if p.local.addr == addr && p.local.port == port
    then some ([], (q, p), ps)
    else (elim (find_local addr port ps) [
      | none ↦ none
      | some (before, found, after) ↦ some ((q, p) ∷ before, found, after)
    ])

-- `(hdr.Offset >> 4) << 2`.
abbrev pub header_len : Header → ℕ
header_len hdr = u8 (hdr.offset / 16 * 4)

-- The segment of a header; `dataLen` is a uint32.
unfoldable pub segment_of : Header → ℕ → Segment
segment_of hdr data_len = record {
  seq = hdr.seq;
  ack = hdr.ack;
  len = if is_set hdr.flag ControlFlag.syn_fin then u32 (data_len + 1) else data_len;
  wnd = hdr.window;
  up = hdr.urgent;
}

-- `hdrLen - HeaderSizeMin` on uint8, where the options end in the payload.
abbrev pub options_len : Header → ℕ
options_len hdr = u8 (header_len hdr + 256 - header_size_min)

module _ {W : Type 0} ⦃env : Env W⦄ where
  -- `RxHandler` behind data2header, for n bytes; `payload[hdrLen-HeaderSizeMin:]` panics past the end.
  unfoldable pub rx_result :
      ℕ → Result (Header × List ℕ) → ℕ → ℕ → Host W → Result (Host W × Option Error)
  unfolding find_local segment_of
  rx_result n panic src dst h = panic
  rx_result n (err e) src dst h = ok (h, some e)
  rx_result n (ok (hdr, payload)) src dst h = elim (find_local dst hdr.dst h.pcbs) [
    | none ↦ ok (h, some pcb_not_found)
    | some (before, (q, p), after) ↦
        let data_len = u32 (n + 4294967296 - header_len hdr) in
        if ltb (length payload) (options_len hdr)
        then panic
        else (let (m, e) =
              segment_arrives (segment_of hdr data_len) hdr.flag (drop (options_len hdr) payload)
                data_len (record { addr = src; port = hdr.src }) (record { pcb = p; io = h.io }) in
            ok (record h { pcbs = before ++ ((q, m.pcb) ∷ after); io = m.io }, e))
  ]

  unfoldable pub rx_handler : List ℕ → ℕ → ℕ → Host W → Result (Host W × Option Error)
  unfolding data2header rx_result
  rx_handler bytes src dst h = rx_result (length bytes) (data2header bytes src dst) src dst h
