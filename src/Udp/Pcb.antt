-- ===== src/Udp/Pcb.antt =====
-- pkg/udp/pcb.go and pkg/udp/protocol.go: the control blocks of UDP. A pointer is a number, and a
-- channel the list of what waits in it. Where the code blocks for ever the outcome is `blocked`.
use go_network.Base.{
  ℕ, zero, suc, ◌+◌, List, [], ◌∷◌, ◌++◌, length, ltb, ◌==◌, ◌&&◌, if◌then◌else◌, u16, Bool, true,
  false, Option, none, some,
}
use go_network.Errors.{
  Outcome, returns, blocked, Error, Result, ok, err, panic, pcb_not_found, local_already_used,
  no_port_to_assign, route_not_found, data_too_large,
}
use go_network.Udp.Endpoint.{Endpoint, same_endpoint}
use go_network.Ip.ProtoType.{proto_udp}
use go_network.Udp.Header.{Header, header_size, header2data, data2header}
use go_network.Ip.Routing.{addr_any, lookup_table}
use go_network.Ip.Protocol
use go_network.Ip.Protocol.{Ip, IpEnv}

pub record Buffer : Type 0 where
  pub foreign : Endpoint
  pub bytes : List ℕ

-- The field `state` is set once and never read.
pub record Pcb : Type 0 where
  pub ptr : ℕ
  pub local : Endpoint
  pub rx_queue : List Buffer

abbrev pub pcb_buf_size : ℕ
pcb_buf_size = 100

abbrev pub port_min : ℕ
port_min = 49152

abbrev pub is_at : ℕ → ℕ → Pcb → Bool
is_at address port p = p.local.addr == address && (p.local.port == port)

-- `pcbSelect`.
unfoldable pub pcb_select : ℕ → ℕ → List Pcb → Option Pcb
pcb_select address port [] = none
pcb_select address port (p ∷ ps) = elim (is_at address port p) [
  | true ↦ some p
  | false ↦ pcb_select address port ps
]

-- `Open`, with a pointer that was not given out.
unfoldable pub open_pcb : ℕ → List Pcb → List Pcb
open_pcb ptr pcbs =
    pcbs ++ (record { ptr = ptr; local = record { addr = addr_any; port = 0 }; rx_queue = [] } ∷ [])

-- `Close`: the list without the first block of the pointer.
unfoldable pub close_pcb : ℕ → List Pcb → List Pcb × Option Error
close_pcb ptr [] = ([], some pcb_not_found)
close_pcb ptr (p ∷ ps) =
    let (qs, e) = close_pcb ptr ps in
    elim (p.ptr == ptr) [ true ↦ (ps, none) | false ↦ (p ∷ qs, e) ]

unfoldable pub is_bound : Endpoint → List Pcb → Bool
is_bound local [] = false
is_bound local (p ∷ ps) = elim (same_endpoint p.local local) [
  | true ↦ true
  | false ↦ is_bound local ps
]

-- The assignment through the pointer.
unfoldable pub set_local : ℕ → Endpoint → List Pcb → List Pcb
set_local ptr local [] = []
set_local ptr local (p ∷ ps) =
    (elim (p.ptr == ptr) [ true ↦ record p { local = local } | false ↦ p ]) ∷ set_local ptr local ps

-- `Bind`.
unfoldable pub bind : ℕ → Endpoint → List Pcb → List Pcb × Option Error
unfolding is_bound set_local
bind ptr local pcbs = elim (is_bound local pcbs) [
  | true ↦ (pcbs, some local_already_used)
  | false ↦ (set_local ptr local pcbs, none)
]

-- The loop of `Send` over the ports from p on, a uint16 that is never above PortMax, on fuel.
unfoldable pub port_loop : ℕ → ℕ → ℕ → List Pcb → Option ℕ
unfolding pcb_select
port_loop zero address p pcbs = none
port_loop (suc fuel) address p pcbs = elim (pcb_select address p pcbs) [
  | some _ ↦ some p
  | none ↦ port_loop fuel address (u16 (p + 1)) pcbs
]

-- After 2^16 rounds the loop is where it was.
abbrev pub port_fuel : ℕ
port_fuel = 65536

-- The queue of a control block, after a send on its channel.
unfoldable pub push : ℕ → ℕ → Buffer → List Pcb → List Pcb
push address port b [] = []
push address port b (p ∷ ps) = elim (is_at address port p) [
  | true ↦ record p { rx_queue = p.rx_queue ++ (b ∷ []) } ∷ ps
  | false ↦ p ∷ push address port b ps
]

-- `RxHandler` with the result of data2header. A send on a full channel blocks, and the mutex is held.
unfoldable pub rx_result :
    Result (Header × List ℕ) → ℕ → ℕ → List Pcb → Outcome (List Pcb × Option Error)
unfolding pcb_select push
rx_result (err e) src dst pcbs = returns (pcbs, some e)
rx_result panic src dst pcbs = returns (pcbs, none)
rx_result (ok (hdr, payload)) src dst pcbs = elim (pcb_select dst hdr.dst pcbs) [
  | none ↦ returns (pcbs, some pcb_not_found)
  | some p ↦ elim (ltb (length p.rx_queue) pcb_buf_size) [
    | true ↦
        let b : Buffer = record {
          foreign = record { addr = src; port = hdr.src };
          bytes = payload;
        } in
        returns (push dst hdr.dst b pcbs, none)
    | false ↦ blocked
  ]
]

unfoldable pub rx_handler : List ℕ → ℕ → ℕ → List Pcb → Outcome (List Pcb × Option Error)
unfolding data2header rx_result
rx_handler bytes src dst pcbs = rx_result (data2header bytes src dst) src dst pcbs

-- A receive on the channel of a control block that has something: what it was, and the rest.
unfoldable pub pop : ℕ → List Pcb → List Pcb × Option Buffer
pop ptr [] = ([], none)
pop ptr (p ∷ ps) =
    let (qs, b) = pop ptr ps in
    elim (p.ptr == ptr) [
      | false ↦ (p ∷ qs, b)
      | true ↦ elim p.rx_queue [
        | [] ↦ (p ∷ ps, none)
        | b ∷ bs ↦ (record p { rx_queue = bs } ∷ ps, some b)
      ]
    ]

-- `Listen` with what the channel gives; the size is the length of the data.
unfoldable pub listen_result :
    Bool → List Pcb → List Pcb × Option Buffer → Outcome (List Pcb × List ℕ × Endpoint)
listen_result block pcbs (qs, some b) = returns (qs, b.bytes, b.foreign)
listen_result true pcbs (qs, none) = blocked
listen_result false pcbs (qs, none) = returns (pcbs, [], record { addr = 0; port = 0 })

unfoldable pub listen : ℕ → Bool → List Pcb → Outcome (List Pcb × List ℕ × Endpoint)
unfolding pop listen_result
listen ptr block pcbs = listen_result block pcbs (pop ptr pcbs)

-- `ip.PayloadSizeMax`.
abbrev pub payload_size_max : ℕ
payload_size_max = 65515

module _ {W : Type 0} ⦃env : IpEnv W⦄ where
  -- `TxHandler`.
  unfoldable pub tx_handler : Endpoint → Endpoint → List ℕ → Ip W → Ip W × Option Error
  unfolding header2data Protocol.tx_handler
  tx_handler src dst bytes m =
      let hdr : Header = record {
        src = src.port;
        dst = dst.port;
        len = u16 (header_size + length bytes);
        checksum = 0;
      } in
      if ltb payload_size_max (length bytes + header_size)
      then (m, some data_too_large)
      else Protocol.tx_handler proto_udp (header2data hdr bytes src.addr dst.addr).0 src.addr
          dst.addr m

  -- `Send` once the address is known; the port loop that never ends is `blocked`.
  unfoldable pub send_from :
      Endpoint → List ℕ → Endpoint → List Pcb → Ip W → Outcome (Ip W × Option Error)
  unfolding port_loop tx_handler
  send_from local bytes dst pcbs m = elim (local.port == 0) [
    | false ↦ returns (tx_handler local dst bytes m)
    | true ↦ elim (port_loop port_fuel local.addr port_min pcbs) [
      | none ↦ blocked
      | some p ↦ elim (p == 0) [
        | true ↦ returns (m, some no_port_to_assign)
        | false ↦ returns (tx_handler (record local { port = p }) dst bytes m)
      ]
    ]
  ]

  -- `Send` on a control block; its own fields are not changed.
  unfoldable pub send : Pcb → List ℕ → Endpoint → List Pcb → Ip W → Outcome (Ip W × Option Error)
  unfolding send_from lookup_table
  send pcb bytes dst pcbs m = elim (pcb.local.addr == addr_any) [
    | false ↦ send_from pcb.local bytes dst pcbs m
    | true ↦ elim (lookup_table dst.addr m.routes) [
      | none ↦ returns (m, some route_not_found)
      | some route ↦ send_from (record pcb.local { addr = route.iface.unicast }) bytes dst pcbs m
    ]
  ]
