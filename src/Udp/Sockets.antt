-- ===== src/Udp/Sockets.antt =====
-- Datagrams and ports in pkg/udp/pcb.go.
use go_network.Base.{
  Option, Option-cases, ℕ, zero, suc, ◌+◌, ◌≡◌, ◌≢◌, ◌<◌, ◌==◌, ==_iff, ltb, refl, sym, ap, ◌∙◌,
  arith, List, [], ◌∷◌, ◌++◌, length, All, u16, Bool, true, false, none, some, inl, inr,
}
use go_network.Errors.{Outcome, Error, returns, ok}
use go_network.Ip.Protocol.{Ip, IpEnv}
use go_network.Ip.Routing.{addr_any}
use go_network.Udp.Endpoint.{Endpoint}
use go_network.Udp.Header.{Header, header2data}
use go_network.Udp.Header.RoundTrip.{header2data_stored, IsHeader, data2header_sent}
use go_network.Udp.Pcb.{
  listen_result, Pcb, Buffer, is_at, pcb_select, push, pop, rx_result, rx_handler, listen,
  port_loop, pcb_buf_size, send, send_from, tx_handler,
}

port_loop_next :
    (fuel address p : ℕ) (pcbs : List Pcb)
    → pcb_select address p pcbs ≡ none
    → port_loop (suc fuel) address p pcbs ≡ port_loop fuel address (u16 (p + 1)) pcbs
unfolding port_loop
port_loop_next fuel address p pcbs h = rw (port_loop, h) refl

port_loop_here :
    (fuel address p : ℕ) (b : Pcb) (pcbs : List Pcb)
    → pcb_select address p pcbs ≡ some b
    → port_loop (suc fuel) address p pcbs ≡ some p
unfolding port_loop
port_loop_here fuel address p b pcbs h = rw (port_loop, h) refl

-- The port that `Send` takes for an unbound block is one that some block is bound to.
pub port_loop_used :
    (fuel address p q : ℕ) (pcbs : List Pcb)
    → port_loop fuel address p pcbs ≡ some q
    → pcb_select address q pcbs ≢ none
unfolding port_loop
port_loop_used zero address p q pcbs h = ground arith
port_loop_used (suc fuel) address p q pcbs h = elim (Option-cases (pcb_select address p pcbs)) [
  | inl free ↦ λ e.
      port_loop_used fuel address (u16 (p + 1)) q pcbs
        (sym (port_loop_next fuel address p pcbs free) ∙ h) e
  | inr (b, used) ↦ λ e.
      let z : p ≡ q = ground (arith, sym (port_loop_here fuel address p b pcbs used) ∙ h) in
      let f : pcb_select address p pcbs ≡ none = ap (λ k. pcb_select address k pcbs) z ∙ e in
      ground (arith, sym used ∙ f)
]

-- Where no block is bound at the address, the search goes on for ever: no number of rounds ends it.
pub port_loop_diverges :
    (fuel address p : ℕ) (pcbs : List Pcb)
    → ((q : ℕ) → pcb_select address q pcbs ≡ none)
    → port_loop fuel address p pcbs ≡ none
unfolding port_loop
port_loop_diverges zero address p pcbs h = refl
port_loop_diverges (suc fuel) address p pcbs h =
    rw (port_loop, h p) (port_loop_diverges fuel address (u16 (p + 1)) pcbs h)

-- Blocks that come first, none of which is at the address or has the pointer.
unfoldable pub Others : ℕ → ℕ → ℕ → List Pcb → Type 0
Others address port ptr before =
    All (λ q. (is_at address port q ≡ false) × ((q.ptr == ptr) ≡ false)) before

module _ (address port : ℕ) (p : Pcb) (after : List Pcb) (here : is_at address port p ≡ true) where
  select_there :
      (before : List Pcb)
      → Others address port p.ptr before
      → pcb_select address port (before ++ p ∷ after) ≡ some p
  unfolding pcb_select Others
  select_there [] o = rw (pcb_select, here) refl
  select_there (q ∷ before) o = rw (pcb_select, o.0.0) (select_there before o.1)

  push_there :
      (b : Buffer) (before : List Pcb)
      → Others address port p.ptr before
      → push address port b (before ++ p ∷ after)
        ≡ before ++ record p { rx_queue = p.rx_queue ++ (b ∷ []) } ∷ after
  unfolding push Others
  push_there b [] o = rw (push, here) refl
  push_there b (q ∷ before) o = rw (push, o.0.0) (ap (◌∷◌ q) (push_there b before o.1))

-- Blocks that come first, with other pointers.
abbrev pub Before : ℕ → List Pcb → Type 0
Before ptr = All (λ q. (q.ptr == ptr) ≡ false)

pub Others-Before :
    (address port ptr : ℕ) (before : List Pcb) → Others address port ptr before → Before ptr before
unfolding Others
Others-Before address port ptr [] o = tt
Others-Before address port ptr (q ∷ before) o = (o.0.1, Others-Before address port ptr before o.1)

pop_there :
    (p : Pcb) (b : Buffer) (bs : List Buffer) (before after : List Pcb)
    → Before p.ptr before
    → p.rx_queue ≡ b ∷ bs
    → pop p.ptr (before ++ p ∷ after) ≡ (before ++ record p { rx_queue = bs } ∷ after, some b)
unfolding pop
pop_there p b bs [] after o h =
    let e : (p.ptr == p.ptr) ≡ true = (==_iff p.ptr p.ptr).1 refl in rw (pop, e, h) refl
pop_there p b bs (q ∷ before) after o h = rw (pop, o.0, pop_there p b bs before after o.1 h) refl

-- Listen takes the first of a queue.
pub listen_some :
    (p : Pcb) (b : Buffer) (bs : List Buffer) (before after : List Pcb) (block : Bool)
    → Before p.ptr before
    → p.rx_queue ≡ b ∷ bs
    → listen p.ptr block (before ++ p ∷ after)
      ≡ returns (before ++ record p { rx_queue = bs } ∷ after, b.bytes, b.foreign)
unfolding listen
listen_some p b bs before after block o h =
    ap (listen_result block (before ++ p ∷ after)) (pop_there p b bs before after o h)
    ∙ (unfold listen_result in refl)

pop_nothing :
    (p : Pcb) (before after : List Pcb)
    → Before p.ptr before
    → pop p.ptr (before ++ record p { rx_queue = [] } ∷ after)
      ≡ (before ++ record p { rx_queue = [] } ∷ after, none)
unfolding pop
pop_nothing p [] after o =
    let e : (p.ptr == p.ptr) ≡ true = (==_iff p.ptr p.ptr).1 refl in rw (pop, e) refl
pop_nothing p (q ∷ before) after o = rw (pop, o.0, pop_nothing p before after o.1) refl

-- Listen that does not block, on a queue with nothing in it.
pub listen_none :
    (p : Pcb) (before after : List Pcb)
    → Before p.ptr before
    → listen p.ptr false (before ++ record p { rx_queue = [] } ∷ after)
      ≡ returns (before ++ record p { rx_queue = [] } ∷ after, [], record { addr = 0; port = 0 })
unfolding listen
listen_none p before after o =
    ap (listen_result false (before ++ record p { rx_queue = [] } ∷ after))
      (pop_nothing p before after o)
    ∙ (unfold listen_result in refl)

module _ {W : Type 0} ⦃env : IpEnv W⦄ (p : Pcb) (bytes : List ℕ) (dst : Endpoint) (pcbs : List Pcb)
    (m : Ip W) where
  send_from_bound :
      (p.local.port == 0) ≡ false
      → send_from p.local bytes dst pcbs m ≡ returns (tx_handler p.local dst bytes m)
  unfolding send_from
  send_from_bound port = rw (send_from, port) refl

  send_from_addr :
      (r : Outcome (Ip W × Option Error))
      → (p.local.addr == addr_any) ≡ false
      → send_from p.local bytes dst pcbs m ≡ r
      → send p bytes dst pcbs m ≡ r
  unfolding send
  send_from_addr r addr e = rw (send, addr) e

  -- Send on a block that is bound.
  pub send_bound :
      (p.local.addr == addr_any) ≡ false
      → (p.local.port == 0) ≡ false
      → send p bytes dst pcbs m ≡ returns (tx_handler p.local dst bytes m)
  send_bound addr port = send_from_addr _ addr (send_from_bound port)

module _ (hdr : Header) (address : ℕ) (p : Pcb) (before after : List Pcb)
    (here : is_at address hdr.dst p ≡ true) (o : Others address hdr.dst p.ptr before) where
  -- The blocks, with that queue in the one of the datagram.
  abbrev with_queue : List Buffer → List Pcb
  with_queue queue = before ++ record p { rx_queue = queue } ∷ after

  abbrev arrived : List ℕ → ℕ → Buffer
  arrived payload src = record { foreign = record { addr = src; port = hdr.src }; bytes = payload }

  received :
      (payload : List ℕ) (src c : ℕ)
      → length p.rx_queue < pcb_buf_size
      → rx_result (ok (record hdr { checksum = c }, payload)) src address (before ++ p ∷ after)
        ≡ returns (with_queue (p.rx_queue ++ (arrived payload src ∷ [])), none)
  unfolding rx_result
  received payload src c room =
      let r : ltb (length p.rx_queue) pcb_buf_size ≡ true = ground (arith, room) in
      rw (rx_result, select_there address hdr.dst p after here before o, r)
        (ap (λ (ps : List Pcb). returns (ps, none))
          (push_there address hdr.dst p after here _ before o))

  -- A datagram of header2data for the address and the port of a block whose queue is empty arrives
  -- there, and the next Listen on the block gets its payload with the sender's address and port, and
  -- leaves the blocks as they were.
  pub listen-rx_handler :
      (payload : List ℕ) (src : ℕ) (block : Bool)
      → IsHeader hdr payload
      → p.rx_queue ≡ []
      → (rx_handler (header2data hdr payload src address).0 src address (before ++ p ∷ after)
          ≡ returns (with_queue (arrived payload src ∷ []), none))
        × (listen p.ptr block (with_queue (arrived payload src ∷ []))
            ≡ returns (with_queue [], payload, record { addr = src; port = hdr.src }))
  unfolding rx_handler
  listen-rx_handler payload src block v empty =
      let room : length p.rx_queue < pcb_buf_size = rw empty (omega arith) in
      (
        ap (λ r. rx_result r src address (before ++ p ∷ after))
              (data2header_sent hdr payload src address v)
            ∙ ap (λ (h : Header). rx_result (ok (h, payload)) src address (before ++ p ∷ after))
                (header2data_stored hdr payload src address)
            ∙ received payload src (header2data hdr payload src address).1.checksum room
            ∙ ap (λ (q : List Buffer). returns (with_queue (q ++ (arrived payload src ∷ [])), none))
                empty,
        listen_some (record p { rx_queue = arrived payload src ∷ [] }) _ [] before after block
            (Others-Before address hdr.dst p.ptr before o) refl,
      )
