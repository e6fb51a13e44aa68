-- ===== src/Example/UdpEcho/Answers.antt =====
-- What the echo server of example/udp/main.go does with the datagrams that wait, over pkg/udp and pkg/ip.
use go_network.Base.{
  zero, suc, suc, inr, inl, replicate, Bool-cases, ==_iff, ℕ, ◌+◌, ◌≡◌, refl, ap, ◌∙◌, arith, List,
  [], ◌∷◌, ◌++◌, length, ltb, ◌==◌, true, false, some,
}
use go_network.Errors.{returns}
use go_network.Ip.Protocol.{Ip, IpEnv}
use go_network.Ip.Routing.{addr_any}
use go_network.Udp.Endpoint.{Endpoint}
use go_network.Udp.Pcb.{Pcb, Buffer, tx_handler}
use go_network.Udp.Sockets.{Before, listen_some, listen_none, send_bound}
use go_network.Example.UdpEcho.{block_at, reply_on, echo, echo_round, echo_loop, step, round}

block_there :
    (p : Pcb) (before after : List Pcb)
    → Before p.ptr before
    → block_at p.ptr (before ++ p ∷ after) ≡ some p
unfolding block_at
block_there p [] after o = rw (block_at, (==_iff p.ptr p.ptr).1 refl) refl
block_there p (q ∷ before) after o = rw (block_at, o.0) (block_there p before after o.1)

-- The blocks, with that queue in the one of the server.
abbrev pub waiting : Pcb → List Pcb → List Pcb → List Buffer → List Pcb
waiting p before after queue = before ++ record p { rx_queue = queue } ∷ after

module _ {W : Type 0} ⦃env : IpEnv W⦄ where
  -- The datagram is given to TxHandler of pkg/udp, back to where it came from, unless it is empty. The
  -- error of TxHandler, with which nothing is sent, is dropped as in the code.
  unfoldable pub try_answer : Endpoint → Buffer → Ip W → Ip W
  unfolding tx_handler
  try_answer local b m = elim (ltb 0 (length b.bytes)) [
    | true ↦ (tx_handler local b.foreign b.bytes m).0
    | false ↦ m
  ]

  unfoldable pub try_all : Endpoint → List Buffer → Ip W → Ip W
  unfolding try_answer
  try_all local [] m = m
  try_all local (b ∷ bs) m = try_all local bs (try_answer local b m)

  reply_on_bound :
      (p : Pcb) (bytes : List ℕ) (dst : Endpoint) (pcbs : List Pcb) (m : Ip W)
      → (p.local.addr == addr_any) ≡ false
      → (p.local.port == 0) ≡ false
      → reply_on (some p) bytes dst pcbs m ≡ returns (pcbs, (tx_handler p.local dst bytes m).0)
  unfolding reply_on
  reply_on_bound p bytes dst pcbs m addr port =
      rw (reply_on, send_bound p bytes dst pcbs m addr port) refl

  module _ (p : Pcb) (before after : List Pcb) (o : Before p.ptr before)
      (addr : (p.local.addr == addr_any) ≡ false) (port : (p.local.port == 0) ≡ false) where
    echo_some :
        (b : Buffer) (m : Ip W)
        → ltb 0 (length b.bytes) ≡ true
        → echo p.ptr (before ++ p ∷ after, b.bytes, b.foreign) m
          ≡ returns (before ++ p ∷ after, try_answer p.local b m)
    unfolding echo try_answer
    echo_some b m some_bytes =
        rw (echo, try_answer, some_bytes)
          (ap (λ soc. reply_on soc b.bytes b.foreign (before ++ p ∷ after) m)
              (block_there p before after o)
            ∙ reply_on_bound p b.bytes b.foreign (before ++ p ∷ after) m addr port)

    echo_none :
        (b : Buffer) (m : Ip W)
        → ltb 0 (length b.bytes) ≡ false
        → echo p.ptr (before ++ p ∷ after, b.bytes, b.foreign) m
          ≡ returns (before ++ p ∷ after, try_answer p.local b m)
    unfolding echo try_answer
    echo_none b m no_bytes = rw (echo, try_answer, no_bytes) refl

    echoes_back :
        (b : Buffer) (m : Ip W)
        → echo p.ptr (before ++ p ∷ after, b.bytes, b.foreign) m
          ≡ returns (before ++ p ∷ after, try_answer p.local b m)
    echoes_back b m = elim (Bool-cases (ltb 0 (length b.bytes))) [
      | inl full ↦ echo_some b m full
      | inr bare ↦ echo_none b m bare
    ]

  module _ (p : Pcb) (before after : List Pcb) (o : Before p.ptr before)
      (addr : (p.local.addr == addr_any) ≡ false) (port : (p.local.port == 0) ≡ false) where
    pub echo_round-try_answer :
        (b : Buffer) (bs : List Buffer) (m : Ip W)
        → echo_round p.ptr (waiting p before after (b ∷ bs)) m
          ≡ returns (waiting p before after bs, try_answer p.local b m)
    unfolding echo_round
    echo_round-try_answer b bs m =
        rw (echo_round, listen_some (record p { rx_queue = b ∷ bs }) b bs before after false o refl)
          (echoes_back (record p { rx_queue = bs }) before after o addr port b m)

    idle_round :
        (m : Ip W)
        → echo_round p.ptr (waiting p before after []) m ≡ returns (waiting p before after [], m)
    unfolding echo_round echo
    idle_round m = rw (echo_round, listen_none p before after o) refl

    idle_loop :
        (n : ℕ) (m : Ip W)
        → echo_loop p.ptr (replicate n round) (waiting p before after []) m
          ≡ returns (waiting p before after [], m)
    unfolding echo_loop step
    idle_loop zero m = refl
    idle_loop (suc n) m = rw (echo_loop, idle_round m) (idle_loop n m)

    next_round :
        (b : Buffer) (bs : List Buffer) (n : ℕ) (m : Ip W)
        → echo_loop p.ptr (replicate (suc n) round) (waiting p before after (b ∷ bs)) m
          ≡ echo_loop p.ptr (replicate n round) (waiting p before after bs) (try_answer p.local b m)
    unfolding echo_loop step
    next_round b bs n m = rw (echo_loop, echo_round-try_answer b bs m) refl

    -- As many rounds as datagrams wait at a block that is bound to an address and a port, or more, take all
    -- of them from the queue, in order, and pass each that is not empty once to TxHandler of pkg/udp, with
    -- its sender as the destination, whether TxHandler can send it or not; afterwards nothing waits. No
    -- earlier block has the number of this one.
    pub echo_loop-try_all :
        (bs : List Buffer) (n : ℕ) (m : Ip W)
        → echo_loop p.ptr (replicate (length bs + n) round) (waiting p before after bs) m
          ≡ returns (waiting p before after [], try_all p.local bs m)
    unfolding echo_loop step try_all
    echo_loop-try_all [] n m = let z : 0 + n ≡ n = omega arith in rw z (idle_loop n m)
    echo_loop-try_all (b ∷ bs) n m =
        let z : length (b ∷ bs) + n ≡ suc (length bs + n) = omega arith in
        ap (λ k. echo_loop p.ptr (replicate k round) (waiting p before after (b ∷ bs)) m) z
        ∙ next_round b bs (length bs + n) m
        ∙ echo_loop-try_all bs n (try_answer p.local b m)
