-- ===== src/Tcp/Reachable.antt =====
-- The life of a control block of pkg/tcp as a step relation: segments, user calls and rounds of the
-- timer, in any order.
use go_network.Base.{ℕ, List, Bool, IsU32}
use go_network.Udp.Endpoint.{Endpoint}
use go_network.Tcp.Pcb.{Machine, Env, Chan, Io, new_pcb}
use go_network.Tcp.Segment.{Segment}
use go_network.Tcp.Arrives.{segment_arrives}
use go_network.Tcp.Calls.{open_call, send, receive, close, abort}
use go_network.Tcp.Timer.{tick_pcb}
use go_network.Tcp.Invariant.{IsSound}
use go_network.Tcp.Invariant.Arrival.{IsSegment, segment_arrives-IsSound}
use go_network.Tcp.Invariant.Calls.{
  new_pcb-IsSound, open_call-IsSound, send-IsSound, receive-IsSound, close-IsSound, abort-IsSound,
  tick_pcb-IsSound,
}

module _ {W : Type 0} ⦃env : Env W⦄ where
  pub data Step (m : Machine W) : Machine W → Type 0 where
    arrival :
        (seg : Segment) (flag : ℕ) (bytes : List ℕ) (len : ℕ) (foreign : Endpoint)
        → IsSegment seg
        → Step m (segment_arrives seg flag bytes len foreign m).0
    opening :
        (ch : Chan) (foreign : Endpoint) (active : Bool) (timeout : ℕ)
        → Step m (open_call ch foreign active timeout m)
    sending : (ch : Chan) (bytes : List ℕ) → Step m (send ch bytes m)
    receiving : (ch : Chan) (room : ℕ) → Step m (receive ch room m)
    ending : (ch : Chan) → Step m (close ch m)
    aborting : Step m (abort m).0
    ticking : Step m (tick_pcb m)
    -- Other control blocks use the world, the clock and the round trip estimate in between.
    elsewhere : (io : Io W) → Step m (record m { io = io })

  -- What becomes of the control block that `Newpcb` makes.
  pub data Reachable (local : Endpoint) : Machine W → Type 0 where
    made : (io : Io W) → Reachable local (record { pcb = new_pcb local; io = io })
    after : {m n : Machine W} → Reachable local m → Step m n → Reachable local n

  module _ (random : (w : W) → IsU32 (env.rand_uint32 w).1) where
    Step-IsSound : {m n : Machine W} → Step m n → IsSound m.pcb → IsSound n.pcb
    Step-IsSound {m} (arrival seg flag bytes len foreign h) s =
        segment_arrives-IsSound random seg flag bytes len foreign m h s
    Step-IsSound {m} (opening ch foreign active timeout) s =
        open_call-IsSound random ch foreign active timeout m s
    Step-IsSound {m} (sending ch bytes) s = send-IsSound ch bytes m s
    Step-IsSound {m} (receiving ch room) s = receive-IsSound ch room m s
    Step-IsSound {m} (ending ch) s = close-IsSound ch m s
    Step-IsSound {m} aborting s = abort-IsSound m s
    Step-IsSound {m} ticking s = tick_pcb-IsSound m s
    Step-IsSound (elsewhere io) s = s

    -- After any sequence of segments, user calls and timer rounds, where rand.Uint32 returns 32 bits, the
    -- sequence numbers, windows, urgent pointers, the MSS and the buffer length of a control block are in
    -- range; no entry of its retransmission queue has been counted as sent again, and each entry of an
    -- OPEN or a CLOSE has a channel to answer on.
    pub Reachable-IsSound : {local : Endpoint} {m : Machine W} → Reachable local m → IsSound m.pcb
    Reachable-IsSound {local} (made io) = new_pcb-IsSound local
    Reachable-IsSound (after r st) = Step-IsSound st (Reachable-IsSound r)
